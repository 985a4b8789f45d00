-- ===== src/Tests/Namespaces.antt =====
-- Runs of the names of the generated code.
use qtgrpc.Prelude.{◌≡◌, refl, ◌⊎◌, some}
use qtgrpc.Prelude.Ascii.{ascii, same_bytes, starts_with}
use qtgrpc.Generator.Text.{replace, replace_loop, cut}
use qtgrpc.Generator.Namespace.{
  get_full_namespace, before_last_period, own_namespace, joined_by, get_scope_namespace, qualified,
}
use qtgrpc.Generator.Namespace.Scope.{qualified-get_scope_namespace}

full_namespace :
    get_full_namespace (ascii "my") (ascii "test.protobuf.Type") (ascii "::")
    ≡ some (ascii "my::test::protobuf")
unfolding get_full_namespace before_last_period own_namespace joined_by replace replace_loop cut
    same_bytes starts_with
full_namespace = refl

qualified-get_scope_namespace_example :
    (qualified (get_scope_namespace (ascii "test::protobuf") (ascii "test")) (ascii "Type")
      ≡ qualified (ascii "test::protobuf") (ascii "Type"))
    ⊎ (qualified
          (ascii "test")
          (qualified (get_scope_namespace (ascii "test::protobuf") (ascii "test")) (ascii "Type"))
        ≡ qualified (ascii "test::protobuf") (ascii "Type"))
qualified-get_scope_namespace_example =
    qualified-get_scope_namespace (ascii "test::protobuf") (ascii "test") (ascii "Type") (λ e. cc)

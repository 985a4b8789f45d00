-- ===== src/Grpc/Channel/Uri.antt =====
-- The sanitized URI keeps the kind of socket that the URI asks for.
use qtgrpc.Prelude.{
  ℕ, if◌then◌else◌, ◌≡◌, refl, sym, ◌∙◌, Bool, true, false, Option, none, some, ◌||◌, Bool-cases,
  inl, inr, arith,
}
use qtgrpc.Prelude.Ascii.{same_bytes, same_bytes-eq}
use qtgrpc.Grpc.Handler.{Bytes}
use qtgrpc.Grpc.Channel.{
  Urls, sanitize_host_uri, SocketType, tcp, tls, local, local_abstract, construct_socket_type,
  check_scheme, default_port, http_scheme, https_scheme, unix_scheme, unix_abstract_scheme,
}

-- The setters of QUrl set what they name and nothing else. A scheme is set as given where it is one
-- of the two that the channel sets.
pub record IsUrls (q : Urls) : Type 0 where
  pub http_set : (u : q.Url) → q.scheme (q.set_scheme u http_scheme) ≡ http_scheme
  pub https_set : (u : q.Url) → q.scheme (q.set_scheme u https_scheme) ≡ https_scheme
  pub scheme_kept : (u : q.Url) (n : ℕ) → q.scheme (q.set_port u n) ≡ q.scheme u

module _ (q : Urls) (laws : IsUrls q) where
  scheme-default_port :
      (p : Option ℕ) (n : ℕ) (u : q.Url) → q.scheme (default_port q p n u) ≡ q.scheme u
  unfolding default_port
  scheme-default_port none n u = laws.scheme_kept u n
  scheme-default_port (some p) n u = refl

  scheme-check_http : (u : q.Url) → q.scheme (check_scheme q http_scheme u) ≡ http_scheme
  unfolding check_scheme
  scheme-check_http u = elim (Bool-cases (same_bytes (q.scheme u) http_scheme)) [
    | inl e ↦ rw e (same_bytes-eq (q.scheme u) http_scheme e)
    | inr e ↦ rw e (laws.http_set u)
  ]

  scheme-check_https : (u : q.Url) → q.scheme (check_scheme q https_scheme u) ≡ https_scheme
  unfolding check_scheme
  scheme-check_https u = elim (Bool-cases (same_bytes (q.scheme u) https_scheme)) [
    | inl e ↦ rw e (same_bytes-eq (q.scheme u) https_scheme e)
    | inr e ↦ rw e (laws.https_set u)
  ]

  neither :
      (a b : Bool) (z : SocketType)
      → (a || b) ≡ false
      → (if a then local else if b then local_abstract else z) ≡ z
  neither false false z e = refl
  neither true b z e = ground arith
  neither false true z e = ground arith

  or_false : (a b : Bool) → (a || b) ≡ false → b ≡ false
  or_false a b e = ground arith

  https_socket :
      (s : Bytes) (b : Bool)
      → s ≡ https_scheme
      → (if same_bytes s unix_scheme
          then local
          else if same_bytes s unix_abstract_scheme
          then local_abstract
          else if same_bytes s https_scheme || b
          then tls
          else tcp)
        ≡ tls
  unfolding same_bytes
  https_socket s b e = rw e refl

  http_socket :
      (s : Bytes) (b : Bool)
      → s ≡ http_scheme
      → b ≡ false
      → (if same_bytes s unix_scheme
          then local
          else if same_bytes s unix_abstract_scheme
          then local_abstract
          else if same_bytes s https_scheme || b
          then tls
          else tcp)
        ≡ tcp
  unfolding same_bytes
  http_socket s b e h = rw (e, h) refl

  -- A channel made from the sanitized URI of another, with the same TLS configuration, selects the
  -- same kind of socket, given that the setters of QUrl set what they name and nothing else.
  construct_socket_type-sanitize_host_uri :
      (has_ssl : Bool) (raw : q.Url)
      → construct_socket_type q has_ssl (sanitize_host_uri q has_ssl raw)
        ≡ construct_socket_type q has_ssl raw
  unfolding construct_socket_type sanitize_host_uri
  construct_socket_type-sanitize_host_uri has_ssl raw =
      elim (Bool-cases
        (same_bytes (q.scheme raw) unix_scheme || same_bytes (q.scheme raw) unix_abstract_scheme)) [
          | inl e ↦ rw e refl
          | inr e ↦ elim (Bool-cases (same_bytes (q.scheme raw) https_scheme || has_ssl)) [
            | inl t ↦
                let u = check_scheme q https_scheme raw in
                let s = scheme-default_port (q.port raw) 443 u ∙ scheme-check_https raw in
                rw (e, t)
                  (https_socket (q.scheme (default_port q (q.port raw) 443 u)) has_ssl s
                    ∙ sym (
                        neither (same_bytes (q.scheme raw) unix_scheme)
                          (same_bytes (q.scheme raw) unix_abstract_scheme) tls e))
            | inr t ↦
                let u = check_scheme q http_scheme raw in
                let s = scheme-default_port (q.port raw) 80 u ∙ scheme-check_http raw in
                rw (e, t)
                  (http_socket (q.scheme (default_port q (q.port raw) 80 u)) has_ssl s
                      (or_false (same_bytes (q.scheme raw) https_scheme) has_ssl t)
                    ∙ sym (
                        neither (same_bytes (q.scheme raw) unix_scheme)
                          (same_bytes (q.scheme raw) unix_abstract_scheme) tcp e))
          ]
        ]

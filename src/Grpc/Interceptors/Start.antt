-- ===== src/Grpc/Interceptors/Start.antt =====
-- Interceptors that drop an RPC before it starts.
use qtgrpc.Prelude.{◌≡◌, refl, List, some, [], ◌∷◌, ◌++◌, map}
use qtgrpc.Grpc.Interceptors.{
  start, Interceptor, Chain, empty_chain, replace_by, set, Engine, add_interceptors,
  set_interceptor_chain, Continuation, proceed, drop, unless_dropped, start_each, on_start,
}
use qtgrpc.Grpc.Interceptors.Order.{offered, all_set-map, handlers-add_all}

module _ (Interface : Type 0) {A : Type 0} (method : Interface → A → Continuation × A) where
  unless_dropped-drop :
      (r : Continuation × A) (first second : A → Continuation × A) (b c : A)
      → ((a : A) → first a ≡ (proceed, b) → second a ≡ (drop, c))
      → unless_dropped Interface method r first ≡ (proceed, b)
      → unless_dropped Interface method r second ≡ (drop, c)
  unfolding unless_dropped
  unless_dropped-drop (proceed, a) first second b c next p = next a p
  unless_dropped-drop (drop, a) first second b c next p = cc

  starts-drop :
      (before : List Interface) (i : Interface) (after : List Interface) (a b c : A)
      → start_each Interface method before a ≡ (proceed, b)
      → method i b ≡ (drop, c)
      → start_each Interface method (before ++ (i ∷ after)) a ≡ (drop, c)
  unfolding start_each
  starts-drop [] i after a b c p q =
      let here : a ≡ b = cc in rw (here, q) (unfold unless_dropped in refl)
  starts-drop (j ∷ before) i after a b c p q =
      unless_dropped-drop (method j a) (start_each Interface method before)
        (start_each Interface method (before ++ (i ∷ after))) b c
        (λ a' p'. starts-drop before i after a' b c p' q) p

  -- An interceptor that drops an RPC decides, where those set before it let the RPC proceed: the
  -- ones after it are not called, and the RPC stays as it left it.
  on_start-set_interceptor_chain :
      (is : List (Interceptor Interface)) (chain : Chain Interface) (engine : Engine Interface)
      (before : List Interface) (i : Interface) (after : List Interface) (a b c : A)
      → offered Interface start is ≡ before ++ (i ∷ after)
      → start_each Interface method before a ≡ (proceed, b)
      → method i b ≡ (drop, c)
      → on_start Interface method
          (set_interceptor_chain Interface (set Interface (map some is) chain).1 engine)
          a
        ≡ (drop, c)
  unfolding on_start set_interceptor_chain set replace_by add_interceptors
  on_start-set_interceptor_chain is chain engine before i after a b c o p q =
      rw (all_set-map Interface is, handlers-add_all Interface is start (empty_chain Interface), o)
        (starts-drop before i after a b c p q)

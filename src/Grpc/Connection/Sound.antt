-- ===== src/Grpc/Connection/Sound.antt =====
-- When a channel is sound, and that what it does keeps it so.
use qtgrpc.Prelude.{
  ℕ, ◌≡◌, refl, ◌||◌, if◌then◌else◌, Bool, true, false, Option, none, some, List, [], ◌∷◌, ◌++◌,
  All,
}
use qtgrpc.Grpc.Handler.{Http2Stream}
use qtgrpc.Grpc.Connection.{
  ConnectionState, connecting, connected, settings_received, error, Http2Connection, Child,
  finish_child, run_deferred, send_child, for_each_non_expired, drop_streams, Channel, attach,
  create_http2_stream, create_streams, accept_settings, settings_frame_received, reconnect_from,
  add_child, started, enlist,
}
use qtgrpc.Grpc.Connection.Served.{
  has_stream, is_waiting, IsGood, and_false, finish_child-IsGood, run_deferred-IsGood,
  send_child-IsGood,
}

module _ (api : Http2Stream) (http2 : Http2Connection api) where
  open http2 use {Connection}

  unfoldable pub run_all : List (Child api) → List (Child api)
  run_all [] = []
  run_all (child ∷ rest) = run_deferred api child ∷ run_all rest

  abbrev pub has_connection : Option Connection → Bool
  has_connection none = false
  has_connection (some c) = true

  abbrev pub is_up : ConnectionState → Bool
  is_up connected = true
  is_up settings_received = true
  is_up _ = false

  abbrev pub is_connecting : ConnectionState → Bool
  is_connecting connecting = true
  is_connecting _ = false

  abbrev pub IsServed : ConnectionState → List (Child api) → Type 0
  IsServed state = All (IsGood api state)

  -- The connection never refuses a stream.
  abbrev pub IsAccepting : Type 0
  IsAccepting = (c : Connection) → has_stream api (http2.create_stream c).0 ≡ true

  pub record IsSound (ch : Channel api http2) : Type 0 where
    pub same : has_connection ch.connection ≡ is_up ch.state
    pub served : IsAccepting → IsServed ch.state ch.children
    pub trying : is_connecting ch.state ≡ true → (ch.reconnect_timer_active || ch.attempting) ≡ true

  append-IsServed :
      (state : ConnectionState) (children : List (Child api)) (child : Child api)
      → IsServed state children
      → IsGood api state child
      → IsServed state (children ++ (child ∷ []))
  append-IsServed state [] child s w = (w, tt)
  append-IsServed state (first ∷ rest) child (v, s) w = (v, append-IsServed state rest child s w)

  if-IsServed :
      (b : Bool) (state : ConnectionState) (child : Child api) (rest : List (Child api))
      → (b ≡ true → IsGood api state child)
      → IsServed state rest
      → IsServed state (if b then child ∷ rest else rest)
  if-IsServed true state child rest w s = (w refl, s)
  if-IsServed false state child rest w s = s

  for_each-IsServed :
      (state state' : ConnectionState) (proj : Child api → Child api) (children : List (Child api))
      → ((child : Child api)
          → child.rpc.has_context ≡ true
          → IsGood api state child
          → IsGood api state' (proj child))
      → IsServed state children
      → IsServed state' (for_each_non_expired api proj children)
  unfolding for_each_non_expired
  for_each-IsServed state state' proj [] f s = tt
  for_each-IsServed state state' proj (child ∷ rest) f (w, s) =
      if-IsServed child.rpc.has_context state' (proj child) _ (λ c. f child c w)
        (for_each-IsServed state state' proj rest f s)

  pub drop_streams-IsServed :
      (children : List (Child api))
      → IsServed error children
      → IsServed error (drop_streams api children)
  unfolding drop_streams is_waiting
  drop_streams-IsServed [] s = tt
  drop_streams-IsServed (child ∷ rest) (w, s) = ((refl, w.1), drop_streams-IsServed rest s)

  -- In the state in which nobody waits.
  pub finished-IsServed :
      (state : ConnectionState) (inside : Bool) (children : List (Child api))
      → IsServed state children
      → IsServed error (
          for_each_non_expired api
            (λ (child : Child api). if inside then child else finish_child api child)
            children)
  unfolding is_waiting
  finished-IsServed state true children s =
      for_each-IsServed state error _ children (λ child c w. (refl, w.1)) s
  finished-IsServed state false children s =
      for_each-IsServed state error _ children
        (λ child c w. finish_child-IsGood api error child w.1) s

  pub connecting-IsServed :
      (state : ConnectionState) (children : List (Child api))
      → IsServed state children
      → IsServed connecting children
  unfolding is_waiting
  connecting-IsServed state [] s = tt
  connecting-IsServed state (child ∷ rest) (w, s) = ((refl, w.1), connecting-IsServed state rest s)

  attach-IsGood :
      (o : Option api.Stream) (child : Child api)
      → has_stream api o ≡ true
      → child.null_dereferenced ≡ false
      → IsGood api connected (attach api http2 o child).1
  unfolding attach has_stream is_waiting
  attach-IsGood none child a n = cc
  attach-IsGood (some s) child a n = (and_false api _, n)

  pub create_streams-IsServed :
      (state : ConnectionState) (c : Connection) (children : List (Child api))
      → IsAccepting
      → IsServed state children
      → IsServed connected (create_streams api http2 c children).0
  unfolding create_streams create_http2_stream
  create_streams-IsServed state c [] a s = tt
  create_streams-IsServed state c (child ∷ rest) a (w, s) =
      let (o, c') = http2.create_stream c in
      if-IsServed child.rpc.has_context connected (attach api http2 o child).1 _
        (λ h. attach-IsGood o child (a c) w.1)
        (create_streams-IsServed state (if child.rpc.has_context then c' else c) rest a s)

  pub run_all-IsServed :
      (state : ConnectionState) (children : List (Child api))
      → IsServed state children
      → IsServed state (run_all children)
  unfolding run_all
  run_all-IsServed state [] s = tt
  run_all-IsServed state (child ∷ rest) (w, s) =
      (run_deferred-IsGood api state child w, run_all-IsServed state rest s)

  -- A channel in a given state.
  abbrev at : ConnectionState → Option Connection → Channel api http2 → Channel api http2
  at state c ch = record ch { state = state; connection = c }

  pub settings-IsSound :
      (state : ConnectionState) (c : Option Connection) (ch : Channel api http2)
      → IsSound (at state c ch)
      → IsSound (settings_frame_received api http2 (at state c ch))
  unfolding settings_frame_received accept_settings
  settings-IsSound state none ch s = s
  settings-IsSound settings_received (some c) ch s = s
  settings-IsSound connected (some c) ch s = record {
    same = refl;
    served = λ a.
        for_each-IsServed connected settings_received (send_child api) ch.children
          (send_child-IsGood api) (s.served a);
    trying = λ e. cc;
  }
  settings-IsSound connecting (some c) ch s = let e : true ≡ false = s.same in cc
  settings-IsSound error (some c) ch s = let e : true ≡ false = s.same in cc

  module _ (grown : ℕ → ℕ) where
    enlisted :
        (state : ConnectionState) (o : Option api.Stream) (child : Child api) (c : Connection)
        (ch : Channel api http2)
        → (IsAccepting → has_stream api o ≡ true)
        → child.rpc.has_context ≡ true
        → child.null_dereferenced ≡ false
        → IsSound (at state (some c) ch)
        → let (success, child') = attach api http2 o child in
          IsSound (
            if success
            then reconnect_from api http2 grown state
                (add_child api http2 (started api http2 state child') (at state (some c) ch))
            else add_child api http2 child' (at state (some c) ch))
    unfolding attach reconnect_from add_child started has_stream
    enlisted connected none child c ch r h n s = record {
      same = refl;
      served = λ a. let e = r a in cc;
      trying = λ e. cc;
    }
    enlisted settings_received none child c ch r h n s = record {
      same = refl;
      served = λ a. let e = r a in cc;
      trying = λ e. cc;
    }
    enlisted connected (some st) child c ch r h n s = record {
      same = refl;
      served = λ a.
          append-IsServed connected ch.children _ (s.served a)
            (attach-IsGood (some st) child (r a) n);
      trying = λ e. cc;
    }
    enlisted settings_received (some st) child c ch r h n s = record {
      same = refl;
      served = λ a. append-IsServed settings_received ch.children _ (s.served a) (
          send_child-IsGood api (attach api http2 (some st) child).1 h
            (attach-IsGood (some st) child (r a) n));
      trying = λ e. cc;
    }
    enlisted connecting o child c ch r h n s = let e : true ≡ false = s.same in cc
    enlisted error o child c ch r h n s = let e : true ≡ false = s.same in cc

    pub enlist-IsSound :
        (state : ConnectionState) (c : Option Connection) (child : Child api)
        (ch : Channel api http2)
        → child.rpc.has_context ≡ true
        → child.null_dereferenced ≡ false
        → IsSound (at state c ch)
        → IsSound (enlist api http2 grown c child (at state c ch))
    unfolding enlist create_http2_stream
    enlist-IsSound connecting none child ch h n s =
        unfold started reconnect_from add_child is_waiting in
        record {
          same = refl;
          served = λ a. append-IsServed connecting ch.children child (s.served a) (refl, n);
          trying = s.trying;
        }
    enlist-IsSound error none child ch h n s =
        unfold started reconnect_from add_child is_waiting in
        record {
          same = refl;
          served = λ a.
              append-IsServed connecting ch.children child
                (connecting-IsServed error ch.children (s.served a)) (refl, n);
          trying = λ e. refl;
        }
    enlist-IsSound connected none child ch h n s = let e : false ≡ true = s.same in cc
    enlist-IsSound settings_received none child ch h n s = let e : false ≡ true = s.same in cc
    enlist-IsSound state (some c) child ch h n s =
        let (o, c') = http2.create_stream c in
        enlisted state o child c' ch (λ a. a c) h n
          (record { same = s.same; served = s.served; trying = s.trying })

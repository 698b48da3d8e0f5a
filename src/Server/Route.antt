-- ===== src/Server/Route.antt =====
-- The ways that an event of a tick (tick.go) can take, for any relation between servers.
use godotnet.Base.{
  List, [], ◌∷◌, ◌+◌, ◌%◌, ◌^◌, ℕ, ◌≡◌, refl, String, Bool, true, false, not, ◌||◌, Option, none,
  some, if◌then◌else◌, Option-cases, inl, inr, nat_eq, string_eq,
}
use godotnet.Base.Map.{get}
use godotnet.Server.Handshake.{handle_login, handle_udp_handshake}
use godotnet.Control.{
  Login, UdpHandshake, ClientFrame, ClientBody, login, udp_handshake, pong, game_payload,
  rpc_request,
}
use godotnet.Events.{EventKind, event_message, event_connect, event_disconnect, drain, Event}
use godotnet.Session.{SessionAuthState, session_pre_login}
use godotnet.Server.Cleanup.{cleanup_session}
use godotnet.Errors.{Error}
use godotnet.Env.{Env}
use godotnet.Server.{Server}
use godotnet.Server.TickCtx.{TickCtx, is_ready}
use godotnet.Server.Tick.{
  handle_event, handle_events, run_tick, by_kind, is_pre_login, resolve_addr, resolve, is_stale,
  malformed, route_session, handshake_at, route, dispatch_resolved, dispatch_message, connect_event,
}
use godotnet.Server.Quiet.{Quiet, Quiet-refl, modify-Quiet}
use godotnet.Server.Quiet.Handlers.{
  on_connect-Quiet, user_message-Quiet, rpc-Quiet, pong-Quiet, malformed-Quiet,
}
use godotnet.Base.Int.{ℤ}
use godotnet.Server.Ping.{run_ping_tick}
use godotnet.Server.Quiet.Handlers.{ping_tick-Quiet, on_tick-Quiet}

module _ ⦃env : Env⦄ where
  open env use {unmarshal_frame}

  -- A relation that holds across whatever is quiet, a login, a pairing, and one after the other.
  pub record IsAcross (R : Server → Server → Type 0) : Type 0 where
    pub quiet : (s t : Server) → Quiet s t → R s t
    pub both : (s t u : Server) → R s t → R t u → R s u
    pub logs_in :
        (r : ℕ) (l : Login) (s : Server)
        → (s.heap r).auth_state ≡ session_pre_login
        → R s (handle_login r l s)
    pub pairs :
        (addr : String) (hs : UdpHandshake) (s : Server) → R s (handle_udp_handshake addr hs s)

  resolve_addr-Quiet :
      (tc : TickCtx) (addr : Option String) (s : Server) → Quiet s (resolve_addr tc addr s).1
  unfolding resolve_addr
  resolve_addr-Quiet tc none s = Quiet-refl s
  resolve_addr-Quiet tc (some addr) s = elim (Option-cases (get s.udp_sessions addr)) [
    | inl e ↦ rw (e, resolve_addr) (Quiet-refl s)
    | inr (r, e) ↦
        rw (e, resolve_addr)
          (modify-Quiet r (λ x. record x { last_seen_unix_nano = tc.now }) s (λ x. refl) (λ x. refl)
            (λ d h. h))
  ]

  pub resolve-Quiet : (tc : TickCtx) (e : Event) (s : Server) → Quiet s (resolve tc e s).1
  unfolding resolve
  resolve-Quiet tc e s = by_udp e.is_udp
    where
      by_udp : (b : Bool) → Quiet s (if b then resolve_addr tc e.udp_addr s else (e.sess, s)).1
      by_udp false = Quiet-refl s
      by_udp true = resolve_addr-Quiet tc e.udp_addr s

  pre_login :
      (is_udp : Bool) (a : SessionAuthState)
      → (is_udp || not (is_pre_login a)) ≡ false
      → a ≡ session_pre_login
  pre_login false session_pre_login h = refl
  pre_login _ _ h = cc

  module _ (R : Server → Server → Type 0) (across : IsAcross R) where
    stays : (s : Server) → R s s
    stays s = across.quiet s s (Quiet-refl s)

    if-R : (b : Bool) {s t : Server} → (b ≡ false → R s t) → R s (if b then s else t)
    if-R true {s} w = stays s
    if-R false w = w refl

    route_session-R :
        (tc : TickCtx) (is_udp : Bool) (body : ClientBody) (r : ℕ) (s : Server)
        → R s (route_session tc is_udp body r s)
    unfolding route_session
    route_session-R tc is_udp (login l) r s =
        if-R (is_udp || not (is_pre_login (s.heap r).auth_state))
          (λ h. across.logs_in r l s (pre_login is_udp (s.heap r).auth_state h))
    route_session-R tc is_udp (udp_handshake hs) r s = stays s
    route_session-R tc is_udp (pong p) r s = across.quiet s _ (pong-Quiet tc r p s)
    route_session-R tc is_udp (game_payload bytes) r s =
        if-R (not (is_ready (s.heap r).auth_state))
          (λ h. across.quiet s _ (user_message-Quiet tc r bytes s))
    route_session-R tc is_udp (rpc_request req) r s =
        if-R (is_udp || not (is_ready (s.heap r).auth_state))
          (λ h. across.quiet s _ (rpc-Quiet tc r req s))

    handshake_at-R :
        (is_udp : Bool) (addr : Option String) (body : ClientBody) (s : Server)
        → R s (handshake_at is_udp addr body s)
    unfolding handshake_at
    handshake_at-R true (some addr) (udp_handshake hs) s = across.pairs addr hs s
    handshake_at-R _ _ _ s = stays s

    route-R :
        (tc : TickCtx) (is_udp : Bool) (addr : Option String) (sess : Option ℕ)
        (frame : ClientFrame) (s : Server)
        → R s (route tc is_udp addr sess frame s)
    unfolding route
    route-R tc is_udp addr sess none s = stays s
    route-R tc is_udp addr none (some body) s = handshake_at-R is_udp addr body s
    route-R tc is_udp addr (some r) (some body) s =
        across.both s (route_session tc is_udp body r s) _ (route_session-R tc is_udp body r s)
          (handshake_at-R is_udp addr body (route_session tc is_udp body r s))

    resolved-R :
        (tc : TickCtx) (e : Event) (sess : Option ℕ) (s : Server)
        → R s (dispatch_resolved tc e sess s)
    unfolding dispatch_resolved
    resolved-R tc e sess s =
        if-R (is_stale e.is_udp sess s) (λ h. parsed (unmarshal_frame e.payload))
      where
        parsed :
            (o : Option ClientFrame)
            → R s (elim o [
              | none ↦ malformed e.is_udp sess s
              | some frame ↦ route tc e.is_udp e.udp_addr sess frame s
            ])
        parsed none = across.quiet s _ (malformed-Quiet e.is_udp sess s)
        parsed (some frame) = route-R tc e.is_udp e.udp_addr sess frame s

    pub dispatch_message-R : (tc : TickCtx) (e : Event) (s : Server) → R s (dispatch_message tc e s)
    unfolding dispatch_message
    dispatch_message-R tc e s =
        let (sess, s') = resolve tc e s in
        across.both s s' _ (across.quiet s s' (resolve-Quiet tc e s)) (resolved-R tc e sess s')

    pub connect_event-R : (sess : Option ℕ) (s : Server) → R s (connect_event sess s)
    unfolding connect_event
    connect_event-R none s = stays s
    connect_event-R (some r) s = across.quiet s _ (on_connect-Quiet s.cfg.on_connect r s)

  -- The same with cleanups, for all the events of a tick.
  module _ (R : Server → Server → Type 0) (across : IsAcross R)
      (cleans : (r : ℕ) (reason : Option Error) (s : Server)
        → R s (cleanup_session (some r) reason s)) where
    pub handle_event-R : (tc : TickCtx) (e : Event) (s : Server) → R s (handle_event tc e s)
    unfolding handle_event
    handle_event-R tc e s = by_kind-R e.kind
      where
        cleaned : (o : Option ℕ) → R s (cleanup_session o e.reason s)
        cleaned none = across.quiet s s (Quiet-refl s)
        cleaned (some r) = cleans r e.reason s

        by_kind-R : (k : EventKind) → R s (by_kind k tc e s)
        by_kind-R event_message = dispatch_message-R R across tc e s
        by_kind-R event_connect = connect_event-R R across e.sess s
        by_kind-R event_disconnect = cleaned e.sess

    pub handle_events-R :
        (tc : TickCtx) (es : List Event) (s : Server) → R s (handle_events tc es s)
    unfolding handle_events
    handle_events-R tc [] s = across.quiet s s (Quiet-refl s)
    handle_events-R tc (e ∷ es) s =
        across.both s (handle_event tc e s) (handle_events tc es (handle_event tc e s))
          (handle_event-R tc e s) (handle_events-R tc es (handle_event tc e s))

    -- From the moment that the queue has been drained.
    pub run_tick-R :
        (now : ℤ) (s : Server)
        → R
            (record s { tick_count = (s.tick_count + 1) % 2 ^ 64; events = (drain s.events).1 })
            (run_tick now s)
    unfolding run_tick
    run_tick-R now s =
        let count = (s.tick_count + 1) % 2 ^ 64 in
        let tc : TickCtx = record { tick = count; now = now } in
        let s1 : Server = record s { tick_count = count; events = (drain s.events).1 } in
        let s2 : Server = handle_events tc (drain s.events).0 s1 in
        let s3 : Server = run_ping_tick tc s2 in
        across.both s1 s2 (run_tick now s) (handle_events-R tc (drain s.events).0 s1) (
          across.both s2 s3 (run_tick now s) (across.quiet s2 s3 (ping_tick-Quiet tc s2))
            (across.quiet s3 (run_tick now s) (on_tick-Quiet s3.on_tick tc s3)))

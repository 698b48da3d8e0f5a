-- ===== src/Server/Tick.antt =====
-- tick.go: the work of one tick, from the queue's events to the OnTick callback.
use godotnet.Base.{
  ℕ, ◌+◌, ◌%◌, ◌^◌, String, Bool, true, false, not, ◌&&◌, ◌||◌, Option, none, some, List, [], ◌∷◌,
  ◌==◌, if◌then◌else◌, nat_eq, string_eq,
}
use godotnet.Base.Map.{get}
use godotnet.Base.Int.{ℤ}
use godotnet.Errors.{sentinel, malformed_frame}
use godotnet.Control.{
  ClientFrame, ClientBody, login, udp_handshake, pong, game_payload, rpc_request,
}
use godotnet.Events.{Event, EventKind, event_message, event_connect, event_disconnect, drain}
use godotnet.Session.{SessionAuthState, session_pre_login, session_awaiting_udp, session_ready}
use godotnet.Env.{Env}
use godotnet.Callbacks.{Script, TickHandler}
use godotnet.Server.{Server, on_tick_called, modify, emit}
use godotnet.Server.Outbound.{schedule_disconnect}
use godotnet.Server.TickCtx.{TickCtx, is_ready, view, run_calls}
use godotnet.Server.Cleanup.{cleanup_session, invoke_on_connect}
use godotnet.Server.Handshake.{handle_login, handle_udp_handshake}
use godotnet.Server.Dispatch.{dispatch_user_message, dispatch_rpc}
use godotnet.Server.Ping.{handle_pong, run_ping_tick}

abbrev pub is_pre_login : SessionAuthState → Bool
is_pre_login session_pre_login = true
is_pre_login session_awaiting_udp = false
is_pre_login session_ready = false

abbrev pub is_some {ℓ} : {A : Type ℓ} → Option A → Bool
is_some none = false
is_some (some a) = true

module _ ⦃env : Env⦄ where
  open env use {unmarshal_frame}

  -- The session of a UDP datagram, by its sender's address; any datagram of it is a sign of life.
  -- (The UDP reader gives every datagram an address.)
  unfoldable pub resolve_addr : TickCtx → Option String → Server → Option ℕ × Server
  unfolding modify
  resolve_addr tc none s = (none, s)
  resolve_addr tc (some addr) s = elim (get s.udp_sessions addr) [
    | none ↦ (none, s)
    | some r ↦ (some r, modify r (λ x. record x { last_seen_unix_nano = tc.now }) s)
  ]

  unfoldable pub resolve : TickCtx → Event → Server → Option ℕ × Server
  unfolding resolve_addr
  resolve tc e s = if e.is_udp then resolve_addr tc e.udp_addr s else (e.sess, s)

  -- A TCP event of a player whose session has been cleaned up.
  unfoldable pub is_stale : Bool → Option ℕ → Server → Bool
  is_stale is_udp none s = false
  is_stale is_udp (some r) s =
      not is_udp && (not ((s.heap r).id == 0) && not (is_some (get s.sessions (s.heap r).id)))

  unfoldable pub malformed : Bool → Option ℕ → Server → Server
  unfolding schedule_disconnect
  malformed is_udp sess s =
      if is_udp then s else schedule_disconnect sess (sentinel malformed_frame) s

  -- The switch over the frame's body; `sess` is nil in the clauses with `none`.
  unfoldable pub route_session : TickCtx → Bool → ClientBody → ℕ → Server → Server
  unfolding handle_login handle_pong dispatch_user_message dispatch_rpc
  route_session tc is_udp (login l) r s =
      if is_udp || not (is_pre_login (s.heap r).auth_state) then s else handle_login r l s
  route_session tc is_udp (udp_handshake hs) r s = s
  route_session tc is_udp (pong p) r s = handle_pong tc r p s
  route_session tc is_udp (game_payload bytes) r s =
      if not (is_ready (s.heap r).auth_state) then s else dispatch_user_message tc r bytes s
  route_session tc is_udp (rpc_request req) r s =
      if is_udp || not (is_ready (s.heap r).auth_state) then s else dispatch_rpc tc r req s

  unfoldable pub handshake_at : Bool → Option String → ClientBody → Server → Server
  unfolding handle_udp_handshake
  handshake_at true (some addr) (udp_handshake hs) s = handle_udp_handshake addr hs s
  handshake_at _ _ _ s = s

  unfoldable pub route : TickCtx → Bool → Option String → Option ℕ → ClientFrame → Server → Server
  unfolding route_session handshake_at
  route tc is_udp addr sess none s = s
  route tc is_udp addr none (some body) s = handshake_at is_udp addr body s
  route tc is_udp addr (some r) (some body) s =
      handshake_at is_udp addr body (route_session tc is_udp body r s)

  unfoldable pub dispatch_resolved : TickCtx → Event → Option ℕ → Server → Server
  unfolding is_stale malformed route
  dispatch_resolved tc e sess s =
      if is_stale e.is_udp sess s then s else elim (unmarshal_frame e.payload) [
        | none ↦ malformed e.is_udp sess s
        | some frame ↦ route tc e.is_udp e.udp_addr sess frame s
      ]

  unfoldable pub dispatch_message : TickCtx → Event → Server → Server
  unfolding resolve dispatch_resolved
  dispatch_message tc e s = let (sess, s') = resolve tc e s in dispatch_resolved tc e sess s'

  unfoldable pub connect_event : Option ℕ → Server → Server
  unfolding invoke_on_connect
  connect_event none s = s
  connect_event (some r) s = invoke_on_connect s.cfg.on_connect r s

  unfoldable pub by_kind : EventKind → TickCtx → Event → Server → Server
  unfolding dispatch_message connect_event cleanup_session
  by_kind event_message tc e s = dispatch_message tc e s
  by_kind event_connect tc e s = connect_event e.sess s
  by_kind event_disconnect tc e s = cleanup_session e.sess e.reason s

  unfoldable pub handle_event : TickCtx → Event → Server → Server
  unfolding by_kind
  handle_event tc e s = by_kind e.kind tc e s

  unfoldable pub handle_events : TickCtx → List Event → Server → Server
  unfolding handle_event
  handle_events tc [] s = s
  handle_events tc (e ∷ es) s = handle_events tc es (handle_event tc e s)

  -- A panic of OnTick is logged and no more.
  unfoldable pub invoke_on_tick : Option TickHandler → TickCtx → Server → Server
  unfolding view run_calls
  invoke_on_tick none tc s = s
  invoke_on_tick (some cb) tc s =
      let script : Script Unit = cb (view tc s) s.game in
      run_calls script.calls (emit (on_tick_called tc.tick) (record s { game = script.game }))

  -- One round of the tick loop, at the time that the ticker gives.
  unfoldable pub run_tick : ℤ → Server → Server
  unfolding drain handle_events run_ping_tick invoke_on_tick
  run_tick now s =
      let count = (s.tick_count + 1) % 2 ^ 64 in
      let tc : TickCtx = record { tick = count; now = now } in
      let (events, rest) = drain s.events in
      let s1 : Server = record s { tick_count = count; events = rest } in
      let s2 : Server = run_ping_tick tc (handle_events tc events s1) in
      invoke_on_tick s2.on_tick tc s2

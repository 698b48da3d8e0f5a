-- ===== src/Server/Invariant/Tick.antt =====
-- The invariant under the events of a tick (tick.go).
use godotnet.Base.{ℕ, ◌+◌, ◌%◌, ◌^◌, ◌≡◌, refl, List, [], ◌∷◌, nat_eq, string_eq, arith}
use godotnet.Base.Int.{ℤ}
use godotnet.Events.{Event, EventKind, event_message, event_connect, event_disconnect, drain}
use godotnet.Events.Fifo.{drain_lem}
use godotnet.Env.{Env}
use godotnet.Server.{Server}
use godotnet.Server.TickCtx.{TickCtx}
use godotnet.Server.Ping.{run_ping_tick}
use godotnet.Server.Tick.{by_kind, handle_event, handle_events, run_tick}
use godotnet.Server.Quiet.{owed}
use godotnet.Server.Quiet.Handlers.{ping_tick-Quiet, on_tick-Quiet}
use godotnet.Server.Route.{IsAcross, dispatch_message-R, connect_event-R}
use godotnet.Server.Invariant.{Inv, Quiet-Inv, drop-Inv}
use godotnet.Server.Invariant.Handshake.{handle_login-Inv, handle_udp_handshake-Inv}
use godotnet.Server.Invariant.Cleanup.{cleanup_session-Inv}

module _ ⦃env : Env⦄ where
  Inv-across : (pending : List Event) → IsAcross (λ s t. Inv pending s → Inv pending t)
  Inv-across pending = record {
    quiet = λ s t q. Quiet-Inv q;
    both = λ s t u f g v. g (f v);
    logs_in = λ r l s fresh. handle_login-Inv r l s fresh;
    pairs = λ addr hs s. handle_udp_handshake-Inv addr hs s;
  }

  pub handle_event-Inv :
      {pending : List Event} (tc : TickCtx) (e : Event) (s : Server)
      → Inv (e ∷ pending) s
      → Inv pending (handle_event tc e s)
  unfolding handle_event
  handle_event-Inv {pending} tc e s v = by_kind-Inv e.kind refl
    where
      by_kind-Inv : (k : EventKind) → e.kind ≡ k → Inv pending (by_kind k tc e s)
      by_kind-Inv event_message h =
          dispatch_message-R (λ a b. Inv pending a → Inv pending b) (Inv-across pending) tc e s
            (drop-Inv e v)
      by_kind-Inv event_connect h =
          connect_event-R (λ a b. Inv pending a → Inv pending b) (Inv-across pending) e.sess s
            (drop-Inv e v)
      by_kind-Inv event_disconnect h = cleanup_session-Inv s e h v

  handle_events-Inv :
      (tc : TickCtx) (es : List Event) (s : Server) → Inv es s → Inv [] (handle_events tc es s)
  unfolding handle_events
  handle_events-Inv tc [] s v = v
  handle_events-Inv tc (e ∷ es) s v =
      handle_events-Inv tc es (handle_event tc e s) (handle_event-Inv tc e s v)

  -- The drained events are pending instead of queued.
  pub drained-Inv :
      (count : ℕ) (s : Server)
      → Inv [] s
      → Inv (drain s.events).0 (record s { tick_count = count; events = (drain s.events).1 })
  unfolding owed
  drained-Inv count s v = rw (drain_lem s.events) (record {
    tracked = v.tracked;
    paired = v.paired;
    addressed = v.addressed;
    accounted = λ r. omega (arith, v.accounted r);
  })

  -- A tick, whatever the queue holds and the game's callbacks do, keeps the invariant.
  pub run_tick-Inv : (now : ℤ) (s : Server) → Inv [] s → Inv [] (run_tick now s)
  unfolding run_tick
  run_tick-Inv now s v =
      let count = (s.tick_count + 1) % 2 ^ 64 in
      let tc : TickCtx = record { tick = count; now = now } in
      let s1 : Server = record s { tick_count = count; events = (drain s.events).1 } in
      let s2 : Server = handle_events tc (drain s.events).0 s1 in
      let s3 : Server = run_ping_tick tc s2 in
      Quiet-Inv (on_tick-Quiet s3.on_tick tc s3) (
        Quiet-Inv (ping_tick-Quiet tc s2)
          (handle_events-Inv tc (drain s.events).0 s1 (drained-Inv count s v)))

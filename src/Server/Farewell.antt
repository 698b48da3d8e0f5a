-- ===== src/Server/Farewell.antt =====
-- What a tick (tick.go) makes of a disconnect that is queued.
use godotnet.Base.{
  ℕ, ◌+◌, ◌%◌, ◌^◌, ◌<◌, ◌≡◌, ◌≢◌, refl, sym, ap, ◌∙◌, ◌⊎◌, inl, inr, Option, none, some, List, [],
  ◌∷◌, ◌==◌, ==_iff, Bool-cases, nat_eq, string_eq, arith,
}
use godotnet.Base.Map.{get}
use godotnet.Base.Int.{ℤ}
use godotnet.Events.{Event, EventKind, event_message, event_connect, event_disconnect, drain}
use godotnet.Events.Fifo.{drain_lem}
use godotnet.Session.{session_pre_login}
use godotnet.Env.{Env}
use godotnet.Server.{Server}
use godotnet.Server.TickCtx.{TickCtx}
use godotnet.Server.Cleanup.{cleanup_session}
use godotnet.Server.Ping.{run_ping_tick}
use godotnet.Server.Tick.{by_kind, handle_event, handle_events, run_tick}
use godotnet.Server.Quiet.{owed, disconnects}
use godotnet.Server.Quiet.Handlers.{ping_tick-Quiet, on_tick-Quiet}
use godotnet.Server.Invariant.{Inv, drop-Inv}
use godotnet.Server.Invariant.Tick.{handle_event-Inv, drained-Inv}
use godotnet.Server.Departed.{cleanup-forgets}
use godotnet.Server.Later.{
  HasPlayer, IsUnlisted, IsUnpaired, Later, Quiet-Later, Later-trans, event-Later, events-Later,
}

module _ ⦃env : Env⦄ where
  -- Neither a player nor a UDP address leads to the session.
  abbrev pub IsGone : ℕ → Server → Type 0
  IsGone q s = IsUnlisted q s × IsUnpaired q s

  Later-IsGone : (q : ℕ) (s t : Server) → Later q s t → HasPlayer q s → IsGone q s → IsGone q t
  Later-IsGone q s t l h (n, m) = (l.unlisted h n, l.unpaired h n m)

  disconnects-cases :
      (k : EventKind) (o : Option ℕ) (q : ℕ)
      → (disconnects k o q ≡ 0) ⊎ ((k ≡ event_disconnect) × (o ≡ some q))
  disconnects-cases event_message o q = inl refl
  disconnects-cases event_connect o q = inl refl
  disconnects-cases event_disconnect none q = inl refl
  disconnects-cases event_disconnect (some r) q = elim (Bool-cases (r == q)) [
    | inl hit ↦ inr (refl, ap some ((==_iff r q).0 hit))
    | inr miss ↦ inl (rw miss)
  ]

  disconnect-IsGone :
      (q : ℕ) (tc : TickCtx) (e : Event) (pending : List Event) (s : Server)
      → e.kind ≡ event_disconnect
      → e.sess ≡ some q
      → Inv pending s
      → (s.heap q).id ≢ 0
      → IsGone q (handle_event tc e s)
  unfolding handle_event
  disconnect-IsGone q tc e pending s kind sess v other =
      let (listed, paired_at, rest) = cleanup-forgets pending q e.reason s v other in
      let path : handle_event tc e s ≡ cleanup_session (some q) e.reason s =
        ap (λ k. by_kind k tc e s) kind ∙ ap (λ o. cleanup_session o e.reason s) sess in
      (
        λ id f. listed id (ap (λ (t : Server). get t.sessions id) (sym path) ∙ f),
        λ a f. paired_at a (ap (λ (t : Server). get t.udp_sessions a) (sym path) ∙ f),
      )

  events-IsGone :
      (q : ℕ) (tc : TickCtx) (es : List Event) (s : Server)
      → Inv es s
      → HasPlayer q s
      → (s.heap q).id ≢ 0
      → 0 < owed q es
      → IsGone q (handle_events tc es s)
  unfolding handle_events owed
  events-IsGone q tc [] s v h other some_owed = elim some_owed [ ]
  events-IsGone q tc (e ∷ es) s v h other some_owed =
      let s' : Server = handle_event tc e s in
      let step : Later q s s' = event-Later q tc e s in
      let (h', same) = step.player h in
      elim (disconnects-cases e.kind e.sess q) [
        | inl none_here ↦
            events-IsGone q tc es s' (handle_event-Inv tc e s v) h' (λ z. other (sym same ∙ z))
              (omega arith)
        | inr (kind, sess) ↦
            Later-IsGone q s' (handle_events tc es s') (events-Later q tc es s') h'
              (disconnect-IsGone q tc e es s kind sess (drop-Inv e v) other)
      ]

  -- In a server that keeps the invariant, a tick completes every disconnect that is queued when it
  -- begins: if one of a session that has logged in as a player other than 0 is queued, then after
  -- the tick, whatever other events it handled and the game's callbacks did, no player and no UDP
  -- address leads to that session.
  pub run_tick-IsGone :
      (now : ℤ) (q : ℕ) (s : Server)
      → Inv [] s
      → (s.heap q).auth_state ≢ session_pre_login
      → (s.heap q).id ≢ 0
      → 0 < owed q s.events.buffer
      → IsGone q (run_tick now s)
  unfolding run_tick
  run_tick-IsGone now q s v h other queued =
      let count = (s.tick_count + 1) % 2 ^ 64 in
      let tc : TickCtx = record { tick = count; now = now } in
      let s1 : Server = record s { tick_count = count; events = (drain s.events).1 } in
      let s2 : Server = handle_events tc (drain s.events).0 s1 in
      let s3 : Server = run_ping_tick tc s2 in
      let taken : 0 < owed q (drain s.events).0 = rw (drain_lem s.events) queued in
      let gone : IsGone q s2 =
        events-IsGone q tc (drain s.events).0 s1 (drained-Inv count s v) h other taken in
      let h2 : HasPlayer q s2 = ((events-Later q tc (drain s.events).0 s1).player h).0 in
      let after : Later q s2 (run_tick now s) =
        Later-trans q s2 s3 (run_tick now s) (Quiet-Later q s2 s3 (ping_tick-Quiet tc s2))
          (Quiet-Later q s3 (run_tick now s) (on_tick-Quiet s3.on_tick tc s3)) in
      Later-IsGone q s2 (run_tick now s) after h2 gone

-- ===== src/System/Attendance.antt =====
-- A player who has not been told to leave is listed (server.go, tick.go): the moves of the server.
use godotnet.Base.{
  ℕ, ◌+◌, ◌≤◌, ◌≡◌, ◌≢◌, refl, sym, ap, subst, ◌∙◌, inl, inr, Option, none, some, List, [], ◌∷◌,
  nat_eq, string_eq, arith,
}
use godotnet.Base.Map.{get}
use godotnet.Events.{Event, EventKind, event_message, event_connect, event_disconnect, drain}
use godotnet.Events.Fifo.{drain_lem}
use godotnet.Session.{session_pre_login}
use godotnet.Env.{Env}
use godotnet.Server.{Server, Config, new_server}
use godotnet.Server.Cleanup.{cleanup_session}
use godotnet.Server.Intake.{new_session, accept_conn}
use godotnet.Server.TickCtx.{TickCtx}
use godotnet.Server.Ping.{run_ping_tick}
use godotnet.Server.Tick.{by_kind, handle_event}
use godotnet.Server.Quiet.{to_ℕ, owed, fired, Quiet, Quiet-trans}
use godotnet.Server.Quiet.Handlers.{ping_tick-Quiet, on_tick-Quiet}
use godotnet.Server.Route.{dispatch_message-R, connect_event-R}
use godotnet.Server.Invariant.{Inv, at-modify}
use godotnet.Server.Later.{HasPlayer, identity-cleanup}
use godotnet.Server.Present.{Present, Quiet-Present, Onward, Onward-across}
use godotnet.Server.Parting.{Honest, cleanup-Honest, settled, leaver-listed}
use godotnet.System.{IsFresh, IoStep}
use godotnet.System.Rounds.{IoStep-cases}
use godotnet.System.Interleaved.{
  Phase, at_ticker, pending_of, Move, other, began, handled, ended, begin_tick, end_tick, Moves,
  none_yet, and_then, interleaved-Inv,
}
use godotnet.System.Listed.{cleanup-listed}

module _ ⦃env : Env⦄ where
  open env use {Game}

  accept-Present :
      {pending : List Event} (r : ℕ) (s : Server)
      → IsFresh r pending s
      → Present pending s
      → Present pending (accept_conn r s)
  unfolding accept_conn new_session
  accept-Present {pending} r s fresh v = record {
    unnamed = λ q.
        at-modify (λ x. x.auth_state ≡ session_pre_login → x.id ≡ 0) r q (λ x. new_session s) s
          (λ hit e. refl) (λ miss. v.unnamed q);
    present = λ q.
        at-modify
          (λ x.
            x.auth_state ≢ session_pre_login
            → to_ℕ x.disconnect_once ≤ owed q pending + owed q s.events.buffer
            → get s.sessions x.id ≡ some q)
          r q (λ x. new_session s) s (λ hit h. absurd (h refl)) (λ miss. v.present q);
  }

  IoStep-Present :
      {pending : List Event} {s t : Server}
      → IoStep pending s t
      → Present pending s
      → Present pending t
  IoStep-Present {pending} {s} {t} step v = elim (IoStep-cases pending s t step) [
    | inl q ↦ Quiet-Present pending q v
    | inr (r, fresh, e) ↦ subst (Present pending) (sym e) (accept-Present r s fresh v)
  ]

  -- An event that is no disconnect counts for nothing.
  drop-Present :
      {pending : List Event} {s : Server} (e : Event) → Present (e ∷ pending) s → Present pending s
  unfolding owed
  drop-Present {s = s} e v = record {
    unnamed = v.unnamed;
    present = λ r h due. v.present r h (omega (arith, due));
  }

  cleanup-Present :
      (e : Event) (r : ℕ) (pending : List Event) (s : Server)
      → e.kind ≡ event_disconnect
      → e.sess ≡ some r
      → Inv (e ∷ pending) s
      → Present (e ∷ pending) s
      → Present pending (cleanup_session (some r) e.reason s)
  unfolding owed
  cleanup-Present e r pending s kind sess v w = record { unnamed = unnamed'; present = present' }
    where
      same : (q : ℕ) → ((cleanup_session (some r) e.reason s).heap q).id ≡ (s.heap q).id
      same q = ap (λ i. i.0) (identity-cleanup r e.reason s q)

      state :
          (q : ℕ)
          → ((cleanup_session (some r) e.reason s).heap q).auth_state ≡ (s.heap q).auth_state
      state q = ap (λ i. i.1) (identity-cleanup r e.reason s q)

      unnamed' :
          (q : ℕ)
          → ((cleanup_session (some r) e.reason s).heap q).auth_state ≡ session_pre_login
          → ((cleanup_session (some r) e.reason s).heap q).id ≡ 0
      unnamed' q h = same q ∙ w.unnamed q (sym (state q) ∙ h)

      before :
          (q : ℕ)
          → HasPlayer q (cleanup_session (some r) e.reason s)
          → fired s q ≤ owed q pending + owed q s.events.buffer
          → get s.sessions (s.heap q).id ≡ some q
      before q h due = w.present q (λ p. h (state q ∙ p)) (omega (arith, due))

      stays :
          (q : ℕ)
          → fired s q ≤ owed q pending + owed q s.events.buffer
          → get s.sessions (s.heap q).id ≡ some q
          → get (cleanup_session (some r) e.reason s).sessions (s.heap q).id ≡ some q
      stays q due h = elim (cleanup-listed r e.reason s (s.heap q).id q h) [
        | inl kept ↦ kept
        | inr (gone, shared, named) ↦
            let leaver : get s.sessions (s.heap r).id ≡ some r =
              leaver-listed e r pending s kind sess (λ p. named (sym shared ∙ p)) w in
            let both : some r ≡ some q = sym leaver ∙ ap (get s.sessions) shared ∙ h in
            let alike : r ≡ q = cc in
            let (over, nothing) = settled e r pending s kind sess v in
            absurd (
              omega (
                arith,
                due,
                over,
                nothing,
                ap (fired s) alike,
                ap (λ p. owed p pending + owed p s.events.buffer) alike,
              ))
      ]

      present' :
          (q : ℕ)
          → HasPlayer q (cleanup_session (some r) e.reason s)
          → fired (cleanup_session (some r) e.reason s) q
            ≤ owed q pending + owed q (cleanup_session (some r) e.reason s).events.buffer
          → get
              (cleanup_session (some r) e.reason s).sessions
              ((cleanup_session (some r) e.reason s).heap q).id
            ≡ some q
      present' q h due =
          let honest : Honest s (cleanup_session (some r) e.reason s) =
            cleanup-Honest r e.reason s in
          let due' : fired s q ≤ owed q pending + owed q s.events.buffer =
            omega (arith, due, honest.debt q) in
          ap (get (cleanup_session (some r) e.reason s).sessions) (same q)
          ∙ stays q due' (before q h due')

  event-Present :
      {pending : List Event} (tc : TickCtx) (e : Event) (s : Server)
      → Inv (e ∷ pending) s
      → Present (e ∷ pending) s
      → Present pending (handle_event tc e s)
  unfolding handle_event cleanup_session
  event-Present {pending} tc e s v w = kinds e.kind refl
    where
      cleaned :
          (o : Option ℕ)
          → e.kind ≡ event_disconnect
          → e.sess ≡ o
          → Present pending (cleanup_session o e.reason s)
      cleaned none k p = drop-Present e w
      cleaned (some r) k p = cleanup-Present e r pending s k p v w

      kinds : (k : EventKind) → e.kind ≡ k → Present pending (by_kind k tc e s)
      kinds event_message k =
          (dispatch_message-R (Onward pending) (Onward-across pending) tc e s).1 (drop-Present e w)
      kinds event_connect k =
          (connect_event-R (Onward pending) (Onward-across pending) e.sess s).1 (drop-Present e w)
      kinds event_disconnect k = cleaned e.sess k refl

  begin-Present : (s : Server) → Present [] s → Present (drain s.events).0 (begin_tick s)
  unfolding begin_tick owed
  begin-Present s v =
      rw (drain_lem s.events)
        (record { unnamed = v.unnamed; present = λ r h due. v.present r h (omega (arith, due)) })

  pub end_tick-Quiet : (tc : TickCtx) (s : Server) → Quiet s (end_tick tc s)
  unfolding end_tick
  end_tick-Quiet tc s =
      let s' : Server = run_ping_tick tc s in
      Quiet-trans (ping_tick-Quiet tc s) (on_tick-Quiet s'.on_tick tc s')

  pub Move-Present :
      {s : Server} {p : Phase} {t : Server} {p' : Phase}
      → Move s p t p'
      → Inv (pending_of p) s
      → Present (pending_of p) s
      → Present (pending_of p') t
  Move-Present (other step) v w = IoStep-Present step w
  Move-Present {s} (began now) v w = begin-Present s w
  Move-Present {s} (handled {tc = tc} {e = e}) v w = event-Present tc e s v w
  Move-Present {s} (ended {tc = tc}) v w = Quiet-Present [] (end_tick-Quiet tc s) w

  new-Present : (cfg : Config) (game : Game) → Present [] (new_server cfg game)
  unfolding new_server
  new-Present cfg game = record { unnamed = λ r e. refl; present = λ r h due. absurd (h refl) }

  -- The invariants together, at every moment of a run from a new server.
  pub record Sound (pending : List Event) (s : Server) : Type 0 where
    pub inv : Inv pending s
    pub present : Present pending s

  pub Moves-Sound :
      (cfg : Config) (game : Game) {s : Server} {p : Phase}
      → Moves (new_server cfg game) at_ticker s p
      → Sound (pending_of p) s
  Moves-Sound cfg game none_yet = record {
    inv = (interleaved-Inv cfg game (new_server cfg game) at_ticker none_yet).0;
    present = new-Present cfg game;
  }
  Moves-Sound cfg game {s} {p} (and_then before move) =
      let w = Moves-Sound cfg game before in
      record {
        inv = (interleaved-Inv cfg game s p (and_then before move)).0;
        present = Move-Present move w.inv w.present;
      }

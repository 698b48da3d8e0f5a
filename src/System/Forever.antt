-- ===== src/System/Forever.antt =====
-- Sessions that nothing takes off the map of sessions any more (server.go, handshake.go, tick.go).
use godotnet.Base.{
  ℕ, ◌+◌, ◌≤◌, ◌≡◌, ◌≢◌, ◌⊎◌, refl, sym, ap, subst, ◌∙◌, inl, inr, Bool, true, false, Option, none,
  some, List, [], ◌∷◌, length, nat_eq, string_eq, arith,
}
use godotnet.Base.Map.{get}
use godotnet.Errors.{Error}
use godotnet.Control.{Login}
use godotnet.Events.{Event, EventKind, event_message, event_connect, event_disconnect, drain, Queue}
use godotnet.Events.Fifo.{drain_lem}
use godotnet.Session.{session_pre_login}
use godotnet.Env.{Env}
use godotnet.Server.{Server, Config, new_server}
use godotnet.Server.Cleanup.{cleanup_session}
use godotnet.Server.Handshake.{handle_login}
use godotnet.Server.Intake.{new_session, accept_conn}
use godotnet.Server.Outbound.{schedule_disconnect}
use godotnet.Server.TickCtx.{TickCtx}
use godotnet.Server.Tick.{by_kind, handle_event}
use godotnet.Server.Quiet.{to_ℕ, disconnects, owed, fired, Quiet}
use godotnet.Server.Quiet.Sends.{schedule-Quiet}
use godotnet.Server.Route.{dispatch_message-R, connect_event-R}
use godotnet.Server.Invariant.{Quiet-Inv, at-modify}
use godotnet.Server.Invariant.Handshake.{handle_login-Inv}
use godotnet.Server.Granted.{IsGranted, login-listed}
use godotnet.Server.Delivery.{schedule-fired, schedule-lost}
use godotnet.Server.Owing.{Loud, Quiet-Loud, Loud-across}
use godotnet.Server.Present.{Quiet-Present, Onward-across}
use godotnet.Server.Parting.{one_event, Honest, Loud-Honest, cleanup-Honest, leaver-listed}
use godotnet.System.{IsFresh, IoStep}
use godotnet.System.Rounds.{IoStep-cases}
use godotnet.System.Interleaved.{
  Phase, at_ticker, pending_of, Move, other, began, handled, ended, begin_tick, Moves, none_yet,
  and_then, Move-Inv,
}
use godotnet.System.Listed.{Kept, Kept-across, cleanup-listed}
use godotnet.System.Attendance.{Sound, Move-Present, Moves-Sound, end_tick-Quiet}

module _ ⦃env : Env⦄ where
  open env use {Game}

  -- The session `r` is listed as the player `id`, its disconnect has fired, and no disconnect event
  -- of it is queued, or drained and not handled.
  pub record IsStuck (id r : ℕ) (pending : List Event) (s : Server) : Type 0 where
    pub listed : get s.sessions id ≡ some r
    pub over : fired s r ≡ 1
    pub unowed : owed r pending + owed r s.events.buffer ≡ 0

  fired-le : (b : Bool) → to_ℕ b ≤ 1
  fired-le true = omega arith
  fired-le false = omega arith

  carry-IsStuck :
      {s t : Server} {id r : ℕ} (pending : List Event)
      → Honest s t
      → Kept s t
      → IsStuck id r pending s
      → IsStuck id r pending t
  carry-IsStuck {s} {t} {id} {r} pending h kept v = record {
    listed = kept id r v.listed;
    over = omega (arith, h.once r, v.over, fired-le (t.heap r).disconnect_once);
    unowed = omega (arith, h.debt r, v.over, v.unowed, fired-le (t.heap r).disconnect_once);
  }

  Quiet-IsStuck :
      {s t : Server} {id r : ℕ} (pending : List Event)
      → Quiet s t
      → IsStuck id r pending s
      → IsStuck id r pending t
  Quiet-IsStuck {s} {t} pending q =
      carry-IsStuck pending (Loud-Honest (Quiet-Loud q)) (Kept-across.quiet s t q)

  accept-IsStuck :
      {id r : ℕ} {pending : List Event} (q : ℕ) (s : Server)
      → IsFresh q pending s
      → IsStuck id r pending s
      → IsStuck id r pending (accept_conn q s)
  unfolding accept_conn
  accept-IsStuck {id} {r} {pending} q s fresh v = record {
    listed = v.listed;
    over =
        at-modify (λ x. to_ℕ x.disconnect_once ≡ 1) q r (λ x. new_session s) s
          (λ hit. absurd (fresh.unlisted id (v.listed ∙ ap some hit))) (λ miss. v.over);
    unowed = v.unowed;
  }

  IoStep-IsStuck :
      {id r : ℕ} {pending : List Event} {s t : Server}
      → IoStep pending s t
      → IsStuck id r pending s
      → IsStuck id r pending t
  IoStep-IsStuck {id} {r} {pending} {s} {t} step v = elim (IoStep-cases pending s t step) [
    | inl q ↦ Quiet-IsStuck pending q v
    | inr (q, fresh, e) ↦ subst (IsStuck id r pending) (sym e) (accept-IsStuck q s fresh v)
  ]

  drop-IsStuck :
      {id r : ℕ} {pending : List Event} {s : Server} (e : Event)
      → IsStuck id r (e ∷ pending) s
      → IsStuck id r pending s
  unfolding owed
  drop-IsStuck e v = record { listed = v.listed; over = v.over; unowed = omega (arith, v.unowed) }

  -- The session at hand is another one: its own player is listed as its own.
  cleanup-IsStuck :
      {id r : ℕ} {pending : List Event} (e : Event) (q : ℕ) (s : Server)
      → e.kind ≡ event_disconnect
      → e.sess ≡ some q
      → Sound (e ∷ pending) s
      → IsStuck id r (e ∷ pending) s
      → IsStuck id r pending (cleanup_session (some q) e.reason s)
  unfolding owed
  cleanup-IsStuck {id} {r} {pending} e q s kind sess w v = record {
    listed = left (cleanup-listed q e.reason s id r v.listed);
    over = omega (arith, honest.once r, v.over, fired-le (after.heap r).disconnect_once);
    unowed =
        omega (arith, honest.debt r, v.over, v.unowed, fired-le (after.heap r).disconnect_once);
  }
    where
      after : Server
      after = cleanup_session (some q) e.reason s

      honest : Honest s (cleanup_session (some q) e.reason s)
      honest = cleanup-Honest q e.reason s

      left :
          (get (cleanup_session (some q) e.reason s).sessions id ≡ some r)
            ⊎ ((get (cleanup_session (some q) e.reason s).sessions id ≡ none)
                × ((s.heap q).id ≡ id)
                × (id ≢ 0))
          → get (cleanup_session (some q) e.reason s).sessions id ≡ some r
      left (inl kept) = kept
      left (inr (gone, shared, named)) =
          let leaver : get s.sessions (s.heap q).id ≡ some q =
            leaver-listed e q pending s kind sess (λ p. named (sym shared ∙ p)) w.present in
          let both : some q ≡ some r = sym leaver ∙ ap (get s.sessions) shared ∙ v.listed in
          let alike : q ≡ r = cc in
          let one : disconnects e.kind e.sess r ≡ 1 =
            ap (λ p. disconnects e.kind e.sess p) (sym alike) ∙ one_event e q kind sess in
          absurd (omega (arith, one, v.unowed))

  event-IsStuck :
      {id r : ℕ} {pending : List Event} (tc : TickCtx) (e : Event) (s : Server)
      → Sound (e ∷ pending) s
      → IsStuck id r (e ∷ pending) s
      → IsStuck id r pending (handle_event tc e s)
  unfolding handle_event cleanup_session
  event-IsStuck {id} {r} {pending} tc e s w v = kinds e.kind refl
    where
      cleaned :
          (o : Option ℕ)
          → e.kind ≡ event_disconnect
          → e.sess ≡ o
          → IsStuck id r pending (cleanup_session o e.reason s)
      cleaned none k p = drop-IsStuck e v
      cleaned (some q) k p = cleanup-IsStuck e q s k p w v

      kinds : (k : EventKind) → e.kind ≡ k → IsStuck id r pending (by_kind k tc e s)
      kinds event_message k =
          carry-IsStuck pending (Loud-Honest (dispatch_message-R Loud Loud-across tc e s))
            (dispatch_message-R Kept Kept-across tc e s) (drop-IsStuck e v)
      kinds event_connect k =
          carry-IsStuck pending (Loud-Honest (connect_event-R Loud Loud-across e.sess s))
            (connect_event-R Kept Kept-across e.sess s) (drop-IsStuck e v)
      kinds event_disconnect k = cleaned e.sess k refl

  begin-IsStuck :
      {id r : ℕ} (s : Server) → IsStuck id r [] s → IsStuck id r (drain s.events).0 (begin_tick s)
  unfolding begin_tick owed
  begin-IsStuck s v =
      rw (drain_lem s.events)
        (record { listed = v.listed; over = v.over; unowed = omega (arith, v.unowed) })

  Move-IsStuck :
      {id r : ℕ} {s : Server} {p : Phase} {t : Server} {p' : Phase}
      → Move s p t p'
      → Sound (pending_of p) s
      → IsStuck id r (pending_of p) s
      → IsStuck id r (pending_of p') t
  Move-IsStuck (other step) w v = IoStep-IsStuck step v
  Move-IsStuck {s = s} (began now) w v = begin-IsStuck s v
  Move-IsStuck {s = s} (handled {tc = tc} {e = e}) w v = event-IsStuck tc e s w v
  Move-IsStuck {s = s} (ended {tc = tc}) w v = Quiet-IsStuck [] (end_tick-Quiet tc s) v

  Moves-after :
      {s : Server} {p : Phase} {t : Server} {p' : Phase}
      → Moves s p t p'
      → Sound (pending_of p) s
      → Sound (pending_of p') t
  Moves-after none_yet w = w
  Moves-after (and_then before move) w =
      let w' = Moves-after before w in
      record { inv = Move-Inv move w'.inv; present = Move-Present move w'.inv w'.present }

  Moves-IsStuck :
      {id r : ℕ} {s : Server} {p : Phase} {t : Server} {p' : Phase}
      → Moves s p t p'
      → Sound (pending_of p) s
      → IsStuck id r (pending_of p) s
      → IsStuck id r (pending_of p') t
  Moves-IsStuck none_yet w v = v
  Moves-IsStuck (and_then before move) w v =
      Move-IsStuck move (Moves-after before w) (Moves-IsStuck before w v)

  -- If the event queue is full when the first cause to disconnect a connected player arises, at any
  -- moment of a run from a new server, then the disconnect is lost for good: whatever happens
  -- afterwards, and however much room the queue has again, at every later moment the player is
  -- listed with that session, and no disconnect event of the session is queued, or drained and not
  -- handled.
  pub disconnect_lost :
      (cfg : Config) (game : Game) (id r : ℕ) (reason : Error) (s : Server) (p : Phase) (t : Server)
      (p' : Phase)
      → Moves (new_server cfg game) at_ticker s p
      → get s.sessions id ≡ some r
      → (s.heap r).disconnect_once ≡ false
      → s.events.depth ≤ length s.events.buffer
      → Moves (schedule_disconnect (some r) reason s) p t p'
      → (get t.sessions id ≡ some r) × (owed r (pending_of p') + owed r t.events.buffer ≡ 0)
  disconnect_lost cfg game id r reason s p t p' before here off full later =
      let w = Moves-Sound cfg game before in
      let s' : Server = schedule_disconnect (some r) reason s in
      let q : Quiet s s' = schedule-Quiet (some r) reason s in
      let sound : Sound (pending_of p) s' = record {
        inv = Quiet-Inv q w.inv;
        present = Quiet-Present (pending_of p) q w.present;
      } in
      let stuck : IsStuck id r (pending_of p) s' = record {
        listed = ap (λ m. get m id) q.sessions ∙ here;
        over = ap to_ℕ (schedule-fired r reason s);
        unowed = omega (
          arith,
          w.inv.accounted r,
          ap to_ℕ off,
          ap (λ (e : Queue). owed r e.buffer) (schedule-lost r reason s off full),
        );
      } in
      let v = Moves-IsStuck later sound stuck in (v.listed, v.unowed)

  -- If a login comes, at any moment of a run from a new server, for a session that has not logged in
  -- but whose disconnect has fired and is no longer queued or drained, and the login is
  -- granted, then the player is listed for good: whatever happens afterwards, at every later moment
  -- the player is listed with that session, and no disconnect event of the session is queued, or
  -- drained and not handled.
  pub login-revives :
      (cfg : Config) (game : Game) (id r : ℕ) (l : Login) (s : Server) (p : Phase) (t : Server)
      (p' : Phase)
      → Moves (new_server cfg game) at_ticker s p
      → (s.heap r).auth_state ≡ session_pre_login
      → (s.heap r).disconnect_once ≡ true
      → owed r (pending_of p) + owed r s.events.buffer ≡ 0
      → IsGranted s l id
      → Moves (handle_login r l s) p t p'
      → (get t.sessions id ≡ some r) × (owed r (pending_of p') + owed r t.events.buffer ≡ 0)
  login-revives cfg game id r l s p t p' before fresh over none_owed g later =
      let w = Moves-Sound cfg game before in
      let s' : Server = handle_login r l s in
      let l1 : Loud s s' = Loud-across.logs_in r l s fresh in
      let h : Honest s s' = Loud-Honest l1 in
      let sound : Sound (pending_of p) s' = record {
        inv = handle_login-Inv r l s fresh w.inv;
        present = ((Onward-across (pending_of p)).logs_in r l s fresh).1 w.present;
      } in
      let was : fired s r ≡ 1 = ap to_ℕ over in
      let stuck : IsStuck id r (pending_of p) s' = record {
        listed = login-listed r id l s g;
        over = omega (arith, h.once r, was, fired-le (s'.heap r).disconnect_once);
        unowed = omega (arith, h.debt r, was, none_owed, fired-le (s'.heap r).disconnect_once);
      } in
      let v = Moves-IsStuck later sound stuck in (v.listed, v.unowed)

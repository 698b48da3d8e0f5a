-- ===== src/System/Tenure.antt =====
-- A player's session while it is the player's (session.go, server.go, handshake.go), among all the
-- goroutines.
use godotnet.Base.{
  subst, sym, inl, inr, ◌≢◌, ℕ, ◌≤◌, ◌≡◌, refl, ap, ◌∙◌, some, List, nat_eq, string_eq, arith,
}
use godotnet.Base.Map.{get}
use godotnet.Events.{Event}
use godotnet.Session.{SessionAuthState, session_pre_login, session_awaiting_udp, session_ready}
use godotnet.Env.{Env}
use godotnet.Server.{Server, Config, new_server}
use godotnet.Server.Intake.{new_session, accept_conn}
use godotnet.Server.Quiet.{identity}
use godotnet.Server.Route.{run_tick-R}
use godotnet.Server.Invariant.{heap-modify_ne}
use godotnet.Server.Onward.{
  stage, IsOnward, same-Onward, Onward-trans, Onward-across, cleanup-Onward,
}
use godotnet.System.{IoStep, Step, io, ticked, Reach}
use godotnet.System.Rounds.{IoStep-cases}
use godotnet.System.Safety.{reachable-Inv}

module _ ⦃env : Env⦄ where
  open env use {Game}

  -- A run through which the player's entry leads to the same session.
  pub data Tenure (id q : ℕ) (s : Server) : Server → Type 0 where
    begins : get s.sessions id ≡ some q → Tenure id q s s
    lasts :
        {t u : Server} → Tenure id q s t → Step t u → get u.sessions id ≡ some q → Tenure id q s u

  still-listed : {id q : ℕ} {s t : Server} → Tenure id q s t → get t.sessions id ≡ some q
  still-listed (begins e) = e
  still-listed (lasts before step e) = e

  accept-Onward : (q r : ℕ) (s : Server) → q ≢ r → IsOnward q s (accept_conn r s)
  unfolding accept_conn
  accept-Onward q r s ne =
      same-Onward (s.heap q) _ (ap identity (heap-modify_ne r q (λ x. new_session s) s ne))

  IoStep-Onward :
      {pending : List Event} {s t : Server} (id q : ℕ)
      → get s.sessions id ≡ some q
      → IoStep pending s t
      → IsOnward q s t
  IoStep-Onward {pending} {s} {t} id q e step = elim (IoStep-cases pending s t step) [
    | inl k ↦ same-Onward (s.heap q) (t.heap q) (k.same q)
    | inr (r, fresh, done) ↦
        subst (IsOnward q s) (sym done)
          (accept-Onward q r s (λ p. fresh.unlisted id (e ∙ ap some p)))
  ]

  Step-Onward : {s t : Server} (id q : ℕ) → get s.sessions id ≡ some q → Step s t → IsOnward q s t
  Step-Onward id q e (io step) = IoStep-Onward id q e step
  Step-Onward {s = s} id q e (ticked now) =
      run_tick-R (IsOnward q) (Onward-across q) (cleanup-Onward q) now s

  Tenure-Onward : {id q : ℕ} {s t : Server} → Tenure id q s t → IsOnward q s t
  Tenure-Onward {q = q} {s = s} (begins e) = same-Onward (s.heap q) (s.heap q) refl
  Tenure-Onward {id = id} {q = q} {s = s} {t = u} (lasts {t = t} before step e) =
      Onward-trans (s.heap q) (t.heap q) (u.heap q) (Tenure-Onward before)
        (Step-Onward id q (still-listed before) step)

  past_login : (a : SessionAuthState) → a ≢ session_pre_login → 1 ≤ stage a
  past_login session_pre_login h = absurd (h refl)
  past_login session_awaiting_udp h = omega arith
  past_login session_ready h = omega arith

  -- As long as a player's entry leads to one session, through any steps of the server from a state
  -- that a new server reaches, that session keeps its player and its token and does not fall back
  -- to an earlier stage of the handshake; once it is ready, it stays ready at the same UDP address.
  pub tenure_lem :
      (cfg : Config) (game : Game) (s t : Server) (id q : ℕ)
      → Reach (new_server cfg game) s
      → Tenure id q s t
      → ((s.heap q).id ≡ id)
        × (1 ≤ stage (s.heap q).auth_state)
        × (stage (s.heap q).auth_state ≤ stage (t.heap q).auth_state)
        × ((t.heap q).id ≡ (s.heap q).id)
        × ((t.heap q).session_token ≡ (s.heap q).session_token)
        × ((s.heap q).auth_state ≡ session_ready → identity (t.heap q) ≡ identity (s.heap q))
  tenure_lem cfg game s t id q reach run =
      let v = reachable-Inv cfg game s reach in
      let (same, logged_in) = v.tracked id q (first run) in
      let on = Tenure-Onward run in
      let past = past_login (s.heap q).auth_state logged_in in
      let (onward, same_id, token) = on.kept past in
      (same, past, onward, same_id, token, on.settled)
    where
      first : {u : Server} → Tenure id q s u → get s.sessions id ≡ some q
      first (begins e) = e
      first (lasts before step e) = first before

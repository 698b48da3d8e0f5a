-- ===== src/System/Safety.antt =====
-- The servers that the goroutines can reach from a new one.
use godotnet.Base.{
  subst, inl, inr, List, ℕ, ◌+◌, ◌≤◌, ◌≡◌, ◌≢◌, sym, ap, ◌∙◌, Bool, true, false, some, [], nat_eq,
  string_eq, arith,
}
use godotnet.Base.Map.{get}
use godotnet.Events.{Event}
use godotnet.Session.{session_pre_login, session_ready}
use godotnet.Env.{Env}
use godotnet.Server.{Server, Config, new_server, modify}
use godotnet.Server.Intake.{accept_conn, new_session}
use godotnet.Server.Quiet.{to_ℕ, owed, goodbyes}
use godotnet.Server.Invariant.{Inv, Quiet-Inv, at-modify}
use godotnet.Server.Invariant.Tick.{run_tick-Inv}
use godotnet.System.Rounds.{IoStep-cases}
use godotnet.System.{IsFresh, IoStep, Step, io, ticked, Reach, here, next}

module _ ⦃env : Env⦄ where
  open env use {Game, clock}

  pub new_server-Inv : (cfg : Config) (game : Game) → Inv [] (new_server cfg game)
  unfolding new_server get owed goodbyes
  new_server-Inv cfg game = record {
    tracked = λ id r e. (cc);
    paired = λ a r e. (cc);
    addressed = λ r a e. (cc);
    accounted = λ r. omega arith;
  }

  accept_conn-Inv :
      {pending : List Event} (r : ℕ) (s : Server)
      → IsFresh r pending s
      → Inv pending s
      → Inv pending (accept_conn r s)
  unfolding accept_conn owed modify
  accept_conn-Inv {pending} r s fresh v = record {
    tracked = λ id q e.
        at-modify (λ x. (x.id ≡ id) × (x.auth_state ≢ session_pre_login)) r q (λ x. new_session s) s
          (λ hit. absurd (fresh.unlisted id (e ∙ ap some hit))) (λ miss. v.tracked id q e);
    paired = λ a q e.
        at-modify (λ x. (x.udp_addr ≡ some a) × (x.auth_state ≡ session_ready)) r q
          (λ x. new_session s) s (λ hit. absurd (fresh.unpaired a (e ∙ ap some hit)))
          (λ miss. v.paired a q e);
    addressed = λ q a.
        at-modify (λ x. x.udp_addr ≡ some a → x.auth_state ≡ session_ready) r q (λ x. new_session s)
          s (λ hit e. cc) (λ miss. v.addressed q a);
    accounted = λ q.
        at-modify
          (λ x.
            owed q pending + owed q s.events.buffer + goodbyes q s.trace ≤ to_ℕ x.disconnect_once)
          r q (λ x. new_session s) s
          (λ hit. omega (
            arith,
            fresh.unqueued,
            fresh.unused,
            ap (λ p. owed p pending + owed p s.events.buffer) hit,
            ap (λ p. goodbyes p s.trace) hit,
          ))
          (λ miss. v.accounted q);
  }

  pub IoStep-Inv :
      {pending : List Event} {s t : Server} → IoStep pending s t → Inv pending s → Inv pending t
  IoStep-Inv {pending} {s} {t} step v = elim (IoStep-cases pending s t step) [
    | inl q ↦ Quiet-Inv q v
    | inr (r, fresh, e) ↦ subst (Inv pending) (sym e) (accept_conn-Inv r s fresh v)
  ]

  pub Step-Inv : {s t : Server} → Step s t → Inv [] s → Inv [] t
  Step-Inv (io step) v = IoStep-Inv step v
  Step-Inv {s} (ticked now) v = run_tick-Inv now s v

  -- From a server that keeps the invariant every server that can be reached keeps it.
  pub Reach-Inv : {s t : Server} → Reach s t → Inv [] s → Inv [] t
  Reach-Inv here v = v
  Reach-Inv (next before step) v = Step-Inv step (Reach-Inv before v)

  -- Whatever the network, the clock and the game do: in every server that can be reached from a new
  -- one, each entry of `sessions` names a session logged in as that player, each entry of
  -- `udp_sessions` names a ready session at that address, only ready sessions have an address, and
  -- of each session the queued disconnect events and the calls of OnDisconnect together are at
  -- most one, and none before `disconnect_once` has fired.
  pub reachable-Inv :
      (cfg : Config) (game : Game) (s : Server) → Reach (new_server cfg game) s → Inv [] s
  reachable-Inv cfg game s reach = Reach-Inv reach (new_server-Inv cfg game)

  pub fired-le-one : (b : Bool) → to_ℕ b ≤ 1
  fired-le-one true = omega arith
  fired-le-one false = omega arith

  -- No session is the session of two players at once.
  pub one_player :
      (cfg : Config) (game : Game) (s : Server) (i j r : ℕ)
      → Reach (new_server cfg game) s
      → get s.sessions i ≡ some r
      → get s.sessions j ≡ some r
      → i ≡ j
  one_player cfg game s i j r reach p q =
      let v = reachable-Inv cfg game s reach in sym (v.tracked i r p).0 ∙ (v.tracked j r q).0

-- ===== src/Server/Access.antt =====
-- Who gets in: the outcomes of a login (handleLogin of handshake.go).
use godotnet.Base.{
  ℕ, ◌≡◌, ◌≢◌, refl, sym, ap, ◌∙◌, String, true, false, Option, none, some, nat_eq, string_eq,
  arith,
}
use godotnet.Base.Map.{get, put}
use godotnet.Errors.{Error}
use godotnet.Control.{Login}
use godotnet.Session.{Session, session_pre_login, session_awaiting_udp}
use godotnet.Env.{Env}
use godotnet.Callbacks.{Authenticate}
use godotnet.Server.{Server, modify}
use godotnet.Server.Cleanup.{invoke_on_auth}
use godotnet.Server.Handshake.{
  Verdict, accept, refuse, generate_session_token, send_login_response, credentials_of,
  call_authenticate, player_of, endpoint_of, enter, admit, turn_away, conclude, authenticate_then,
  handle_login,
}
use godotnet.Server.Quiet.{Quiet, Quiet-trans, identity}
use godotnet.Server.Quiet.Handlers.{on_auth-Quiet}
use godotnet.Server.Invariant.{heap-modify_self, heap-modify_ne}
use godotnet.Server.Quiet.Handshake.{token-Quiet, turn_away-Quiet, login_response-Quiet}
use godotnet.Server.Delivery.{schedule-fired}

module _ ⦃env : Env⦄ where
  open env use {Msg}

  -- What a login of the session `r` leaves alone: the other sessions' identities, and UDP.
  pub record Bystanders (r : ℕ) (s t : Server) : Type 0 where
    pub udp_sessions : t.udp_sessions ≡ s.udp_sessions
    pub others : (q : ℕ) → q ≢ r → identity (t.heap q) ≡ identity (s.heap q)
    pub own_addr : (t.heap r).udp_addr ≡ (s.heap r).udp_addr

  -- `entered`: the session is now listed as a player who was not connected, and awaits its
  -- datagram. `turned_away`: it has not logged in, and its disconnect has fired.
  pub data LoginOutcome (r : ℕ) (s t : Server) : Type 0 where
    entered :
        (id : ℕ)
        → get s.sessions id ≡ none
        → t.sessions ≡ put s.sessions id r
        → (t.heap r).id ≡ id
        → (t.heap r).auth_state ≡ session_awaiting_udp
        → Bystanders r s t
        → LoginOutcome r s t
    turned_away :
        t.sessions ≡ s.sessions
        → (t.heap r).auth_state ≡ session_pre_login
        → (t.heap r).disconnect_once ≡ true
        → Bystanders r s t
        → LoginOutcome r s t

  Quiet-Bystanders : (r : ℕ) (s t : Server) → Quiet s t → Bystanders r s t
  Quiet-Bystanders r s t q = record {
    udp_sessions = q.udp_sessions;
    others = λ p ne. q.same p;
    own_addr = ap (λ x. x.3) (q.same r);
  }

  Bystanders-trans :
      {r : ℕ} {s t u : Server} → Bystanders r s t → Bystanders r t u → Bystanders r s u
  Bystanders-trans b c = record {
    udp_sessions = c.udp_sessions ∙ b.udp_sessions;
    others = λ q ne. c.others q ne ∙ b.others q ne;
    own_addr = c.own_addr ∙ b.own_addr;
  }

  turn_away-fires :
      (r : ℕ) (msg : String) (reason : Error) (s : Server)
      → ((turn_away r msg reason s).heap r).disconnect_once ≡ true
  unfolding turn_away
  turn_away-fires r msg reason s =
      schedule-fired r reason (send_login_response r false msg 0 "" "" s)

  pub turn_away-denied :
      (r : ℕ) (msg : String) (reason : Error) (s : Server)
      → (s.heap r).auth_state ≡ session_pre_login
      → let t = turn_away r msg reason s in
        (t.sessions ≡ s.sessions)
        × ((t.heap r).auth_state ≡ session_pre_login)
        × ((t.heap r).disconnect_once ≡ true)
  turn_away-denied r msg reason s fresh =
      let q = turn_away-Quiet r msg reason s in
      (q.sessions, ap (λ x. x.1) (q.same r) ∙ fresh, turn_away-fires r msg reason s)

  turn_away-outcome :
      (r : ℕ) (msg : String) (reason : Error) (s : Server)
      → (s.heap r).auth_state ≡ session_pre_login
      → LoginOutcome r s (turn_away r msg reason s)
  turn_away-outcome r msg reason s fresh =
      let (same, state, over) = turn_away-denied r msg reason s fresh in
      turned_away same state over
        (Quiet-Bystanders r s (turn_away r msg reason s) (turn_away-Quiet r msg reason s))

  -- The server after the session has entered, up to what quiet changes leave alone.
  pub admit-Quiet :
      (r id : ℕ) (creds : Msg) (s : Server)
      → (s1 : Server) × (token : String) × Quiet s s1
        × Quiet (enter r id token s1) (admit r id creds s)
  unfolding admit
  admit-Quiet r id creds s =
      let (token, s1) = generate_session_token s in
      let s2 : Server = enter r id token s1 in
      let s3 : Server = invoke_on_auth s.cfg.on_auth r creds s2 in
      (
        s1,
        token,
        token-Quiet s,
        Quiet-trans (on_auth-Quiet s.cfg.on_auth r creds s2)
            (login_response-Quiet r true "" id token (endpoint_of s) s3),
      )

  pub enter-heap :
      (r id : ℕ) (token : String) (s : Server)
      → (((enter r id token s).heap r).id ≡ id)
        × (((enter r id token s).heap r).auth_state ≡ session_awaiting_udp)
        × ((enter r id token s).sessions ≡ put s.sessions id r)
        × Bystanders r s (enter r id token s)
  unfolding enter modify
  enter-heap r id token s =
      let into : Session → Session =
        λ x. record x { id = id; session_token = token; auth_state = session_awaiting_udp } in
      let e : (modify r into s).heap r ≡ into (s.heap r) = heap-modify_self r into s in
      (
        ap (λ x. x.id) e,
        ap (λ x. x.auth_state) e,
        refl,
        record {
          udp_sessions = refl;
          others = λ q ne. ap identity (heap-modify_ne r q into s ne);
          own_addr = ap (λ x. x.udp_addr) e;
        },
      )

  admit-outcome :
      (r id : ℕ) (creds : Msg) (s : Server)
      → get s.sessions id ≡ none
      → LoginOutcome r s (admit r id creds s)
  admit-outcome r id creds s absent =
      let (s1, token, before, after) = admit-Quiet r id creds s in
      let (same_id, state, listed, aside) = enter-heap r id token s1 in
      entered id absent (after.sessions ∙ listed ∙ ap (λ m. put m id r) before.sessions)
        (ap (λ x. x.0) (after.same r) ∙ same_id) (ap (λ x. x.1) (after.same r) ∙ state)
        (Bystanders-trans (Quiet-Bystanders r s s1 before) (
          Bystanders-trans aside
            (Quiet-Bystanders r (enter r id token s1) (admit r id creds s) after)))

  player_of-accept :
      (result : ℕ × Option Error) (id : ℕ) (s : Server)
      → player_of result s ≡ accept id
      → get s.sessions id ≡ none
  unfolding player_of
  player_of-accept (j, some err) id s e = cc
  player_of-accept (j, none) id s e = ground arith

  conclude-outcome :
      (r : ℕ) (creds : Msg) (result : ℕ × Option Error) (verdict : Verdict ℕ) (s : Server)
      → player_of result s ≡ verdict
      → (s.heap r).auth_state ≡ session_pre_login
      → LoginOutcome r s (conclude r creds verdict s)
  unfolding conclude
  conclude-outcome r creds result (accept id) s e fresh =
      admit-outcome r id creds s (player_of-accept result id s e)
  conclude-outcome r creds result (refuse msg reason) s e fresh =
      turn_away-outcome r msg reason s fresh

  since :
      {r : ℕ} {s s' t : Server}
      → s'.sessions ≡ s.sessions
      → Bystanders r s s'
      → LoginOutcome r s' t
      → LoginOutcome r s t
  since {r} e b (entered id absent listed same_id state aside) =
      entered id (ap (λ m. get m id) (sym e) ∙ absent) (listed ∙ ap (λ m. put m id r) e) same_id
        state (Bystanders-trans b aside)
  since e b (turned_away same state over aside) =
      turned_away (same ∙ e) state over (Bystanders-trans b aside)

  authenticate-outcome :
      (r : ℕ) (verdict : Verdict (Authenticate × Msg)) (s : Server)
      → (s.heap r).auth_state ≡ session_pre_login
      → LoginOutcome r s (authenticate_then r verdict s)
  unfolding authenticate_then call_authenticate
  authenticate-outcome r (refuse msg reason) s fresh = turn_away-outcome r msg reason s fresh
  authenticate-outcome r (accept (authenticate, creds)) s fresh =
      let (result, s') = call_authenticate authenticate creds s in
      since refl (record { udp_sessions = refl; others = λ q ne. refl; own_addr = refl })
        (conclude-outcome r creds result (player_of result s') s' refl fresh)

  -- Whatever the credentials and the game's callbacks do, a login of a session that has not logged
  -- in either lists it as a player who was not connected, every other entry staying as it was, or
  -- leaves the players as they were and fires the session's disconnect; either way no other
  -- session's identity changes, and no UDP address is paired or lost.
  pub handle_login_lem :
      (r : ℕ) (login : Login) (s : Server)
      → (s.heap r).auth_state ≡ session_pre_login
      → LoginOutcome r s (handle_login r login s)
  unfolding handle_login
  handle_login_lem r login s fresh = authenticate-outcome r (credentials_of s login) s fresh

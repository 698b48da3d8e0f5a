-- ===== src/Server/Invariant/Handshake.antt =====
-- The invariant under login and pairing (handshake.go).
use text.Mathlib.Text.{◌==◌ as str_eq}
use godotnet.Base.{
  ℕ, ◌≡◌, ◌≢◌, refl, sym, ap, ◌∙◌, String, Bool, true, false, not, Option, none, some, List,
  if◌then◌else◌, inl, inr, nat_eq, string_eq, arith,
}
use godotnet.Base.Map.{get, get-put-cases}
use godotnet.Control.{Login, UdpHandshake}
use godotnet.Events.{Event}
use godotnet.Session.{
  Session, SessionAuthState, session_pre_login, session_awaiting_udp, session_ready,
}
use godotnet.Env.{Env}
use godotnet.Callbacks.{Authenticate}
use godotnet.Server.{Server, modify}
use godotnet.Server.Cleanup.{invoke_on_auth}
use godotnet.Server.Handshake.{
  Verdict, accept, refuse, is_awaiting_udp, generate_session_token, credentials_of,
  call_authenticate, player_of, endpoint_of, enter, admit, conclude, authenticate_then,
  handle_login, send_udp_handshake_ack, pair, accept_pairing, handle_udp_handshake,
}
use godotnet.Server.Quiet.{to_ℕ, fired, Quiet, Quiet-trans, Quiet-aside, modify-pointwise}
use godotnet.Server.Quiet.Handshake.{token-Quiet, login_response-Quiet, ack-Quiet, turn_away-Quiet}
use godotnet.Server.Quiet.Handlers.{on_connect-Quiet, on_auth-Quiet}
use godotnet.Server.Invariant.{Inv, Quiet-Inv, at-modify}

module _ ⦃env : Env⦄ where
  open env use {Msg, marshal_frame, random, clock}

  -- A session that has not logged in gets a player.
  enter-Inv :
      {pending : List Event} (r id : ℕ) (token : String) (s : Server)
      → (s.heap r).auth_state ≡ session_pre_login
      → Inv pending s
      → Inv pending (enter r id token s)
  unfolding enter modify
  enter-Inv {pending} r id token s fresh v = record {
    tracked = λ j q e. elim (get-put-cases s.sessions id j r q e) [
      | inl (k, p) ↦
          at-modify (λ x. (x.id ≡ j) × (x.auth_state ≢ session_pre_login)) r q into s
            (λ hit. (k, λ c. (cc))) (λ miss. absurd (miss p))
      | inr old ↦
          let (same_id, in_game) = v.tracked j q old in
          at-modify (λ x. (x.id ≡ j) × (x.auth_state ≢ session_pre_login)) r q into s
            (λ hit. absurd (in_game (ap (λ p. (s.heap p).auth_state) hit ∙ fresh)))
            (λ miss. (same_id, in_game))
    ];
    paired = λ a q e.
        let (addr, ready) = v.paired a q e in
        at-modify (λ x. (x.udp_addr ≡ some a) × (x.auth_state ≡ session_ready)) r q into s
          (λ hit. absurd (never_ready (ap (λ p. (s.heap p).auth_state) (sym hit) ∙ ready)))
          (λ miss. (addr, ready));
    addressed = λ q a.
        at-modify (λ x. x.udp_addr ≡ some a → x.auth_state ≡ session_ready) r q into s
          (λ hit e. absurd (never_ready (v.addressed r a e))) (λ miss. v.addressed q a);
    accounted = λ q.
        let same : fired (enter r id token s) q ≡ fired s q =
          modify-pointwise (λ x y. to_ℕ y.disconnect_once ≡ to_ℕ x.disconnect_once) r into s
            (λ x. refl) refl q in
        omega (arith, v.accounted q);
  }
    where
      into : Session → Session
      into x = record x { id = id; session_token = token; auth_state = session_awaiting_udp }

      never_ready : (s.heap r).auth_state ≢ session_ready
      never_ready e = cc

  -- A session that awaits its datagram becomes ready at the datagram's address.
  pair-Inv :
      {pending : List Event} (addr : String) (r : ℕ) (s : Server)
      → (s.heap r).auth_state ≡ session_awaiting_udp
      → Inv pending s
      → Inv pending (pair addr r s)
  unfolding pair modify
  pair-Inv {pending} addr r s waiting v = record {
    tracked = λ j q e.
        let (same_id, in_game) = v.tracked j q e in
        at-modify (λ x. (x.id ≡ j) × (x.auth_state ≢ session_pre_login)) r q ready_at s
          (λ hit. (ap (λ p. (s.heap p).id) (sym hit) ∙ same_id, λ c. (cc)))
          (λ miss. (same_id, in_game));
    paired = λ a q e. elim (get-put-cases s.udp_sessions addr a r q e) [
      | inl (k, p) ↦
          at-modify (λ x. (x.udp_addr ≡ some a) × (x.auth_state ≡ session_ready)) r q ready_at s
            (λ hit. (ap some k, refl)) (λ miss. absurd (miss p))
      | inr old ↦
          let (at_addr, ready) = v.paired a q old in
          at-modify (λ x. (x.udp_addr ≡ some a) × (x.auth_state ≡ session_ready)) r q ready_at s
            (λ hit. absurd (not_yet (ap (λ p. (s.heap p).auth_state) (sym hit) ∙ ready)))
            (λ miss. (at_addr, ready))
    ];
    addressed = λ q a.
        at-modify (λ x. x.udp_addr ≡ some a → x.auth_state ≡ session_ready) r q ready_at s
          (λ hit e. refl) (λ miss. v.addressed q a);
    accounted = λ q.
        let same : fired (pair addr r s) q ≡ fired s q =
          modify-pointwise (λ x y. to_ℕ y.disconnect_once ≡ to_ℕ x.disconnect_once) r ready_at s
            (λ x. refl) refl q in
        omega (arith, v.accounted q);
  }
    where
      ready_at : Session → Session
      ready_at x = record x {
        udp_addr = some addr;
        auth_state = session_ready;
        last_seen_unix_nano = clock s.clock_reads;
      }

      not_yet : (s.heap r).auth_state ≢ session_ready
      not_yet e = cc

  admit-Inv :
      {pending : List Event} (r id : ℕ) (creds : Msg) (s : Server)
      → (s.heap r).auth_state ≡ session_pre_login
      → Inv pending s
      → Inv pending (admit r id creds s)
  unfolding admit
  admit-Inv r id creds s fresh v =
      let (token, s1) = generate_session_token s in
      let drawn : Quiet s s1 = token-Quiet s in
      let still : (s1.heap r).auth_state ≡ session_pre_login =
        ap (λ x. x.1) (drawn.same r) ∙ fresh in
      let s2 : Server = enter r id token s1 in
      let s3 : Server = invoke_on_auth s.cfg.on_auth r creds s2 in
      Quiet-Inv
        (Quiet-trans (on_auth-Quiet s.cfg.on_auth r creds s2)
          (login_response-Quiet r true "" id token (endpoint_of s) s3))
        (enter-Inv r id token s1 still (Quiet-Inv drawn v))

  conclude-Inv :
      {pending : List Event} (r : ℕ) (creds : Msg) (verdict : Verdict ℕ) (s : Server)
      → (s.heap r).auth_state ≡ session_pre_login
      → Inv pending s
      → Inv pending (conclude r creds verdict s)
  unfolding conclude
  conclude-Inv r creds (accept id) s fresh v = admit-Inv r id creds s fresh v
  conclude-Inv r creds (refuse msg reason) s fresh v = Quiet-Inv (turn_away-Quiet r msg reason s) v

  authenticate-Inv :
      {pending : List Event} (r : ℕ) (verdict : Verdict (Authenticate × Msg)) (s : Server)
      → (s.heap r).auth_state ≡ session_pre_login
      → Inv pending s
      → Inv pending (authenticate_then r verdict s)
  unfolding authenticate_then
  authenticate-Inv r (refuse msg reason) s fresh v = Quiet-Inv (turn_away-Quiet r msg reason s) v
  authenticate-Inv r (accept (authenticate, creds)) s fresh v =
      let (result, s') = call_authenticate authenticate creds s in
      conclude-Inv r creds (player_of result s') s' fresh
        (Quiet-Inv (Quiet-aside s s' refl refl refl refl refl refl) v)

  pub handle_login-Inv :
      {pending : List Event} (r : ℕ) (login : Login) (s : Server)
      → (s.heap r).auth_state ≡ session_pre_login
      → Inv pending s
      → Inv pending (handle_login r login s)
  unfolding handle_login
  handle_login-Inv r login s fresh v = authenticate-Inv r (credentials_of s login) s fresh v

  accept_pairing-Inv :
      {pending : List Event} (addr : String) (r : ℕ) (s : Server)
      → (s.heap r).auth_state ≡ session_awaiting_udp
      → Inv pending s
      → Inv pending (accept_pairing addr r s)
  unfolding accept_pairing
  accept_pairing-Inv addr r s waiting v =
      let s1 : Server = pair addr r s in
      let s2 : Server = send_udp_handshake_ack addr true (s.heap r).id s1 in
      Quiet-Inv
        (Quiet-trans (ack-Quiet addr true (s.heap r).id s1)
          (on_connect-Quiet s.cfg.on_connect r s2))
        (pair-Inv addr r s waiting v)

  pub awaiting : (a : SessionAuthState) → is_awaiting_udp a ≡ true → a ≡ session_awaiting_udp
  awaiting session_awaiting_udp h = refl
  awaiting session_pre_login h = cc
  awaiting session_ready h = cc

  pub handle_udp_handshake-Inv :
      {pending : List Event} (addr : String) (hs : UdpHandshake) (s : Server)
      → Inv pending s
      → Inv pending (handle_udp_handshake addr hs s)
  unfolding handle_udp_handshake
  handle_udp_handshake-Inv {pending} addr hs s v = player (get s.sessions hs.player_id)
    where
      refused : Inv pending (send_udp_handshake_ack addr false hs.player_id s)
      refused = Quiet-Inv (ack-Quiet addr false hs.player_id s) v

      state :
          (r : ℕ) (b : Bool)
          → is_awaiting_udp (s.heap r).auth_state ≡ b
          → Inv pending (if not b then s else accept_pairing addr r s)
      state r false e = v
      state r true e = accept_pairing-Inv addr r s (awaiting (s.heap r).auth_state e) v

      token :
          (r : ℕ) (b : Bool)
          → Inv pending (
              if not b
              then send_udp_handshake_ack addr false hs.player_id s
              else if not (is_awaiting_udp (s.heap r).auth_state)
              then s
              else accept_pairing addr r s)
      token r false = refused
      token r true = state r (is_awaiting_udp (s.heap r).auth_state) refl

      player :
          (o : Option ℕ)
          → Inv pending (elim o [
            | none ↦ send_udp_handshake_ack addr false hs.player_id s
            | some r ↦
                if not (str_eq (s.heap r).session_token hs.session_token)
                then send_udp_handshake_ack addr false hs.player_id s
                else if not (is_awaiting_udp (s.heap r).auth_state)
                then s
                else accept_pairing addr r s
          ])
      player none = refused
      player (some r) = token r (str_eq (s.heap r).session_token hs.session_token)

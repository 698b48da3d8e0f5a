-- ===== src/Server/Present.antt =====
-- A player who has not been told to leave is listed (handshake.go, server.go, tick.go): the
-- operations.
use godotnet.Base.{
  ℕ, ◌+◌, ◌≤◌, ◌≡◌, ◌≢◌, sym, ap, subst, ◌∙◌, inl, inr, String, true, false, none, some, List, ◌==◌,
  ==_iff, Bool-cases, nat_eq, string_eq, arith,
}
use godotnet.Base.Map.{get, put, get-put, get-put_self}
use godotnet.Control.{Login, UdpHandshake}
use godotnet.Events.{Event}
use godotnet.Session.{Session, session_pre_login, session_awaiting_udp, session_ready}
use godotnet.Env.{Env}
use godotnet.Callbacks.{Authenticate}
use godotnet.Server.{Server}
use godotnet.Server.Handshake.{
  Verdict, accept, refuse, credentials_of, call_authenticate, player_of, conclude,
  authenticate_then, handle_login, handle_udp_handshake,
}
use godotnet.Server.Quiet.{identity, owed, fired, Quiet}
use godotnet.Server.Quiet.Handshake.{turn_away-Quiet}
use godotnet.Server.Route.{IsAcross}
use godotnet.Server.Access.{
  LoginOutcome, entered, turned_away, handle_login_lem, admit-Quiet, enter-heap,
}
use godotnet.Server.Pairing.{PairingOutcome, paired, not_paired, handle_udp_handshake_lem}
use godotnet.Server.Later.{HasPlayer}
use godotnet.Server.Owing.{Loud, Quiet-Loud, Loud-trans, Loud-across}

module _ ⦃env : Env⦄ where
  open env use {Msg}

  -- `unnamed`: before its login a session is no player's. `present`: a session that has logged in and
  -- whose disconnect has not fired, or has and its event is still queued or drained and not handled,
  -- is listed as its player.
  pub record Present (pending : List Event) (s : Server) : Type 0 where
    pub unnamed : (r : ℕ) → (s.heap r).auth_state ≡ session_pre_login → (s.heap r).id ≡ 0
    pub present :
        (r : ℕ)
        → HasPlayer r s
        → fired s r ≤ owed r pending + owed r s.events.buffer
        → get s.sessions (s.heap r).id ≡ some r

  -- What of a session's identity stays: its player, and whether it has logged in.
  abbrev SameStage : Session → Session → Type 0
  SameStage x y =
      (y.id ≡ x.id)
      × (y.auth_state ≡ session_pre_login → x.auth_state ≡ session_pre_login)
      × (x.auth_state ≡ session_pre_login → y.auth_state ≡ session_pre_login)

  same-SameStage : (x y : Session) → identity y ≡ identity x → SameStage x y
  same-SameStage x y e = (ap (λ i. i.0) e, λ h. sym (ap (λ i. i.1) e) ∙ h, λ h. ap (λ i. i.1) e ∙ h)

  pub owing :
      {s t : Server} (pending : List Event)
      → Loud s t
      → (r : ℕ) → fired t r ≤ owed r pending + owed r t.events.buffer
      → fired s r ≤ owed r pending + owed r s.events.buffer
  owing pending l r h = omega (arith, h, l.debt r)

  carry-Present :
      {s t : Server} (pending : List Event)
      → Loud s t
      → ((q : ℕ) → SameStage (s.heap q) (t.heap q))
      → t.sessions ≡ s.sessions
      → Present pending s
      → Present pending t
  carry-Present {s} {t} pending l stage same v = record {
    unnamed = λ r e. (stage r).0 ∙ v.unnamed r ((stage r).1 e);
    present = λ r h due.
        ap (λ m. get m (t.heap r).id) same
        ∙ ap (get s.sessions) (stage r).0
        ∙ v.present r (λ e. h ((stage r).2 e)) (owing pending l r due);
  }

  pub Quiet-Present :
      {s t : Server} (pending : List Event) → Quiet s t → Present pending s → Present pending t
  Quiet-Present {s} {t} pending q =
      carry-Present pending (Quiet-Loud q) (λ r. same-SameStage (s.heap r) (t.heap r) (q.same r))
        q.sessions

  -- A login that leaves the session where it was leaves it no player's.
  conclude-unnamed :
      (r : ℕ) (creds : Msg) (verdict : Verdict ℕ) (s : Server)
      → ((conclude r creds verdict s).heap r).auth_state ≡ session_pre_login
      → ((conclude r creds verdict s).heap r).id ≡ (s.heap r).id
  unfolding conclude
  conclude-unnamed r creds (refuse msg reason) s e =
      ap (λ i. i.0) ((turn_away-Quiet r msg reason s).same r)
  conclude-unnamed r creds (accept id) s e =
      let (s1, token, before, after) = admit-Quiet r id creds s in
      let (same_id, state, put_in, aside) = enter-heap r id token s1 in
      let odd : session_awaiting_udp ≡ session_pre_login =
        sym state ∙ sym (ap (λ i. i.1) (after.same r)) ∙ e in
      cc

  authenticate-unnamed :
      (r : ℕ) (verdict : Verdict (Authenticate × Msg)) (s : Server)
      → ((authenticate_then r verdict s).heap r).auth_state ≡ session_pre_login
      → ((authenticate_then r verdict s).heap r).id ≡ (s.heap r).id
  unfolding authenticate_then call_authenticate
  authenticate-unnamed r (refuse msg reason) s e =
      ap (λ i. i.0) ((turn_away-Quiet r msg reason s).same r)
  authenticate-unnamed r (accept (authenticate, creds)) s e =
      let (result, s') = call_authenticate authenticate creds s in
      conclude-unnamed r creds (player_of result s') s' e

  login-unnamed :
      (r : ℕ) (l : Login) (s : Server)
      → ((handle_login r l s).heap r).auth_state ≡ session_pre_login
      → ((handle_login r l s).heap r).id ≡ (s.heap r).id
  unfolding handle_login
  login-unnamed r l s = authenticate-unnamed r (credentials_of s l) s

  Login-Present :
      (pending : List Event) (r : ℕ) (s t : Server)
      → (s.heap r).auth_state ≡ session_pre_login
      → Loud s t
      → ((t.heap r).auth_state ≡ session_pre_login → (t.heap r).id ≡ (s.heap r).id)
      → LoginOutcome r s t
      → Present pending s
      → Present pending t
  Login-Present pending r s t fresh l same_name (turned_away same state over aside) v =
      carry-Present pending l stage same v
    where
      stage : (q : ℕ) → SameStage (s.heap q) (t.heap q)
      stage q = elim (Bool-cases (q == r)) [
        | inl hit ↦
            subst (λ p. SameStage (s.heap p) (t.heap p)) (sym ((==_iff q r).0 hit))
              (same_name state, λ e. fresh, λ e. state)
        | inr miss ↦
            same-SameStage (s.heap q) (t.heap q)
              (aside.others q (λ p. let hit : (q == r) ≡ true = (==_iff q r).1 p in cc))
      ]
  Login-Present pending r s t fresh l same_name (entered id absent listed same_id state aside) v =
      record { unnamed = unnamed'; present = present' }
    where
      other : (q : ℕ) → (q == r) ≡ false → q ≢ r
      other q miss p = let hit : (q == r) ≡ true = (==_iff q r).1 p in cc

      unnamed' : (q : ℕ) → (t.heap q).auth_state ≡ session_pre_login → (t.heap q).id ≡ 0
      unnamed' q e = elim (Bool-cases (q == r)) [
        | inl hit ↦
            let odd : session_awaiting_udp ≡ session_pre_login =
              sym state ∙ sym (ap (λ p. (t.heap p).auth_state) ((==_iff q r).0 hit)) ∙ e in
            cc
        | inr miss ↦
            let same = aside.others q (other q miss) in
            ap (λ i. i.0) same ∙ v.unnamed q (sym (ap (λ i. i.1) same) ∙ e)
      ]

      beside :
          (q : ℕ)
          → get s.sessions (s.heap q).id ≡ some q
          → get (put s.sessions id r) (s.heap q).id ≡ some q
      beside q h = elim (Bool-cases (id == (s.heap q).id)) [
        | inl hit ↦
            let odd : none ≡ some q =
              sym absent ∙ ap (get s.sessions) ((==_iff id (s.heap q).id).0 hit) ∙ h in
            cc
        | inr miss ↦ rw (get-put s.sessions id (s.heap q).id r, miss) h
      ]

      own : get t.sessions (t.heap r).id ≡ some r
      own =
          ap (λ m. get m (t.heap r).id) listed
          ∙ ap (get (put s.sessions id r)) same_id
          ∙ get-put_self s.sessions id r

      present' :
          (q : ℕ)
          → HasPlayer q t
          → fired t q ≤ owed q pending + owed q t.events.buffer
          → get t.sessions (t.heap q).id ≡ some q
      present' q h due = elim (Bool-cases (q == r)) [
        | inl hit ↦
            subst (λ p. get t.sessions (t.heap p).id ≡ some p) (sym ((==_iff q r).0 hit)) own
        | inr miss ↦
            let same = aside.others q (other q miss) in
            ap (λ m. get m (t.heap q).id) listed
            ∙ ap (λ i. get (put s.sessions id r) i.0) same
            ∙ beside q (v.present q (λ e. h (ap (λ i. i.1) same ∙ e)) (owing pending l q due))
      ]

  Pairing-Present :
      (pending : List Event) (addr : String) (hs : UdpHandshake) (s t : Server)
      → Loud s t
      → PairingOutcome addr hs s t
      → Present pending s
      → Present pending t
  Pairing-Present pending addr hs s t l (not_paired why same udp listed) =
      carry-Present pending l (λ q. same-SameStage (s.heap q) (t.heap q) (same q)) listed
  Pairing-Present pending addr hs s t l (paired r found token waiting now others udp listed) =
      carry-Present pending l stage listed
    where
      stage : (q : ℕ) → SameStage (s.heap q) (t.heap q)
      stage q = elim (Bool-cases (q == r)) [
        | inl hit ↦
            subst (λ p. SameStage (s.heap p) (t.heap p)) (sym ((==_iff q r).0 hit))
              (
                ap (λ i. i.0) now,
                λ e.
                    let odd : session_ready ≡ session_pre_login = sym (ap (λ i. i.1) now) ∙ e in
                    (cc),
                λ e. let odd : session_awaiting_udp ≡ session_pre_login = sym waiting ∙ e in (cc),
              )
        | inr miss ↦
            same-SameStage (s.heap q) (t.heap q)
              (others q (λ p. let hit : (q == r) ≡ true = (==_iff q r).1 p in cc))
      ]

  -- A change that owes no more than has fired, and keeps the players present.
  abbrev pub Onward : List Event → Server → Server → Type 0
  Onward pending s t = Loud s t × (Present pending s → Present pending t)

  pub Onward-across : (pending : List Event) → IsAcross (Onward pending)
  Onward-across pending = record {
    quiet = λ s t q. (Quiet-Loud q, Quiet-Present pending q);
    both = λ s t u f g. (Loud-trans f.0 g.0, λ v. g.1 (f.1 v));
    logs_in = λ r l s fresh.
        let loud : Loud s (handle_login r l s) = Loud-across.logs_in r l s fresh in
        (
          loud,
          Login-Present pending r s (handle_login r l s) fresh loud (login-unnamed r l s)
              (handle_login_lem r l s fresh),
        );
    pairs = λ addr hs s.
        let loud : Loud s (handle_udp_handshake addr hs s) = Loud-across.pairs addr hs s in
        (
          loud,
          Pairing-Present pending addr hs s (handle_udp_handshake addr hs s) loud
              (handle_udp_handshake_lem addr hs s),
        );
  }

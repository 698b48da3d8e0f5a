-- ===== src/Server/Onward.antt =====
-- The stages of a session (session.go): what no event of a tick takes back.
use godotnet.Base.{
  ℕ, zero, suc, ◌≤◌, ◌≡◌, ◌≢◌, sym, ap, subst, ◌∙◌, inl, inr, String, true, Option, some, ◌==◌,
  ==_iff, Bool-cases, nat_eq, string_eq, arith,
}
use godotnet.Errors.{Error}
use godotnet.Control.{UdpHandshake}
use godotnet.Server.Handshake.{handle_login, handle_udp_handshake}
use godotnet.Session.{
  Session, SessionAuthState, session_pre_login, session_awaiting_udp, session_ready,
}
use godotnet.Env.{Env}
use godotnet.Server.{Server}
use godotnet.Server.Cleanup.{cleanup_session}
use godotnet.Server.Quiet.{identity}
use godotnet.Server.Route.{IsAcross}
use godotnet.Server.Access.{LoginOutcome, entered, turned_away, handle_login_lem}
use godotnet.Server.Pairing.{PairingOutcome, paired, not_paired, handle_udp_handshake_lem}
use godotnet.Server.Later.{identity-cleanup}

-- The constants' own order in session.go.
abbrev pub stage : SessionAuthState → ℕ
stage session_pre_login = 0
stage session_awaiting_udp = 1
stage session_ready = 2

-- From one state of a session to a later one: once it has logged in it keeps its player and its
-- token and does not fall back, and once it is ready it keeps its address too.
pub record Onward (x y : Session) : Type 0 where
  pub kept :
      1 ≤ stage x.auth_state
      → (stage x.auth_state ≤ stage y.auth_state)
        × (y.id ≡ x.id)
        × (y.session_token ≡ x.session_token)
  pub settled : x.auth_state ≡ session_ready → identity y ≡ identity x

pub same-Onward : (x y : Session) → identity y ≡ identity x → Onward x y
same-Onward x y e = record {
  kept = λ h.
      let same : stage y.auth_state ≡ stage x.auth_state = ap (λ i. stage i.1) e in
      (omega (arith, same), ap (λ i. i.0) e, ap (λ i. i.2) e);
  settled = λ h. e;
}

pub Onward-trans : (x y z : Session) → Onward x y → Onward y z → Onward x z
Onward-trans x y z p q = record {
  kept = λ h.
      let (on, id, token) = p.kept h in
      let (on', id', token') = q.kept (omega (arith, on, h)) in
      (omega (arith, on, on'), id' ∙ id, token' ∙ token);
  settled = λ h. q.settled (ap (λ i. i.1) (p.settled h) ∙ h) ∙ p.settled h;
}

-- A session that has not logged in yet may become anything.
fresh-Onward : (x y : Session) → x.auth_state ≡ session_pre_login → Onward x y
fresh-Onward x y e = record {
  kept = λ h.
      let none_yet : stage x.auth_state ≡ 0 = ap stage e in
      let never : zero ≡ suc zero = omega (arith, none_yet, h) in cc;
  settled = λ h. (let odd : session_pre_login ≡ session_ready = sym e ∙ h in cc);
}

paired-Onward :
    (x y : Session) (addr : Option String)
    → x.auth_state ≡ session_awaiting_udp
    → identity y ≡ (x.id, session_ready, x.session_token, addr)
    → Onward x y
paired-Onward x y addr waiting now = record {
  kept = λ h.
      let one : stage x.auth_state ≡ 1 = ap stage waiting in
      let two : stage y.auth_state ≡ 2 = ap (λ i. stage i.1) now in
      (omega (arith, one, two), ap (λ i. i.0) now, ap (λ i. i.2) now);
  settled = λ h. (let odd : session_awaiting_udp ≡ session_ready = sym waiting ∙ h in cc);
}

module _ ⦃env : Env⦄ where
  abbrev pub IsOnward : ℕ → Server → Server → Type 0
  IsOnward q s t = Onward (s.heap q) (t.heap q)

  login-Onward :
      (q r : ℕ) (s t : Server)
      → (s.heap r).auth_state ≡ session_pre_login
      → LoginOutcome r s t
      → IsOnward q s t
  login-Onward q r s t fresh outcome = elim (Bool-cases (q == r)) [
    | inl hit ↦
        fresh-Onward (s.heap q) (t.heap q)
          (ap (λ p. (s.heap p).auth_state) ((==_iff q r).0 hit) ∙ fresh)
    | inr miss ↦
        same-Onward (s.heap q) (t.heap q)
          (aside outcome (λ p. let hit : (q == r) ≡ true = (==_iff q r).1 p in cc))
  ]
    where
      aside : LoginOutcome r s t → q ≢ r → identity (t.heap q) ≡ identity (s.heap q)
      aside (entered id absent listed same_id state b) ne = b.others q ne
      aside (turned_away same state over b) ne = b.others q ne

  pairing-Onward :
      (q : ℕ) (addr : String) (hs : UdpHandshake) (s t : Server)
      → PairingOutcome addr hs s t
      → IsOnward q s t
  pairing-Onward q addr hs s t (not_paired why same udp listed) =
      same-Onward (s.heap q) (t.heap q) (same q)
  pairing-Onward q addr hs s t (paired r found token waiting now others udp listed) =
      elim (Bool-cases (q == r)) [
        | inl hit ↦
            subst (λ p. IsOnward p s t) (sym ((==_iff q r).0 hit))
              (paired-Onward (s.heap r) (t.heap r) (some addr) waiting now)
        | inr miss ↦
            same-Onward (s.heap q) (t.heap q)
              (others q (λ p. let hit : (q == r) ≡ true = (==_iff q r).1 p in cc))
      ]

  pub Onward-across : (q : ℕ) → IsAcross (IsOnward q)
  Onward-across q = record {
    quiet = λ s t k. same-Onward (s.heap q) (t.heap q) (k.same q);
    both = λ s t u. Onward-trans (s.heap q) (t.heap q) (u.heap q);
    logs_in =
        λ r l s fresh. login-Onward q r s (handle_login r l s) fresh (handle_login_lem r l s fresh);
    pairs = λ addr hs s.
        pairing-Onward q addr hs s (handle_udp_handshake addr hs s)
          (handle_udp_handshake_lem addr hs s);
  }

  pub cleanup-Onward :
      (q r : ℕ) (reason : Option Error) (s : Server)
      → IsOnward q s (cleanup_session (some r) reason s)
  cleanup-Onward q r reason s = same-Onward (s.heap q) _ (identity-cleanup r reason s q)

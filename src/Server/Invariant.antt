-- ===== src/Server/Invariant.antt =====
-- The invariant of a server: whom its session maps name, and how many disconnects it owes.
pub mod Handshake
pub mod Cleanup
pub mod Tick
use godotnet.Base.{
  ℕ, ◌+◌, ◌≤◌, ◌≡◌, ◌≢◌, refl, sym, ap, subst, ◌∙◌, String, Bool, true, false, Option, none, some,
  List, [], ◌∷◌, ◌++◌, ◌==◌, ==_iff, if◌then◌else◌, Bool-cases, inl, inr, nat_eq, string_eq, arith,
}
use godotnet.Base.Map.{get, put, get-put}
use godotnet.Events.{Event, Queue}
use godotnet.Session.{
  Session, SessionAuthState, session_pre_login, session_awaiting_udp, session_ready,
}
use godotnet.Env.{Env}
use godotnet.Server.{Server, modify}
use godotnet.Server.Quiet.{to_ℕ, owed, goodbyes, identity, fired, Quiet, modify-pointwise}

module _ ⦃env : Env⦄ where
  -- `pending` are the events that the tick has drained and not handled yet. `tracked`: a player's
  -- entry names a session that is logged in as that player. `paired`: an address's entry names a
  -- session that is ready at that address. `addressed`: only a ready session has a UDP address.
  -- `accounted`: of a session there is at most one disconnect event or call of OnDisconnect, and
  -- none before its `disconnect_once` has fired.
  pub record Inv (pending : List Event) (s : Server) : Type 0 where
    pub tracked :
        (id r : ℕ)
        → get s.sessions id ≡ some r
        → ((s.heap r).id ≡ id) × ((s.heap r).auth_state ≢ session_pre_login)
    pub paired :
        (a : String) (r : ℕ)
        → get s.udp_sessions a ≡ some r
        → ((s.heap r).udp_addr ≡ some a) × ((s.heap r).auth_state ≡ session_ready)
    pub addressed :
        (r : ℕ) (a : String) → (s.heap r).udp_addr ≡ some a → (s.heap r).auth_state ≡ session_ready
    pub accounted :
        (r : ℕ) → owed r pending + owed r s.events.buffer + goodbyes r s.trace ≤ fired s r

  -- Quiet changes keep it.
  pub Quiet-Inv : {pending : List Event} {s t : Server} → Quiet s t → Inv pending s → Inv pending t
  Quiet-Inv {pending} {s} {t} q v = record {
    tracked = λ id r e.
        let (same_id, in_game) = v.tracked id r (ap (λ m. get m id) (sym q.sessions) ∙ e) in
        (ap (λ x. x.0) (q.same r) ∙ same_id, λ p. in_game (sym (ap (λ x. x.1) (q.same r)) ∙ p));
    paired = λ a r e.
        let (addr, ready) = v.paired a r (ap (λ m. get m a) (sym q.udp_sessions) ∙ e) in
        (ap (λ x. x.3) (q.same r) ∙ addr, ap (λ x. x.1) (q.same r) ∙ ready);
    addressed =
        λ r a e. ap (λ x. x.1) (q.same r) ∙ v.addressed r a (sym (ap (λ x. x.3) (q.same r)) ∙ e);
    accounted = λ r. omega (arith, v.accounted r, q.debt r, q.once r, q.parted r);
  }

  pub heap-modify_self :
      (r : ℕ) (f : Session → Session) (s : Server) → (modify r f s).heap r ≡ f (s.heap r)
  unfolding modify
  heap-modify_self r f s = rw ((==_iff r r).1 refl, modify)

  pub heap-modify_ne :
      (r q : ℕ) (f : Session → Session) (s : Server) → q ≢ r → (modify r f s).heap q ≡ s.heap q
  unfolding modify
  heap-modify_ne r q f s h = elim (Bool-cases (q == r)) [
    | inl hit ↦ absurd (h ((==_iff q r).0 hit))
    | inr miss ↦ rw (miss, modify)
  ]

  -- A property of one session after a write, by the session.
  pub at-modify :
      (P : Session → Type 0) (r q : ℕ) (f : Session → Session) (s : Server)
      → (q ≡ r → P (f (s.heap r)))
      → (q ≢ r → P (s.heap q))
      → P ((modify r f s).heap q)
  unfolding modify
  at-modify P r q f s here there = elim (Bool-cases (q == r)) [
    | inl hit ↦ rw (hit, modify) (here ((==_iff q r).0 hit))
    | inr miss ↦ rw (miss, modify) (there (λ e. let hit : (q == r) ≡ true = (==_iff q r).1 e in cc))
  ]

  -- An event that is no disconnect, or whose disconnect is over, no longer counts.
  pub drop-Inv :
      {pending : List Event} {s : Server} (e : Event) → Inv (e ∷ pending) s → Inv pending s
  unfolding owed
  drop-Inv e v = record {
    tracked = v.tracked;
    paired = v.paired;
    addressed = v.addressed;
    accounted = λ r. omega (arith, v.accounted r);
  }

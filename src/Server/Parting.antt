-- ===== src/Server/Parting.antt =====
-- A player who has not been told to leave is listed (server.go, tick.go): the cleanup, and the
-- events of a tick.
use godotnet.Base.{
  ℕ, ◌+◌, ◌≤◌, ◌≡◌, ◌≢◌, refl, ap, ◌∙◌, Bool, true, false, Option, some, List, ◌∷◌, ◌==◌, ==_iff,
  nat_eq, string_eq, arith,
}
use godotnet.Base.Map.{get}
use godotnet.Errors.{Error}
use godotnet.Events.{Event, event_disconnect, Queue}
use godotnet.Session.{Session}
use godotnet.Env.{Env}
use godotnet.Server.{Server}
use godotnet.Server.Cleanup.{forget_player, forget_addr, close_tcp, close_channel, cleanup_session}
use godotnet.Server.Quiet.{to_ℕ, disconnects, owed, fired}
use godotnet.Server.Invariant.{Inv}
use godotnet.Server.Later.{heap-on_disconnect}
use godotnet.Server.Owing.{Loud}
use godotnet.Server.Accounts.{cleanup-Loud, events-on_disconnect}
use godotnet.Server.Present.{Present}

module _ ⦃env : Env⦄ where
  -- What has fired stays fired, and no more events are queued than have fired.
  pub record Honest (s t : Server) : Type 0 where
    pub once : (r : ℕ) → fired s r ≤ fired t r
    pub debt : (r : ℕ) → owed r t.events.buffer + fired s r ≤ owed r s.events.buffer + fired t r

  pub Loud-Honest : {s t : Server} → Loud s t → Honest s t
  Loud-Honest l = record { once = l.once; debt = l.debt }

  pub cleanup-Honest :
      (r : ℕ) (reason : Option Error) (s : Server) → Honest s (cleanup_session (some r) reason s)
  unfolding cleanup_session
  cleanup-Honest r reason s =
      let x : Session = s.heap r in
      let s3 : Server =
        close_channel x.send_tcp r (close_tcp r (forget_addr x.udp_addr (forget_player r s))) in
      let l : Loud s s3 = cleanup-Loud r s in
      let heap = heap-on_disconnect s.cfg.on_disconnect r reason s3 in
      let events = events-on_disconnect s.cfg.on_disconnect r reason s3 in
      let same : (q : ℕ) → fired (cleanup_session (some r) reason s) q ≡ fired s3 q =
        λ q. ap (λ h. to_ℕ (h q).disconnect_once) heap in
      record {
        once = λ q. omega (arith, l.once q, same q);
        debt = λ q. omega (arith, l.debt q, same q, ap (λ (p : Queue). owed q p.buffer) events);
      }

  disconnects-at :
      (e : Event) (r q : ℕ)
      → e.kind ≡ event_disconnect
      → e.sess ≡ some r
      → disconnects e.kind e.sess q ≡ to_ℕ (r == q)
  disconnects-at e r q kind sess =
      ap (λ k. disconnects k e.sess q) kind ∙ ap (λ p. disconnects event_disconnect p q) sess

  to_ℕ-self : (r : ℕ) → to_ℕ (r == r) ≡ 1
  to_ℕ-self r = ap to_ℕ ((==_iff r r).1 refl)

  pub one_event :
      (e : Event) (r : ℕ)
      → e.kind ≡ event_disconnect
      → e.sess ≡ some r
      → disconnects e.kind e.sess r ≡ 1
  one_event e r kind sess = disconnects-at e r r kind sess ∙ to_ℕ-self r

  fired-le-one : (b : Bool) → to_ℕ b ≤ 1
  fired-le-one true = omega arith
  fired-le-one false = omega arith

  -- Of the session whose disconnect is at hand nothing else is owed.
  pub settled :
      (e : Event) (r : ℕ) (pending : List Event) (s : Server)
      → e.kind ≡ event_disconnect
      → e.sess ≡ some r
      → Inv (e ∷ pending) s
      → (fired s r ≡ 1) × (owed r pending + owed r s.events.buffer ≡ 0)
  unfolding owed
  settled e r pending s kind sess v =
      let one : disconnects e.kind e.sess r ≡ 1 = one_event e r kind sess in
      (
        omega (arith, v.accounted r, fired-le-one (s.heap r).disconnect_once, one),
        omega (arith, v.accounted r, fired-le-one (s.heap r).disconnect_once, one),
      )

  -- Whoever is about to be cleaned up, and has a player who is not 0, is listed as that player.
  pub leaver-listed :
      (e : Event) (r : ℕ) (pending : List Event) (s : Server)
      → e.kind ≡ event_disconnect
      → e.sess ≡ some r
      → (s.heap r).id ≢ 0
      → Present (e ∷ pending) s
      → get s.sessions (s.heap r).id ≡ some r
  unfolding owed
  leaver-listed e r pending s kind sess named w =
      let one : disconnects e.kind e.sess r ≡ 1 = one_event e r kind sess in
      w.present r (λ fresh. named (w.unnamed r fresh))
        (omega (arith, fired-le-one (s.heap r).disconnect_once, one))

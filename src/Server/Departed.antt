-- ===== src/Server/Departed.antt =====
-- What a cleanup (cleanupSession of server.go) leaves behind.
use godotnet.Base.{
  ℕ, ◌≡◌, ◌≢◌, refl, sym, ap, ◌∙◌, inl, inr, String, Option, none, some, List, ◌==◌, ==_iff,
  Bool-cases, nat_eq, string_eq,
}
use godotnet.Base.Map.{Map, get, delete, get-delete, get-delete-only}
use godotnet.Errors.{Error}
use godotnet.Events.{Event}
use godotnet.Session.{Session, Channel}
use godotnet.Env.{Env}
use godotnet.Callbacks.{OnDisconnect}
use godotnet.Server.{Server}
use godotnet.Server.Cleanup.{
  invoke_on_disconnect, forget_player, forget_addr, close_tcp, close_channel, cleanup_session,
}
use godotnet.Server.Invariant.{Inv}

module _ ⦃env : Env⦄ where
  abbrev pub Maps : Type 0
  Maps = Map ℕ ℕ × Map String ℕ

  abbrev pub maps : Server → Maps
  maps s = (s.sessions, s.udp_sessions)

  maps-on_disconnect :
      (cb : Option OnDisconnect) (r : ℕ) (reason : Option Error) (s : Server)
      → maps (invoke_on_disconnect cb r reason s) ≡ maps s
  unfolding invoke_on_disconnect
  maps-on_disconnect none r reason s = refl
  maps-on_disconnect (some cb) r reason s = refl

  maps-close_channel :
      (c : Option Channel) (r : ℕ) (s : Server) → maps (close_channel c r s) ≡ maps s
  unfolding close_channel
  maps-close_channel none r s = refl
  maps-close_channel (some c) r s = refl

  maps-close_tcp : (r : ℕ) (s : Server) → maps (close_tcp r s) ≡ maps s
  unfolding close_tcp
  maps-close_tcp r s = elim (Bool-cases (s.heap r).tcp) [
    | inl there ↦ rw there
    | inr absent ↦ rw absent
  ]

  pub maps-cleanup :
      (r : ℕ) (reason : Option Error) (s : Server)
      → maps (cleanup_session (some r) reason s)
        ≡ maps (forget_addr (s.heap r).udp_addr (forget_player r s))
  unfolding cleanup_session
  maps-cleanup r reason s =
      let x : Session = s.heap r in
      let s1 : Server = forget_addr x.udp_addr (forget_player r s) in
      maps-on_disconnect s.cfg.on_disconnect r reason (close_channel x.send_tcp r (close_tcp r s1))
      ∙ maps-close_channel x.send_tcp r (close_tcp r s1)
      ∙ maps-close_tcp r s1

  sessions-forget_addr :
      (addr : Option String) (s : Server) → (forget_addr addr s).sessions ≡ s.sessions
  unfolding forget_addr
  sessions-forget_addr none s = refl
  sessions-forget_addr (some a) s = refl

  pub sessions-cleanup :
      (r : ℕ) (reason : Option Error) (s : Server)
      → (cleanup_session (some r) reason s).sessions ≡ (forget_player r s).sessions
  sessions-cleanup r reason s =
      ap (λ m. m.0) (maps-cleanup r reason s)
      ∙ sessions-forget_addr (s.heap r).udp_addr (forget_player r s)

  forget_player-other :
      (r : ℕ) (s : Server)
      → (s.heap r).id ≢ 0
      → forget_player r s ≡ record s { sessions = delete s.sessions (s.heap r).id }
  unfolding forget_player
  forget_player-other r s other = elim (Bool-cases ((s.heap r).id == 0)) [
    | inl hit ↦ absurd (other ((==_iff (s.heap r).id 0).0 hit))
    | inr miss ↦ rw miss
  ]

  pub udp-forget_player : (r : ℕ) (s : Server) → (forget_player r s).udp_sessions ≡ s.udp_sessions
  unfolding forget_player
  udp-forget_player r s = elim (Bool-cases ((s.heap r).id == 0)) [
    | inl hit ↦ rw hit
    | inr miss ↦ rw miss
  ]

  unlisted_addr :
      (r : ℕ) (s : Server) (addr : Option String)
      → ((a : String) → get s.udp_sessions a ≡ some r → addr ≡ some a)
      → (a : String) → get (forget_addr addr s).udp_sessions a ≢ some r
  unfolding forget_addr
  unlisted_addr r s none only a found = let never : none ≡ some a = only a found in cc
  unlisted_addr r s (some b) only a found =
      get-delete-only s.udp_sessions b a r (λ h. let same : some b ≡ some a = only a h in (cc))
        found

  -- In a server that keeps the invariant, once a session whose player is not 0 is cleaned up, no
  -- player and no UDP address leads to it any more, and every other player's entry is as it was.
  pub cleanup-forgets :
      (pending : List Event) (r : ℕ) (reason : Option Error) (s : Server)
      → Inv pending s
      → (s.heap r).id ≢ 0
      → let t = cleanup_session (some r) reason s in
        ((id : ℕ) → get t.sessions id ≢ some r)
        × ((a : String) → get t.udp_sessions a ≢ some r)
        × ((id : ℕ) → id ≢ (s.heap r).id → get t.sessions id ≡ get s.sessions id)
  cleanup-forgets pending r reason s v other =
      let x : Session = s.heap r in
      let listed : (cleanup_session (some r) reason s).sessions ≡ delete s.sessions x.id =
        sessions-cleanup r reason s ∙ ap (λ t. t.sessions) (forget_player-other r s other) in
      let paired : (cleanup_session (some r) reason s).udp_sessions
          ≡ (forget_addr x.udp_addr (forget_player r s)).udp_sessions =
        ap (λ m. m.1) (maps-cleanup r reason s) in
      (
        λ id found.
            get-delete-only s.sessions x.id id r (λ h. (v.tracked id r h).0)
              (ap (λ m. get m id) (sym listed) ∙ found),
        λ a found.
            unlisted_addr r (forget_player r s) x.udp_addr
              (λ b h. (v.paired b r (ap (λ m. get m b) (sym (udp-forget_player r s)) ∙ h)).0) a
              (ap (λ m. get m a) (sym paired) ∙ found),
        λ id ne. ap (λ m. get m id) listed ∙ kept x.id id ne,
      )
    where
      kept : (k id : ℕ) → id ≢ k → get (delete s.sessions k) id ≡ get s.sessions id
      kept k id ne = elim (Bool-cases (k == id)) [
        | inl hit ↦ absurd (ne (sym ((==_iff k id).0 hit)))
        | inr miss ↦ rw (get-delete s.sessions k id, miss)
      ]

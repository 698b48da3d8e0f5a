-- ===== src/Server/Takeover.antt =====
-- Two sessions that pair from one address: handleUDPHandshake (handshake.go), and then
-- cleanupSession (server.go) of the one that came first.
use godotnet.Base.{
  if◌then◌else◌, ℕ, ◌≡◌, ◌≢◌, sym, ap, ◌∙◌, String, Option, none, some, nat_eq, string_eq,
}
use godotnet.Base.Map.{get, get-delete, beq_refl}
use godotnet.Errors.{Error}
use godotnet.Control.{UdpHandshake}
use godotnet.Session.{session_awaiting_udp, session_ready}
use godotnet.Env.{Env}
use godotnet.Server.{Server}
use godotnet.Server.Cleanup.{forget_player, forget_addr, cleanup_session}
use godotnet.Server.Handshake.{handle_udp_handshake}
use godotnet.Server.Quiet.{identity}
use godotnet.Server.Pairing.{PairingOutcome, paired, not_paired, handle_udp_handshake_lem}
use godotnet.Server.Departed.{maps-cleanup}
use godotnet.Server.Later.{identity-cleanup}

module _ ⦃env : Env⦄ where
  forgotten :
      (addr : String) (s : Server) → get (forget_addr (some addr) s).udp_sessions addr ≡ none
  unfolding forget_addr
  forgotten addr s =
      get-delete s.udp_sessions addr addr
      ∙ ap (λ b. if b then none else get s.udp_sessions addr) (beq_refl addr)

  -- The session is ready and has the address, but the address leads to no session.
  abbrev pub IsCutOff : ℕ → String → Server → Type 0
  IsCutOff r addr s =
      (get s.udp_sessions addr ≡ none)
      × ((s.heap r).udp_addr ≡ some addr)
      × ((s.heap r).auth_state ≡ session_ready)

  -- If a session pairs from an address that another session has, then the cleanup of the other cuts
  -- it off: it is ready and has the address, but the address leads to no session.
  pub cleanup-handle_udp_handshake :
      (q r : ℕ) (addr : String) (hs : UdpHandshake) (reason : Option Error) (s : Server)
      → q ≢ r
      → (s.heap q).udp_addr ≡ some addr
      → get s.sessions hs.player_id ≡ some r
      → (s.heap r).session_token ≡ hs.session_token
      → (s.heap r).auth_state ≡ session_awaiting_udp
      → IsCutOff r addr (cleanup_session (some q) reason (handle_udp_handshake addr hs s))
  cleanup-handle_udp_handshake q r addr hs reason s other has listed token awaits =
      by_outcome (handle_udp_handshake addr hs s) (handle_udp_handshake_lem addr hs s)
    where
      by_outcome :
          (t : Server)
          → PairingOutcome addr hs s t
          → IsCutOff r addr (cleanup_session (some q) reason t)
      by_outcome t (not_paired why same udp kept) = absurd (why r listed token awaits)
      by_outcome t (paired p found matches waiting now others udp kept) =
          let hit : p ≡ r = (let both = sym found ∙ listed in cc) in
          let at_q : (t.heap q).udp_addr ≡ some addr =
            ap (λ x. x.3) (others q (λ e. other (e ∙ hit))) ∙ has in
          let at_r = ap (λ x. identity (t.heap x)) (sym hit) ∙ now in
          let after = identity-cleanup q reason t r in
          (
            ap (λ m. get m.1 addr) (maps-cleanup q reason t)
                ∙ ap (λ o. get (forget_addr o (forget_player q t)).udp_sessions addr) at_q
                ∙ forgotten addr (forget_player q t),
            ap (λ x. x.3) (after ∙ at_r),
            ap (λ x. x.1) (after ∙ at_r),
          )

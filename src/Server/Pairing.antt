-- ===== src/Server/Pairing.antt =====
-- The outcomes of a UDP handshake (handleUDPHandshake of handshake.go).
use text.Mathlib.Text.{◌==◌ as str_eq}
use text.Mathlib.TextEquality.{eq_iff}
use godotnet.Base.{
  ℕ, ◌≡◌, ◌≢◌, refl, sym, ap, ◌∙◌, String, Bool, true, false, not, Option, none, some,
  if◌then◌else◌, nat_eq, string_eq,
}
use godotnet.Base.Map.{get, put}
use godotnet.Control.{UdpHandshake}
use godotnet.Session.{Session, SessionAuthState, session_awaiting_udp, session_ready}
use godotnet.Env.{Env}
use godotnet.Server.{Server, modify}
use godotnet.Server.Handshake.{
  is_awaiting_udp, send_udp_handshake_ack, pair, accept_pairing, handle_udp_handshake,
}
use godotnet.Server.Quiet.{Quiet, Quiet-refl, Quiet-trans, identity}
use godotnet.Server.Quiet.Handlers.{on_connect-Quiet}
use godotnet.Server.Invariant.{heap-modify_self, heap-modify_ne}
use godotnet.Server.Quiet.Handshake.{ack-Quiet}
use godotnet.Server.Invariant.Handshake.{awaiting}

module _ ⦃env : Env⦄ where
  open env use {clock}

  -- `paired`: the datagram named a listed player who awaits it and bore the player's token; now
  -- that session alone has changed its identity, it is ready at the datagram's address, and the
  -- address leads to it. `not_paired`: no session has changed its identity, and no map has changed.
  pub data PairingOutcome (addr : String) (hs : UdpHandshake) (s t : Server) : Type 0 where
    paired :
        (r : ℕ)
        → get s.sessions hs.player_id ≡ some r
        → (s.heap r).session_token ≡ hs.session_token
        → (s.heap r).auth_state ≡ session_awaiting_udp
        → identity (t.heap r) ≡ ((s.heap r).id, session_ready, (s.heap r).session_token, some addr)
        → ((q : ℕ) → q ≢ r → identity (t.heap q) ≡ identity (s.heap q))
        → t.udp_sessions ≡ put s.udp_sessions addr r
        → t.sessions ≡ s.sessions
        → PairingOutcome addr hs s t
    not_paired :
        ((r : ℕ)
          → get s.sessions hs.player_id ≡ some r
          → (s.heap r).session_token ≡ hs.session_token
          → (s.heap r).auth_state ≢ session_awaiting_udp)
        → ((q : ℕ) → identity (t.heap q) ≡ identity (s.heap q))
        → t.udp_sessions ≡ s.udp_sessions
        → t.sessions ≡ s.sessions
        → PairingOutcome addr hs s t

  pair-heap :
      (addr : String) (r : ℕ) (s : Server)
      → (identity ((pair addr r s).heap r)
          ≡ ((s.heap r).id, session_ready, (s.heap r).session_token, some addr))
        × ((q : ℕ) → q ≢ r → identity ((pair addr r s).heap q) ≡ identity (s.heap q))
  unfolding pair modify
  pair-heap addr r s =
      let into : Session → Session = λ x. record x {
        udp_addr = some addr;
        auth_state = session_ready;
        last_seen_unix_nano = clock s.clock_reads;
      } in
      (ap identity (heap-modify_self r into s), λ q ne. ap identity (heap-modify_ne r q into s ne))

  accepted :
      (addr : String) (hs : UdpHandshake) (r : ℕ) (s : Server)
      → get s.sessions hs.player_id ≡ some r
      → (s.heap r).session_token ≡ hs.session_token
      → (s.heap r).auth_state ≡ session_awaiting_udp
      → PairingOutcome addr hs s (accept_pairing addr r s)
  unfolding accept_pairing pair
  accepted addr hs r s found token waiting =
      let s1 : Server = pair addr r s in
      let s2 : Server = send_udp_handshake_ack addr true (s.heap r).id s1 in
      let after : Quiet s1 (accept_pairing addr r s) =
        Quiet-trans (ack-Quiet addr true (s.heap r).id s1)
          (on_connect-Quiet s.cfg.on_connect r s2) in
      let (ready, others) = pair-heap addr r s in
      paired r found token waiting (after.same r ∙ ready) (λ q ne. after.same q ∙ others q ne)
        after.udp_sessions after.sessions

  refused :
      (addr : String) (hs : UdpHandshake) (s t : Server)
      → ((r : ℕ)
          → get s.sessions hs.player_id ≡ some r
          → (s.heap r).session_token ≡ hs.session_token
          → (s.heap r).auth_state ≢ session_awaiting_udp)
      → Quiet s t
      → PairingOutcome addr hs s t
  refused addr hs s t why q = not_paired why q.same q.udp_sessions q.sessions

  not_awaiting : (a : SessionAuthState) → is_awaiting_udp a ≡ false → a ≢ session_awaiting_udp
  not_awaiting a h e = let yes_it_is : is_awaiting_udp a ≡ true = ap is_awaiting_udp e in cc

  -- What a UDP handshake does, from any state of the server: it pairs the address exactly if the
  -- player that it names is listed, the token is the player's, and the player awaits its datagram.
  pub handle_udp_handshake_lem :
      (addr : String) (hs : UdpHandshake) (s : Server)
      → PairingOutcome addr hs s (handle_udp_handshake addr hs s)
  unfolding handle_udp_handshake
  handle_udp_handshake_lem addr hs s = player (get s.sessions hs.player_id) refl
    where
      nak : Server
      nak = send_udp_handshake_ack addr false hs.player_id s

      state :
          (r : ℕ) (b : Bool)
          → get s.sessions hs.player_id ≡ some r
          → (s.heap r).session_token ≡ hs.session_token
          → is_awaiting_udp (s.heap r).auth_state ≡ b
          → PairingOutcome addr hs s (if not b then s else accept_pairing addr r s)
      state r true found token e =
          accepted addr hs r s found token (awaiting (s.heap r).auth_state e)
      state r false found token e =
          refused addr hs s s
            (λ q h same w.
              let one : some q ≡ some r = sym h ∙ found in
              let here : (s.heap q).auth_state ≡ (s.heap r).auth_state =
                ap (λ p. (s.heap p).auth_state) (cc) in
              not_awaiting (s.heap r).auth_state e (sym here ∙ w))
            (Quiet-refl s)

      token :
          (r : ℕ) (b : Bool)
          → get s.sessions hs.player_id ≡ some r
          → str_eq (s.heap r).session_token hs.session_token ≡ b
          → PairingOutcome addr hs s (
              if not b
              then nak
              else if not (is_awaiting_udp (s.heap r).auth_state)
              then s
              else accept_pairing addr r s)
      token r true found e =
          state r (is_awaiting_udp (s.heap r).auth_state) found ((eq_iff _ _).0 e) refl
      token r false found e =
          refused addr hs s nak
            (λ q h same w.
              let one : some q ≡ some r = sym h ∙ found in
              let here : (s.heap q).session_token ≡ (s.heap r).session_token =
                ap (λ p. (s.heap p).session_token) (cc) in
              let hit : str_eq (s.heap r).session_token hs.session_token ≡ true =
                (eq_iff _ _).1 (sym here ∙ same) in
              cc)
            (ack-Quiet addr false hs.player_id s)

      player :
          (o : Option ℕ)
          → get s.sessions hs.player_id ≡ o
          → PairingOutcome addr hs s (elim o [
            | none ↦ nak
            | some r ↦
                if not (str_eq (s.heap r).session_token hs.session_token)
                then nak
                else if not (is_awaiting_udp (s.heap r).auth_state)
                then s
                else accept_pairing addr r s
          ])
      player none e =
          refused addr hs s nak (λ r h same w. let never : none ≡ some r = sym e ∙ h in cc)
            (ack-Quiet addr false hs.player_id s)
      player (some r) e = token r (str_eq (s.heap r).session_token hs.session_token) e refl

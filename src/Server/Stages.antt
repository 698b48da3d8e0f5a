-- ===== src/Server/Stages.antt =====
-- The two events that get a player in (tick.go, handshake.go): what a login and a pairing datagram
-- do.
use godotnet.Base.{
  subst, ℕ, ◌≡◌, sym, ap, ◌∙◌, String, not, ◌&&◌, Option, none, some, Bytes, ◌==◌, if◌then◌else◌,
  nat_eq, string_eq,
}
use godotnet.Base.Map.{get, get-put_self}
use godotnet.Errors.{Error}
use godotnet.Control.{ClientFrame, Login, UdpHandshake, login, udp_handshake}
use godotnet.Session.{session_pre_login, session_awaiting_udp, session_ready}
use godotnet.Env.{Env}
use godotnet.Callbacks.{Authenticate, Outcome, returned}
use godotnet.Server.{Server}
use godotnet.Server.TickCtx.{TickCtx}
use godotnet.Server.Handshake.{
  accept, credentials_of, call_authenticate, recovered, player_of, admit, conclude,
  authenticate_then, handle_login, handle_udp_handshake,
}
use godotnet.Server.Intake.{tcp_message, udp_message}
use godotnet.Server.Tick.{is_some, handle_event}
use godotnet.Server.Quiet.{identity}
use godotnet.Server.Access.{admit-Quiet, enter-heap}
use godotnet.Server.Pairing.{PairingOutcome, paired, not_paired, handle_udp_handshake_lem}
use godotnet.Server.Admission.{over_tcp, over_udp, perform, admitted, judged}
use godotnet.Server.Admission.Ruled.{ruled, sender, dispatch_message_lem}

module _ ⦃env : Env⦄ where
  open env use {Msg, Game, unmarshal_frame}

  pub login-dispatch :
      (tc : TickCtx) (r : ℕ) (payload : Bytes) (l : Login) (s : Server)
      → (s.heap r).id ≡ 0
      → (s.heap r).auth_state ≡ session_pre_login
      → unmarshal_frame payload ≡ some (some (login l))
      → handle_event tc (tcp_message r payload) s ≡ handle_login r l s
  unfolding handle_event perform admitted
  login-dispatch tc r payload l s no_id fresh parsed =
      dispatch_message_lem tc (tcp_message r payload) s
      ∙ ap (λ n. left_over n (unmarshal_frame payload)) no_id
      ∙ ap (λ o. perform tc (judged (some (r, (s.heap r).auth_state)) over_tcp o) s) parsed
      ∙ ap (λ a. perform tc (admitted (login l) over_tcp (some (r, a))) s) fresh
    where
      left_over : ℕ → Option ClientFrame → Server
      left_over n o =
          if not (n == 0) && not (is_some (get s.sessions (s.heap r).id))
          then s
          else perform tc (judged (some (r, (s.heap r).auth_state)) over_tcp o) s

  pub handshake-dispatch :
      (tc : TickCtx) (addr : String) (bytes : Bytes) (hs : UdpHandshake) (s : Server)
      → unmarshal_frame bytes ≡ some (some (udp_handshake hs))
      → handle_event tc (udp_message addr bytes) s
        ≡ handle_udp_handshake addr hs (sender tc (udp_message addr bytes) s).1
  unfolding handle_event perform admitted
  handshake-dispatch tc addr bytes hs s parsed =
      dispatch_message_lem tc (udp_message addr bytes) s
      ∙ from (sender tc (udp_message addr bytes) s)
    where
      from :
          (p : Option ℕ × Server)
          → ruled tc (udp_message addr bytes) p ≡ handle_udp_handshake addr hs p.1
      from (none, t) = ap (λ o. perform tc (judged none (over_udp (some addr)) o) t) parsed
      from (some r, t) =
          ap (λ o. perform tc (judged (some (r, (t.heap r).auth_state)) (over_udp (some addr)) o) t)
            parsed

  pub player_of-absent :
      (id : ℕ) (s : Server) → get s.sessions id ≡ none → player_of (id, none) s ≡ accept id
  unfolding player_of
  player_of-absent id s absent = rw (absent, player_of)

  pub login-admit :
      (r id : ℕ) (l : Login) (authenticate : Authenticate) (creds : Msg) (game : Game) (s : Server)
      → credentials_of s l ≡ accept (authenticate, creds)
      → authenticate creds s.game ≡ (returned (id, none), game)
      → get s.sessions id ≡ none
      → handle_login r l s ≡ admit r id creds (record s { game = game })
  unfolding handle_login authenticate_then call_authenticate recovered conclude
  login-admit r id l authenticate creds game s good answer absent =
      ap (λ v. authenticate_then r v s) good
      ∙ ap
          (λ (a : Outcome (ℕ × Option Error) × Game).
            conclude r creds (player_of (recovered a.0) (record s { game = a.1 }))
              (record s { game = a.1 }))
          answer
      ∙ ap (λ v. conclude r creds v (record s { game = game }))
          (player_of-absent id (record s { game = game }) absent)

  -- The session is listed as the player that Authenticate gave.
  pub login-lists :
      (r id : ℕ) (l : Login) (authenticate : Authenticate) (creds : Msg) (game : Game) (s : Server)
      → credentials_of s l ≡ accept (authenticate, creds)
      → authenticate creds s.game ≡ (returned (id, none), game)
      → get s.sessions id ≡ none
      → (get (handle_login r l s).sessions id ≡ some r)
        × (((handle_login r l s).heap r).id ≡ id)
        × (((handle_login r l s).heap r).auth_state ≡ session_awaiting_udp)
  login-lists r id l authenticate creds game s good answer absent =
      let path = login-admit r id l authenticate creds game s good answer absent in
      let (s1, token, before, after) = admit-Quiet r id creds (record s { game = game }) in
      let (same_id, state, listed, aside) = enter-heap r id token s1 in
      (
        ap (λ (t : Server). get t.sessions id) path
            ∙ ap (λ m. get m id) (after.sessions ∙ listed)
            ∙ get-put_self s1.sessions id r,
        ap (λ (t : Server). (t.heap r).id) path ∙ ap (λ x. x.0) (after.same r) ∙ same_id,
        ap (λ (t : Server). (t.heap r).auth_state) path ∙ ap (λ x. x.1) (after.same r) ∙ state,
      )

  -- The session is ready, and the address leads to it.
  pub handshake-pairs :
      (r : ℕ) (addr : String) (hs : UdpHandshake) (s : Server)
      → get s.sessions hs.player_id ≡ some r
      → (s.heap r).session_token ≡ hs.session_token
      → (s.heap r).auth_state ≡ session_awaiting_udp
      → let t = handle_udp_handshake addr hs s in
        (identity (t.heap r) ≡ ((s.heap r).id, session_ready, (s.heap r).session_token, some addr))
        × (t.sessions ≡ s.sessions)
        × (get t.udp_sessions addr ≡ some r)
  handshake-pairs r addr hs s found token waiting = outcome (handle_udp_handshake_lem addr hs s)
    where
      outcome :
          {t : Server}
          → PairingOutcome addr hs s t
          → (identity (t.heap r)
              ≡ ((s.heap r).id, session_ready, (s.heap r).session_token, some addr))
            × (t.sessions ≡ s.sessions)
            × (get t.udp_sessions addr ≡ some r)
      outcome (not_paired why same udp listed) = absurd (why r found token waiting)
      outcome {t} (paired q named good waits now others udp listed) =
          let both : some r ≡ some q = sym found ∙ named in
          let one : q ≡ r = cc in
          subst
            (λ k.
              (identity (t.heap k)
                ≡ ((s.heap k).id, session_ready, (s.heap k).session_token, some addr))
              × (t.sessions ≡ s.sessions)
              × (get t.udp_sessions addr ≡ some k))
            one (now, listed, ap (λ m. get m addr) udp ∙ get-put_self s.udp_sessions addr q)

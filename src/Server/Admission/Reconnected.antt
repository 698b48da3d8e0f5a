-- ===== src/Server/Admission/Reconnected.antt =====
-- tick.go: what a session that has been cleaned up still gets done, once its player is back.
use godotnet.Base.{
  ℕ, ◌≡◌, ◌≢◌, refl, sym, ap, ◌∙◌, Bool, true, false, not, ◌&&◌, Option, none, some, ◌==◌,
  if◌then◌else◌, nat_eq, string_eq,
}
use godotnet.Base.Map.{get}
use godotnet.Errors.{Error}
use godotnet.Control.{ClientFrame, Login, RpcRequest, rpc_request}
use godotnet.Events.{Event}
use godotnet.Session.{SessionAuthState, session_pre_login, session_ready}
use godotnet.Env.{Env}
use godotnet.Server.{Server, modify}
use godotnet.Server.TickCtx.{TickCtx}
use godotnet.Server.Cleanup.{cleanup_session}
use godotnet.Server.Handshake.{handle_login}
use godotnet.Server.Dispatch.{dispatch_rpc}
use godotnet.Server.Tick.{is_some, dispatch_message}
use godotnet.Server.Quiet.{identity}
use godotnet.Server.Access.{LoginOutcome, entered, turned_away, handle_login_lem}
use godotnet.Server.Later.{identity-cleanup}
use godotnet.Server.Admission.{
  wire_of, judged, is_left_over, over_tcp, over_udp, perform, admitted, with_state,
}
use godotnet.Server.Admission.Ruled.{dispatch_message_lem}

module _ ⦃env : Env⦄ where
  open env use {unmarshal_frame}

  bystander :
      (q r : ℕ) (s t : Server)
      → LoginOutcome q s t
      → r ≢ q
      → identity (t.heap r) ≡ identity (s.heap r)
  bystander q r s t (entered id absent listed same_id state aside) ne = aside.others r ne
  bystander q r s t (turned_away same state over aside) ne = aside.others r ne

  served :
      (tc : TickCtx) (e : Event) (r q : ℕ) (req : RpcRequest) (s : Server)
      → (s.heap r).auth_state ≡ session_ready
      → get s.sessions (s.heap r).id ≡ some q
      → e.is_udp ≡ false
      → e.sess ≡ some r
      → unmarshal_frame e.payload ≡ some (some (rpc_request req))
      → dispatch_message tc e s ≡ dispatch_rpc tc r req s
  unfolding perform admitted
  served tc e r q req s ready listed tcp from parsed =
      dispatch_message_lem tc e s
      ∙ ap (λ b. over b e.sess (unmarshal_frame e.payload)) tcp
      ∙ ap (λ o. over false o (unmarshal_frame e.payload)) from
      ∙ ap (over false (some r)) parsed
      ∙ ap (λ o. alive o (s.heap r).auth_state) listed
      ∙ closed (not ((s.heap r).id == 0))
      ∙ ap (λ a. perform tc (admitted (rpc_request req) over_tcp (some (r, a))) s) ready
    where
      from_wire : Bool → Option ℕ → Option ℕ × Server
      from_wire b sess = elim (wire_of b e.udp_addr) [
        | over_tcp ↦ (sess, s)
        | over_udp none ↦ (none, s)
        | over_udp (some addr) ↦ elim (get s.udp_sessions addr) [
          | none ↦ (none, s)
          | some p ↦ (some p, modify p (λ x. record x { last_seen_unix_nano = tc.now }) s)
        ]
      ]

      over : Bool → Option ℕ → Option ClientFrame → Server
      over b sess o =
          if is_left_over (wire_of b e.udp_addr) (from_wire b sess).0 (from_wire b sess).1
          then (from_wire b sess).1
          else perform tc
              (judged (with_state (from_wire b sess).0 (from_wire b sess).1) (wire_of b e.udp_addr)
                o)
              (from_wire b sess).1

      alive : Option ℕ → SessionAuthState → Server
      alive o a =
          if not ((s.heap r).id == 0) && not (is_some o)
          then s
          else perform tc (admitted (rpc_request req) over_tcp (some (r, a))) s

      closed :
          (b : Bool)
          → (if b && false
              then s
              else perform tc
                  (admitted (rpc_request req) over_tcp (some (r, (s.heap r).auth_state)))
                  s)
            ≡ perform tc (admitted (rpc_request req) over_tcp (some (r, (s.heap r).auth_state))) s
      closed true = refl
      closed false = refl

  -- After a cleanup of a ready session, if another session logs in as the same player, then an RPC
  -- of the first that comes after that is served, though its session is gone.
  pub dispatch_message-handle_login :
      (tc : TickCtx) (e : Event) (r q : ℕ) (l : Login) (req : RpcRequest) (reason : Option Error)
      (s : Server)
      → (s.heap r).auth_state ≡ session_ready
      → (s.heap q).auth_state ≡ session_pre_login
      → let t = handle_login q l (cleanup_session (some r) reason s) in
        get t.sessions (s.heap r).id ≡ some q
        → e.is_udp ≡ false
        → e.sess ≡ some r
        → unmarshal_frame e.payload ≡ some (some (rpc_request req))
        → dispatch_message tc e t ≡ dispatch_rpc tc r req t
  dispatch_message-handle_login tc e r q l req reason s ready fresh listed tcp from parsed =
      let gone : Server = cleanup_session (some r) reason s in
      let back : Server = handle_login q l gone in
      let fresh' : (gone.heap q).auth_state ≡ session_pre_login =
        ap (λ x. x.1) (identity-cleanup r reason s q) ∙ fresh in
      let apart : r ≢ q = (λ p.
        let both : session_ready ≡ session_pre_login =
          sym ready ∙ ap (λ x. (s.heap x).auth_state) p ∙ fresh in
        (cc)) in
      let same =
        bystander q r gone back (handle_login_lem q l gone fresh') apart
        ∙ identity-cleanup r reason s r in
      served tc e r q req back (ap (λ x. x.1) same ∙ ready)
        (ap (get back.sessions) (ap (λ x. x.0) same) ∙ listed) tcp from parsed

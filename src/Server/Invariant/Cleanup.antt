-- ===== src/Server/Invariant/Cleanup.antt =====
-- The invariant under cleanupSession (server.go).
use godotnet.Base.{
  ℕ, ◌≡◌, refl, ap, ◌∙◌, String, Bool, true, false, Option, none, some, List, ◌∷◌, ◌==◌,
  if◌then◌else◌, nat_eq, string_eq, arith,
}
use godotnet.Base.Map.{delete, get-delete-some}
use godotnet.Errors.{Error}
use godotnet.Events.{Event, event_disconnect}
use godotnet.Session.{Session, Channel}
use godotnet.Env.{Env}
use godotnet.Callbacks.{OnDisconnect}
use godotnet.Server.{Server, channel_closed, modify}
use godotnet.Server.Cleanup.{
  invoke_on_disconnect, forget_player, forget_addr, close_tcp, close_channel, cleanup_session,
}
use godotnet.Server.Quiet.{
  to_ℕ, disconnects, owed, goodbyes, Quiet, Quiet-refl, Quiet-trans, emit-Quiet, modify-Quiet,
}
use godotnet.Server.Quiet.Sends.{close-Quiet}
use godotnet.Server.Invariant.{Inv, Quiet-Inv, drop-Inv}

module _ ⦃env : Env⦄ where
  forget_player-Inv :
      {pending : List Event} (r : ℕ) (s : Server) → Inv pending s → Inv pending (forget_player r s)
  unfolding forget_player
  forget_player-Inv {pending} r s v = by_id ((s.heap r).id == 0)
    where
      by_id :
          (b : Bool)
          → Inv pending (if b then s else record s { sessions = delete s.sessions (s.heap r).id })
      by_id true = v
      by_id false = record {
        tracked = λ id q e. v.tracked id q (get-delete-some s.sessions (s.heap r).id id q e);
        paired = v.paired;
        addressed = v.addressed;
        accounted = v.accounted;
      }

  forget_addr-Inv :
      {pending : List Event} (addr : Option String) (s : Server)
      → Inv pending s
      → Inv pending (forget_addr addr s)
  unfolding forget_addr
  forget_addr-Inv none s v = v
  forget_addr-Inv (some addr) s v = record {
    tracked = v.tracked;
    paired = λ a q e. v.paired a q (get-delete-some s.udp_sessions addr a q e);
    addressed = v.addressed;
    accounted = v.accounted;
  }

  pub close_channel-Quiet :
      (c : Option Channel) (r : ℕ) (s : Server) → Quiet s (close_channel c r s)
  unfolding close_channel
  close_channel-Quiet none r s = Quiet-refl s
  close_channel-Quiet (some c) r s =
      let shut : Session → Session = λ x. record x { send_tcp = none } in
      Quiet-trans (modify-Quiet r shut s (λ x. refl) (λ x. refl) (λ d h. tt))
        (emit-Quiet (channel_closed r) (modify r shut s) (λ q. refl))

  -- The call of OnDisconnect takes the place of the event.
  on_disconnect-Inv :
      {pending : List Event} (cb : Option OnDisconnect) (r : ℕ) (reason : Option Error) (s : Server)
      (e : Event)
      → e.kind ≡ event_disconnect
      → e.sess ≡ some r
      → Inv (e ∷ pending) s
      → Inv pending (invoke_on_disconnect cb r reason s)
  unfolding invoke_on_disconnect owed goodbyes
  on_disconnect-Inv none r reason s e kind sess v = drop-Inv e v
  on_disconnect-Inv (some cb) r reason s e kind sess v = record {
    tracked = v.tracked;
    paired = v.paired;
    addressed = v.addressed;
    accounted = λ q.
        let counted : disconnects e.kind e.sess q ≡ to_ℕ (r == q) =
          ap (λ k. disconnects k e.sess q) kind ∙ ap (λ o. disconnects event_disconnect o q) sess in
        omega (arith, v.accounted q);
  }

  pub cleanup_session-Inv :
      {pending : List Event} (s : Server) (e : Event)
      → e.kind ≡ event_disconnect
      → Inv (e ∷ pending) s
      → Inv pending (cleanup_session e.sess e.reason s)
  unfolding cleanup_session
  cleanup_session-Inv {pending} s e kind v = by_sess e.sess refl
    where
      by_sess : (o : Option ℕ) → e.sess ≡ o → Inv pending (cleanup_session o e.reason s)
      by_sess none sess = drop-Inv e v
      by_sess (some r) sess =
          let x : Session = s.heap r in
          let s1 : Server = forget_addr x.udp_addr (forget_player r s) in
          let s2 : Server = close_tcp r s1 in
          on_disconnect-Inv s.cfg.on_disconnect r e.reason (close_channel x.send_tcp r s2) e kind
            sess
            (Quiet-Inv (Quiet-trans (close-Quiet r s1) (close_channel-Quiet x.send_tcp r s2))
              (forget_addr-Inv x.udp_addr (forget_player r s) (forget_player-Inv r s v)))

-- ===== src/Server/Accounts.antt =====
-- Each disconnect reaches the game (server.go, tick.go), while the event queue has room: the
-- operations.
use godotnet.Base.{
  length, subst, ℕ, ◌+◌, ◌≤◌, ◌<◌, ◌≡◌, refl, ap, ◌∙◌, String, Bool, true, false, Option, none,
  some, List, ◌∷◌, ◌==◌, if◌then◌else◌, nat_eq, string_eq, arith,
}
use godotnet.Base.Map.{delete}
use godotnet.Errors.{Error}
use godotnet.Events.{Event, EventKind, event_message, event_connect, event_disconnect, Queue}
use godotnet.Session.{Session}
use godotnet.Env.{Env}
use godotnet.Callbacks.{OnDisconnect}
use godotnet.Server.{Server, Config}
use godotnet.Server.Cleanup.{
  invoke_on_disconnect, forget_player, forget_addr, close_tcp, close_channel, cleanup_session,
}
use godotnet.Server.TickCtx.{TickCtx}
use godotnet.Server.Tick.{by_kind, handle_event}
use godotnet.Server.Intake.{new_session, accept_conn}
use godotnet.Server.Quiet.{to_ℕ, disconnects, owed, goodbyes, fired, Quiet-refl, Quiet-trans}
use godotnet.Server.Quiet.Sends.{close-Quiet}
use godotnet.Server.Route.{dispatch_message-R, connect_event-R}
use godotnet.Server.Invariant.{at-modify}
use godotnet.Server.Invariant.Cleanup.{close_channel-Quiet}
use godotnet.Server.Owing.{HasRoom, Loud, Quiet-Loud, Loud-trans, Loud-across}

module _ ⦃env : Env⦄ where
  -- The game listens, and each session whose disconnect has fired has it queued, or drained and not
  -- handled yet, or told to the game.
  pub record Accounts (cb : OnDisconnect) (pending : List Event) (s : Server) : Type 0 where
    pub told : s.cfg.on_disconnect ≡ some cb
    pub noted : (r : ℕ) → fired s r ≤ owed r pending + owed r s.events.buffer + goodbyes r s.trace

  pub Loud-Accounts :
      {cb : OnDisconnect} {pending : List Event} {s t : Server}
      → HasRoom t
      → Loud s t
      → Accounts cb pending s
      → Accounts cb pending t
  Loud-Accounts room l v = record {
    told = ap (λ (c : Config). c.on_disconnect) l.cfg ∙ v.told;
    noted = λ r. omega (arith, l.promised room r, l.parted r, v.noted r);
  }

  forget-Loud :
      (r : ℕ) (addr : Option String) (s : Server) → Loud s (forget_addr addr (forget_player r s))
  unfolding forget_addr forget_player
  forget-Loud r addr s = Loud-trans (player ((s.heap r).id == 0)) (address addr (forget_player r s))
    where
      address : (a : Option String) (t : Server) → Loud t (forget_addr a t)
      address none t = Quiet-Loud (Quiet-refl t)
      address (some a) t = record {
        cfg = refl;
        fits = λ h. h;
        channels = λ r d h. h;
        depth = refl;
        longer = omega arith;
        parted = λ q. refl;
        once = λ q. omega arith;
        debt = λ q. omega arith;
        promised = λ h q. omega arith;
      }

      player :
          (b : Bool)
          → Loud s (if b then s else record s { sessions = delete s.sessions (s.heap r).id })
      player true = Quiet-Loud (Quiet-refl s)
      player false = record {
        cfg = refl;
        fits = λ h. h;
        channels = λ r d h. h;
        depth = refl;
        longer = omega arith;
        parted = λ q. refl;
        once = λ q. omega arith;
        debt = λ q. omega arith;
        promised = λ h q. omega arith;
      }

  -- The call of OnDisconnect takes the place of the event.
  on_disconnect-Accounts :
      {cb : OnDisconnect} {pending : List Event} (o : Option OnDisconnect) (r : ℕ)
      (reason : Option Error) (s : Server) (e : Event)
      → o ≡ some cb
      → e.kind ≡ event_disconnect
      → e.sess ≡ some r
      → Accounts cb (e ∷ pending) s
      → Accounts cb pending (invoke_on_disconnect o r reason s)
  unfolding invoke_on_disconnect owed goodbyes
  on_disconnect-Accounts none r reason s e given kind sess v = cc
  on_disconnect-Accounts (some cb) r reason s e given kind sess v = record {
    told = v.told;
    noted = λ q.
        let counted : disconnects e.kind e.sess q ≡ to_ℕ (r == q) =
          ap (λ k. disconnects k e.sess q) kind ∙ ap (λ p. disconnects event_disconnect p q) sess in
        omega (arith, v.noted q);
  }

  pub events-on_disconnect :
      (o : Option OnDisconnect) (r : ℕ) (reason : Option Error) (s : Server)
      → (invoke_on_disconnect o r reason s).events ≡ s.events
  unfolding invoke_on_disconnect
  events-on_disconnect none r reason s = refl
  events-on_disconnect (some cb) r reason s = refl

  pub cleanup-Loud :
      (r : ℕ) (s : Server)
      → let x : Session = s.heap r in
        Loud s
          (close_channel x.send_tcp r (close_tcp r (forget_addr x.udp_addr (forget_player r s))))
  unfolding close_tcp
  cleanup-Loud r s =
      let x : Session = s.heap r in
      let s1 : Server = forget_addr x.udp_addr (forget_player r s) in
      let s2 : Server = close_tcp r s1 in
      Loud-trans (forget-Loud r x.udp_addr s)
        (Quiet-Loud (Quiet-trans (close-Quiet r s1) (close_channel-Quiet x.send_tcp r s2)))

  cleanup-Accounts :
      {cb : OnDisconnect} {pending : List Event} (r : ℕ) (s : Server) (e : Event)
      → e.kind ≡ event_disconnect
      → e.sess ≡ some r
      → HasRoom (cleanup_session (some r) e.reason s)
      → Accounts cb (e ∷ pending) s
      → Accounts cb pending (cleanup_session (some r) e.reason s)
  unfolding cleanup_session
  cleanup-Accounts r s e kind sess room v =
      let x : Session = s.heap r in
      let s3 : Server =
        close_channel x.send_tcp r (close_tcp r (forget_addr x.udp_addr (forget_player r s))) in
      on_disconnect-Accounts s.cfg.on_disconnect r e.reason s3 e v.told kind sess (
        Loud-Accounts
          (subst (λ (q : Queue). length q.buffer < q.depth)
            (events-on_disconnect s.cfg.on_disconnect r e.reason s3) room)
          (cleanup-Loud r s) v)

  drop-Accounts :
      {cb : OnDisconnect} {pending : List Event} {s : Server} (e : Event)
      → ((r : ℕ) → disconnects e.kind e.sess r ≡ 0)
      → Accounts cb (e ∷ pending) s
      → Accounts cb pending s
  unfolding owed
  drop-Accounts e no_disconnect v = record {
    told = v.told;
    noted = λ r. omega (arith, v.noted r, no_disconnect r);
  }

  pub event-Accounts :
      {cb : OnDisconnect} {pending : List Event} (tc : TickCtx) (e : Event) (s : Server)
      → HasRoom (handle_event tc e s)
      → Accounts cb (e ∷ pending) s
      → Accounts cb pending (handle_event tc e s)
  unfolding handle_event
  event-Accounts {cb} {pending} tc e s room v = kinds e.kind refl room
    where
      cleaned :
          (o : Option ℕ)
          → e.kind ≡ event_disconnect
          → e.sess ≡ o
          → HasRoom (cleanup_session o e.reason s)
          → Accounts cb pending (cleanup_session o e.reason s)
      cleaned none k p h =
          drop-Accounts e
            (λ r. ap (λ x. disconnects x e.sess r) k ∙ ap (λ o. disconnects event_disconnect o r) p)
            v
      cleaned (some r) k p h = cleanup-Accounts r s e k p h v

      kinds :
          (k : EventKind)
          → e.kind ≡ k
          → HasRoom (by_kind k tc e s)
          → Accounts cb pending (by_kind k tc e s)
      kinds event_message k h =
          Loud-Accounts h (dispatch_message-R Loud Loud-across tc e s)
            (drop-Accounts e (λ r. ap (λ x. disconnects x e.sess r) k) v)
      kinds event_connect k h =
          Loud-Accounts h (connect_event-R Loud Loud-across e.sess s)
            (drop-Accounts e (λ r. ap (λ x. disconnects x e.sess r) k) v)
      kinds event_disconnect k h = cleaned e.sess k refl h

  -- A new session has not fired.
  pub accept-Accounts :
      {cb : OnDisconnect} {pending : List Event} (r : ℕ) (s : Server)
      → Accounts cb pending s
      → Accounts cb pending (accept_conn r s)
  unfolding accept_conn
  accept-Accounts {pending = pending} r s v = record {
    told = v.told;
    noted = λ q.
        at-modify
          (λ x.
            to_ℕ x.disconnect_once ≤ owed q pending + owed q s.events.buffer + goodbyes q s.trace)
          r q (λ x. new_session s) s (λ hit. omega arith) (λ miss. v.noted q);
  }

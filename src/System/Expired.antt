-- ===== src/System/Expired.antt =====
-- A silent player's way out (ping.go, tick.go, server.go): the end of one tick and the next tick.
use godotnet.Base.{
  ℕ, ◌<◌, ◌≡◌, ◌≢◌, sym, ap, ◌∙◌, Bool, true, false, ◌&&◌, ◌||◌, [], nat_eq, string_eq, arith,
}
use godotnet.Base.Int.{ℤ, ◌-ℤ◌, or_default}
use godotnet.Session.{SessionAuthState, session_pre_login, session_awaiting_udp, session_ready}
use godotnet.Env.{Env}
use godotnet.Server.{Server}
use godotnet.Server.TickCtx.{TickCtx, is_ready}
use godotnet.Server.Ping.{default_ping_timeout, run_ping_tick}
use godotnet.Server.Tick.{run_tick}
use godotnet.Server.Quiet.{to_ℕ, owed, Quiet, Quiet-trans}
use godotnet.Server.Quiet.Handlers.{ping_tick-Quiet, on_tick-Quiet}
use godotnet.Server.Invariant.{Inv, Quiet-Inv}
use godotnet.Server.Vital.{vital}
use godotnet.Server.Keepalive.{is_listed, is_silent, run_ping_tick_lem}
use godotnet.Server.Farewell.{IsGone, run_tick-IsGone}
use godotnet.Server.Owing.{HasRoom}
use godotnet.System.Interleaved.{end_tick}

module _ ⦃env : Env⦄ where
  -- Before which time a session must not have been seen last, to be disconnected.
  abbrev pub limit_at : TickCtx → Server → ℤ
  limit_at tc s = tc.now -ℤ or_default s.cfg.ping_timeout default_ping_timeout

  ready_only : (a : SessionAuthState) (b : Bool) → (is_ready a && b) ≡ true → a ≢ session_pre_login
  ready_only session_pre_login b h e = cc
  ready_only session_awaiting_udp b h e = cc
  ready_only session_ready b h e = cc

  end_tick-Quiet : (tc : TickCtx) (s : Server) → Quiet (run_ping_tick tc s) (end_tick tc s)
  unfolding end_tick
  end_tick-Quiet tc s = let s' : Server = run_ping_tick tc s in on_tick-Quiet s'.on_tick tc s'

  -- The keepalive has fired the session's disconnect, and it is queued.
  end_tick-owed :
      (tc : TickCtx) (q : ℕ) (s : Server)
      → is_listed s.sessions q ≡ true
      → is_silent (limit_at tc s) (vital (s.heap q)) ≡ true
      → (s.heap q).disconnect_once ≡ false
      → HasRoom (end_tick tc s)
      → 0 < owed q (end_tick tc s).events.buffer
  end_tick-owed tc q s listed silent off room =
      let k : Quiet s (end_tick tc s) = Quiet-trans (ping_tick-Quiet tc s) (end_tick-Quiet tc s) in
      let hit : (is_listed s.sessions q && is_silent (limit_at tc s) (vital (s.heap q))) ≡ true =
        ap (λ b. b && is_silent (limit_at tc s) (vital (s.heap q))) listed ∙ silent in
      let fired : ((run_ping_tick tc s).heap q).disconnect_once ≡ true =
        (run_ping_tick_lem tc s q).1
        ∙ ap (λ b. b || (is_listed s.sessions q && is_silent (limit_at tc s) (vital (s.heap q))))
            off
        ∙ hit in
      omega (arith, k.promised room q, (end_tick-Quiet tc s).once q, ap to_ℕ fired, ap to_ℕ off)

  -- If at the end of a tick, from a state that keeps the invariant, a session that is listed and
  -- not player 0's is ready, has an address and was last seen longer ago than the timeout, and its
  -- disconnect has not fired before, then, if the event queue has room after that tick's keepalive
  -- and OnTick, the next tick takes it out: afterwards no player and no UDP address leads to it.
  pub end_tick-run_tick :
      (tc : TickCtx) (next : ℤ) (q : ℕ) (s : Server)
      → Inv [] s
      → (s.heap q).id ≢ 0
      → is_listed s.sessions q ≡ true
      → is_silent (limit_at tc s) (vital (s.heap q)) ≡ true
      → (s.heap q).disconnect_once ≡ false
      → HasRoom (end_tick tc s)
      → IsGone q (run_tick next (end_tick tc s))
  end_tick-run_tick tc next q s v other listed silent off room =
      let k : Quiet s (end_tick tc s) = Quiet-trans (ping_tick-Quiet tc s) (end_tick-Quiet tc s) in
      run_tick-IsGone next q (end_tick tc s) (Quiet-Inv k v)
        (λ e. ready_only (s.heap q).auth_state _ silent (sym (ap (λ x. x.1) (k.same q)) ∙ e))
        (λ e. other (sym (ap (λ x. x.0) (k.same q)) ∙ e))
        (end_tick-owed tc q s listed silent off room)

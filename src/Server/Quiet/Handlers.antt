-- ===== src/Server/Quiet/Handlers.antt =====
-- The game's handlers (dispatch.go), the keepalive (ping.go) and OnTick (tick.go), as quiet
-- changes.
use godotnet.Base.{
  ℕ, ◌+◌, ◌≡◌, refl, String, Bool, not, Option, none, some, List, [], ◌∷◌, Bytes, if◌then◌else◌,
  string_eq,
}
use godotnet.Base.Int.{ℤ, ltb_ℤ, ◌-ℤ◌, or_default}
use godotnet.Errors.{Error, sentinel, handler_panic, ping_timeout}
use godotnet.Control.{Pong, ping, RpcRequest, RpcResponse, rpc_response}
use godotnet.Env.{Env}
use godotnet.Callbacks.{
  Script, Outcome, returned, panicked, ClientHandler, RpcHandler, TickHandler, OnAuth, OnConnect,
}
use godotnet.Server.{
  Server, Effect, on_auth_called, on_connect_called, on_tick_called, modify, emit,
}
use godotnet.Server.Outbound.{push_tcp, udp_send_raw}
use godotnet.Server.TickCtx.{TickCtx, is_ready, session_view, view}
use godotnet.Server.Cleanup.{called, invoke_on_connect, invoke_on_auth}
use godotnet.Server.Dispatch.{
  Found, found, rejected, rpc_error, answer, after_calls, recover_client, invoke_client_handler,
  handle_found, find_client_handler, dispatch_user_message, send_rpc, invoke_rpc_handler, serve_rpc,
  find_rpc_handler, dispatch_rpc,
}
use godotnet.Server.Ping.{
  handle_pong, default_ping_interval, default_ping_timeout, time_sub, nonce_of, send_ping,
  ping_session, ping_all, run_ping_tick,
}
use godotnet.Server.Tick.{malformed, invoke_on_tick}
use godotnet.Server.Quiet.{
  Quiet, Quiet-refl, Quiet-trans, Quiet-aside, emit-Quiet, if-Quiet, modify-Quiet, goodbye,
}
use godotnet.Server.Quiet.Sends.{schedule-Quiet, push_tcp-Quiet, udp_send-Quiet}
use godotnet.Server.Quiet.Calls.{run_calls-Quiet}

module _ ⦃env : Env⦄ where
  open env use {Msg, Game, marshal_frame, random}

  called-Quiet :
      (e : Effect) (o : Outcome Unit × Game) (s : Server)
      → ((r : ℕ) → goodbye e r ≡ 0)
      → Quiet s (called e o s)
  unfolding called
  called-Quiet e (outcome, game) s silent =
      Quiet-trans (Quiet-aside s (record s { game = game }) refl refl refl refl refl refl)
        (emit-Quiet e (record s { game = game }) silent)

  pub on_connect-Quiet :
      (cb : Option OnConnect) (r : ℕ) (s : Server) → Quiet s (invoke_on_connect cb r s)
  unfolding invoke_on_connect
  on_connect-Quiet none r s = Quiet-refl s
  on_connect-Quiet (some cb) r s =
      called-Quiet (on_connect_called r) (cb (session_view s r) s.game) s (λ q. refl)

  pub on_auth-Quiet :
      (cb : Option OnAuth) (r : ℕ) (creds : Msg) (s : Server)
      → Quiet s (invoke_on_auth cb r creds s)
  unfolding invoke_on_auth
  on_auth-Quiet none r creds s = Quiet-refl s
  on_auth-Quiet (some cb) r creds s =
      called-Quiet (on_auth_called r) (cb (session_view s r) creds s.game) s (λ q. refl)

  pub after_calls-Quiet :
      {A : Type 0} (script : Script A) (s : Server) → Quiet s (after_calls script s)
  unfolding after_calls
  after_calls-Quiet script s =
      Quiet-trans (Quiet-aside s (record s { game = script.game }) refl refl refl refl refl refl)
        (run_calls-Quiet script.calls (record s { game = script.game }))

  recover-Quiet : (o : Outcome Unit) (r : ℕ) (s : Server) → Quiet s (recover_client o r s)
  unfolding recover_client
  recover-Quiet (returned u) r s = Quiet-refl s
  recover-Quiet (panicked p) r s = schedule-Quiet (some r) (sentinel handler_panic) s

  client_handler-Quiet :
      (h : ClientHandler) (tc : TickCtx) (r : ℕ) (msg : Msg) (s : Server)
      → Quiet s (invoke_client_handler h tc r msg s)
  unfolding invoke_client_handler
  client_handler-Quiet h tc r msg s =
      let script : Script Unit = h (view tc s) (session_view s r) msg s.game in
      Quiet-trans (after_calls-Quiet script s)
        (recover-Quiet script.outcome r (after_calls script s))

  invoke-Quiet :
      (f : Found (ClientHandler × Msg)) (tc : TickCtx) (r : ℕ) (s : Server)
      → Quiet s (handle_found f tc r s)
  unfolding handle_found
  invoke-Quiet (rejected msg) tc r s = Quiet-refl s
  invoke-Quiet (found (h, inner)) tc r s = client_handler-Quiet h tc r inner s

  pub user_message-Quiet :
      (tc : TickCtx) (r : ℕ) (payload : Bytes) (s : Server)
      → Quiet s (dispatch_user_message tc r payload s)
  unfolding dispatch_user_message
  user_message-Quiet tc r payload s = invoke-Quiet (find_client_handler s payload) tc r s

  pub send_rpc-Quiet :
      (r : ℕ) (response : RpcResponse) (s : Server) → Quiet s (send_rpc r response s)
  unfolding send_rpc
  send_rpc-Quiet r response s = frame (marshal_frame (rpc_response response))
    where
      frame : (o : Option Bytes) → Quiet s (elim o [ none ↦ s | some b ↦ push_tcp (some r) b s ])
      frame none = Quiet-refl s
      frame (some b) = push_tcp-Quiet (some r) b s

  pub rpc_handler-Quiet :
      (h : RpcHandler) (tc : TickCtx) (r : ℕ) (msg : Msg) (s : Server)
      → Quiet s (invoke_rpc_handler h tc r msg s).1
  unfolding invoke_rpc_handler
  rpc_handler-Quiet h tc r msg s =
      let script : Script (Option Msg × Option Error) =
        h (view tc s) (session_view s r) msg s.game in
      after_calls-Quiet script s

  serve_rpc-Quiet :
      (f : Found (RpcHandler × Msg)) (tc : TickCtx) (r cid : ℕ) (s : Server)
      → Quiet s (serve_rpc f tc r cid s)
  unfolding serve_rpc
  serve_rpc-Quiet (rejected msg) tc r cid s = send_rpc-Quiet r (rpc_error cid msg) s
  serve_rpc-Quiet (found (h, inner)) tc r cid s =
      let (result, s') = invoke_rpc_handler h tc r inner s in
      Quiet-trans (rpc_handler-Quiet h tc r inner s) (send_rpc-Quiet r (answer cid result) s')

  pub rpc-Quiet :
      (tc : TickCtx) (r : ℕ) (req : RpcRequest) (s : Server) → Quiet s (dispatch_rpc tc r req s)
  unfolding dispatch_rpc
  rpc-Quiet tc r req s = serve_rpc-Quiet (find_rpc_handler s req.payload) tc r req.correlation_id s

  pub pong-Quiet : (tc : TickCtx) (r : ℕ) (p : Pong) (s : Server) → Quiet s (handle_pong tc r p s)
  unfolding handle_pong
  pong-Quiet tc r p s =
      modify-Quiet r (λ x. record x { last_seen_unix_nano = tc.now }) s (λ x. refl) (λ x. refl)
        (λ d h. h)

  nonce-Quiet : (b : Option Bytes) (s : Server) → Quiet s (nonce_of b s).1
  unfolding nonce_of
  nonce-Quiet (some b) s = Quiet-refl s
  nonce-Quiet none s =
      Quiet-aside s (record s { clock_reads = s.clock_reads + 1 }) refl refl refl refl refl refl

  send_ping-Quiet : (r : ℕ) (s : Server) → Quiet s (send_ping r s)
  unfolding send_ping
  send_ping-Quiet r s =
      let s0 : Server = record s { random_reads = s.random_reads + 1 } in
      let (nonce, s1) = nonce_of (random s.random_reads 8) s0 in
      let s2 : Server = modify r (λ x. record x { last_ping_nonce = nonce }) s1 in
      Quiet-trans (Quiet-aside s s0 refl refl refl refl refl refl) (
        Quiet-trans (nonce-Quiet (random s.random_reads 8) s0) (
          Quiet-trans
            (modify-Quiet r (λ x. record x { last_ping_nonce = nonce }) s1 (λ x. refl) (λ x. refl)
              (λ d h. h))
            (frame s2 (marshal_frame (ping (record { nonce = nonce }))))))
    where
      frame :
          (t : Server) (o : Option Bytes)
          → Quiet t (elim o [ none ↦ t | some b ↦ udp_send_raw (t.heap r).udp_addr b t ])
      frame t none = Quiet-refl t
      frame t (some b) = udp_send-Quiet (t.heap r).udp_addr b t

  ping_session-Quiet :
      (send_pings : Bool) (limit : ℤ) (r : ℕ) (addr : Option String) (s : Server)
      → Quiet s (ping_session send_pings limit r addr s)
  unfolding ping_session
  ping_session-Quiet send_pings limit r none s = Quiet-refl s
  ping_session-Quiet send_pings limit r (some addr) s =
      if-Quiet (not (is_ready (s.heap r).auth_state)) (Quiet-refl s) (
        if-Quiet (ltb_ℤ (s.heap r).last_seen_unix_nano limit)
          (schedule-Quiet (some r) (sentinel ping_timeout) s)
          (if-Quiet send_pings (send_ping-Quiet r s) (Quiet-refl s)))

  ping_all-Quiet :
      (send_pings : Bool) (limit : ℤ) (l : List (ℕ × ℕ)) (s : Server)
      → Quiet s (ping_all send_pings limit l s)
  unfolding ping_all
  ping_all-Quiet send_pings limit [] s = Quiet-refl s
  ping_all-Quiet send_pings limit ((id, r) ∷ l) s =
      Quiet-trans (ping_session-Quiet send_pings limit r (s.heap r).udp_addr s)
        (ping_all-Quiet send_pings limit l (ping_session send_pings limit r (s.heap r).udp_addr s))

  pub ping_tick-Quiet : (tc : TickCtx) (s : Server) → Quiet s (run_ping_tick tc s)
  unfolding run_ping_tick
  ping_tick-Quiet tc s =
      let interval = or_default s.cfg.ping_interval default_ping_interval in
      let timeout = or_default s.cfg.ping_timeout default_ping_timeout in
      let due = not (ltb_ℤ (time_sub tc.now s.last_ping_batch_at) interval) in
      let s' : Server = if due then record s { last_ping_batch_at = tc.now } else s in
      Quiet-trans
        (if-Quiet due
          (Quiet-aside s (record s { last_ping_batch_at = tc.now }) refl refl refl refl refl refl)
          (Quiet-refl s))
        (ping_all-Quiet due (tc.now -ℤ timeout) s'.sessions s')

  pub malformed-Quiet :
      (is_udp : Bool) (sess : Option ℕ) (s : Server) → Quiet s (malformed is_udp sess s)
  unfolding malformed
  malformed-Quiet is_udp sess s = if-Quiet is_udp (Quiet-refl s) (schedule-Quiet sess _ s)

  pub on_tick-Quiet :
      (cb : Option TickHandler) (tc : TickCtx) (s : Server) → Quiet s (invoke_on_tick cb tc s)
  unfolding invoke_on_tick
  on_tick-Quiet none tc s = Quiet-refl s
  on_tick-Quiet (some cb) tc s =
      let script : Script Unit = cb (view tc s) s.game in
      let s1 : Server = record s { game = script.game } in
      Quiet-trans (Quiet-aside s s1 refl refl refl refl refl refl) (
        Quiet-trans (emit-Quiet (on_tick_called tc.tick) s1 (λ r. refl))
          (run_calls-Quiet script.calls (emit (on_tick_called tc.tick) s1)))

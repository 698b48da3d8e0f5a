-- ===== src/Server/Joining.antt =====
-- How a player gets in (tcp.go, udp.go, tick.go, handshake.go): a login over TCP and a datagram,
-- each with a tick of its own.
use godotnet.Base.{
  length, leb, subst, ℕ, ◌+◌, ◌%◌, ◌^◌, ◌<◌, ◌≡◌, sym, ap, ◌∙◌, String, Bool, true, none, some, [],
  ◌∷◌, Bytes, nat_eq, string_eq, arith,
}
use godotnet.Base.Map.{get}
use godotnet.Base.Int.{ℤ, pos}
use godotnet.Control.{Login, UdpHandshake, login, udp_handshake}
use godotnet.Events.{Event, Queue, push, drain}
use godotnet.Events.Fifo.{drain_lem}
use godotnet.Session.{session_pre_login, session_awaiting_udp, session_ready}
use godotnet.Env.{Env}
use godotnet.Callbacks.{Authenticate, returned}
use godotnet.Server.{Server}
use godotnet.Server.TickCtx.{TickCtx}
use godotnet.Server.Ping.{run_ping_tick}
use godotnet.Server.Handshake.{accept, credentials_of}
use godotnet.Server.Intake.{tcp_message, udp_message, push_frame, frame_pushed, udp_datagram}
use godotnet.Server.Tick.{handle_event, handle_events, run_tick}
use godotnet.Server.Quiet.{Quiet, Quiet-trans, identity}
use godotnet.Server.Quiet.Handlers.{ping_tick-Quiet, on_tick-Quiet}
use godotnet.Server.Loops.Datagrams.{udp_datagram-push}
use godotnet.Server.Route.{resolve-Quiet}
use godotnet.Server.Admission.Ruled.{sender, resolve-sender}
use godotnet.Server.Stages.{login-dispatch, handshake-dispatch, login-lists, handshake-pairs}

module _ ⦃env : Env⦄ where
  open env use {Msg, Game, unmarshal_frame}

  -- The server when a tick has drained the queue.
  abbrev pub drained : Server → Server
  drained s = record s { tick_count = (s.tick_count + 1) % 2 ^ 64; events = (drain s.events).1 }

  abbrev pub context : ℤ → Server → TickCtx
  context now s = record { tick = (s.tick_count + 1) % 2 ^ 64; now = now }

  -- A tick that finds one message does no more to the players than that message does.
  pub one_message :
      (now : ℤ) (e : Event) (s : Server)
      → s.events.buffer ≡ e ∷ []
      → Quiet (handle_event (context now s) e (drained s)) (run_tick now s)
  unfolding run_tick handle_events
  one_message now e s only =
      let tc : TickCtx = context now s in
      let s1 : Server = drained s in
      let s2 : Server = handle_events tc (drain s.events).0 s1 in
      let s3 : Server = run_ping_tick tc s2 in
      let found : (drain s.events).0 ≡ e ∷ [] = ap (λ x. x.0) (drain_lem s.events) ∙ only in
      subst (λ es. Quiet (handle_events tc es s1) (run_tick now s)) found
        (Quiet-trans (ping_tick-Quiet tc s2) (on_tick-Quiet s3.on_tick tc s3))

  -- The tick that handles a login which is the one event queued.
  login_tick :
      (now : ℤ) (r id : ℕ) (payload : Bytes) (l : Login) (authenticate : Authenticate) (creds : Msg)
      (game : Game) (s : Server)
      → s.events.buffer ≡ tcp_message r payload ∷ []
      → (s.heap r).id ≡ 0
      → (s.heap r).auth_state ≡ session_pre_login
      → unmarshal_frame payload ≡ some (some (login l))
      → credentials_of s l ≡ accept (authenticate, creds)
      → authenticate creds s.game ≡ (returned (id, none), game)
      → get s.sessions id ≡ none
      → (get (run_tick now s).sessions id ≡ some r)
        × (((run_tick now s).heap r).id ≡ id)
        × (((run_tick now s).heap r).auth_state ≡ session_awaiting_udp)
  unfolding credentials_of
  login_tick now r id payload l authenticate creds game s only no_id fresh parsed good answer
        absent =
      let path = login-dispatch (context now s) r payload l (drained s) no_id fresh parsed in
      let (listed, same_id, state) =
        login-lists r id l authenticate creds game (drained s) good answer absent in
      let after = one_message now (tcp_message r payload) s only in
      (
        ap (λ m. get m id) after.sessions ∙ ap (λ (t : Server). get t.sessions id) path ∙ listed,
        ap (λ x. x.0) (after.same r) ∙ ap (λ (t : Server). (t.heap r).id) path ∙ same_id,
        ap (λ x. x.1) (after.same r) ∙ ap (λ (t : Server). (t.heap r).auth_state) path ∙ state,
      )

  -- The tick that handles a pairing datagram which is the one event queued.
  handshake_tick :
      (now : ℤ) (r : ℕ) (addr : String) (bytes : Bytes) (hs : UdpHandshake) (s : Server)
      → s.events.buffer ≡ udp_message addr bytes ∷ []
      → unmarshal_frame bytes ≡ some (some (udp_handshake hs))
      → get s.sessions hs.player_id ≡ some r
      → (s.heap r).session_token ≡ hs.session_token
      → (s.heap r).auth_state ≡ session_awaiting_udp
      → let t = run_tick now s in
        (identity (t.heap r) ≡ ((s.heap r).id, session_ready, (s.heap r).session_token, some addr))
        × (get t.sessions hs.player_id ≡ some r)
        × (get t.udp_sessions addr ≡ some r)
  handshake_tick now r addr bytes hs s only parsed found token waiting =
      let tc = context now s in
      let s1 : Server = drained s in
      let path = handshake-dispatch tc addr bytes hs s1 parsed in
      let s2 : Server = (sender tc (udp_message addr bytes) s1).1 in
      let noted : Quiet s1 s2 =
        subst (λ p. Quiet s1 p.1) (resolve-sender tc (udp_message addr bytes) s1)
          (resolve-Quiet tc (udp_message addr bytes) s1) in
      let (ready, listed, leads) =
        handshake-pairs r addr hs s2 (ap (λ m. get m hs.player_id) noted.sessions ∙ found)
          (ap (λ x. x.2) (noted.same r) ∙ token) (ap (λ x. x.1) (noted.same r) ∙ waiting) in
      let after = one_message now (udp_message addr bytes) s only in
      (
        after.same r
            ∙ ap (λ (t : Server). identity (t.heap r)) path
            ∙ ready
            ∙ ap (λ x. (x.0, session_ready, x.2, some addr)) (noted.same r),
        ap (λ m. get m hs.player_id)
              (after.sessions ∙ ap (λ (t : Server). t.sessions) path ∙ listed ∙ noted.sessions)
            ∙ found,
        ap (λ m. get m addr) after.udp_sessions
            ∙ ap (λ (t : Server). get t.udp_sessions addr) path
            ∙ leads,
      )

  alone :
      (e : Event) (q : Queue)
      → q.buffer ≡ []
      → 0 < q.depth
      → push q e ≡ (record q { buffer = e ∷ [] }, true)
  unfolding push
  alone e q empty deep = rw empty (ground arith)

  queued_frame :
      (r : ℕ) (payload : Bytes) (s : Server)
      → s.events.buffer ≡ []
      → 0 < s.events.depth
      → (push_frame r payload s).0
        ≡ record s { events = record s.events { buffer = tcp_message r payload ∷ [] } }
  unfolding push_frame frame_pushed
  queued_frame r payload s empty deep =
      ap (λ p. (frame_pushed p r s).0) (alone (tcp_message r payload) s.events empty deep)

  queued_datagram :
      (cap : ℕ) (addr : String) (bytes : Bytes) (s : Server)
      → s.events.buffer ≡ []
      → 0 < s.events.depth
      → s.cfg.max_udp_payload ≡ pos cap
      → leb (length bytes) cap ≡ true
      → udp_datagram addr bytes s
        ≡ record s { events = record s.events { buffer = udp_message addr bytes ∷ [] } }
  queued_datagram cap addr bytes s empty deep limit short =
      udp_datagram-push cap addr bytes s limit short
      ∙ ap (λ (p : Queue × Bool). record s { events = p.0 })
          (alone (udp_message addr bytes) s.events empty deep)

  -- A new session gets in with a login frame and a datagram, each with a tick that finds it alone
  -- in the queue: if the credentials parse, Authenticate accepts them as a player who is not
  -- connected, and the datagram is within the cap and bears that player and the session's token,
  -- then after the first tick the player is listed, and after the second its session is ready at
  -- the datagram's address, which leads to it; whatever else the game's callbacks do.
  pub joins :
      (now later : ℤ) (r id cap : ℕ) (payload bytes : Bytes) (l : Login)
      (authenticate : Authenticate) (creds : Msg) (game : Game) (addr : String) (hs : UdpHandshake)
      (s : Server)
      → (s.heap r).id ≡ 0
      → (s.heap r).auth_state ≡ session_pre_login
      → s.events.buffer ≡ []
      → 0 < s.events.depth
      → unmarshal_frame payload ≡ some (some (login l))
      → credentials_of s l ≡ accept (authenticate, creds)
      → authenticate creds s.game ≡ (returned (id, none), game)
      → get s.sessions id ≡ none
      → let t = run_tick now (push_frame r payload s).0 in
        t.events.buffer ≡ []
        → 0 < t.events.depth
        → t.cfg.max_udp_payload ≡ pos cap
        → leb (length bytes) cap ≡ true
        → unmarshal_frame bytes ≡ some (some (udp_handshake hs))
        → hs.player_id ≡ id
        → hs.session_token ≡ (t.heap r).session_token
        → let u = run_tick later (udp_datagram addr bytes t) in
          (get t.sessions id ≡ some r)
          × (identity (u.heap r) ≡ (id, session_ready, hs.session_token, some addr))
          × (get u.sessions id ≡ some r)
          × (get u.udp_sessions addr ≡ some r)
  unfolding credentials_of
  joins now later r id cap payload bytes l authenticate creds game addr hs s no_id fresh empty deep
        parsed good answer absent idle room limit short greets named token =
      let asked : Server = (push_frame r payload s).0 in
      let t : Server = run_tick now asked in
      let hailed : Server = udp_datagram addr bytes t in
      let at_asked = queued_frame r payload s empty deep in
      let (listed, same_id, waiting) =
        login_tick now r id payload l authenticate creds game asked
          (ap (λ (x : Server). x.events.buffer) at_asked)
          (ap (λ (x : Server). (x.heap r).id) at_asked ∙ no_id)
          (ap (λ (x : Server). (x.heap r).auth_state) at_asked ∙ fresh) parsed
          (ap (λ (x : Server). credentials_of x l) at_asked ∙ good)
          (ap (λ (x : Server). authenticate creds x.game) at_asked ∙ answer)
          (ap (λ (x : Server). get x.sessions id) at_asked ∙ absent) in
      let at_hailed = queued_datagram cap addr bytes t idle room limit short in
      let (ready, still_listed, leads) =
        handshake_tick later r addr bytes hs hailed (ap (λ (x : Server). x.events.buffer) at_hailed)
          greets
          (ap (λ (x : Server). get x.sessions hs.player_id) at_hailed
            ∙ ap (get t.sessions) named
            ∙ listed)
          (ap (λ (x : Server). (x.heap r).session_token) at_hailed ∙ sym token)
          (ap (λ (x : Server). (x.heap r).auth_state) at_hailed ∙ waiting) in
      (
        listed,
        ready
            ∙ ap
                (λ (x : Server).
                  ((x.heap r).id, session_ready, (x.heap r).session_token, some addr))
                at_hailed
            ∙ ap (λ n. (n, session_ready, (t.heap r).session_token, some addr)) same_id
            ∙ ap (λ k. (id, session_ready, k, some addr)) (sym token),
        ap (get (run_tick later hailed).sessions) (sym named) ∙ still_listed,
        leads,
      )

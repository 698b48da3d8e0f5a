-- ===== src/Server/Cleanup.antt =====
-- server.go's cleanupSession, and the recovery of tick.go's invokeOnConnect, invokeOnAuth and
-- invokeOnDisconnect: a panic there is logged and no more.
use godotnet.Base.{ℕ, String, Option, none, some, ◌==◌, if◌then◌else◌, nat_eq, string_eq}
use godotnet.Base.Map.{delete}
use godotnet.Errors.{Error}
use godotnet.Session.{Channel, Session}
use godotnet.Env.{Env}
use godotnet.Callbacks.{Outcome, OnAuth, OnConnect, OnDisconnect}
use godotnet.Server.{
  Server, Effect, tcp_closed, channel_closed, on_auth_called, on_connect_called,
  on_disconnect_called, modify, emit,
}
use godotnet.Server.TickCtx.{session_view}

module _ ⦃env : Env⦄ where
  open env use {Msg, Game}

  -- A callback has run, and returned or panicked: its effect, and the game's state that it left.
  unfoldable pub called : Effect → Outcome Unit × Game → Server → Server
  called e (outcome, game) s = emit e (record s { game = game })

  unfoldable pub invoke_on_connect : Option OnConnect → ℕ → Server → Server
  unfolding called session_view
  invoke_on_connect none r s = s
  invoke_on_connect (some cb) r s = called (on_connect_called r) (cb (session_view s r) s.game) s

  unfoldable pub invoke_on_auth : Option OnAuth → ℕ → Msg → Server → Server
  unfolding called session_view
  invoke_on_auth none r creds s = s
  invoke_on_auth (some cb) r creds s =
      called (on_auth_called r) (cb (session_view s r) creds s.game) s

  unfoldable pub invoke_on_disconnect : Option OnDisconnect → ℕ → Option Error → Server → Server
  unfolding called session_view
  invoke_on_disconnect none r reason s = s
  invoke_on_disconnect (some cb) r reason s =
      called (on_disconnect_called r reason) (cb (session_view s r) reason s.game) s

  -- The steps of cleanupSession on a session that is not nil.
  unfoldable pub forget_player : ℕ → Server → Server
  forget_player r s =
      if (s.heap r).id == 0 then s else record s { sessions = delete s.sessions (s.heap r).id }

  unfoldable pub forget_addr : Option String → Server → Server
  forget_addr none s = s
  forget_addr (some addr) s = record s { udp_sessions = delete s.udp_sessions addr }

  unfoldable pub close_tcp : ℕ → Server → Server
  close_tcp r s = if (s.heap r).tcp then emit (tcp_closed r) s else s

  unfoldable pub close_channel : Option Channel → ℕ → Server → Server
  unfolding modify
  close_channel none r s = s
  close_channel (some c) r s =
      emit (channel_closed r) (modify r (λ x. record x { send_tcp = none }) s)

  unfoldable pub cleanup_session : Option ℕ → Option Error → Server → Server
  unfolding forget_player forget_addr close_tcp close_channel invoke_on_disconnect
  cleanup_session none reason s = s
  cleanup_session (some r) reason s =
      let x : Session = s.heap r in
      invoke_on_disconnect s.cfg.on_disconnect r reason
        (close_channel x.send_tcp r (close_tcp r (forget_addr x.udp_addr (forget_player r s))))

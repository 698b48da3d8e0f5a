-- ===== src/Server/Admission.antt =====
-- tick.go: which frames dispatchMessage acts on, from which session and over which socket.
pub mod Bodies
pub mod Ruled
pub mod Reconnected
use godotnet.Base.{
  ℕ, ◌≡◌, ◌≢◌, refl, sym, ap, ◌∙◌, String, Bool, true, false, not, ◌&&◌, ◌||◌, Option, none, some,
  Bytes, ◌==◌, if◌then◌else◌, Bool-cases, Option-cases, inl, inr, nat_eq, string_eq, arith,
}
use godotnet.Base.Map.{get}
use godotnet.Errors.{sentinel, malformed_frame}
use godotnet.Control.{
  Login, UdpHandshake, Pong, RpcRequest, ClientFrame, ClientBody, login, udp_handshake, pong,
  game_payload, rpc_request,
}
use godotnet.Events.{Event}
use godotnet.Session.{SessionAuthState, session_pre_login, session_awaiting_udp, session_ready}
use godotnet.Env.{Env}
use godotnet.Server.{Server, modify}
use godotnet.Server.Outbound.{schedule_disconnect}
use godotnet.Server.TickCtx.{TickCtx}
use godotnet.Server.Handshake.{handle_login, handle_udp_handshake}
use godotnet.Server.Dispatch.{dispatch_user_message, dispatch_rpc}
use godotnet.Server.Ping.{handle_pong}
use godotnet.Server.Tick.{
  is_some, resolve_addr, resolve, is_stale, malformed, route_session, handshake_at, route,
  dispatch_resolved, dispatch_message,
}

-- What a frame can lead to; a number is the session that it is from.
pub data Action : Type 0 where
  drop : Action
  expel : ℕ → Action
  log_in : ℕ → Login → Action
  pair_up : String → UdpHandshake → Action
  revive : ℕ → Pong → Action
  play : ℕ → Bytes → Action
  call : ℕ → RpcRequest → Action

-- The socket that a frame came over.
pub data Wire : Type 0 where
  over_tcp : Wire
  over_udp : Option String → Wire

-- The table: the body, the wire, and the sender's session with its state, if there is one.
unfoldable pub admitted : ClientBody → Wire → Option (ℕ × SessionAuthState) → Action
admitted (login l) over_tcp (some (r, session_pre_login)) = log_in r l
admitted (udp_handshake hs) (over_udp (some addr)) _ = pair_up addr hs
admitted (pong p) _ (some (r, _)) = revive r p
admitted (game_payload bytes) _ (some (r, session_ready)) = play r bytes
admitted (rpc_request req) over_tcp (some (r, session_ready)) = call r req
admitted _ _ _ = drop

-- The same for bytes that may not be a frame.
abbrev pub judged : Option (ℕ × SessionAuthState) → Wire → Option ClientFrame → Action
judged (some (r, a)) over_tcp none = expel r
judged none over_tcp none = drop
judged _ (over_udp addr) none = drop
judged sess wire (some none) = drop
judged sess wire (some (some body)) = admitted body wire sess

abbrev pub wire_of : Bool → Option String → Wire
wire_of true addr = over_udp addr
wire_of false addr = over_tcp

module _ ⦃env : Env⦄ where
  open env use {unmarshal_frame}

  unfoldable pub perform : TickCtx → Action → Server → Server
  unfolding schedule_disconnect handle_login handle_udp_handshake handle_pong dispatch_user_message
      dispatch_rpc
  perform tc drop s = s
  perform tc (expel r) s = schedule_disconnect (some r) (sentinel malformed_frame) s
  perform tc (log_in r l) s = handle_login r l s
  perform tc (pair_up addr hs) s = handle_udp_handshake addr hs s
  perform tc (revive r p) s = handle_pong tc r p s
  perform tc (play r bytes) s = dispatch_user_message tc r bytes s
  perform tc (call r req) s = dispatch_rpc tc r req s

  abbrev pub with_state : Option ℕ → Server → Option (ℕ × SessionAuthState)
  with_state none s = none
  with_state (some r) s = some (r, (s.heap r).auth_state)

  -- Whether a frame over TCP is of a player who has no entry of `sessions` any more.
  abbrev pub is_left_over : Wire → Option ℕ → Server → Bool
  is_left_over over_tcp (some r) s =
      not ((s.heap r).id == 0) && not (is_some (get s.sessions (s.heap r).id))
  is_left_over _ _ s = false

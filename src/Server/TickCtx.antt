-- ===== src/Server/TickCtx.antt =====
-- tickctx.go: what handlers may call.
use mathlib.Core.Bool.{◌&&◌}
use godotnet.Base.{
  ℕ, String, Bool, true, false, Option, none, some, List, [], ◌∷◌, Bytes, map, if◌then◌else◌,
  nat_eq,
}
use godotnet.Base.Chain.{◌>>=◌}
use godotnet.Base.Map.{get}
use godotnet.Base.Int.{ℤ}
use godotnet.Errors.{message}
use godotnet.Control.{ServerFrame}
use godotnet.Session.{SessionAuthState, session_pre_login, session_awaiting_udp, session_ready}
use godotnet.Env.{Env}
use godotnet.Callbacks.{
  SessionView, View, Call, send_udp, send_tcp, broadcast_udp, broadcast_tcp, disconnect,
}
use godotnet.Server.{Server}
use godotnet.Server.Outbound.{schedule_disconnect, push_tcp, udp_send_raw}

abbrev pub is_ready : SessionAuthState → Bool
is_ready session_pre_login = false
is_ready session_awaiting_udp = false
is_ready session_ready = true

-- tickCtx, whose pointer to the server is the server that each method is given.
pub record TickCtx : Type 0 where
  pub tick : ℕ
  pub now : ℤ

module _ ⦃env : Env⦄ where
  open env use {Msg, marshal, marshal_frame}

  unfoldable pub marshal_game_server_frame : Msg → Option Bytes
  marshal_game_server_frame msg = do
    inner ← marshal msg
    marshal_frame (ServerFrame.game_payload inner)

  unfoldable pub session_view : Server → ℕ → SessionView
  session_view s r = record { pointer = r; id = (s.heap r).id }

  unfoldable pub view : TickCtx → Server → View
  unfolding session_view
  view tc s = record {
    tick = tc.tick;
    now = tc.now;
    sessions = map (λ entry. session_view s entry.1) s.sessions;
  }

  -- The body of a send, for a message that marshals.
  unfoldable pub udp_to : Option Bytes → ℕ → Server → Server
  unfolding udp_send_raw
  udp_to none r s = s
  udp_to (some bytes) r s = udp_send_raw (s.heap r).udp_addr bytes s

  abbrev pub has_addr : Option String → Bool
  has_addr none = false
  has_addr (some addr) = true

  abbrev pub is_paired : Server → ℕ → Bool
  is_paired s r = is_ready (s.heap r).auth_state && has_addr (s.heap r).udp_addr

  unfoldable pub ctx_send_udp : ℕ → Msg → Server → Server
  unfolding udp_to marshal_game_server_frame
  ctx_send_udp id msg s = elim (get s.sessions id) [
    | none ↦ s
    | some r ↦ if is_paired s r then udp_to (marshal_game_server_frame msg) r s else s
  ]

  unfoldable pub tcp_to : Option Bytes → ℕ → Server → Server
  unfolding push_tcp
  tcp_to none r s = s
  tcp_to (some bytes) r s = push_tcp (some r) bytes s

  unfoldable pub ctx_send_tcp : ℕ → Msg → Server → Server
  unfolding tcp_to marshal_game_server_frame
  ctx_send_tcp id msg s = elim (get s.sessions id) [
    | none ↦ s
    | some r ↦ tcp_to (marshal_game_server_frame msg) r s
  ]

  -- The loops of the two broadcasts over the entries of `sessions`.
  unfoldable pub udp_all : List (ℕ × ℕ) → Bytes → Server → Server
  unfolding udp_send_raw
  udp_all [] bytes s = s
  udp_all ((id, r) ∷ rest) bytes s =
      udp_all rest bytes (if is_paired s r then udp_send_raw (s.heap r).udp_addr bytes s else s)

  unfoldable pub tcp_all : List (ℕ × ℕ) → Bytes → Server → Server
  unfolding push_tcp
  tcp_all [] bytes s = s
  tcp_all ((id, r) ∷ rest) bytes s = tcp_all rest bytes (push_tcp (some r) bytes s)

  unfoldable pub ctx_broadcast_udp : Msg → Server → Server
  unfolding udp_all marshal_game_server_frame
  ctx_broadcast_udp msg s = elim (marshal_game_server_frame msg) [
    | none ↦ s
    | some bytes ↦ udp_all s.sessions bytes s
  ]

  unfoldable pub ctx_broadcast_tcp : Msg → Server → Server
  unfolding tcp_all marshal_game_server_frame
  ctx_broadcast_tcp msg s = elim (marshal_game_server_frame msg) [
    | none ↦ s
    | some bytes ↦ tcp_all s.sessions bytes s
  ]

  unfoldable pub ctx_disconnect : ℕ → String → Server → Server
  unfolding schedule_disconnect
  ctx_disconnect id reason s = schedule_disconnect (get s.sessions id) (message reason) s

  -- One call of a method, and all the calls of a handler in order.
  unfoldable pub run_call : Call → Server → Server
  unfolding ctx_send_udp ctx_send_tcp ctx_broadcast_udp ctx_broadcast_tcp ctx_disconnect
  run_call (send_udp id msg) s = ctx_send_udp id msg s
  run_call (send_tcp id msg) s = ctx_send_tcp id msg s
  run_call (broadcast_udp msg) s = ctx_broadcast_udp msg s
  run_call (broadcast_tcp msg) s = ctx_broadcast_tcp msg s
  run_call (disconnect id reason) s = ctx_disconnect id reason s

  unfoldable pub run_calls : List Call → Server → Server
  unfolding run_call
  run_calls [] s = s
  run_calls (c ∷ calls) s = run_calls calls (run_call c s)

-- ===== src/Server/Admission/Bodies.antt =====
-- tick.go: the switch of dispatchMessage, body by body, against the table.
use godotnet.Base.{
  ℕ, ◌≡◌, refl, String, Bool, true, false, Option, none, some, Bytes, nat_eq, string_eq,
}
use godotnet.Control.{
  Login, UdpHandshake, Pong, RpcRequest, ClientBody, login, udp_handshake, pong, game_payload,
  rpc_request,
}
use godotnet.Session.{SessionAuthState, session_pre_login, session_awaiting_udp, session_ready}
use godotnet.Env.{Env}
use godotnet.Server.{Server}
use godotnet.Server.TickCtx.{TickCtx}
use godotnet.Server.Tick.{route_session, handshake_at}
use godotnet.Server.Admission.{admitted, wire_of, perform}

module _ ⦃env : Env⦄ where
  login-perform :
      (tc : TickCtx) (is_udp : Bool) (addr : Option String) (l : Login) (r : ℕ)
      (a : SessionAuthState) (s : Server)
      → (s.heap r).auth_state ≡ a
      → handshake_at is_udp addr (login l) (route_session tc is_udp (login l) r s)
        ≡ perform tc (admitted (login l) (wire_of is_udp addr) (some (r, a))) s
  unfolding route_session handshake_at admitted perform
  login-perform tc false addr l r session_pre_login s e = rw e
  login-perform tc false addr l r session_awaiting_udp s e = rw e
  login-perform tc false addr l r session_ready s e = rw e
  login-perform tc true none l r a s e = refl
  login-perform tc true (some addr) l r a s e = refl

  handshake-perform :
      (tc : TickCtx) (is_udp : Bool) (addr : Option String) (hs : UdpHandshake) (r : ℕ)
      (a : SessionAuthState) (s : Server)
      → (s.heap r).auth_state ≡ a
      → handshake_at is_udp addr (udp_handshake hs) (route_session tc is_udp (udp_handshake hs) r s)
        ≡ perform tc (admitted (udp_handshake hs) (wire_of is_udp addr) (some (r, a))) s
  unfolding route_session handshake_at admitted perform
  handshake-perform tc false addr hs r a s e = refl
  handshake-perform tc true none hs r a s e = refl
  handshake-perform tc true (some addr) hs r a s e = refl

  pong-perform :
      (tc : TickCtx) (is_udp : Bool) (addr : Option String) (p : Pong) (r : ℕ)
      (a : SessionAuthState) (s : Server)
      → (s.heap r).auth_state ≡ a
      → handshake_at is_udp addr (pong p) (route_session tc is_udp (pong p) r s)
        ≡ perform tc (admitted (pong p) (wire_of is_udp addr) (some (r, a))) s
  unfolding route_session handshake_at admitted perform
  pong-perform tc false addr p r a s e = refl
  pong-perform tc true none p r a s e = refl
  pong-perform tc true (some addr) p r a s e = refl

  payload-perform :
      (tc : TickCtx) (is_udp : Bool) (addr : Option String) (bytes : Bytes) (r : ℕ)
      (a : SessionAuthState) (s : Server)
      → (s.heap r).auth_state ≡ a
      → handshake_at is_udp addr
          (game_payload bytes)
          (route_session tc is_udp (game_payload bytes) r s)
        ≡ perform tc (admitted (game_payload bytes) (wire_of is_udp addr) (some (r, a))) s
  unfolding route_session handshake_at admitted perform
  payload-perform tc false addr bytes r session_pre_login s e = rw e
  payload-perform tc false addr bytes r session_awaiting_udp s e = rw e
  payload-perform tc false addr bytes r session_ready s e = rw e
  payload-perform tc true none bytes r session_pre_login s e = rw e
  payload-perform tc true none bytes r session_awaiting_udp s e = rw e
  payload-perform tc true none bytes r session_ready s e = rw e
  payload-perform tc true (some addr) bytes r session_pre_login s e = rw e
  payload-perform tc true (some addr) bytes r session_awaiting_udp s e = rw e
  payload-perform tc true (some addr) bytes r session_ready s e = rw e

  rpc-perform :
      (tc : TickCtx) (is_udp : Bool) (addr : Option String) (req : RpcRequest) (r : ℕ)
      (a : SessionAuthState) (s : Server)
      → (s.heap r).auth_state ≡ a
      → handshake_at is_udp addr (rpc_request req) (route_session tc is_udp (rpc_request req) r s)
        ≡ perform tc (admitted (rpc_request req) (wire_of is_udp addr) (some (r, a))) s
  unfolding route_session handshake_at admitted perform
  rpc-perform tc false addr req r session_pre_login s e = rw e
  rpc-perform tc false addr req r session_awaiting_udp s e = rw e
  rpc-perform tc false addr req r session_ready s e = rw e
  rpc-perform tc true none req r a s e = refl
  rpc-perform tc true (some addr) req r a s e = refl

  pub nobody-perform :
      (tc : TickCtx) (is_udp : Bool) (addr : Option String) (body : ClientBody) (s : Server)
      → handshake_at is_udp addr body s ≡ perform tc (admitted body (wire_of is_udp addr) none) s
  unfolding handshake_at admitted perform
  nobody-perform tc false addr (login l) s = refl
  nobody-perform tc false addr (udp_handshake hs) s = refl
  nobody-perform tc false addr (pong p) s = refl
  nobody-perform tc false addr (game_payload bytes) s = refl
  nobody-perform tc false addr (rpc_request req) s = refl
  nobody-perform tc true none (login l) s = refl
  nobody-perform tc true none (udp_handshake hs) s = refl
  nobody-perform tc true none (pong p) s = refl
  nobody-perform tc true none (game_payload bytes) s = refl
  nobody-perform tc true none (rpc_request req) s = refl
  nobody-perform tc true (some addr) (login l) s = refl
  nobody-perform tc true (some addr) (udp_handshake hs) s = refl
  nobody-perform tc true (some addr) (pong p) s = refl
  nobody-perform tc true (some addr) (game_payload bytes) s = refl
  nobody-perform tc true (some addr) (rpc_request req) s = refl

  pub somebody-perform :
      (tc : TickCtx) (is_udp : Bool) (addr : Option String) (body : ClientBody) (r : ℕ) (s : Server)
      → handshake_at is_udp addr body (route_session tc is_udp body r s)
        ≡ perform tc (admitted body (wire_of is_udp addr) (some (r, (s.heap r).auth_state))) s
  somebody-perform tc is_udp addr (login l) r s = login-perform tc is_udp addr l r _ s refl
  somebody-perform tc is_udp addr (udp_handshake hs) r s =
      handshake-perform tc is_udp addr hs r _ s refl
  somebody-perform tc is_udp addr (pong p) r s = pong-perform tc is_udp addr p r _ s refl
  somebody-perform tc is_udp addr (game_payload bytes) r s =
      payload-perform tc is_udp addr bytes r _ s refl
  somebody-perform tc is_udp addr (rpc_request req) r s = rpc-perform tc is_udp addr req r _ s refl

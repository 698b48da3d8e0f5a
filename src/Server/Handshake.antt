-- ===== src/Server/Handshake.antt =====
-- handshake.go: login over TCP, and the pairing of the UDP address. Log lines are left out.
use Prim.Native.String.{◌++◌ as append}
use text.Mathlib.Text.{◌==◌ as str_eq}
use godotnet.Base.{
  ℕ, suc, ◌+◌, String, Bool, true, false, not, Option, none, some, Bytes, if◌then◌else◌, nat_eq,
  string_eq,
}
use godotnet.Base.Map.{get, put}
use godotnet.Base.Int.{ℤ, pos, negsuc}
use godotnet.Base.Base64.{base64}
use godotnet.Errors.{
  Error, sentinel, suffixed, error_text, decimal, server_misconfigured, malformed_frame,
  auth_rejected,
}
use godotnet.Control.{Login, UdpHandshake, login_response, udp_handshake_ack}
use godotnet.Session.{SessionAuthState, session_pre_login, session_awaiting_udp, session_ready}
use godotnet.Env.{Env}
use godotnet.Callbacks.{Outcome, returned, panicked, Authenticate}
use godotnet.Server.{Server, modify}
use godotnet.Server.Outbound.{schedule_disconnect, push_tcp, udp_send_raw}
use godotnet.Server.Cleanup.{invoke_on_auth, invoke_on_connect}

abbrev pub is_awaiting_udp : SessionAuthState → Bool
is_awaiting_udp session_pre_login = false
is_awaiting_udp session_awaiting_udp = true
is_awaiting_udp session_ready = false

abbrev decimal_ℤ : ℤ → String
decimal_ℤ (pos n) = decimal n
decimal_ℤ (negsuc n) = append "-" (decimal (suc n))

-- A step of the login that may refuse it, with the text for the client and the disconnect reason.
pub data Verdict (A : Type 0) : Type 0 where
  accept : A → Verdict A
  refuse : String → Error → Verdict A

abbrev pub or_refuse : {A : Type 0} → Option A → String → Error → Verdict A
or_refuse none msg reason = refuse msg reason
or_refuse (some a) msg reason = accept a

infixl 5 ◌>>=◌
abbrev pub ◌>>=◌ : {A B : Type 0} → Verdict A → (A → Verdict B) → Verdict B
accept a >>= f = f a
refuse msg reason >>= f = refuse msg reason

module _ ⦃env : Env⦄ where
  open env use {Msg, Game, unmarshal, marshal_frame, random, clock}

  -- 16 random bytes in base64, or text of the clock if the random source fails.
  unfoldable pub token_of : Option Bytes → Server → String × Server
  token_of (some b) s = (base64 b, s)
  token_of none s = (
    append "fallback-" (decimal_ℤ (clock s.clock_reads)),
    record s { clock_reads = s.clock_reads + 1 },
  )

  unfoldable pub generate_session_token : Server → String × Server
  unfolding token_of base64
  generate_session_token s =
      token_of (random s.random_reads 16) (record s { random_reads = s.random_reads + 1 })

  unfoldable pub send_login_response : ℕ → Bool → String → ℕ → String → String → Server → Server
  unfolding push_tcp
  send_login_response r ok err_msg player_id token endpoint s =
      elim (marshal_frame (
        login_response (record {
          ok = ok;
          error_message = err_msg;
          player_id = player_id;
          session_token = token;
          udp_endpoint = endpoint;
        }))) [ none ↦ s | some bytes ↦ push_tcp (some r) bytes s ]

  unfoldable pub misconfigured : {A : Type 0} → Option A → Verdict A
  misconfigured a = or_refuse a "server misconfigured" (sentinel server_misconfigured)

  -- The checks before the call of Authenticate: the callback and the credentials.
  unfoldable pub credentials_of : Server → Login → Verdict (Authenticate × Msg)
  unfolding misconfigured
  credentials_of s login = do
    authenticate ← misconfigured s.cfg.authenticate
    prototype ← misconfigured s.cfg.login_prototype
    creds ←
        or_refuse (unmarshal prototype login.credentials) "malformed credentials"
          (suffixed (sentinel malformed_frame) ": credentials")
    accept (authenticate, creds)

  -- callAuthenticate: a panic becomes an error.
  unfoldable pub recovered : Outcome (ℕ × Option Error) → ℕ × Option Error
  recovered (returned result) = result
  recovered (panicked p) = (0, some (suffixed (sentinel auth_rejected) (append ": panic " p)))

  unfoldable pub call_authenticate : Authenticate → Msg → Server → (ℕ × Option Error) × Server
  unfolding recovered
  call_authenticate authenticate creds s =
      let result = authenticate creds s.game in (recovered result.0, record s { game = result.1 })

  -- The checks after it: its error, and a player who is connected already.
  unfoldable pub player_of : ℕ × Option Error → Server → Verdict ℕ
  player_of (id, some err) s =
      refuse (error_text err) (suffixed (sentinel auth_rejected) (append ": " (error_text err)))
  player_of (id, none) s = elim (get s.sessions id) [
    | none ↦ accept id
    | some r ↦ refuse "already connected" (suffixed (sentinel auth_rejected) ": duplicate")
  ]

  unfoldable pub endpoint_of : Server → String
  endpoint_of s =
      if str_eq s.cfg.udp_advertise_addr "" then s.cfg.udp_addr else s.cfg.udp_advertise_addr

  unfoldable pub enter : ℕ → ℕ → String → Server → Server
  unfolding modify
  enter r id token s =
      let s' =
        modify r
          (λ x. record x { id = id; session_token = token; auth_state = session_awaiting_udp }) s in
      record s' { sessions = put s'.sessions id r }

  unfoldable pub admit : ℕ → ℕ → Msg → Server → Server
  unfolding enter endpoint_of generate_session_token invoke_on_auth send_login_response
  admit r id creds s =
      let (token, s1) = generate_session_token s in
      send_login_response r true "" id token (endpoint_of s)
        (invoke_on_auth s.cfg.on_auth r creds (enter r id token s1))

  unfoldable pub turn_away : ℕ → String → Error → Server → Server
  unfolding send_login_response schedule_disconnect
  turn_away r msg reason s =
      schedule_disconnect (some r) reason (send_login_response r false msg 0 "" "" s)

  unfoldable pub conclude : ℕ → Msg → Verdict ℕ → Server → Server
  unfolding admit turn_away
  conclude r creds (accept id) s = admit r id creds s
  conclude r creds (refuse msg reason) s = turn_away r msg reason s

  unfoldable pub authenticate_then : ℕ → Verdict (Authenticate × Msg) → Server → Server
  unfolding conclude call_authenticate player_of
  authenticate_then r (refuse msg reason) s = turn_away r msg reason s
  authenticate_then r (accept (authenticate, creds)) s =
      let (result, s') = call_authenticate authenticate creds s in
      conclude r creds (player_of result s') s'

  unfoldable pub handle_login : ℕ → Login → Server → Server
  unfolding credentials_of authenticate_then
  handle_login r login s = authenticate_then r (credentials_of s login) s

  unfoldable pub send_udp_handshake_ack : String → Bool → ℕ → Server → Server
  unfolding udp_send_raw
  send_udp_handshake_ack addr ok player_id s =
      elim (marshal_frame (udp_handshake_ack (record { ok = ok; player_id = player_id }))) [
        | none ↦ s
        | some bytes ↦ udp_send_raw (some addr) bytes s
      ]

  -- The writes of a pairing that succeeds.
  unfoldable pub pair : String → ℕ → Server → Server
  unfolding modify
  pair addr r s =
      let s' =
        modify r
          (λ x. record x {
            udp_addr = some addr;
            auth_state = session_ready;
            last_seen_unix_nano = clock s.clock_reads;
          })
          s in
      record s' { clock_reads = s.clock_reads + 1; udp_sessions = put s'.udp_sessions addr r }

  unfoldable pub accept_pairing : String → ℕ → Server → Server
  unfolding pair send_udp_handshake_ack invoke_on_connect
  accept_pairing addr r s =
      invoke_on_connect s.cfg.on_connect r
        (send_udp_handshake_ack addr true (s.heap r).id (pair addr r s))

  unfoldable pub handle_udp_handshake : String → UdpHandshake → Server → Server
  unfolding accept_pairing
  handle_udp_handshake addr hs s = elim (get s.sessions hs.player_id) [
    | none ↦ send_udp_handshake_ack addr false hs.player_id s
    | some r ↦
        if not (str_eq (s.heap r).session_token hs.session_token)
        then send_udp_handshake_ack addr false hs.player_id s
        else if not (is_awaiting_udp (s.heap r).auth_state)
        then s
        else accept_pairing addr r s
  ]

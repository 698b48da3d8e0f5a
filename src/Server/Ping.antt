-- ===== src/Server/Ping.antt =====
-- ping.go: keepalive pings, and the sessions that have gone quiet.
use godotnet.Base.{
  ℕ, String, ◌+◌, ◌-◌, ◌*◌, ◌%◌, ◌^◌, Bool, not, Option, none, some, List, [], ◌∷◌, Bytes,
  if◌then◌else◌,
}
use godotnet.Base.Int.{ℤ, pos, negsuc, ◌-ℤ◌, ltb_ℤ, or_default}
use godotnet.Errors.{sentinel, ping_timeout}
use godotnet.Control.{Pong, ping}
use godotnet.Env.{Env}
use godotnet.Server.{Server, modify}
use godotnet.Server.Outbound.{schedule_disconnect, udp_send_raw}
use godotnet.Server.TickCtx.{TickCtx, is_ready}

-- Nanoseconds.
abbrev pub default_ping_interval : ℤ
default_ping_interval = pos 5_000_000_000

abbrev pub default_ping_timeout : ℤ
default_ping_timeout = pos 30_000_000_000

abbrev max_duration : ℤ
max_duration = pos 9_223_372_036_854_775_807

-- Time.Sub, which stops at the greatest duration (it stops at the least one too, far from any
-- interval).
abbrev pub time_sub : ℤ → ℤ → ℤ
time_sub t u = if ltb_ℤ max_duration (t -ℤ u) then max_duration else t -ℤ u

-- binary.BigEndian.Uint64
abbrev uint64_from : ℕ → Bytes → ℕ
uint64_from n [] = n
uint64_from n (b ∷ bytes) = uint64_from (n * 256 + b) bytes

-- uint64(time.Now().UnixNano()), which PutUint64 and Uint64 then carry over unchanged.
abbrev clock_nonce : ℤ → ℕ
clock_nonce (pos n) = n % 2 ^ 64
clock_nonce (negsuc n) = 2 ^ 64 - 1 - n % 2 ^ 64

module _ ⦃env : Env⦄ where
  open env use {marshal_frame, random, clock}

  unfoldable pub handle_pong : TickCtx → ℕ → Pong → Server → Server
  unfolding modify
  handle_pong tc r pong s = modify r (λ x. record x { last_seen_unix_nano = tc.now }) s

  unfoldable pub nonce_of : Option Bytes → Server → ℕ × Server
  nonce_of (some b) s = (uint64_from 0 b, s)
  nonce_of none s =
      (clock_nonce (clock s.clock_reads), record s { clock_reads = s.clock_reads + 1 })

  unfoldable pub send_ping : ℕ → Server → Server
  unfolding nonce_of modify udp_send_raw
  send_ping r s =
      let (nonce, s1) =
        nonce_of (random s.random_reads 8) (record s { random_reads = s.random_reads + 1 }) in
      let s2 : Server = modify r (λ x. record x { last_ping_nonce = nonce }) s1 in
      elim (marshal_frame (ping (record { nonce = nonce }))) [
        | none ↦ s2
        | some bytes ↦ udp_send_raw (s2.heap r).udp_addr bytes s2
      ]

  -- One round of the loop over the sessions.
  unfoldable pub ping_session : Bool → ℤ → ℕ → Option String → Server → Server
  unfolding send_ping schedule_disconnect
  ping_session send_pings limit r none s = s
  ping_session send_pings limit r (some addr) s =
      if not (is_ready (s.heap r).auth_state)
      then s
      else if ltb_ℤ (s.heap r).last_seen_unix_nano limit
      then schedule_disconnect (some r) (sentinel ping_timeout) s
      else if send_pings
      then send_ping r s
      else s

  unfoldable pub ping_all : Bool → ℤ → List (ℕ × ℕ) → Server → Server
  unfolding ping_session
  ping_all send_pings limit [] s = s
  ping_all send_pings limit ((id, r) ∷ rest) s =
      ping_all send_pings limit rest (ping_session send_pings limit r (s.heap r).udp_addr s)

  unfoldable pub run_ping_tick : TickCtx → Server → Server
  unfolding ping_all
  run_ping_tick tc s =
      let interval = or_default s.cfg.ping_interval default_ping_interval in
      let timeout = or_default s.cfg.ping_timeout default_ping_timeout in
      let send_pings = not (ltb_ℤ (time_sub tc.now s.last_ping_batch_at) interval) in
      let s' : Server = if send_pings then record s { last_ping_batch_at = tc.now } else s in
      ping_all send_pings (tc.now -ℤ timeout) s'.sessions s'

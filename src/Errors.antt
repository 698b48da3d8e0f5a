-- ===== src/Errors.antt =====
-- errors.go, and the errors that the code builds from them with `errors.New` and `fmt.Errorf`.
use Prim.Native.String.{◌++◌ as append, slice}
use godotnet.Base.{
  ℕ, zero, suc, ◌+◌, ◌/◌, ◌%◌, ◌≡◌, refl, String, Bool, false, ltb, ◌==◌, if◌then◌else◌,
}

-- The package's sentinels, then those of `io`, `net` and `context` that it returns or tests for.
pub data Sentinel : Type 0 where
  server_already_running unknown_message_type session_not_found : Sentinel
  outbound_queue_full handler_panic auth_rejected malformed_frame : Sentinel
  server_misconfigured ping_timeout rpc_handler_panic frame_too_large : Sentinel
  eof unexpected_eof net_closed canceled deadline_exceeded : Sentinel

-- `message` is `errors.New`; `prefixed p e` is `fmt.Errorf("p%w", e)` and `suffixed e s` is
-- `fmt.Errorf("%w" + s, e)`.
pub data Error : Type 0 where
  sentinel : Sentinel → Error
  message : String → Error
  prefixed : String → Error → Error
  suffixed : Error → String → Error

abbrev pub rank : Sentinel → ℕ
rank server_already_running = 0
rank unknown_message_type = 1
rank session_not_found = 2
rank outbound_queue_full = 3
rank handler_panic = 4
rank auth_rejected = 5
rank malformed_frame = 6
rank server_misconfigured = 7
rank ping_timeout = 8
rank rpc_handler_panic = 9
rank frame_too_large = 10
rank eof = 11
rank unexpected_eof = 12
rank net_closed = 13
rank canceled = 14
rank deadline_exceeded = 15

-- errors.Is: the chain of wrapped errors holds the target.
unfoldable pub is : Error → Sentinel → Bool
is (sentinel s) t = rank s == rank t
is (message m) t = false
is (prefixed p e) t = is e t
is (suffixed e s) t = is e t

abbrev pub sentinel_text : Sentinel → String
sentinel_text server_already_running = "godotnet: server already running"
sentinel_text unknown_message_type = "godotnet: unknown message type"
sentinel_text session_not_found = "godotnet: session not found"
sentinel_text outbound_queue_full = "godotnet: outbound queue full"
sentinel_text handler_panic = "godotnet: handler panicked"
sentinel_text auth_rejected = "godotnet: authentication rejected"
sentinel_text malformed_frame = "godotnet: malformed frame"
sentinel_text server_misconfigured = "godotnet: server misconfigured"
sentinel_text ping_timeout = "godotnet: ping timeout"
sentinel_text rpc_handler_panic = "godotnet: rpc handler panicked"
sentinel_text frame_too_large = "godotnet: frame exceeds max length"
sentinel_text eof = "EOF"
sentinel_text unexpected_eof = "unexpected EOF"
sentinel_text net_closed = "use of closed network connection"
sentinel_text canceled = "context canceled"
sentinel_text deadline_exceeded = "context deadline exceeded"

-- err.Error()
unfoldable pub error_text : Error → String
error_text (sentinel s) = sentinel_text s
error_text (message m) = m
error_text (prefixed p e) = append p (error_text e)
error_text (suffixed e s) = append (error_text e) s

-- The verb `%d`, on fuel: a number has at most as many digits as its value plus one.
digits : ℕ → ℕ → String
digits zero n = ""
digits (suc f) n =
    let rest = append (digits f (n / 10)) (slice "0123456789" (n % 10) (n % 10 + 1)) in
    if ltb n 10 then slice "0123456789" n (n + 1) else rest

unfoldable pub decimal : ℕ → String
unfolding digits
decimal n = digits (suc n) n

decimal_digits : decimal 1_048_577 ≡ "1048577"
unfolding decimal
decimal_digits = refl

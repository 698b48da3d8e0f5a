-- ===== src/Server/Quiet/Handshake.antt =====
-- What handshake.go sends and draws, as quiet changes.
use godotnet.Base.{ℕ, ◌+◌, refl, String, Bool, false, Option, none, some, Bytes, nat_eq, string_eq}
use godotnet.Errors.{Error}
use godotnet.Control.{udp_handshake_ack}
use godotnet.Env.{Env}
use godotnet.Server.{Server}
use godotnet.Server.Outbound.{push_tcp, udp_send_raw}
use godotnet.Server.Handshake.{
  token_of, generate_session_token, send_login_response, turn_away, send_udp_handshake_ack,
}
use godotnet.Server.Quiet.{Quiet, Quiet-refl, Quiet-trans, Quiet-aside}
use godotnet.Server.Quiet.Sends.{schedule-Quiet, push_tcp-Quiet, udp_send-Quiet}

module _ ⦃env : Env⦄ where
  open env use {Msg, marshal_frame, random, clock}

  pub login_response-Quiet :
      (r : ℕ) (ok : Bool) (msg : String) (id : ℕ) (token endpoint : String) (s : Server)
      → Quiet s (send_login_response r ok msg id token endpoint s)
  unfolding send_login_response
  login_response-Quiet r ok msg id token endpoint s = frame (marshal_frame _)
    where
      frame : (o : Option Bytes) → Quiet s (elim o [ none ↦ s | some b ↦ push_tcp (some r) b s ])
      frame none = Quiet-refl s
      frame (some b) = push_tcp-Quiet (some r) b s

  pub ack-Quiet :
      (addr : String) (ok : Bool) (id : ℕ) (s : Server)
      → Quiet s (send_udp_handshake_ack addr ok id s)
  unfolding send_udp_handshake_ack
  ack-Quiet addr ok id s =
      frame (marshal_frame (udp_handshake_ack (record { ok = ok; player_id = id })))
    where
      frame :
          (o : Option Bytes) → Quiet s (elim o [ none ↦ s | some b ↦ udp_send_raw (some addr) b s ])
      frame none = Quiet-refl s
      frame (some b) = udp_send-Quiet (some addr) b s

  pub token-Quiet : (s : Server) → Quiet s (generate_session_token s).1
  unfolding generate_session_token
  token-Quiet s =
      let s0 : Server = record s { random_reads = s.random_reads + 1 } in
      Quiet-trans (Quiet-aside s s0 refl refl refl refl refl refl)
        (drawn s0 (random s.random_reads 16))
    where
      drawn : (t : Server) (b : Option Bytes) → Quiet t (token_of b t).1
      drawn t (some b) = Quiet-refl t
      drawn t none =
          Quiet-aside t (record t { clock_reads = t.clock_reads + 1 }) refl refl refl refl refl refl

  pub turn_away-Quiet :
      (r : ℕ) (msg : String) (reason : Error) (s : Server) → Quiet s (turn_away r msg reason s)
  unfolding turn_away
  turn_away-Quiet r msg reason s =
      Quiet-trans (login_response-Quiet r false msg 0 "" "" s)
        (schedule-Quiet (some r) reason (send_login_response r false msg 0 "" "" s))

-- ===== src/Server/Quiet/Calls.antt =====
-- The calls of TickCtx (tickctx.go), as quiet changes.
use godotnet.Base.{ℕ, Option, none, some, List, [], ◌∷◌, Bytes, if◌then◌else◌, nat_eq}
use godotnet.Base.Map.{get}
use godotnet.Errors.{message}
use godotnet.Env.{Env}
use godotnet.Callbacks.{Call, send_udp, send_tcp, broadcast_udp, broadcast_tcp, disconnect}
use godotnet.Server.{Server}
use godotnet.Server.Outbound.{push_tcp, udp_send_raw}
use godotnet.Server.TickCtx.{
  is_paired, udp_to, tcp_to, udp_all, tcp_all, marshal_game_server_frame, run_call, run_calls,
}
use godotnet.Server.Quiet.{Quiet, Quiet-refl, Quiet-trans, if-Quiet}
use godotnet.Server.Quiet.Sends.{schedule-Quiet, push_tcp-Quiet, udp_send-Quiet}

module _ ⦃env : Env⦄ where
  open env use {Msg}

  udp_to-Quiet : (o : Option Bytes) (r : ℕ) (s : Server) → Quiet s (udp_to o r s)
  unfolding udp_to
  udp_to-Quiet none r s = Quiet-refl s
  udp_to-Quiet (some bytes) r s = udp_send-Quiet (s.heap r).udp_addr bytes s

  tcp_to-Quiet : (o : Option Bytes) (r : ℕ) (s : Server) → Quiet s (tcp_to o r s)
  unfolding tcp_to
  tcp_to-Quiet none r s = Quiet-refl s
  tcp_to-Quiet (some bytes) r s = push_tcp-Quiet (some r) bytes s

  udp_all-Quiet : (l : List (ℕ × ℕ)) (bytes : Bytes) (s : Server) → Quiet s (udp_all l bytes s)
  unfolding udp_all
  udp_all-Quiet [] bytes s = Quiet-refl s
  udp_all-Quiet ((id, r) ∷ l) bytes s =
      Quiet-trans
        (if-Quiet (is_paired s r) (udp_send-Quiet (s.heap r).udp_addr bytes s) (Quiet-refl s))
        (udp_all-Quiet l bytes
          (if is_paired s r then udp_send_raw (s.heap r).udp_addr bytes s else s))

  tcp_all-Quiet : (l : List (ℕ × ℕ)) (bytes : Bytes) (s : Server) → Quiet s (tcp_all l bytes s)
  unfolding tcp_all
  tcp_all-Quiet [] bytes s = Quiet-refl s
  tcp_all-Quiet ((id, r) ∷ l) bytes s =
      Quiet-trans (push_tcp-Quiet (some r) bytes s)
        (tcp_all-Quiet l bytes (push_tcp (some r) bytes s))

  pub run_call-Quiet : (c : Call) (s : Server) → Quiet s (run_call c s)
  unfolding run_call
  run_call-Quiet (send_udp id msg) s = target (get s.sessions id)
    where
      target :
          (o : Option ℕ)
          → Quiet s (elim o [
            | none ↦ s
            | some r ↦ if is_paired s r then udp_to (marshal_game_server_frame msg) r s else s
          ])
      target none = Quiet-refl s
      target (some r) =
          if-Quiet (is_paired s r) (udp_to-Quiet (marshal_game_server_frame msg) r s) (Quiet-refl s)
  run_call-Quiet (send_tcp id msg) s = target (get s.sessions id)
    where
      target :
          (o : Option ℕ)
          → Quiet s (elim o [ none ↦ s | some r ↦ tcp_to (marshal_game_server_frame msg) r s ])
      target none = Quiet-refl s
      target (some r) = tcp_to-Quiet (marshal_game_server_frame msg) r s
  run_call-Quiet (broadcast_udp msg) s = frame (marshal_game_server_frame msg)
    where
      frame : (o : Option Bytes) → Quiet s (elim o [ none ↦ s | some b ↦ udp_all s.sessions b s ])
      frame none = Quiet-refl s
      frame (some b) = udp_all-Quiet s.sessions b s
  run_call-Quiet (broadcast_tcp msg) s = frame (marshal_game_server_frame msg)
    where
      frame : (o : Option Bytes) → Quiet s (elim o [ none ↦ s | some b ↦ tcp_all s.sessions b s ])
      frame none = Quiet-refl s
      frame (some b) = tcp_all-Quiet s.sessions b s
  run_call-Quiet (disconnect id reason) s = schedule-Quiet (get s.sessions id) (message reason) s

  pub run_calls-Quiet : (calls : List Call) (s : Server) → Quiet s (run_calls calls s)
  unfolding run_calls
  run_calls-Quiet [] s = Quiet-refl s
  run_calls-Quiet (c ∷ calls) s =
      Quiet-trans (run_call-Quiet c s) (run_calls-Quiet calls (run_call c s))

-- ===== src/Examples/Admitted.antt =====
-- Messages of the small game that the table routes, a publish, a player who stays, and two in a row.
use mathlib.Core.List.{Permᴰ}
use godotnet.Server.AnyOrder.{any_order}
use godotnet.Server.Vital.{vital}
use godotnet.Server.Ping.{run_ping_tick}
use godotnet.Server.TickCtx.{is_paired, ctx_broadcast_udp, ctx_broadcast_tcp}
use godotnet.Server.Mail.{mail}
use godotnet.Base.{ℕ, ◌≤◌, ◌≡◌, refl, true, false, none, some, List, [], ◌∷◌, nat_eq, string_eq}
use godotnet.Base.Map.{get, put, delete}
use godotnet.Base.Int.{pos}
use godotnet.Control.{Login}
use godotnet.Events.{Event, event_message, drain_during}
use godotnet.Session.{Channel, session_pre_login, session_ready}
use godotnet.Server.{Server, new_server, modify}
use godotnet.Server.Cleanup.{cleanup_session}
use godotnet.Server.Handshake.{handle_login}
use godotnet.Server.Intake.{accept_conn, push_frame, writer_take, udp_datagram}
use godotnet.Server.TickCtx.{TickCtx, run_calls, marshal_game_server_frame}
use godotnet.Server.Dispatch.{dispatch_rpc}
use godotnet.Server.Tick.{dispatch_message, run_tick}
use godotnet.Server.Admission.Ruled.{ruled, sender, dispatch_message_lem}
use godotnet.Server.Admission.Reconnected.{dispatch_message-handle_login}
use godotnet.System.{Reach, io, written, datagram_read, ticked, next}
use godotnet.System.Tenure.{Tenure, begins, lasts, tenure_lem}
use godotnet.Server.Onward.{stage}
use godotnet.Server.Quiet.{identity}
use godotnet.Errors.{decimal}
use godotnet.Sub.{new, publish_over, transport_tcp}
use godotnet.Sub.Relation.{Operation, subscribes, leaves, apply_all}
use godotnet.Sub.Delivered.{publish_over-history}
use godotnet.Examples.Demo.{demo, config}
use godotnet.Examples.Sessions.{in_game, in_game-Reach, in_game_lists_player}

abbrev now : TickCtx
now = record { tick = 3; now = pos 9 }

abbrev buying : Event
buying = record {
  kind = event_message;
  sess = some 3;
  is_udp = false;
  udp_addr = none;
  payload = 5 ∷ [];
  reason = none;
}

dispatch_message_lem_example :
    dispatch_message now buying in_game ≡ ruled now buying (sender now buying in_game)
dispatch_message_lem_example = dispatch_message_lem now buying in_game

-- Player 7 is ready, and session 4 has been accepted.
abbrev ready : Server
ready = modify 3 (λ x. record x { auth_state = session_ready }) in_game

abbrev again : Login
again = record { credentials = 1 ∷ [] }

abbrev back : Server
back = handle_login 4 again (cleanup_session (some 3) none ready)

ready_state : (ready.heap 3).auth_state ≡ session_ready
unfolding modify
ready_state = refl

fresh_state : (ready.heap 4).auth_state ≡ session_pre_login
unfolding modify run_tick push_frame accept_conn new_server get put drain_during
fresh_state = refl

listed_again : get back.sessions (ready.heap 3).id ≡ some 4
unfolding modify run_tick push_frame accept_conn new_server get put delete drain_during handle_login
    cleanup_session
listed_again = refl

dispatch_message-handle_login_example :
    dispatch_message now buying back
    ≡ dispatch_rpc now 3 (record { correlation_id = 77; payload = [] }) back
dispatch_message-handle_login_example =
    dispatch_message-handle_login now buying 3 4 again
      (record { correlation_id = 77; payload = [] }) none ready ready_state fresh_state listed_again
      refl refl refl

abbrev fans : List Operation
fans = subscribes 7 "guild:7" ∷ subscribes 2 "guild:7" ∷ leaves 2 ∷ []

-- The writer has sent the login's response.
abbrev quiet : Server
quiet = (writer_take 3 in_game).1

quiet-Reach : Reach (new_server config 0) quiet
quiet-Reach = next in_game-Reach (io (written 3))

quiet_listed : get quiet.sessions 7 ≡ some 3
unfolding run_tick push_frame accept_conn new_server get put drain_during writer_take
quiet_listed = refl

abbrev outbox : Channel
outbox = record { capacity = 1; queued = [] }

quiet_channel : (quiet.heap 3).send_tcp ≡ some outbox
unfolding run_tick push_frame accept_conn new_server get put drain_during writer_take
quiet_channel = refl

greeting_bytes : marshal_game_server_frame "Hi" ≡ some (9 ∷ [])
unfolding marshal_game_server_frame
greeting_bytes = refl

publish_over-history_example :
    ((run_calls (publish_over "guild:7" "Hi" transport_tcp (apply_all fans new)) quiet).heap
      3).send_tcp
    ≡ some (record outbox { queued = (9 ∷ []) ∷ [] })
publish_over-history_example =
    publish_over-history "Hi" (9 ∷ []) greeting_bytes fans "guild:7" config 0 quiet 7 3 outbox
      quiet-Reach quiet_listed quiet_channel

-- Player 7's datagram comes, and the next tick pairs the session.
abbrev hailed : Server
hailed = udp_datagram "10.0.0.1:5000" (2 ∷ []) in_game

abbrev playing : Server
playing = run_tick (pos 200) hailed

hailed_listed : get hailed.sessions 7 ≡ some 3
unfolding run_tick push_frame accept_conn new_server get put drain_during udp_datagram
hailed_listed = refl

playing_listed : get playing.sessions 7 ≡ some 3
unfolding run_tick push_frame accept_conn new_server get put drain_during udp_datagram decimal
playing_listed = refl

playing_ready : (playing.heap 3).auth_state ≡ session_ready
unfolding run_tick push_frame accept_conn new_server get put drain_during udp_datagram decimal
playing_ready = refl

tenure : Tenure 7 3 in_game playing
tenure =
    lasts
      (lasts (begins in_game_lists_player) (io (datagram_read "10.0.0.1:5000" (2 ∷ [])))
        hailed_listed)
      (ticked (pos 200)) playing_listed

tenure_lem_example :
    ((in_game.heap 3).id ≡ 7)
    × (1 ≤ stage (in_game.heap 3).auth_state)
    × (stage (in_game.heap 3).auth_state ≤ stage (playing.heap 3).auth_state)
    × ((playing.heap 3).id ≡ (in_game.heap 3).id)
    × ((playing.heap 3).session_token ≡ (in_game.heap 3).session_token)
    × ((in_game.heap 3).auth_state ≡ session_ready
        → identity (playing.heap 3) ≡ identity (in_game.heap 3))
tenure_lem_example = tenure_lem config 0 in_game playing 7 3 in_game-Reach tenure

-- Two players, both ready at an address, on a running server, in either order.
abbrev crowd : Server
crowd =
    record (modify 4
      (λ x. record x { id = 8; auth_state = session_ready; udp_addr = some "10.0.0.2:5000" })
      playing) { sessions = (7, 3) ∷ (8, 4) ∷ []; udp_conn = true }

abbrev turned : Server
turned = record crowd { sessions = (8, 4) ∷ (7, 3) ∷ [] }

both_paired : (is_paired crowd 3 ≡ true) × (is_paired crowd 4 ≡ true)
unfolding modify run_tick push_frame udp_datagram accept_conn new_server get put drain_during
    decimal
both_paired = (refl, refl)

any_order_example :
    ((q : ℕ)
      → (vital ((run_ping_tick now turned).heap q) ≡ vital ((run_ping_tick now crowd).heap q))
        × (((run_ping_tick now turned).heap q).disconnect_once
            ≡ ((run_ping_tick now crowd).heap q).disconnect_once))
    × ((q : ℕ)
        → mail ((ctx_broadcast_tcp "Moved" turned).heap q)
          ≡ mail ((ctx_broadcast_tcp "Moved" crowd).heap q))
    × Permᴰ (ctx_broadcast_udp "Moved" crowd).trace (ctx_broadcast_udp "Moved" turned).trace
    × (ctx_broadcast_udp "Moved" turned ≡ record (ctx_broadcast_udp "Moved" crowd) {
      sessions = (8, 4) ∷ (7, 3) ∷ [];
      trace = (ctx_broadcast_udp "Moved" turned).trace;
    })
any_order_example = any_order now "Moved" ((8, 4) ∷ (7, 3) ∷ []) crowd (Permᴰ.swap refl refl)

-- ===== src/Examples/Journeys.antt =====
-- Logins, pairings, cleanups and the reader of the small game.
use godotnet.Base.{
  ◌&&◌, ℕ, ◌≡◌, ◌≢◌, refl, String, true, none, some, List, [], ◌∷◌, ◌++◌, Bytes, inr, nat_eq,
  string_eq, arith,
}
use godotnet.Base.Map.{get, put}
use godotnet.Base.Int.{pos, ◌-ℤ◌, or_default}
use godotnet.Errors.{decimal}
use godotnet.Control.{Login, UdpHandshake}
use godotnet.Events.{drain_during}
use godotnet.Session.{session_awaiting_udp, session_ready}
use godotnet.Server.Takeover.{IsCutOff, cleanup-handle_udp_handshake}
use godotnet.Server.{Server, new_server, modify}
use godotnet.Server.Outbound.{disconnect_event}
use godotnet.Server.Cleanup.{cleanup_session}
use godotnet.Server.Handshake.{handle_login, handle_udp_handshake}
use godotnet.Server.Intake.{accept_conn, push_frame, run_tcp_reader}
use godotnet.Server.Quiet.{Quiet}
use godotnet.Server.Granted.{Decision, login_decided}
use godotnet.Server.Pairing.{PairingOutcome, handle_udp_handshake_lem}
use godotnet.Server.Departed.{cleanup-forgets}
use godotnet.Server.TickCtx.{TickCtx}
use godotnet.Server.Ping.{default_ping_timeout, run_ping_tick}
use godotnet.Server.Keepalive.{Fires, is_listed, is_silent, run_ping_tick_lem}
use godotnet.Server.Vital.{vital}
use godotnet.Server.Lifecycle.{start as start_run, Start, start_lem}
use godotnet.Server.Tick.{run_tick}
use godotnet.Server.Reader.{
  frames, messages, stream_end, run_tcp_reader-ends, run_tcp_reader-frames,
}
use godotnet.System.Safety.{reachable-Inv}
use godotnet.Examples.Demo.{demo, config, start}
use godotnet.Examples.Sessions.{greeted, in_game, in_game-Reach}

abbrev hello : Login
hello = record { credentials = 1 ∷ [] }

login_decided_example : Decision 3 hello greeted (handle_login 3 hello greeted)
unfolding accept_conn new_server
login_decided_example = login_decided 3 hello greeted refl

abbrev greeting : UdpHandshake
greeting = record { player_id = 7; session_token = "fallback-1" }

handle_udp_handshake_lem_example :
    PairingOutcome "10.0.0.1:5000" greeting in_game
      (handle_udp_handshake "10.0.0.1:5000" greeting in_game)
handle_udp_handshake_lem_example = handle_udp_handshake_lem "10.0.0.1:5000" greeting in_game

in_game_player : (in_game.heap 3).id ≡ 7
unfolding run_tick push_frame accept_conn new_server get put drain_during
in_game_player = refl

-- The datagram's token is the one that the login gave.
in_game_token : (in_game.heap 3).session_token ≡ greeting.session_token
unfolding run_tick push_frame accept_conn new_server get put drain_during decimal
in_game_token = refl

cleanup-forgets_example :
    ((id : ℕ) → get (cleanup_session (some 3) none in_game).sessions id ≢ some 3)
    × ((a : String) → get (cleanup_session (some 3) none in_game).udp_sessions a ≢ some 3)
    × ((id : ℕ)
        → id ≢ (in_game.heap 3).id
        → get (cleanup_session (some 3) none in_game).sessions id ≡ get in_game.sessions id)
cleanup-forgets_example =
    cleanup-forgets [] 3 none in_game (reachable-Inv config 0 in_game in_game-Reach)
      (λ e. let never : (in_game.heap 3).id ≡ 7 = in_game_player in omega arith)

run_tcp_reader-ends_example :
    (t : Server) × (run_tcp_reader 9 3 (0 ∷ 0 ∷ 0 ∷ 1 ∷ 5 ∷ []) greeted ≡ some t)
    × ((t.heap 3).disconnect_once ≡ true)
    × Quiet greeted t
run_tcp_reader-ends_example = run_tcp_reader-ends 9 3 (0 ∷ 0 ∷ 0 ∷ 1 ∷ 5 ∷ []) greeted (omega arith)

abbrev roomy : Server
roomy = record greeted { events = record { depth = 4; buffer = [] } }

abbrev two_payloads : List Bytes
two_payloads = (5 ∷ 6 ∷ []) ∷ [] ∷ []

run_tcp_reader-frames_example :
    (t : Server) × (run_tcp_reader 3 3 (frames two_payloads) roomy ≡ some t)
    × (t.events.buffer ≡ [] ++ (messages 3 two_payloads ++ disconnect_event 3 stream_end ∷ []))
unfolding accept_conn new_server
run_tcp_reader-frames_example =
    run_tcp_reader-frames 3 3 two_payloads roomy (omega arith)
      ((omega arith, inr (omega arith)), ((omega arith, inr (omega arith)), tt)) (omega arith) refl

-- Both sockets open.
start_lem_example :
    Start
      (λ a. a)
      none
      none
      start
      (start_run (λ a. a) none none start).0
      (start_run (λ a. a) none none start).1
unfolding new_server
start_lem_example = start_lem (λ a. a) none none start refl

abbrev late : TickCtx
late = record { tick = 2; now = pos 60_000_000_000 }

-- A minute later.
run_ping_tick_lem_example :
    Fires
      (λ q.
        is_listed in_game.sessions q
        && is_silent
            (pos 60_000_000_000 -ℤ or_default in_game.cfg.ping_timeout default_ping_timeout)
            (vital (in_game.heap q)))
      in_game
      (run_ping_tick late in_game)
run_ping_tick_lem_example = run_ping_tick_lem late in_game

-- Another session is ready at the address from which player 7's datagram comes.
abbrev shared : Server
shared =
    modify 5 (λ x. record x { udp_addr = some "10.0.0.1:5000"; auth_state = session_ready }) in_game

shared_lists_player : get shared.sessions 7 ≡ some 3
unfolding modify run_tick push_frame accept_conn new_server get put drain_during
shared_lists_player = refl

shared_token : (shared.heap 3).session_token ≡ greeting.session_token
unfolding modify run_tick push_frame accept_conn new_server get put drain_during decimal
shared_token = refl

shared_awaits : (shared.heap 3).auth_state ≡ session_awaiting_udp
unfolding modify run_tick push_frame accept_conn new_server get put drain_during
shared_awaits = refl

shared_addr : (shared.heap 5).udp_addr ≡ some "10.0.0.1:5000"
unfolding modify
shared_addr = refl

cleanup-handle_udp_handshake_example :
    IsCutOff 3 "10.0.0.1:5000"
      (cleanup_session (some 5) none (handle_udp_handshake "10.0.0.1:5000" greeting shared))
cleanup-handle_udp_handshake_example =
    cleanup-handle_udp_handshake 5 3 "10.0.0.1:5000" greeting none shared (λ e. omega arith)
      shared_addr shared_lists_player shared_token shared_awaits

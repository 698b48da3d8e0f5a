-- ===== src/Examples/Lasting.antt =====
-- Players of the small game who stay on the map of sessions, whatever comes.
use godotnet.Base.{
  length, ◌+◌, ◌≡◌, ◌⊎◌, refl, none, some, true, false, [], ◌∷◌, nat_eq, string_eq, arith,
}
use godotnet.Base.Map.{get, put}
use godotnet.Base.Int.{pos}
use godotnet.Errors.{message, sentinel, ping_timeout}
use godotnet.Control.{Login}
use godotnet.Events.{Event, event_message, drain_during, push}
use godotnet.Session.{session_pre_login}
use godotnet.Callbacks.{returned}
use godotnet.Server.{Server, new_server, modify}
use godotnet.Server.Outbound.{schedule_disconnect}
use godotnet.Server.Handshake.{handle_login}
use godotnet.Server.Intake.{accept_conn, push_frame, reader_disconnect}
use godotnet.Server.TickCtx.{TickCtx}
use godotnet.Server.Tick.{handle_event, run_tick}
use godotnet.Server.Quiet.{owed}
use godotnet.Server.Granted.{IsGranted}
use godotnet.System.{io, accepted, frame_read, read_failed, ticked, here, next}
use godotnet.System.Interleaved.{Moves, at_ticker, handling, handled, pending_of, Reach-Moves}
use godotnet.System.Listed.{IsLeaving, Move-listed, Moves-zero}
use godotnet.System.Forever.{disconnect_lost, login-revives}
use godotnet.Examples.Demo.{demo, config, start}
use godotnet.Examples.Sessions.{
  start-IsFresh, greeted, in_game, in_game-Reach, in_game_lists_player,
}

-- Player 7 is in the game, and a frame of its fills the queue of one event.
abbrev busy : Server
busy = (push_frame 3 (9 ∷ []) in_game).0

busy-Moves : Moves start at_ticker busy at_ticker
busy-Moves = Reach-Moves (next in_game-Reach (io (frame_read 3 (9 ∷ []))))

busy_lists_player : get busy.sessions 7 ≡ some 3
unfolding run_tick push_frame accept_conn new_server get put drain_during push
busy_lists_player = refl

busy_has_not_fired : (busy.heap 3).disconnect_once ≡ false
unfolding run_tick push_frame accept_conn new_server get put drain_during push
busy_has_not_fired = refl

busy_depth : busy.events.depth ≡ 1
unfolding run_tick push_frame accept_conn new_server get put drain_during push
busy_depth = refl

busy_buffer : length busy.events.buffer ≡ 1
unfolding run_tick push_frame accept_conn new_server get put drain_during push
busy_buffer = refl

-- The session is told to go, and a tick makes room in the queue.
abbrev lost : Server
lost = schedule_disconnect (some 3) (sentinel ping_timeout) busy

disconnect_lost_example :
    (get (run_tick (pos 200) lost).sessions 7 ≡ some 3)
    × (owed 3 (pending_of at_ticker) + owed 3 (run_tick (pos 200) lost).events.buffer ≡ 0)
disconnect_lost_example =
    disconnect_lost config 0 7 3 (sentinel ping_timeout) busy at_ticker (run_tick (pos 200) lost)
      at_ticker busy-Moves busy_lists_player busy_has_not_fired
      (let depth = busy_depth in let buffer = busy_buffer in omega arith)
      (Reach-Moves (next here (ticked (pos 200))))

-- A connection ends before its login, and a tick cleans its session up.
abbrev dropped : Server
dropped = run_tick (pos 100) (reader_disconnect 3 (message "EOF") greeted)

dropped-Moves : Moves start at_ticker dropped at_ticker
dropped-Moves = Reach-Moves (
    next (next (next here (io (accepted 3 (start-IsFresh 3)))) (io (read_failed 3 (message "EOF"))))
      (ticked (pos 100)))

dropped_is_pre_login : (dropped.heap 3).auth_state ≡ session_pre_login
unfolding run_tick reader_disconnect accept_conn new_server get put drain_during push
dropped_is_pre_login = refl

dropped_has_fired : (dropped.heap 3).disconnect_once ≡ true
unfolding run_tick reader_disconnect accept_conn new_server get put drain_during push
dropped_has_fired = refl

dropped_owes_nothing : owed 3 (pending_of at_ticker) + owed 3 dropped.events.buffer ≡ 0
unfolding run_tick reader_disconnect accept_conn new_server get put drain_during push owed
dropped_owes_nothing = refl

-- Its login was read before the connection ended.
abbrev hello : Login
hello = record { credentials = 1 ∷ [] }

dropped-IsGranted : IsGranted dropped hello 7
unfolding run_tick reader_disconnect accept_conn new_server get put drain_during push
dropped-IsGranted = record {
  authenticate = λ creds game. (returned (7, none), game);
  prototype = "Login";
  creds = "Login";
  game = 0;
  configured = refl;
  typed = refl;
  parsed = refl;
  approved = refl;
  absent = refl;
}

abbrev revived : Server
revived = handle_login 3 hello dropped

login-revives_example :
    (get (run_tick (pos 200) revived).sessions 7 ≡ some 3)
    × (owed 3 (pending_of at_ticker) + owed 3 (run_tick (pos 200) revived).events.buffer ≡ 0)
login-revives_example =
    login-revives config 0 7 3 hello dropped at_ticker (run_tick (pos 200) revived) at_ticker
      dropped-Moves dropped_is_pre_login dropped_has_fired dropped_owes_nothing dropped-IsGranted
      (Reach-Moves (next here (ticked (pos 200))))

-- Another session asks to be player 7.
abbrev again : Event
again = record {
  kind = event_message;
  sess = some 5;
  is_udp = false;
  udp_addr = none;
  payload = 1 ∷ [];
  reason = none;
}

abbrev second_tick : TickCtx
second_tick = record { tick = 2; now = pos 200 }

Move-listed_example :
    (get (handle_event second_tick again in_game).sessions 7 ≡ some 3)
    ⊎ ((get (handle_event second_tick again in_game).sessions 7 ≡ none)
        × IsLeaving 7 in_game (handling second_tick (again ∷ [])))
Move-listed_example =
    Move-listed {s = in_game} {p = handling second_tick (again ∷ [])}
      {t = handle_event second_tick again in_game} {p' = handling second_tick []} 7 3 handled
      in_game_lists_player

-- Player 0's disconnect is queued.
abbrev zero_leaving : Server
zero_leaving =
    schedule_disconnect (some 3) (sentinel ping_timeout)
      (record (modify 3 (λ x. record x { id = 0 }) in_game) { sessions = (0, 3) ∷ [] })

zero_is_listed : get zero_leaving.sessions 0 ≡ some 3
unfolding schedule_disconnect modify run_tick push_frame accept_conn new_server get put drain_during
    push
zero_is_listed = refl

Moves-zero_example : get (run_tick (pos 300) zero_leaving).sessions 0 ≡ some 3
Moves-zero_example = Moves-zero 3 (Reach-Moves (next here (ticked (pos 300)))) zero_is_listed

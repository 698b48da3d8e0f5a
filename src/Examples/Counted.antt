-- ===== src/Examples/Counted.antt =====
-- A server whose queue has room: a disconnect, a silent player, and a player who gets in.
use godotnet.Base.{none, some, ℕ, ◌+◌, ◌≡◌, refl, true, false, [], ◌∷◌, nat_eq, string_eq, arith}
use godotnet.Base.Map.{get, put}
use godotnet.Base.Int.{pos}
use godotnet.Errors.{message, decimal}
use godotnet.Events.{drain_during, drain, push}
use godotnet.Callbacks.{returned}
use godotnet.Server.{Server, Config, new_server}
use godotnet.Server.Intake.{accept_conn, reader_disconnect, push_frame, udp_datagram}
use godotnet.Server.Tick.{run_tick}
use godotnet.Server.TickCtx.{TickCtx}
use godotnet.Server.Quiet.{to_ℕ, owed, goodbyes, fired}
use godotnet.Server.Owing.{HasRoom}
use godotnet.Server.Farewell.{IsGone}
use godotnet.System.{
  IsFresh, Reach, here, next, io, accepted, read_failed, frame_read, datagram_read, ticked,
}
use godotnet.System.Safety.{reachable-Inv}
use godotnet.System.Interleaved.{handling, other, began, begin_tick, tick_context, end_tick}
use godotnet.System.Settled.{still, onward, each_told_once}
use godotnet.Server.Keepalive.{is_listed, is_silent}
use godotnet.Server.Vital.{vital}
use godotnet.Control.{Login, UdpHandshake}
use godotnet.Callbacks.{Authenticate}
use godotnet.Server.Handshake.{credentials_of, accept}
use godotnet.Server.Quiet.{identity}
use godotnet.Session.{session_pre_login, session_ready}
use godotnet.Server.Joining.{joins}
use godotnet.System.Expired.{limit_at, end_tick-run_tick}
use godotnet.Examples.Demo.{demo, config}

abbrev roomy : Config
roomy = record config { event_queue_depth = pos 4; send_queue_depth = pos 4 }

abbrev start : Server
start = new_server roomy 0

start-IsFresh : (r : ℕ) → IsFresh r [] start
unfolding new_server get owed goodbyes
start-IsFresh r = record {
  unlisted = λ id e. (cc);
  unpaired = λ a e. (cc);
  unqueued = refl;
  unused = refl;
}

abbrev greeted : Server
greeted = accept_conn 3 start

greeted_room : HasRoom greeted
unfolding accept_conn new_server
greeted_room = omega arith

abbrev hung_up : Server
hung_up = reader_disconnect 3 (message "EOF") greeted

hung_up_room : HasRoom hung_up
unfolding accept_conn new_server reader_disconnect push
hung_up_room = omega arith

abbrev ticking : Server
ticking = begin_tick hung_up

-- The drained event is still to be handled.
ticking_room : HasRoom ticking
unfolding accept_conn new_server reader_disconnect push begin_tick drain_during
ticking_room = omega arith

each_told_once_example :
    to_ℕ (ticking.heap 3).disconnect_once
    ≡ owed 3 (drain hung_up.events).0 + owed 3 ticking.events.buffer + goodbyes 3 ticking.trace
each_told_once_example =
    each_told_once roomy 0 (λ view reason game. (returned tt, game)) ticking
      (handling (tick_context (pos 5) hung_up) (drain hung_up.events).0) 3 refl
      (onward
        (onward (onward still (other (accepted 3 (start-IsFresh 3))) greeted_room)
          (other (read_failed 3 (message "EOF"))) hung_up_room)
        (began (pos 5)) ticking_room)

ticking_fired : fired ticking 3 ≡ 1
unfolding accept_conn new_server reader_disconnect push begin_tick drain_during
ticking_fired = refl

-- Player 7 logs in, pairs, and is not heard of for a minute.
abbrev logged_in : Server
logged_in = run_tick (pos 100) (push_frame 3 (1 ∷ []) greeted).0

abbrev playing : Server
playing = run_tick (pos 200) (udp_datagram "10.0.0.1:5000" (2 ∷ []) logged_in)

playing-Reach : Reach start playing
playing-Reach =
    next
      (next
        (next (next (next here (io (accepted 3 (start-IsFresh 3)))) (io (frame_read 3 (1 ∷ []))))
          (ticked (pos 100)))
        (io (datagram_read "10.0.0.1:5000" (2 ∷ []))))
      (ticked (pos 200))

abbrev late : TickCtx
late = record { tick = 3; now = pos 60_000_000_000 }

playing_id : (playing.heap 3).id ≡ 7
unfolding run_tick push_frame udp_datagram accept_conn new_server get put drain_during push decimal
playing_id = refl

playing_in_list : is_listed playing.sessions 3 ≡ true
unfolding run_tick push_frame udp_datagram accept_conn new_server get put drain_during push decimal
playing_in_list = refl

playing_unheard : is_silent (limit_at late playing) (vital (playing.heap 3)) ≡ true
unfolding run_tick push_frame udp_datagram accept_conn new_server get put drain_during push decimal
playing_unheard = refl

playing_not_fired : (playing.heap 3).disconnect_once ≡ false
unfolding run_tick push_frame udp_datagram accept_conn new_server get put drain_during push decimal
playing_not_fired = refl

late_room : HasRoom (end_tick late playing)
unfolding run_tick push_frame udp_datagram accept_conn new_server get put drain_during push decimal
    end_tick
late_room = omega arith

end_tick-run_tick_example : IsGone 3 (run_tick (pos 60_100_000_000) (end_tick late playing))
end_tick-run_tick_example =
    end_tick-run_tick late (pos 60_100_000_000) 3 playing
      (reachable-Inv roomy 0 playing playing-Reach) (λ e. let seven = playing_id in omega arith)
      playing_in_list playing_unheard playing_not_fired late_room

abbrev login_frame : Login
login_frame = record { credentials = [] }

abbrev hail : UdpHandshake
hail = record { player_id = 7; session_token = "fallback-1" }

abbrev admits : Authenticate
admits creds game = (returned (7, none), game)

greeted_id : (greeted.heap 3).id ≡ 0
unfolding accept_conn new_server
greeted_id = refl

greeted_fresh : (greeted.heap 3).auth_state ≡ session_pre_login
unfolding accept_conn new_server
greeted_fresh = refl

greeted_idle : greeted.events.buffer ≡ []
unfolding accept_conn new_server
greeted_idle = refl

greeted_depth : greeted.events.depth ≡ 4
unfolding accept_conn new_server
greeted_depth = refl

greeted_credentials : credentials_of greeted login_frame ≡ accept (admits, "Login")
unfolding accept_conn new_server credentials_of
greeted_credentials = refl

greeted_game : admits "Login" greeted.game ≡ (returned (7, none), 0)
unfolding accept_conn new_server
greeted_game = refl

greeted_absent : get greeted.sessions 7 ≡ none
unfolding accept_conn new_server get
greeted_absent = refl

logged_in_idle : logged_in.events.buffer ≡ []
unfolding run_tick push_frame accept_conn new_server get put drain_during push
logged_in_idle = refl

logged_in_depth : logged_in.events.depth ≡ 4
unfolding run_tick push_frame accept_conn new_server get put drain_during push
logged_in_depth = refl

logged_in_cap : logged_in.cfg.max_udp_payload ≡ pos 1200
unfolding run_tick push_frame accept_conn new_server get put drain_during push
logged_in_cap = refl

logged_in_token : hail.session_token ≡ (logged_in.heap 3).session_token
unfolding run_tick push_frame accept_conn new_server get put drain_during push decimal
logged_in_token = refl

joins_example :
    (get logged_in.sessions 7 ≡ some 3)
    × (identity (playing.heap 3) ≡ (7, session_ready, "fallback-1", some "10.0.0.1:5000"))
    × (get playing.sessions 7 ≡ some 3)
    × (get playing.udp_sessions "10.0.0.1:5000" ≡ some 3)
joins_example =
    joins (pos 100) (pos 200) 3 7 1200 (1 ∷ []) (2 ∷ []) login_frame admits "Login" 0
      "10.0.0.1:5000" hail greeted greeted_id greeted_fresh greeted_idle
      (let four = greeted_depth in omega arith) refl greeted_credentials greeted_game greeted_absent
      logged_in_idle (let four = logged_in_depth in omega arith) logged_in_cap refl refl refl
      logged_in_token

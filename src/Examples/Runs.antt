-- ===== src/Examples/Runs.antt =====
-- Whole runs of the small game: a player who leaves, goroutines in between, and a typed RPC.
use godotnet.Base.{
  ℕ, ◌+◌, ◌≤◌, ◌≡◌, ◌≢◌, refl, String, none, some, [], ◌∷◌, nat_eq, string_eq, arith,
}
use godotnet.Base.Distinct.{AreDistinct, keys}
use godotnet.Base.Map.{get, put}
use godotnet.Base.Int.{pos}
use godotnet.Errors.{sentinel, ping_timeout}
use godotnet.Control.{RpcRequest}
use godotnet.Events.{drain_during, push}
use godotnet.Session.{session_pre_login}
use godotnet.Callbacks.{returned}
use godotnet.Server.{Server, new_server}
use godotnet.Server.Outbound.{schedule_disconnect}
use godotnet.Server.Intake.{accept_conn, push_frame}
use godotnet.Server.TickCtx.{TickCtx, view, session_view, ctx_broadcast_udp, ctx_broadcast_tcp}
use godotnet.Server.Dispatch.{after_calls, dispatch_rpc, send_rpc, extract_oneof_body}
use godotnet.Server.Tick.{run_tick}
use godotnet.Server.Quiet.{owed, goodbyes}
use godotnet.Server.Quiet.Sends.{schedule-Quiet}
use godotnet.Server.Invariant.{Inv, Quiet-Inv}
use godotnet.Server.Farewell.{IsGone, run_tick-IsGone}
use godotnet.Server.Broadcast.{send_each_udp, send_each_tcp, broadcast_lem}
use godotnet.System.Safety.{reachable-Inv}
use godotnet.System.Bounded.{Bounded, interleaved-Bounded}
use godotnet.System.Interleaved.{at_ticker, Reach-Moves, interleaved-Inv}
use godotnet.Rpc.{Handler, register_typed}
use godotnet.Rpc.Served.{typed_response, register_typed_lem}
use godotnet.Examples.Demo.{demo, config}
use godotnet.Examples.Sessions.{in_game, in_game-Reach}

-- Player 7's session has timed out, and its disconnect is queued.
abbrev leaving : Server
leaving = schedule_disconnect (some 3) (sentinel ping_timeout) in_game

leaving-Inv : Inv [] leaving
leaving-Inv =
    Quiet-Inv (schedule-Quiet (some 3) (sentinel ping_timeout) in_game)
      (reachable-Inv config 0 in_game in_game-Reach)

leaving_is_logged_in : (leaving.heap 3).auth_state ≢ session_pre_login
unfolding schedule_disconnect run_tick push_frame accept_conn new_server get put drain_during push
leaving_is_logged_in e = cc

leaving_id : (leaving.heap 3).id ≡ 7
unfolding schedule_disconnect run_tick push_frame accept_conn new_server get put drain_during push
leaving_id = refl

leaving_is_queued : owed 3 leaving.events.buffer ≡ 1
unfolding schedule_disconnect run_tick push_frame accept_conn new_server get put drain_during push
    owed
leaving_is_queued = refl

run_tick-IsGone_example : IsGone 3 (run_tick (pos 200) leaving)
run_tick-IsGone_example =
    run_tick-IsGone (pos 200) 3 leaving leaving-Inv leaving_is_logged_in
      (λ e. let seven = leaving_id in omega arith) (let queued = leaving_is_queued in omega arith)

interleaved-Inv_example :
    Inv [] in_game
    × ((r : ℕ) → owed r [] + owed r in_game.events.buffer + goodbyes r in_game.trace ≤ 1)
interleaved-Inv_example = interleaved-Inv config 0 in_game at_ticker (Reach-Moves in_game-Reach)

interleaved-Bounded_example : Bounded config at_ticker in_game
interleaved-Bounded_example =
    interleaved-Bounded config 0 in_game at_ticker (Reach-Moves in_game-Reach)

in_game_is_distinct : AreDistinct (keys in_game.sessions)
unfolding run_tick push_frame accept_conn new_server get put drain_during
in_game_is_distinct = (tt, tt)

broadcast_lem_example :
    (ctx_broadcast_udp "Moved" in_game ≡ send_each_udp (keys in_game.sessions) "Moved" in_game)
    × (ctx_broadcast_tcp "Moved" in_game ≡ send_each_tcp (keys in_game.sessions) "Moved" in_game)
broadcast_lem_example = broadcast_lem "Moved" in_game in_game_is_distinct

abbrev ctx : TickCtx
ctx = record { tick = 2; now = pos 300 }

-- Requests and responses are texts, and so are messages.
abbrev buy : Handler String String
buy v sess req game = record { calls = []; game = game + 1; outcome = returned ("Bought", none) }

abbrev order : RpcRequest
order = record { correlation_id = 77; payload = 1 ∷ [] }

config_of_in_game : in_game.cfg.rpc_request_prototype ≡ some "Buy"
unfolding run_tick push_frame accept_conn new_server get put drain_during
config_of_in_game = refl

body_of_order : extract_oneof_body "Buy" ≡ some "Buy"
unfolding extract_oneof_body
body_of_order = refl

register_typed_lem_example :
    (t : Server) × (register_typed some some some (λ m. m) "Buy" (some buy) (some in_game) ≡ some t)
    × (dispatch_rpc ctx 3 order t
        ≡ send_rpc 3
            (typed_response some some some (λ m. m) 77 (returned ("Bought", none)))
            (after_calls (buy (view ctx t) (session_view t 3) "Buy" t.game) t))
register_typed_lem_example =
    register_typed_lem some some some (λ m. m) "Buy" buy in_game ctx 3 order "Buy" "Buy" "Buy" "Buy"
      "Buy" config_of_in_game refl body_of_order refl refl refl

-- ===== src/Examples/Sessions.antt =====
-- Sessions, disconnects and RPCs of the small game.
use godotnet.Base.{ℕ, ◌≡◌, refl, some, [], ◌∷◌, nat_eq, string_eq}
use godotnet.Base.Map.{get, put}
use godotnet.Base.Int.{pos}
use godotnet.Control.{RpcRequest}
use godotnet.Events.{drain_during}
use godotnet.Session.{Channel}
use godotnet.Server.{Server, new_server}
use godotnet.Server.TickCtx.{TickCtx}
use godotnet.Server.Intake.{accept_conn, push_frame}
use godotnet.Server.Tick.{run_tick}
use godotnet.Server.Quiet.{owed, goodbyes}
use godotnet.System.{IsFresh, io, accepted, frame_read, ticked, Reach, here, next}
use godotnet.Examples.Demo.{demo, start}

-- Nothing refers to a pointer in a new server.
pub start-IsFresh : (r : ℕ) → IsFresh r [] start
unfolding new_server get owed goodbyes
start-IsFresh r = record {
  unlisted = λ id e. (cc);
  unpaired = λ a e. (cc);
  unqueued = refl;
  unused = refl;
}

abbrev pub greeted : Server
greeted = accept_conn 3 start

greeted-Reach : Reach start greeted
greeted-Reach = next here (io (accepted 3 (start-IsFresh 3)))

-- The new connection sends a login, and the next tick admits it as player 7.
abbrev asked : Server
asked = (push_frame 3 (1 ∷ []) greeted).0

abbrev pub in_game : Server
in_game = run_tick (pos 100) asked

pub in_game-Reach : Reach start in_game
in_game-Reach = next (next greeted-Reach (io (frame_read 3 (1 ∷ [])))) (ticked (pos 100))

pub in_game_lists_player : get in_game.sessions 7 ≡ some 3
unfolding run_tick push_frame accept_conn new_server get put drain_during
in_game_lists_player = refl

abbrev ctx : TickCtx
ctx = record { tick = 1; now = pos 100 }

abbrev request : RpcRequest
request = record { correlation_id = 77; payload = 1 ∷ [] }

abbrev outbox : Channel
outbox = record { capacity = 1; queued = [] }

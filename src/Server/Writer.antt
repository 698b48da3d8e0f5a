-- ===== src/Server/Writer.antt =====
-- tcp.go: the loop of runTCPWriter, over any connection that it writes to.
pub mod Line
pub mod Wire
use godotnet.Base.{Bool, true, false, Option, none, some, List, [], ◌∷◌, Bytes}
use godotnet.Errors.{Error}
use godotnet.Frame.{write_frame}

-- What one round's `select` takes: the end of the context, or what the channel gives, a payload or,
-- once it is closed and empty, nothing.
pub data Selected : Type 0 where
  ctx_done : Selected
  received : Option Bytes → Selected

module _ {W : Type 0} (write : W → Bytes → W × Option Error) where
  -- Whether the loop goes on after WriteFrame.
  abbrev pub after_write : W × Option Error → W × Bool
  after_write (w, none) = (w, true)
  after_write (w, some err) = (w, false)

  unfoldable pub writer_round : Selected → W → W × Bool
  unfolding write_frame
  writer_round ctx_done w = (w, false)
  writer_round (received none) w = (w, false)
  writer_round (received (some payload)) w = after_write (write_frame write w payload)

  -- The loop over what its rounds select: the connection, and whether it waits for another round.
  unfoldable pub run_tcp_writer : List Selected → W → W × Bool
  unfolding writer_round
  run_tcp_writer [] w = (w, true)
  run_tcp_writer (x ∷ xs) w = elim (writer_round x w).1 [
    | true ↦ run_tcp_writer xs (writer_round x w).0
    | false ↦ writer_round x w
  ]

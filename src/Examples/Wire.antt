-- ===== src/Examples/Wire.antt =====
-- Frames and the event queue at concrete inputs.
use godotnet.Base.{
  ℕ, ◌≤◌, ◌≡◌, refl, ◌⊎◌, inr, true, none, some, [], ◌∷◌, ◌++◌, Bytes, length, take, arith,
}
use godotnet.Frame.{put_uint32, uint32, write_frame, buffer_write, got, read_full, read_frame}
use godotnet.Frame.RoundTrip.{frame_bytes, read-write}
use godotnet.Frame.Truncated.{EndsWith, read-take}
use godotnet.Frame.Sound.{read_frame-got}
use godotnet.Events.{Event, event_message, Queue, drain_during}
use godotnet.Events.Fifo.{drain_during_lem}

abbrev hello : Bytes
hello = 104 ∷ 105 ∷ []

abbrev wire : Bytes
wire = 0 ∷ 0 ∷ 0 ∷ 2 ∷ 104 ∷ 105 ∷ 7 ∷ []

frame_on_the_wire : (write_frame buffer_write [] hello).0 ++ 7 ∷ [] ≡ wire
unfolding write_frame buffer_write put_uint32
frame_on_the_wire = refl

read-write_example :
    read_frame ((write_frame buffer_write [] hello).0 ++ 7 ∷ []) 16 ≡ got hello (7 ∷ [])
read-write_example = read-write hello (7 ∷ []) 16 (omega arith) (inr (omega arith))

read-take_example : EndsWith true (read_frame (take 4 (frame_bytes hello)) 16)
read-take_example = read-take 4 16 hello (omega arith) (inr (omega arith)) (omega arith)

wire_reads : read_frame wire 16 ≡ got hello (7 ∷ [])
unfolding read_frame read_full uint32
wire_reads = refl

read_frame-got_example :
    (wire ≡ frame_bytes hello ++ 7 ∷ []) × ((◌≡◌ {A = ℕ} 16 0) ⊎ (length hello ≤ 16))
read_frame-got_example = read_frame-got wire hello (7 ∷ []) 16 (omega arith) wire_reads

abbrev event : Event
event = record {
  kind = event_message;
  sess = none;
  payload = hello;
  is_udp = true;
  udp_addr = some "10.0.0.1:7";
  reason = none;
}

abbrev queue : Queue
queue = record { depth = 2; buffer = event ∷ [] }

drain_during_lem_example :
    ((drain_during ((event ∷ event ∷ []) ∷ []) queue).0 ≡ event ∷ [])
    × ((drain_during ((event ∷ event ∷ []) ∷ []) queue).1.depth ≡ 2)
drain_during_lem_example = drain_during_lem ((event ∷ event ∷ []) ∷ []) queue

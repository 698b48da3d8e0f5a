-- ===== src/Events.antt =====
-- events.go: the bounded queue between the I/O goroutines and the tick goroutine.
-- A session is named by its place in the heap of sessions, and `nil` is `none`.
pub mod Fifo
use godotnet.Base.{
  ℕ, zero, suc, ◌+◌, ◌≡◌, String, Bool, true, false, Option, none, some, List, [], ◌∷◌, ◌++◌, Bytes,
  length, ltb, if◌then◌else◌,
}
use godotnet.Base.Int.{ℤ, pos, or_default, pos_part}
use godotnet.Errors.{Error}

abbrev pub default_event_queue_depth : ℤ
default_event_queue_depth = pos 4096

pub data EventKind : Type 0 where
  event_message event_connect event_disconnect : EventKind

pub record Event : Type 0 where
  pub kind : EventKind
  pub sess : Option ℕ
  pub payload : Bytes
  pub is_udp : Bool
  pub udp_addr : Option String
  pub reason : Option Error

-- The channel's capacity, and what it buffers, oldest first.
pub record Queue : Type 0 where
  pub depth : ℕ
  pub buffer : List Event

unfoldable pub new_queue : ℤ → Queue
new_queue depth = record {
  depth = pos_part (or_default depth default_event_queue_depth);
  buffer = [];
}

unfoldable pub push : Queue → Event → Queue × Bool
push q e =
    if ltb (length q.buffer) q.depth
    then (record q { buffer = q.buffer ++ e ∷ [] }, true)
    else (q, false)

-- The loop of `drain`: n receives. Before each of them other goroutines may push; `arrivals`
-- holds those pushes, one list for each receive, and a push on a full queue is lost.
push_all : Queue → List Event → Queue
unfolding push
push_all q [] = q
push_all q (e ∷ es) = push_all (push q e).0 es

receive : Queue → Option (Event × Queue)
receive q = elim q.buffer [ [] ↦ none | e ∷ rest ↦ some (e, record q { buffer = rest }) ]

abbrev first_batch : List (List Event) → List Event
first_batch [] = []
first_batch (new ∷ arrivals) = new

abbrev later_batches : List (List Event) → List (List Event)
later_batches [] = []
later_batches (new ∷ arrivals) = arrivals

drain_loop : ℕ → List (List Event) → Queue → List Event → List Event × Queue
unfolding push_all receive
drain_loop zero arrivals q out = (out, q)
drain_loop (suc n) arrivals q out =
    let q' = push_all q (first_batch arrivals) in
    elim (receive q') [
      | none ↦ (out, q')
      | some p ↦ drain_loop n (later_batches arrivals) p.1 (out ++ p.0 ∷ [])
    ]

-- The snapshot `n := len(q.ch)`, and then the loop.
unfoldable pub drain_during : List (List Event) → Queue → List Event × Queue
unfolding drain_loop
drain_during arrivals q = drain_loop (length q.buffer) arrivals q []

-- The drain of a tick, during which no other goroutine gets a push in.
unfoldable pub drain : Queue → List Event × Queue
drain q = drain_during [] q

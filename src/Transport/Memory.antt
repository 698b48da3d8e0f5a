-- ===== src/Transport/Memory.antt =====
-- internal/transport/memory.go: the in-memory listener. A pipe is named by a number; its server end
-- travels through the listener's channel, and Dial keeps its client end. A `select` with more than
-- one case that can run takes any of them: `closed_first` says whether that is the case of
-- `closed`. `none` is a call that blocks.
pub mod Fifo
pub mod Closing
use godotnet.Base.{
  ℕ, String, Bool, true, false, not, ◌&&◌, ◌||◌, Option, none, some, List, [], ◌∷◌, ◌++◌, ◌⊎◌, inl,
  inr, length, ltb, if◌then◌else◌,
}
use godotnet.Errors.{Error, sentinel, net_closed}
use godotnet.Session.{do_once}

-- The channel `incoming`, oldest first, whether the channel `closed` is closed, and the once.
pub record MemoryListener : Type 0 where
  pub addr : String
  pub incoming : List ℕ
  pub closed : Bool
  pub once : Bool

abbrev pub incoming_cap : ℕ
incoming_cap = 16

unfoldable pub new_memory_listener : String → MemoryListener
new_memory_listener name = record { addr = name; incoming = []; closed = false; once = false }

-- A call's result, a pipe or an error, and the listener after it.
abbrev pub Outcome : Type 0
Outcome = Option ((ℕ ⊎ Error) × MemoryListener)

abbrev pub refused : MemoryListener → Outcome
refused l = some (inr (sentinel net_closed), l)

unfoldable pub accept : Bool → MemoryListener → Outcome
accept closed_first l = elim l.incoming [
  | [] ↦ if l.closed then refused l else none
  | c ∷ rest ↦
      if l.closed && closed_first then refused l else some (inl c, record l { incoming = rest })
]

unfoldable pub close : MemoryListener → MemoryListener
unfolding do_once
close l = let (runs, fired) = do_once l.once in record l { closed = l.closed || runs; once = fired }

-- The last `select` of Dial, for the pipe `c` that it has just made. If the listener is closed,
-- both ends of the pipe are.
unfoldable pub dial_select : Bool → ℕ → MemoryListener → Outcome
dial_select closed_first c l =
    if ltb (length l.incoming) incoming_cap && not (l.closed && closed_first)
    then some (inl c, record l { incoming = l.incoming ++ c ∷ [] })
    else if l.closed
    then refused l
    else none

-- Dial with no other call between its two selects.
unfoldable pub dial : Bool → ℕ → MemoryListener → Outcome
unfolding dial_select
dial closed_first c l = if l.closed then refused l else dial_select closed_first c l

-- ===== src/Transport/Memory/Closing.antt =====
-- memory.go: the listener after Close.
use godotnet.Base.{
  ℕ, ◌≡◌, ◌≢◌, refl, inl, Bool, true, false, ◌&&◌, ◌||◌, none, some, List, [], ◌∷◌, if◌then◌else◌,
  arith,
}
use godotnet.Session.{do_once}
use godotnet.Transport.Memory.{MemoryListener, Outcome, refused, accept, close, dial_select, dial}

module _ (closed_first : Bool) (l : MemoryListener) (shut : l.closed ≡ true) where
  accept-closed : accept closed_first l ≢ none
  unfolding accept
  accept-closed = taken l.incoming
    where
      taken :
          (xs : List ℕ)
          → (elim xs as (λ x. Outcome) [
            | [] ↦ if l.closed then refused l else none
            | c ∷ rest ↦
                if l.closed && closed_first
                then refused l
                else some (inl c, record l { incoming = rest })
          ])
            ≢ none
      taken [] e = ground arith
      taken (c ∷ rest) e = ground arith

  dial_select-closed : (c : ℕ) → dial_select closed_first c l ≢ none
  unfolding dial_select
  dial_select-closed c e = ground arith

  dial-closed : (c : ℕ) → dial closed_first c l ≡ refused l
  unfolding dial
  dial-closed c = ground arith

close-closed :
    (l : MemoryListener) → l.once ≡ l.closed → ((close l).closed ≡ true) × ((close l).once ≡ true)
unfolding close do_once
close-closed l same = shut l.once l.closed same
  where
    shut : (o c : Bool) → o ≡ c → ((c || (do_once o).0) ≡ true) × ((do_once o).1 ≡ true)
    shut true c e = (ground arith, refl)
    shut false c e = (ground arith, refl)

close-twice : (l : MemoryListener) → l.once ≡ true → l.closed ≡ true → close l ≡ l
unfolding close do_once
close-twice l fired shut = ground arith

-- The oldest pipe that waits, or net.ErrClosed if none does.
abbrev pub first_waiting : MemoryListener → Outcome
first_waiting l = elim l.incoming [
  | [] ↦ refused l
  | c ∷ rest ↦ some (inl c, record l { incoming = rest })
]

accept-waiting : (l : MemoryListener) → l.closed ≡ true → accept false l ≡ first_waiting l
unfolding accept
accept-waiting l shut = waiting l.incoming
  where
    waiting :
        (xs : List ℕ)
        → (elim xs as (λ x. Outcome) [
          | [] ↦ if l.closed then refused l else none
          | c ∷ rest ↦
              if l.closed && false then refused l else some (inl c, record l { incoming = rest })
        ])
          ≡ (elim xs as (λ x. Outcome) [
            | [] ↦ refused l
            | c ∷ rest ↦ some (inl c, record l { incoming = rest })
          ])
    waiting [] = rw shut
    waiting (c ∷ rest) = ground arith

-- After Close no call blocks, whichever case each select takes: Accept and a Dial that had begun
-- return a pipe or net.ErrClosed, a new Dial returns net.ErrClosed, and a further Close changes
-- nothing. But Accept may then still return the oldest pipe that waits in the channel, and does if
-- its select takes that case. This is for a listener whose once has run if and only if it is
-- closed.
pub close_lem :
    (closed_first : Bool) (c : ℕ) (l : MemoryListener)
    → l.once ≡ l.closed
    → (accept closed_first (close l) ≢ none)
      × (dial_select closed_first c (close l) ≢ none)
      × (dial closed_first c (close l) ≡ refused (close l))
      × (close (close l) ≡ close l)
      × (accept false (close l) ≡ first_waiting (close l))
close_lem closed_first c l same =
    let (shut, fired) = close-closed l same in
    (
      accept-closed closed_first (close l) shut,
      dial_select-closed closed_first (close l) shut c,
      dial-closed closed_first (close l) shut c,
      close-twice (close l) fired shut,
      accept-waiting (close l) shut,
    )

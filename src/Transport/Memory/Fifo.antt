-- ===== src/Transport/Memory/Fifo.antt =====
-- memory.go: the listener among the goroutines that call it.
use mathlib.Core.List.{append_assoc}
use godotnet.Base.{
  ℕ, ◌≤◌, ◌≡◌, refl, sym, ap, ◌∙◌, inl, inr, String, Bool, true, false, not, ◌&&◌, none, some, List,
  [], ◌∷◌, ◌++◌, length, length-append, ltb, ltb→lt, if◌then◌else◌, arith,
}
use godotnet.Transport.Memory.{
  MemoryListener, incoming_cap, new_memory_listener, Outcome, refused, accept, close, dial_select,
  dial,
}

-- The calls. `dial_goes_on` is the rest of a Dial that began before other calls.
pub data Call : Type 0 where
  dials dial_goes_on : Bool → ℕ → Call
  accepts : Bool → Call
  closes : Call

-- The listener, the pipes that Dial has returned, and those that Accept has, each in their order.
pub record World : Type 0 where
  pub listener : MemoryListener
  pub dialed : List ℕ
  pub accepted : List ℕ

abbrev pub after_dial : Outcome → World → World
after_dial none w = w
after_dial (some (inl c, l)) w = record w { listener = l; dialed = w.dialed ++ c ∷ [] }
after_dial (some (inr err, l)) w = record w { listener = l }

abbrev pub after_accept : Outcome → World → World
after_accept none w = w
after_accept (some (inl c, l)) w = record w { listener = l; accepted = w.accepted ++ c ∷ [] }
after_accept (some (inr err, l)) w = record w { listener = l }

unfoldable pub call : Call → World → World
unfolding dial dial_select accept close
call (dials closed_first c) w = after_dial (dial closed_first c w.listener) w
call (dial_goes_on closed_first c) w = after_dial (dial_select closed_first c w.listener) w
call (accepts closed_first) w = after_accept (accept closed_first w.listener) w
call closes w = record w { listener = close w.listener }

unfoldable pub calls : List Call → World → World
unfolding call
calls [] w = w
calls (c ∷ cs) w = calls cs (call c w)

abbrev pub begin : String → World
begin name = record { listener = new_memory_listener name; dialed = []; accepted = [] }

record IsFifo (w : World) : Type 0 where
  in_order : w.dialed ≡ w.accepted ++ w.listener.incoming
  bounded : length w.listener.incoming ≤ incoming_cap

refused-IsFifo :
    (b : Bool) (w : World)
    → IsFifo w
    → IsFifo (after_dial (if b then refused w.listener else none) w)
refused-IsFifo true w v = record { in_order = v.in_order; bounded = v.bounded }
refused-IsFifo false w v = v

select-IsFifo :
    (closed_first : Bool) (c : ℕ) (w : World)
    → IsFifo w
    → IsFifo (after_dial (dial_select closed_first c w.listener) w)
unfolding dial_select
select-IsFifo closed_first c w v =
    sent (ltb (length w.listener.incoming) incoming_cap) refl
      (not (w.listener.closed && closed_first))
  where
    l : MemoryListener
    l = w.listener

    sent :
        (room : Bool)
        → ltb (length w.listener.incoming) incoming_cap ≡ room
        → (free : Bool)
        → IsFifo (
            after_dial
              (if room && free
                then some (inl c, record l { incoming = l.incoming ++ c ∷ [] })
                else if l.closed
                then refused l
                else none)
              w)
    sent true room true = record {
      in_order = ap (λ xs. xs ++ c ∷ []) v.in_order ∙ append_assoc w.accepted l.incoming (c ∷ []);
      bounded = omega (arith, length-append {0} l.incoming (c ∷ []), ltb→lt _ _ room);
    }
    sent true room false = refused-IsFifo l.closed w v
    sent false room free = refused-IsFifo l.closed w v

dial-IsFifo :
    (closed_first : Bool) (c : ℕ) (w : World)
    → IsFifo w
    → IsFifo (after_dial (dial closed_first c w.listener) w)
unfolding dial
dial-IsFifo closed_first c w v = checked w.listener.closed
  where
    checked :
        (b : Bool)
        → IsFifo
            (after_dial (if b then refused w.listener else dial_select closed_first c w.listener) w)
    checked true = record { in_order = v.in_order; bounded = v.bounded }
    checked false = select-IsFifo closed_first c w v

accept-IsFifo :
    (closed_first : Bool) (w : World)
    → IsFifo w
    → IsFifo (after_accept (accept closed_first w.listener) w)
unfolding accept
accept-IsFifo closed_first w v = taken w.listener.incoming refl
  where
    l : MemoryListener
    l = w.listener

    turned : (b : Bool) → IsFifo (after_accept (if b then refused l else none) w)
    turned true = record { in_order = v.in_order; bounded = v.bounded }
    turned false = v

    first :
        (b : Bool) (c : ℕ) (rest : List ℕ)
        → l.incoming ≡ c ∷ rest
        → IsFifo
            (after_accept (if b then refused l else some (inl c, record l { incoming = rest })) w)
    first true c rest e = record { in_order = v.in_order; bounded = v.bounded }
    first false c rest e = record {
      in_order =
          v.in_order ∙ ap (λ xs. w.accepted ++ xs) e ∙ sym (append_assoc w.accepted (c ∷ []) rest);
      bounded = omega (arith, v.bounded, ap (λ (xs : List ℕ). length xs) e);
    }

    taken :
        (xs : List ℕ)
        → l.incoming ≡ xs
        → IsFifo (
            after_accept
              (elim xs [
                | [] ↦ if l.closed then refused l else none
                | c ∷ rest ↦
                    if l.closed && closed_first
                    then refused l
                    else some (inl c, record l { incoming = rest })
              ])
              w)
    taken [] e = turned l.closed
    taken (c ∷ rest) e = first (l.closed && closed_first) c rest e

call-IsFifo : (c : Call) (w : World) → IsFifo w → IsFifo (call c w)
unfolding call
call-IsFifo (dials closed_first c) w v = dial-IsFifo closed_first c w v
call-IsFifo (dial_goes_on closed_first c) w v = select-IsFifo closed_first c w v
call-IsFifo (accepts closed_first) w v = accept-IsFifo closed_first w v
call-IsFifo closes w v = record { in_order = v.in_order; bounded = v.bounded }

calls-IsFifo : (cs : List Call) (w : World) → IsFifo w → IsFifo (calls cs w)
unfolding calls
calls-IsFifo [] w v = v
calls-IsFifo (c ∷ cs) w v = calls-IsFifo cs (call c w) (call-IsFifo c w v)

-- Whatever calls of Dial, Accept and Close are made on a new listener, in whatever order, the pipes
-- that Dial has returned are those that Accept has returned, in the same order, followed by those
-- that wait in the channel, which are never more than 16: no pipe is lost, repeated or overtaken.
pub calls_lem :
    (name : String) (cs : List Call)
    → let w = calls cs (begin name) in
      (w.dialed ≡ w.accepted ++ w.listener.incoming) × (length w.listener.incoming ≤ incoming_cap)
unfolding new_memory_listener
calls_lem name cs =
    let v : IsFifo (calls cs (begin name)) =
      calls-IsFifo cs (begin name) (record { in_order = refl; bounded = omega arith }) in
    (v.in_order, v.bounded)

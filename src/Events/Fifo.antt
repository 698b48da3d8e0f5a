-- ===== src/Events/Fifo.antt =====
-- events.go: the queue as a bounded first-in first-out list, also while others push.
use mathlib.Core.List.{append_assoc, append-nil}
use godotnet.Base.{
  ℕ, ◌≤◌, ◌≡◌, refl, ap, sym, ◌∙◌, some, List, [], ◌∷◌, ◌++◌, length, length-append, arith, ltb,
  if◌then◌else◌,
}
use godotnet.Events.{
  Event, Queue, first_batch, later_batches, push, push_all, receive, drain_loop, drain_during,
  drain,
}

-- In a queue within its depth a push is taken exactly if there is room; then the event stands last.
-- The queue stays within its depth, and a refused push changes nothing.
pub push_lem :
    (q : Queue) (e : Event)
    → length q.buffer ≤ q.depth
    → ((push q e).1 ≡ ltb (length q.buffer) q.depth)
      × ((push q e).0.buffer ≡ (if (push q e).1 then q.buffer ++ e ∷ [] else q.buffer))
      × (length (push q e).0.buffer ≤ (push q e).0.depth)
      × ((push q e).0.depth ≡ q.depth)
unfolding push
push_lem q e h = ground (arith, length-append {0} q.buffer (e ∷ []))

-- `r` holds what `q` held and then `new`.
abbrev pub Extends : Queue → List Event → Queue → Type 0
Extends q new r = (r.buffer ≡ q.buffer ++ new) × (r.depth ≡ q.depth)

push-Extends : (q : Queue) (e : Event) → (new : List Event) × Extends q new (push q e).0
unfolding push
push-Extends q e = (
  (if ltb (length q.buffer) q.depth then e ∷ [] else []),
  (ground (arith, append-nil q.buffer), ground arith),
)

push_all-Extends :
    (q : Queue) (es : List Event) → (new : List Event) × Extends q new (push_all q es)
unfolding push_all
push_all-Extends q [] = ([], (sym (append-nil q.buffer), refl))
push_all-Extends q (e ∷ es) =
    let (one, (b, d)) = push-Extends q e in
    let (more, (b', d')) = push_all-Extends (push q e).0 es in
    (one ++ more, (b' ∙ ap (λ l. l ++ more) b ∙ append_assoc q.buffer one more, d' ∙ d))

receive-cons :
    (q : Queue) (e : Event) (rest : List Event)
    → q.buffer ≡ e ∷ rest
    → receive q ≡ some (e, record q { buffer = rest })
unfolding receive
receive-cons q e rest h = rw (h, receive)

drain_loop_lem :
    (arrivals : List (List Event)) (old out : List Event) (q : Queue) (later : List Event)
    → q.buffer ≡ old ++ later
    → (new : List Event) × ((drain_loop (length old) arrivals q out).0 ≡ out ++ old)
      × ((drain_loop (length old) arrivals q out).1.buffer ≡ later ++ new)
      × ((drain_loop (length old) arrivals q out).1.depth ≡ q.depth)
unfolding drain_loop
drain_loop_lem arrivals [] out q later h =
    ([], sym (append-nil out), h ∙ sym (append-nil later), refl)
drain_loop_lem arrivals (e ∷ old) out q later h =
    let (new, ext) = push_all-Extends q (first_batch arrivals) in
    let now : Queue = push_all q (first_batch arrivals) in
    let has : now.buffer ≡ e ∷ (old ++ (later ++ new)) =
      ext.0 ∙ ap (λ l. l ++ new) h ∙ append_assoc (e ∷ old) later new in
    let (more, out_eq, buf_eq, depth_eq) =
      drain_loop_lem (later_batches arrivals) old (out ++ e ∷ [])
        (record now { buffer = old ++ (later ++ new) }) (later ++ new) refl in
    rw (receive-cons now e _ has, drain_loop)
      (
        new ++ more,
        out_eq ∙ append_assoc out (e ∷ []) old,
        buf_eq ∙ append_assoc later new more,
        depth_eq ∙ ext.1,
      )

-- Whatever other goroutines push during a drain, it returns exactly the events that were buffered
-- when it began, oldest first; none of the later ones, and the queue's depth stays.
pub drain_during_lem :
    (arrivals : List (List Event)) (q : Queue)
    → ((drain_during arrivals q).0 ≡ q.buffer) × ((drain_during arrivals q).1.depth ≡ q.depth)
unfolding drain_during
drain_during_lem arrivals q =
    let (new, out_eq, buf_eq, depth_eq) =
      drain_loop_lem arrivals q.buffer [] q [] (sym (append-nil q.buffer)) in
    (out_eq, depth_eq)

drain_loop-quiet :
    (old out : List Event) (d : ℕ)
    → drain_loop (length old) [] (record { depth = d; buffer = old }) out
      ≡ (out ++ old, record { depth = d; buffer = [] })
unfolding drain_loop push_all receive
drain_loop-quiet [] out d = rw (append-nil out)
drain_loop-quiet (e ∷ old) out d =
    drain_loop-quiet old (out ++ e ∷ []) d
    ∙ ap (λ l. (l, record { depth = d; buffer = [] })) (append_assoc out (e ∷ []) old)

-- With no push meanwhile the queue is empty afterwards.
pub drain_lem : (q : Queue) → drain q ≡ (q.buffer, record q { buffer = [] })
unfolding drain drain_during drain_loop
drain_lem q = drain_loop-quiet q.buffer [] q.depth

-- ===== src/Server/Loops/Datagrams.antt =====
-- udp.go: the loop of runUDPReader, from the datagrams to the event queue.
use godotnet.Base.{
  ltb→lt, ℕ, zero, suc, ◌+◌, ◌-◌, ◌≤◌, ◌≡◌, refl, sym, ap, ◌∙◌, String, Bool, true, false, Option,
  some, List, [], ◌∷◌, ◌++◌, Bytes, length, take, length-take, length-append, leb, ltb,
  if◌then◌else◌, Bool-cases, inl, inr, arith,
}
use mathlib.Core.List.{append_assoc, append-nil}
use godotnet.Base.Int.{ℤ, pos, pos_part, ltb_ℤ}
use godotnet.Errors.{Error}
use godotnet.Events.{Event, Queue, push}
use godotnet.Env.{Env}
use godotnet.Server.{Server}
use godotnet.Server.Intake.{udp_message, udp_datagram}
use godotnet.Server.Loops.{Received, datagram, read_failed, udp_end, run_udp_reader}

abbrev pub arrived : List (String × Bytes) → List Received
arrived [] = []
arrived ((addr, bytes) ∷ ds) = datagram addr bytes ∷ arrived ds

-- The messages of the datagrams within the cap.
abbrev pub udp_messages : ℕ → List (String × Bytes) → List Event
udp_messages cap [] = []
udp_messages cap ((addr, bytes) ∷ ds) =
    let rest = udp_messages cap ds in
    if leb (length bytes) cap then udp_message addr bytes ∷ rest else rest

take-all : (n : ℕ) (xs : Bytes) → length xs ≤ n → take n xs ≡ xs
take-all zero [] h = refl
take-all zero (x ∷ xs) h = elim h [ ]
take-all (suc n) [] h = refl
take-all (suc n) (x ∷ xs) h = ap (◌∷◌ x) (take-all n xs (omega arith))

-- What a queue holds after pushes that are dropped once it is full.
abbrev pub filled : Queue → List Event → Queue
filled q es = record q { buffer = q.buffer ++ take (q.depth - length q.buffer) es }

take-nil : (n : ℕ) → take {A = Event} n [] ≡ []
take-nil zero = refl
take-nil (suc n) = refl

filled-nil : (q : Queue) → filled q [] ≡ q
filled-nil q =
    ap (λ b. record q { buffer = b })
      (ap (λ es. q.buffer ++ es) (take-nil (q.depth - length q.buffer)) ∙ append-nil q.buffer)

room-one : (n k : ℕ) (e : Event) (es : List Event) → n ≡ suc k → take n (e ∷ es) ≡ e ∷ take k es
room-one n k e es h = ap (λ m. take m (e ∷ es)) h

none_left : (n : ℕ) (es : List Event) → n ≡ 0 → take n es ≡ []
none_left n es h = ap (λ m. take m es) h

filled-push :
    (q : Queue) (e : Event) (es : List Event)
    → length q.buffer ≤ q.depth
    → (filled (push q e).0 es ≡ filled q (e ∷ es))
      × (length (push q e).0.buffer ≤ (push q e).0.depth)
unfolding push
filled-push q e es fits = by_room (ltb (length q.buffer) q.depth) refl
  where
    taken : Queue
    taken = record q { buffer = q.buffer ++ e ∷ [] }

    Filled : Queue × Bool → Type 0
    Filled (p, b) = (filled p es ≡ filled q (e ∷ es)) × (length p.buffer ≤ p.depth)

    by_room :
        (b : Bool)
        → ltb (length q.buffer) q.depth ≡ b
        → Filled (if b then (taken, true) else (q, false))
    by_room true room =
        let less = ltb→lt (length q.buffer) q.depth room in
        let one = length-append {0} q.buffer (e ∷ []) in
        let k : ℕ = q.depth - length (q.buffer ++ e ∷ []) in
        let more : q.depth - length q.buffer ≡ suc k = omega arith in
        (
          ap (λ b. record q { buffer = b })
              (append_assoc q.buffer (e ∷ []) (take k es)
                ∙ ap (λ xs. q.buffer ++ xs)
                    (sym (room-one (q.depth - length q.buffer) k e es more))),
          omega arith,
        )
    by_room false full =
        let none_more : q.depth - length q.buffer ≡ 0 = ground arith in
        (
          ap (λ xs. record q { buffer = q.buffer ++ xs })
              (none_left (q.depth - length q.buffer) es none_more
                ∙ sym (none_left (q.depth - length q.buffer) (e ∷ es) none_more)),
          fits,
        )

-- The test of the loop on what it has read of a datagram.
abbrev is_oversized : ℤ → Bytes → Bool
is_oversized cap bytes = ltb_ℤ cap (pos (length (take (pos_part cap + 1) bytes)))

long_is_oversized :
    (cap : ℕ) (bytes : Bytes) → leb (length bytes) cap ≡ false → is_oversized (pos cap) bytes ≡ true
long_is_oversized cap bytes long =
    let whole : length (take (cap + 1) bytes) ≡ cap + 1 =
      length-take (cap + 1) bytes (ground arith) in
    ground (arith, whole)

short_is_whole :
    (cap : ℕ) (bytes : Bytes) → leb (length bytes) cap ≡ true → take (cap + 1) bytes ≡ bytes
short_is_whole cap bytes short = take-all (cap + 1) bytes (ground arith)

short_is_not_oversized :
    (cap : ℕ) (bytes : Bytes) → leb (length bytes) cap ≡ true → is_oversized (pos cap) bytes ≡ false
short_is_not_oversized cap bytes short =
    let whole = short_is_whole cap bytes short in
    let same : length (take (cap + 1) bytes) ≡ length bytes =
      ap (λ (xs : Bytes). length xs) whole in
    ground (arith, same)

module _ ⦃env : Env⦄ where
  pushed : Server → Event → Server
  pushed s e = record s { events = (push s.events e).0 }

  -- One round of the loop, by the result of its test.
  round : Bool → String → Bytes → Server → Server
  round true addr bytes s = s
  round false addr bytes s = pushed s (udp_message addr bytes)

  datagram-round :
      (cap : ℕ) (addr : String) (bytes : Bytes) (s : Server)
      → s.cfg.max_udp_payload ≡ pos cap
      → udp_datagram addr bytes s
        ≡ round (is_oversized (pos cap) bytes) addr (take (cap + 1) bytes) s
  unfolding udp_datagram round pushed
  datagram-round cap addr bytes s limit =
      ap
        (λ c. if is_oversized c bytes then s else record s {
          events = (push s.events (udp_message addr (take (pos_part c + 1) bytes))).0;
        })
        limit
      ∙ by_test (is_oversized (pos cap) bytes)
    where
      by_test :
          (b : Bool)
          → (if b then s else record s {
            events = (push s.events (udp_message addr (take (cap + 1) bytes))).0;
          })
            ≡ round b addr (take (cap + 1) bytes) s
      by_test true = refl
      by_test false = refl

  dropped :
      (cap : ℕ) (addr : String) (bytes : Bytes) (s : Server)
      → s.cfg.max_udp_payload ≡ pos cap
      → leb (length bytes) cap ≡ false
      → udp_datagram addr bytes s ≡ s
  unfolding round
  dropped cap addr bytes s limit long =
      datagram-round cap addr bytes s limit
      ∙ ap (λ b. round b addr (take (cap + 1) bytes) s) (long_is_oversized cap bytes long)

  queued :
      (cap : ℕ) (addr : String) (bytes : Bytes) (s : Server)
      → s.cfg.max_udp_payload ≡ pos cap
      → leb (length bytes) cap ≡ true
      → udp_datagram addr bytes s ≡ pushed s (udp_message addr bytes)
  unfolding round
  queued cap addr bytes s limit short =
      datagram-round cap addr bytes s limit
      ∙ ap (λ b. round b addr (take (cap + 1) bytes) s) (short_is_not_oversized cap bytes short)
      ∙ ap (λ xs. pushed s (udp_message addr xs)) (short_is_whole cap bytes short)

  -- A datagram within the cap becomes a message, whole.
  pub udp_datagram-push :
      (cap : ℕ) (addr : String) (bytes : Bytes) (s : Server)
      → s.cfg.max_udp_payload ≡ pos cap
      → leb (length bytes) cap ≡ true
      → udp_datagram addr bytes s ≡ record s { events = (push s.events (udp_message addr bytes)).0 }
  unfolding pushed
  udp_datagram-push cap addr bytes s limit short = queued cap addr bytes s limit short

  -- Of the datagrams that arrive before the first error of a read, those within the cap become
  -- messages with their sender and their bytes, in the order in which they came, until the event
  -- queue is full; those beyond the cap, and those that find no room, are dropped. The loop ends at
  -- that error, with udp_end's result for it. This is for a cap that is not negative and a queue
  -- within its depth.
  pub run_udp_reader_lem :
      (cap : ℕ) (ctx_err : Option Error) (ds : List (String × Bytes)) (err : Error)
      (after : List Received) (s : Server)
      → s.cfg.max_udp_payload ≡ pos cap
      → length s.events.buffer ≤ s.events.depth
      → run_udp_reader ctx_err (arrived ds ++ read_failed err ∷ after) s
        ≡ (record s { events = filled s.events (udp_messages cap ds) }, some (udp_end ctx_err err))
  unfolding run_udp_reader pushed
  run_udp_reader_lem cap ctx_err [] err after s limit fits =
      ap (λ (q : Queue). (record s { events = q }, some (udp_end ctx_err err)))
        (sym (filled-nil s.events))
  run_udp_reader_lem cap ctx_err ((addr, bytes) ∷ ds) err after s limit fits =
      elim (Bool-cases (leb (length bytes) cap)) [
        | inl short ↦
            let m : Event = udp_message addr bytes in
            let (rest, fits') = filled-push s.events m (udp_messages cap ds) fits in
            rw short (
              ap (run_udp_reader ctx_err (arrived ds ++ read_failed err ∷ after))
                (queued cap addr bytes s limit short)
              ∙ run_udp_reader_lem cap ctx_err ds err after (pushed s m) limit fits'
              ∙ ap (λ (q : Queue). (record s { events = q }, some (udp_end ctx_err err))) rest)
        | inr long ↦ rw long (
            ap (run_udp_reader ctx_err (arrived ds ++ read_failed err ∷ after))
              (dropped cap addr bytes s limit long)
            ∙ run_udp_reader_lem cap ctx_err ds err after s limit fits)
      ]

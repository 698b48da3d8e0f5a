-- ===== src/Server/Connection/Shutdown.antt =====
-- tcp.go: how the goroutines of serveTCPConn end.
use godotnet.Base.{
  ℕ, suc, ◌+◌, ◌≤◌, ◌<◌, ◌≡◌, ◌⊎◌, inl, inr, refl, ap, ◌∙◌, Bool, true, false, arith,
}
use godotnet.Server.Connection.{
  Serving, reading, read_over, awaiting_writer, returned, Writing, at_select, on_channel, on_nil,
  writing, writer_done, Watching, watching, watched, Conn, entered, Own, frame_read, read_failed,
  closes, returns, selects, receives, sees_close, channel_ctx_done, nil_ctx_done, written,
  write_failed, watcher_closes, watcher_stops,
}

-- How many steps are left for each goroutine on a closed connection.
abbrev serving_steps : Serving → ℕ
serving_steps reading = 3
serving_steps read_over = 2
serving_steps awaiting_writer = 1
serving_steps returned = 0

abbrev writing_steps : Writing → ℕ
writing_steps at_select = 3
writing_steps on_channel = 2
writing_steps on_nil = 2
writing_steps writing = 1
writing_steps writer_done = 0

abbrev watching_steps : Watching → ℕ
watching_steps watching = 1
watching_steps watched = 0

abbrev steps_left : Conn → ℕ
steps_left s = serving_steps s.serving + writing_steps s.writer + watching_steps s.watcher

entered-steps : (b : Bool) → writing_steps (entered b) ≡ 2
entered-steps true = refl
entered-steps false = refl

Own-less :
    {s t : Conn}
    → Own s t
    → s.conn_closed ≡ true
    → (t.conn_closed ≡ true) × (steps_left t < steps_left s)
Own-less (frame_read h o) e = cc
Own-less (read_failed h) e = (e, omega (arith, ap serving_steps h))
Own-less (closes h) e = (refl, omega (arith, ap serving_steps h))
Own-less (returns h w) e = (e, omega (arith, ap serving_steps h))
Own-less {s} (selects w) e = (e, omega (arith, ap writing_steps w, entered-steps s.cleaned))
Own-less (receives w q) e = (e, omega (arith, ap writing_steps w))
Own-less (sees_close w c q) e = (e, omega (arith, ap writing_steps w))
Own-less (channel_ctx_done w c) e = (e, omega (arith, ap writing_steps w))
Own-less (nil_ctx_done w c) e = (e, omega (arith, ap writing_steps w))
Own-less (written w o) e = cc
Own-less (write_failed w) e = (e, omega (arith, ap writing_steps w))
Own-less (watcher_closes h c) e = (refl, omega (arith, ap watching_steps h))
Own-less (watcher_stops h r) e = (e, omega (arith, ap watching_steps h))

serving_bound : (x : Serving) → serving_steps x ≤ 3
serving_bound reading = omega arith
serving_bound read_over = omega arith
serving_bound awaiting_writer = omega arith
serving_bound returned = omega arith

writing_bound : (x : Writing) → writing_steps x ≤ 3
writing_bound at_select = omega arith
writing_bound on_channel = omega arith
writing_bound on_nil = omega arith
writing_bound writing = omega arith
writing_bound writer_done = omega arith

watching_bound : (x : Watching) → watching_steps x ≤ 1
watching_bound watching = omega arith
watching_bound watched = omega arith

-- A run of the connection's own goroutines, with its number of steps.
pub data Run (s : Conn) : ℕ → Conn → Type 0 where
  not_yet : Run s 0 s
  and_then : {n : ℕ} {t u : Conn} → Run s n t → Own t u → Run s (suc n) u

abbrev pub IsFinished : Conn → Type 0
IsFinished s = (s.serving ≡ returned) × (s.writer ≡ writer_done) × (s.watcher ≡ watched)

Own-ctx : {s t : Conn} → Own s t → t.ctx_done ≡ s.ctx_done
Own-ctx (frame_read h o) = refl
Own-ctx (read_failed h) = refl
Own-ctx (closes h) = refl
Own-ctx (returns h w) = refl
Own-ctx (selects w) = refl
Own-ctx (receives w q) = refl
Own-ctx (sees_close w c q) = refl
Own-ctx (channel_ctx_done w c) = refl
Own-ctx (nil_ctx_done w c) = refl
Own-ctx (written w o) = refl
Own-ctx (write_failed w) = refl
Own-ctx (watcher_closes h c) = refl
Own-ctx (watcher_stops h r) = refl

-- With the context done some goroutine can go on, until all have returned.
goes_on : (s : Conn) → s.ctx_done ≡ true → IsFinished s ⊎ ((t : Conn) × Own s t)
goes_on s c = by_writer s.writer refl
  where
    by_watcher :
        (x : Watching)
        → s.watcher ≡ x
        → s.serving ≡ returned
        → s.writer ≡ writer_done
        → IsFinished s ⊎ ((t : Conn) × Own s t)
    by_watcher watching e r w = inr (_, watcher_stops e r)
    by_watcher watched e r w = inl (r, w, e)

    by_serving :
        (x : Serving)
        → s.serving ≡ x
        → s.writer ≡ writer_done
        → IsFinished s ⊎ ((t : Conn) × Own s t)
    by_serving reading e w = inr (_, read_failed e)
    by_serving read_over e w = inr (_, closes e)
    by_serving awaiting_writer e w = inr (_, returns e w)
    by_serving returned e w = by_watcher s.watcher refl e w

    by_writer : (x : Writing) → s.writer ≡ x → IsFinished s ⊎ ((t : Conn) × Own s t)
    by_writer at_select e = inr (_, selects e)
    by_writer on_channel e = inr (_, channel_ctx_done e c)
    by_writer on_nil e = inr (_, nil_ctx_done e c)
    by_writer writing e = inr (_, write_failed e)
    by_writer writer_done e = by_serving s.serving refl e

Run-less :
    {s : Conn} {n : ℕ} {t : Conn}
    → Run s n t
    → s.conn_closed ≡ true
    → (t.conn_closed ≡ true) × (n + steps_left t ≤ steps_left s)
Run-less not_yet e = (e, omega arith)
Run-less (and_then before step) e =
    let (shut, left) = Run-less before e in
    let (shut', less) = Own-less step shut in (shut', omega arith)

Run-ctx : {s : Conn} {n : ℕ} {t : Conn} → Run s n t → t.ctx_done ≡ s.ctx_done
Run-ctx not_yet = refl
Run-ctx (and_then before step) = Own-ctx step ∙ Run-ctx before

-- Once the context is done and the connection closed, its goroutines end: in whatever order they
-- take their steps, they take at most seven, and as long as serveTCPConn, its writer or its watcher
-- has not returned, one of them can go on.
pub shutdown_lem :
    (n : ℕ) (s t : Conn)
    → s.ctx_done ≡ true
    → s.conn_closed ≡ true
    → Run s n t
    → (n ≤ 7) × (IsFinished t ⊎ ((u : Conn) × Own t u))
shutdown_lem n s t c closed run = (
  omega (
    arith,
    (Run-less run closed).1,
    serving_bound s.serving,
    writing_bound s.writer,
    watching_bound s.watcher,
  ),
  goes_on t (Run-ctx run ∙ c),
)

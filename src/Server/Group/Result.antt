-- ===== src/Server/Group/Result.antt =====
-- server.go: what Run returns when the goroutines that it starts have ended.
use godotnet.Base.{
  subst, if◌then◌else◌, ◌≡◌, ◌≢◌, ◌⊎◌, inl, inr, refl, sym, ap, ◌∙◌, Bool, true, false, Option,
  none, some, Bool-cases,
}
use godotnet.Errors.{Error, sentinel, canceled}
use godotnet.Server.Loops.{is_context_err, record_err, udp_end, run_end}
use godotnet.Server.Group.{
  Group, begin, cancel, cancel_for, report, Step, parent_ends, accept_ends, read_ends, tick_ends,
  Reach, here, next,
}

-- An error that is kept is not of a context, that of a context is, and the shared context ends by
-- either; the tick loop goes on until it does.
record IsOrderly (g : Group) : Type 0 where
  real : (err : Error) → g.first_err ≡ some err → is_context_err err ≡ false
  parent : (err : Error) → g.parent_err ≡ some err → is_context_err err ≡ true
  caused : (g.run_err ≡ none) ⊎ ((g.first_err ≢ none) ⊎ (g.parent_err ≢ none))
  ticks : (g.ticking ≡ true) ⊎ (g.run_err ≢ none)

first_of : Error → Option Error → Error
first_of err none = err
first_of err (some old) = old

recorded : Error → Group → Group
recorded err g = record g {
  first_err = some (first_of err g.first_err);
  run_err = cancel (sentinel canceled) g.run_err;
}

record-ctx : (e : Error) (o : Option Error) → is_context_err e ≡ true → record_err (some e) o ≡ o
unfolding record_err
record-ctx e none ctx = rw ctx
record-ctx e (some old) ctx = refl

record-real :
    (e : Error) (o : Option Error)
    → is_context_err e ≡ false
    → record_err (some e) o ≡ some (first_of e o)
unfolding record_err first_of
record-real e none real = rw real
record-real e (some old) real = refl

-- A report is ignored or recorded.
report-cases :
    (err : Option Error) (g : Group)
    → (report err g ≡ g)
      ⊎ ((e : Error) × (is_context_err e ≡ false) × (report err g ≡ recorded e g))
unfolding report cancel_for recorded
report-cases none g = inl refl
report-cases (some e) g = elim (Bool-cases (is_context_err e)) [
  | inl ctx ↦ inl (
      ap (λ f. record g { first_err = f; run_err = cancel_for (some e) g.run_err })
        (record-ctx e g.first_err ctx)
      ∙ ap
          (λ b. record g {
            run_err = if b then g.run_err else cancel (sentinel canceled) g.run_err;
          })
          ctx)
  | inr real ↦ inr (
    e,
    real,
    ap (λ f. record g { first_err = f; run_err = cancel_for (some e) g.run_err })
          (record-real e g.first_err real)
        ∙ ap
            (λ b. record g {
              first_err = some (first_of e g.first_err);
              run_err = if b then g.run_err else cancel (sentinel canceled) g.run_err;
            })
            real,
  )
]

cancelled : (err : Error) (o : Option Error) → cancel err o ≢ none
cancelled err none e = cc
cancelled err (some old) e = cc

recorded-IsOrderly :
    (e : Error) (g : Group) → is_context_err e ≡ false → IsOrderly g → IsOrderly (recorded e g)
unfolding recorded first_of
recorded-IsOrderly e g real v = record {
  real = λ err h. kept g.first_err refl err h;
  parent = v.parent;
  caused = inr (inl (λ h. cc));
  ticks = inr (cancelled (sentinel canceled) g.run_err);
}
  where
    kept :
        (o : Option Error)
        → g.first_err ≡ o
        → (err : Error) → some (first_of e o) ≡ some err
        → is_context_err err ≡ false
    kept none f err h = (let p : e ≡ err = cc in subst (λ x. is_context_err x ≡ false) p real)
    kept (some old) f err h = v.real err (f ∙ h)

report-IsOrderly : (err : Option Error) (g : Group) → IsOrderly g → IsOrderly (report err g)
report-IsOrderly err g v = elim (report-cases err g) [
  | inl ignored ↦ subst IsOrderly (sym ignored) v
  | inr (e, real, now) ↦ subst IsOrderly (sym now) (recorded-IsOrderly e g real v)
]

Step-IsOrderly : {g h : Group} → Step g h → IsOrderly g → IsOrderly h
Step-IsOrderly {g} (parent_ends err ctx first) v = record {
  real = v.real;
  parent = λ e h. (let p : err ≡ e = cc in subst (λ x. is_context_err x ≡ true) p ctx);
  caused = inr (inr (λ h. cc));
  ticks = inr (cancelled err g.run_err);
}
Step-IsOrderly {g} (accept_ends on) v =
    report-IsOrderly g.run_err (record g { accepting = false })
      (record { real = v.real; parent = v.parent; caused = v.caused; ticks = v.ticks })
Step-IsOrderly {g} (read_ends err on) v =
    report-IsOrderly (udp_end g.run_err err) (record g { reading = false })
      (record { real = v.real; parent = v.parent; caused = v.caused; ticks = v.ticks })
Step-IsOrderly {g} (tick_ends err on done) v =
    report-IsOrderly (some err) (record g { ticking = false })
      (record { real = v.real; parent = v.parent; caused = v.caused; ticks = inr (λ e. cc) })

Reach-IsOrderly : (tcp udp : Bool) {g : Group} → Reach (begin tcp udp) g → IsOrderly g
Reach-IsOrderly tcp udp here = record {
  real = λ e h. cc;
  parent = λ e h. cc;
  caused = inl refl;
  ticks = inl refl;
}
Reach-IsOrderly tcp udp (next before step) = Step-IsOrderly step (Reach-IsOrderly tcp udp before)

-- Whichever of the TCP listener and the UDP socket there are, and however its goroutines end: once
-- the tick loop has returned Run does not return nil. It returns the error that recordErr has kept,
-- which is not of a context, or if none was kept the error of its own context, which has then
-- ended.
pub run_lem :
    (tcp udp : Bool) (g : Group)
    → Reach (begin tcp udp) g
    → g.ticking ≡ false
    → (e : Error) × (run_end g.parent_err g.first_err ≡ some e)
      × (((g.first_err ≡ some e) × (is_context_err e ≡ false))
          ⊎ ((g.first_err ≡ none) × (g.parent_err ≡ some e) × (is_context_err e ≡ true)))
run_lem tcp udp g reach over = let v = Reach-IsOrderly tcp udp reach in by_first v g.first_err refl
  where
    stopped : IsOrderly g → g.run_err ≢ none
    stopped v = elim v.ticks [ inl on ↦ λ e. cc | inr done ↦ done ]

    by_parent :
        IsOrderly g
        → (o : Option Error) → g.parent_err ≡ o
        → g.first_err ≡ none
        → (g.parent_err ≢ none)
    by_parent v o p f = elim v.caused [
      | inl none_yet ↦ absurd (stopped v none_yet)
      | inr (inl kept) ↦ absurd (kept f)
      | inr (inr ended) ↦ ended
    ]

    Result : Type 0
    Result =
        (e : Error) × (run_end g.parent_err g.first_err ≡ some e)
        × (((g.first_err ≡ some e) × (is_context_err e ≡ false))
            ⊎ ((g.first_err ≡ none) × (g.parent_err ≡ some e) × (is_context_err e ≡ true)))

    by_ctx : IsOrderly g → (o : Option Error) → g.parent_err ≡ o → g.first_err ≡ none → Result
    by_ctx v none p f = absurd (by_parent v none p f p)
    by_ctx v (some e) p f = (e, ap (run_end g.parent_err) f ∙ p, inr (f, p, v.parent e p))

    by_first : IsOrderly g → (o : Option Error) → g.first_err ≡ o → Result
    by_first v none f = by_ctx v g.parent_err refl f
    by_first v (some e) f = (e, ap (run_end g.parent_err) f, inl (f, v.real e f))

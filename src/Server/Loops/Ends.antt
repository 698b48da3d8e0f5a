-- ===== src/Server/Loops/Ends.antt =====
-- How the loops of tcp.go and udp.go end, and which error Run (server.go) returns.
use godotnet.Base.{
  ℕ, ◌≡◌, refl, sym, ap, ◌∙◌, true, false, Option, none, some, List, [], ◌∷◌, ◌++◌, All,
}
use mathlib.Core.List.{append-nil}
use godotnet.Errors.{Error, is, net_closed}
use godotnet.Env.{Env}
use godotnet.Server.{Server}
use godotnet.Server.Intake.{accept_conn}
use godotnet.Server.Loops.{
  run_end, Accepted, conn, accept_failed, is_context_err, record_err, record_all, run_result,
  run_tcp_accept,
}

-- No error, or one of a context.
abbrev pub IsIgnored : Option Error → Type 0
IsIgnored none = Unit {0}
IsIgnored (some err) = is_context_err err ≡ true

ignored : (e : Option Error) → IsIgnored e → record_err e none ≡ none
unfolding record_err
ignored none h = refl
ignored (some err) h = rw h

pub kept : (errs : List (Option Error)) (first : Error) → record_all errs (some first) ≡ some first
unfolding record_all record_err
kept [] first = refl
kept (none ∷ errs) first = kept errs first
kept (some err ∷ errs) first = kept errs first

record_all-ignored :
    (before after : List (Option Error))
    → All IsIgnored before
    → record_all (before ++ after) none ≡ record_all after none
unfolding record_all
record_all-ignored [] after h = refl
record_all-ignored (e ∷ before) after (h, hs) =
    ap (record_all (before ++ after)) (ignored e h) ∙ record_all-ignored before after hs

pub recorded : (err : Error) → is_context_err err ≡ false → record_err (some err) none ≡ some err
unfolding record_err
recorded err real = rw real

-- Run returns the first error of a goroutine that is not of a context, whatever comes after it, and
-- its own context's error if there is none.
pub run_result_lem :
    (ctx_err : Option Error) (before after : List (Option Error)) (err : Error)
    → All IsIgnored before
    → is_context_err err ≡ false
    → (run_result ctx_err before ≡ ctx_err)
      × (run_result ctx_err (before ++ some err ∷ after) ≡ some err)
unfolding run_result record_all
run_result_lem ctx_err before after err h real = (
  ap (run_end ctx_err)
      (ap (λ es. record_all es none) (sym (append-nil before)) ∙ record_all-ignored before [] h),
  ap (run_end ctx_err) (
      record_all-ignored before (some err ∷ after) h
      ∙ ap (record_all after) (recorded err real)
      ∙ kept after err),
)

-- The connections that Accept has given, in their order.
abbrev pub conns : List Accepted → List ℕ
conns [] = []
conns (conn r ∷ more) = r ∷ conns more
conns (accept_failed err ∷ more) = conns more

abbrev pub IsTransient : Accepted → Type 0
IsTransient (conn r) = Unit {0}
IsTransient (accept_failed err) = is err net_closed ≡ false

module _ ⦃env : Env⦄ where
  abbrev pub accept_all : List ℕ → Server → Server
  accept_all [] s = s
  accept_all (r ∷ rs) s = accept_all rs (accept_conn r s)

  -- The accept loop takes every connection up to the first error that is net.ErrClosed, whatever
  -- other errors Accept returns before it, and no connection after it; it returns its context's
  -- error then, and does not return before.
  pub run_tcp_accept_lem :
      (ctx_err : Option Error) (before after : List Accepted) (err : Error) (s : Server)
      → All IsTransient before
      → is err net_closed ≡ true
      → (run_tcp_accept ctx_err before s ≡ (accept_all (conns before) s, none))
        × (run_tcp_accept ctx_err (before ++ accept_failed err ∷ after) s
            ≡ (accept_all (conns before) s, some ctx_err))
  unfolding run_tcp_accept
  run_tcp_accept_lem ctx_err [] after err s h over = (refl, rw over)
  run_tcp_accept_lem ctx_err (conn r ∷ before) after err s (h, hs) over =
      run_tcp_accept_lem ctx_err before after err (accept_conn r s) hs over
  run_tcp_accept_lem ctx_err (accept_failed e ∷ before) after err s (h, hs) over =
      let (waits, ends) = run_tcp_accept_lem ctx_err before after err s hs over in
      (rw h waits, rw h ends)

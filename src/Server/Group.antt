-- ===== src/Server/Group.antt =====
-- server.go: the goroutines that Run starts, from wg.Add to its return. Each ends once, with a
-- result that it reports to recordErr, which cancels the context that they share.
pub mod Result
use godotnet.Base.{
  subst, if◌then◌else◌, ◌≡◌, ◌≢◌, ◌⊎◌, inl, inr, refl, sym, ap, ◌∙◌, Bool, true, false, Option,
  none, some, Option-cases, Bool-cases,
}
use godotnet.Errors.{Error, sentinel, canceled, is}
use godotnet.Server.Loops.{is_context_err, record_err, udp_end, run_end}

-- `parent_err` is the error of the context that Run is given, `run_err` that of the context that
-- its goroutines share, `first_err` what recordErr has kept.
pub record Group : Type 0 where
  pub parent_err : Option Error
  pub run_err : Option Error
  pub first_err : Option Error
  pub accepting : Bool
  pub reading : Bool
  pub ticking : Bool

-- The start, by whether there is a TCP listener and a UDP socket.
abbrev pub begin : Bool → Bool → Group
begin tcp udp = record {
  parent_err = none;
  run_err = none;
  first_err = none;
  accepting = tcp;
  reading = udp;
  ticking = true;
}

-- Only the first cancellation of a context counts.
abbrev pub cancel : Error → Option Error → Option Error
cancel err none = some err
cancel err (some old) = some old

-- recordErr cancels the context unless it ignores the error.
unfoldable pub cancel_for : Option Error → Option Error → Option Error
unfolding is
cancel_for none run_err = run_err
cancel_for (some err) run_err =
    if is_context_err err then run_err else cancel (sentinel canceled) run_err

unfoldable pub report : Option Error → Group → Group
unfolding record_err cancel_for
report err g = record g {
  first_err = record_err err g.first_err;
  run_err = cancel_for err g.run_err;
}

-- The context that Run is given ends with an error of a context. runTCPAccept returns the error of
-- its context when its listener is closed, runUDPReader on any error of a read, and runTickLoop
-- once its context is done.
pub data Step (g : Group) : Group → Type 0 where
  parent_ends :
      (err : Error)
      → is_context_err err ≡ true
      → g.parent_err ≡ none
      → Step g (record g { parent_err = some err; run_err = cancel err g.run_err })
  accept_ends : g.accepting ≡ true → Step g (report g.run_err (record g { accepting = false }))
  read_ends :
      (err : Error)
      → g.reading ≡ true
      → Step g (report (udp_end g.run_err err) (record g { reading = false }))
  tick_ends :
      (err : Error)
      → g.ticking ≡ true
      → g.run_err ≡ some err
      → Step g (report (some err) (record g { ticking = false }))

pub data Reach (g : Group) : Group → Type 0 where
  here : Reach g g
  next : {h k : Group} → Reach g h → Step h k → Reach g k

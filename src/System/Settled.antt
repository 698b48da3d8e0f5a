-- ===== src/System/Settled.antt =====
-- Each disconnect reaches the game (events.go, server.go, tick.go), while the event queue has room.
use godotnet.Base.{subst, sym, inl, inr, ℕ, ◌+◌, ◌≡◌, some, List, [], nat_eq, string_eq, arith}
use godotnet.Events.{Event, drain}
use godotnet.Events.Fifo.{drain_lem}
use godotnet.Env.{Env}
use godotnet.Callbacks.{OnDisconnect}
use godotnet.Server.{Server, Config, new_server, normalise}
use godotnet.Server.Ping.{run_ping_tick}
use godotnet.Server.Quiet.{to_ℕ, owed, goodbyes, Quiet-trans}
use godotnet.Server.Quiet.Handlers.{ping_tick-Quiet, on_tick-Quiet}
use godotnet.Server.Accounts.{Accounts, Loud-Accounts, event-Accounts, accept-Accounts}
use godotnet.Server.Owing.{HasRoom, Quiet-Loud}
use godotnet.System.{IoStep}
use godotnet.System.Rounds.{IoStep-cases}
use godotnet.System.Interleaved.{
  Phase, at_ticker, pending_of, Move, other, began, handled, ended, begin_tick, end_tick,
  interleaved-Inv, Moves, none_yet, and_then,
}

module _ ⦃env : Env⦄ where
  open env use {Game}

  IoStep-Accounts :
      {cb : OnDisconnect} {pending : List Event} {s t : Server}
      → IoStep pending s t
      → HasRoom t
      → Accounts cb pending s
      → Accounts cb pending t
  IoStep-Accounts {cb} {pending} {s} {t} step room v = elim (IoStep-cases pending s t step) [
    | inl q ↦ Loud-Accounts room (Quiet-Loud q) v
    | inr (r, fresh, e) ↦ subst (Accounts cb pending) (sym e) (accept-Accounts r s v)
  ]

  begin-Accounts :
      {cb : OnDisconnect} (s : Server)
      → Accounts cb [] s
      → Accounts cb (drain s.events).0 (begin_tick s)
  unfolding begin_tick owed
  begin-Accounts s v =
      rw (drain_lem s.events) (record { told = v.told; noted = λ r. omega (arith, v.noted r) })

  Move-Accounts :
      {cb : OnDisconnect} {s t : Server} {p q : Phase}
      → Move s p t q
      → HasRoom t
      → Accounts cb (pending_of p) s
      → Accounts cb (pending_of q) t
  unfolding end_tick
  Move-Accounts (other step) room v = IoStep-Accounts step room v
  Move-Accounts {s = s} (began now) room v = begin-Accounts s v
  Move-Accounts {s = s} (handled {tc = tc} {e = e}) room v = event-Accounts tc e s room v
  Move-Accounts {s = s} (ended {tc = tc}) room v =
      let s' : Server = run_ping_tick tc s in
      Loud-Accounts room
        (Quiet-Loud (Quiet-trans (ping_tick-Quiet tc s) (on_tick-Quiet s'.on_tick tc s'))) v

  -- A run after each of whose moves the event queue has room.
  pub data Roomy (s : Server) (p : Phase) : Server → Phase → Type 0 where
    still : Roomy s p s p
    onward : {t u : Server} {q r : Phase} → Roomy s p t q → Move t q u r → HasRoom u → Roomy s p u r

  pub Roomy-Moves :
      {s : Server} {p : Phase} {t : Server} {q : Phase} → Roomy s p t q → Moves s p t q
  Roomy-Moves still = none_yet
  Roomy-Moves (onward before move room) = and_then (Roomy-Moves before) move

  Roomy-Accounts :
      {cb : OnDisconnect} {s : Server} {p : Phase} {t : Server} {q : Phase}
      → Roomy s p t q
      → Accounts cb (pending_of p) s
      → Accounts cb (pending_of q) t
  Roomy-Accounts still v = v
  Roomy-Accounts (onward before move room) v = Move-Accounts move room (Roomy-Accounts before v)

  new-Accounts :
      (cb : OnDisconnect) (cfg : Config) (game : Game)
      → cfg.on_disconnect ≡ some cb
      → Accounts cb [] (new_server cfg game)
  unfolding new_server normalise
  new-Accounts cb cfg game given = record { told = given; noted = λ r. omega arith }

  -- With an OnDisconnect, and as long as the event queue has room after each step of a run from a
  -- new server, however the rounds of the other goroutines fall between the moves of the
  -- ticks: of a session whose disconnect has fired there is exactly one disconnect event, queued or
  -- drained and not handled yet, or call of OnDisconnect; of any other session there is none.
  pub each_told_once :
      (cfg : Config) (game : Game) (cb : OnDisconnect) (s : Server) (p : Phase) (r : ℕ)
      → cfg.on_disconnect ≡ some cb
      → Roomy (new_server cfg game) at_ticker s p
      → to_ℕ (s.heap r).disconnect_once
        ≡ owed r (pending_of p) + owed r s.events.buffer + goodbyes r s.trace
  each_told_once cfg game cb s p r given run =
      let v = (interleaved-Inv cfg game s p (Roomy-Moves run)).0 in
      let w = Roomy-Accounts run (new-Accounts cb cfg game given) in
      omega (arith, v.accounted r, w.noted r)

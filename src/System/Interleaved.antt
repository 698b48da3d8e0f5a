-- ===== src/System/Interleaved.antt =====
-- The same goroutines when they run between the moves of a tick: runTickLoop of tick.go drains
-- the queue, handles the events one at a time, and then pings and calls OnTick, the last two as one
-- move; a round of any other goroutine may fall before, between and after these.
use godotnet.Base.{ℕ, ◌+◌, ◌%◌, ◌^◌, ◌≤◌, List, [], ◌∷◌, nat_eq, string_eq, arith}
use godotnet.Base.Int.{ℤ}
use godotnet.Events.{Event, drain}
use godotnet.Env.{Env}
use godotnet.Server.{Server, Config, new_server}
use godotnet.Server.TickCtx.{TickCtx}
use godotnet.Server.Ping.{run_ping_tick}
use godotnet.Server.Tick.{handle_event, handle_events, invoke_on_tick, run_tick}
use godotnet.Server.Quiet.{owed, goodbyes}
use godotnet.Server.Quiet.Handlers.{ping_tick-Quiet, on_tick-Quiet}
use godotnet.Server.Invariant.{Inv, Quiet-Inv}
use godotnet.Server.Invariant.Tick.{handle_event-Inv, drained-Inv}
use godotnet.System.{IoStep, io, ticked, Reach, here, next}
use godotnet.System.Safety.{IoStep-Inv, new_server-Inv, fired-le-one}

module _ ⦃env : Env⦄ where
  open env use {Game}

  -- Where the tick goroutine stands: at the ticker, or in a tick with events left to handle.
  pub data Phase : Type 0 where
    at_ticker : Phase
    handling : TickCtx → List Event → Phase

  abbrev pub pending_of : Phase → List Event
  pending_of at_ticker = []
  pending_of (handling tc es) = es

  -- The first two statements of a tick: the count and the drain.
  unfoldable pub tick_context : ℤ → Server → TickCtx
  tick_context now s = record { tick = (s.tick_count + 1) % 2 ^ 64; now = now }

  unfoldable pub begin_tick : Server → Server
  unfolding drain
  begin_tick s = record s { tick_count = (s.tick_count + 1) % 2 ^ 64; events = (drain s.events).1 }

  -- The last two, which are one move: the keepalive, and OnTick.
  unfoldable pub end_tick : TickCtx → Server → Server
  unfolding run_ping_tick invoke_on_tick
  end_tick tc s = let s' : Server = run_ping_tick tc s in invoke_on_tick s'.on_tick tc s'

  pub data Move : Server → Phase → Server → Phase → Type 0 where
    other : {s t : Server} {p : Phase} → IoStep (pending_of p) s t → Move s p t p
    began :
        {s : Server} (now : ℤ)
        → Move s at_ticker (begin_tick s) (handling (tick_context now s) (drain s.events).0)
    handled :
        {s : Server} {tc : TickCtx} {e : Event} {es : List Event}
        → Move s (handling tc (e ∷ es)) (handle_event tc e s) (handling tc es)
    ended : {s : Server} {tc : TickCtx} → Move s (handling tc []) (end_tick tc s) at_ticker

  pub data Moves (s : Server) (p : Phase) : Server → Phase → Type 0 where
    none_yet : Moves s p s p
    and_then : {t u : Server} {q r : Phase} → Moves s p t q → Move t q u r → Moves s p u r

  pub Move-Inv :
      {s t : Server} {p q : Phase} → Move s p t q → Inv (pending_of p) s → Inv (pending_of q) t
  unfolding begin_tick end_tick
  Move-Inv (other step) v = IoStep-Inv step v
  Move-Inv {s} (began now) v = drained-Inv ((s.tick_count + 1) % 2 ^ 64) s v
  Move-Inv {s} (handled {tc = tc} {e = e}) v = handle_event-Inv tc e s v
  Move-Inv {s} (ended {tc = tc}) v =
      let s' : Server = run_ping_tick tc s in
      Quiet-Inv (on_tick-Quiet s'.on_tick tc s') (Quiet-Inv (ping_tick-Quiet tc s) v)

  Moves-Inv :
      {s : Server} {p : Phase} {t : Server} {q : Phase}
      → Moves s p t q
      → Inv (pending_of p) s
      → Inv (pending_of q) t
  Moves-Inv none_yet v = v
  Moves-Inv (and_then before move) v = Move-Inv move (Moves-Inv before v)

  -- However the rounds of the other goroutines fall between the moves of the ticks: at every
  -- moment of a run from a new server, each entry of `sessions` names a session logged in as that
  -- player, each entry of `udp_sessions` names a ready session at that address, only ready sessions
  -- have an address, and of each session the disconnect events that are queued, those that the
  -- tick has drained and not handled, and the calls of OnDisconnect together are at most one.
  pub interleaved-Inv :
      (cfg : Config) (game : Game) (s : Server) (p : Phase)
      → Moves (new_server cfg game) at_ticker s p
      → Inv (pending_of p) s
        × ((r : ℕ) → owed r (pending_of p) + owed r s.events.buffer + goodbyes r s.trace ≤ 1)
  interleaved-Inv cfg game s p moves =
      let v : Inv (pending_of p) s = Moves-Inv moves (new_server-Inv cfg game) in
      (v, λ r. omega (arith, v.accounted r, fired-le-one (s.heap r).disconnect_once))

  and_all :
      {s : Server} {p : Phase} {t : Server} {q : Phase} {u : Server} {r : Phase}
      → Moves s p t q
      → Moves t q u r
      → Moves s p u r
  and_all m none_yet = m
  and_all m (and_then before move) = and_then (and_all m before) move

  handled_all :
      (tc : TickCtx) (es : List Event) (s : Server)
      → Moves s (handling tc es) (handle_events tc es s) (handling tc [])
  unfolding handle_events
  handled_all tc [] s = none_yet
  handled_all tc (e ∷ es) s =
      and_all (and_then none_yet handled) (handled_all tc es (handle_event tc e s))

  tick-Moves : (now : ℤ) (s : Server) → Moves s at_ticker (run_tick now s) at_ticker
  unfolding run_tick begin_tick tick_context end_tick
  tick-Moves now s =
      and_then
        (and_all (and_then none_yet (began now))
          (handled_all (tick_context now s) (drain s.events).0 (begin_tick s)))
        ended

  -- A run whose ticks are taken as one step each is one of the interleaved runs.
  pub Reach-Moves : {s t : Server} → Reach s t → Moves s at_ticker t at_ticker
  Reach-Moves here = none_yet
  Reach-Moves (next before (io step)) = and_then (Reach-Moves before) (other step)
  Reach-Moves (next before (ticked now)) = and_all (Reach-Moves before) (tick-Moves now _)

-- ===== src/System/Bounded.antt =====
-- What a server's memory is bounded by (events.go, session.go, tick.go): the queue, the events of a
-- tick, and the channels of the sessions.
use godotnet.Base.{
  ap, zero, suc, ℕ, ◌≤◌, ◌≡◌, refl, sym, subst, ◌∙◌, inl, inr, Option, none, some, List, length,
  nat_eq, string_eq, arith,
}
use godotnet.Base.Int.{ℤ, pos, negsuc, or_default, pos_part}
use godotnet.Errors.{Error}
use godotnet.Events.{Event, drain, default_event_queue_depth, new_queue}
use godotnet.Events.Fifo.{drain_lem}
use godotnet.Session.{Session}
use godotnet.Env.{Env}
use godotnet.Callbacks.{OnDisconnect}
use godotnet.Server.{Server, Config, normalise, new_server}
use godotnet.Server.Cleanup.{
  invoke_on_disconnect, forget_player, forget_addr, close_tcp, close_channel, cleanup_session,
}
use godotnet.Server.TickCtx.{TickCtx}
use godotnet.Server.Ping.{run_ping_tick}
use godotnet.Server.Intake.{new_session, accept_conn}
use godotnet.Server.Quiet.{Fits, Quiet-trans}
use godotnet.Server.Quiet.Handlers.{ping_tick-Quiet, on_tick-Quiet}
use godotnet.Server.Route.{IsAcross, handle_event-R}
use godotnet.Server.Invariant.{at-modify}
use godotnet.Server.Owing.{Loud, Quiet-Loud, Loud-across}
use godotnet.Server.Accounts.{cleanup-Loud}
use godotnet.System.{IoStep}
use godotnet.System.Rounds.{IoStep-cases}
use godotnet.System.Interleaved.{
  Phase, at_ticker, handling, pending_of, Move, other, began, handled, ended, begin_tick, end_tick,
  Moves, none_yet, and_then,
}

module _ ⦃env : Env⦄ where
  open env use {Game}

  -- What every event and every round keeps.
  record Within (s t : Server) : Type 0 where
    cfg : t.cfg ≡ s.cfg
    depth : t.events.depth ≡ s.events.depth
    fits : length s.events.buffer ≤ s.events.depth → length t.events.buffer ≤ t.events.depth
    channels :
        (capacity : ℕ)
        → capacity ≡ pos_part s.cfg.send_queue_depth
        → ((r : ℕ) → Fits capacity (s.heap r).send_tcp)
        → (r : ℕ) → Fits capacity (t.heap r).send_tcp

  Loud-Within : {s t : Server} → Loud s t → Within s t
  Loud-Within l = record {
    cfg = l.cfg;
    depth = l.depth;
    fits = l.fits;
    channels = λ d e h r. l.channels r d (h r);
  }

  Within-trans : {s t u : Server} → Within s t → Within t u → Within s u
  Within-trans p q = record {
    cfg = q.cfg ∙ p.cfg;
    depth = q.depth ∙ p.depth;
    fits = λ h. q.fits (p.fits h);
    channels = λ d e h.
        q.channels d (e ∙ ap (λ (c : Config). pos_part c.send_queue_depth) (sym p.cfg))
          (p.channels d e h);
  }

  Within-across : IsAcross Within
  Within-across = record {
    quiet = λ s t q. Loud-Within (Quiet-Loud q);
    both = λ s t u. Within-trans;
    logs_in = λ r l s fresh. Loud-Within (Loud-across.logs_in r l s fresh);
    pairs = λ addr hs s. Loud-Within (Loud-across.pairs addr hs s);
  }

  on_disconnect-Within :
      (o : Option OnDisconnect) (r : ℕ) (reason : Option Error) (s : Server)
      → Within s (invoke_on_disconnect o r reason s)
  unfolding invoke_on_disconnect
  on_disconnect-Within none r reason s = record {
    cfg = refl;
    depth = refl;
    fits = λ h. h;
    channels = λ d e h. h;
  }
  on_disconnect-Within (some cb) r reason s = record {
    cfg = refl;
    depth = refl;
    fits = λ h. h;
    channels = λ d e h. h;
  }

  cleanup-Within :
      (r : ℕ) (reason : Option Error) (s : Server) → Within s (cleanup_session (some r) reason s)
  unfolding cleanup_session
  cleanup-Within r reason s =
      let x : Session = s.heap r in
      let s3 : Server =
        close_channel x.send_tcp r (close_tcp r (forget_addr x.udp_addr (forget_player r s))) in
      Within-trans (Loud-Within (cleanup-Loud r s))
        (on_disconnect-Within s.cfg.on_disconnect r reason s3)

  accept-Within : (r : ℕ) (s : Server) → Within s (accept_conn r s)
  unfolding accept_conn
  accept-Within r s = record {
    cfg = refl;
    depth = refl;
    fits = λ h. h;
    channels = λ d e h q.
        at-modify (λ x. Fits d x.send_tcp) r q (λ x. new_session s) s (λ hit. (sym e, omega arith))
          (λ miss. h q);
  }

  IoStep-Within : {pending : List Event} {s t : Server} → IoStep pending s t → Within s t
  IoStep-Within {pending} {s} {t} step = elim (IoStep-cases pending s t step) [
    | inl q ↦ Loud-Within (Quiet-Loud q)
    | inr (r, fresh, e) ↦ subst (Within s) (sym e) (accept-Within r s)
  ]

  -- The configuration that NewServer made of `cfg`, the event queue and the drained events within
  -- the depth that it gives, and every open channel of the capacity that it gives and
  -- within it.
  pub record Bounded (cfg : Config) (p : Phase) (s : Server) : Type 0 where
    pub config : s.cfg ≡ normalise cfg
    pub depth : s.events.depth ≡ pos_part (normalise cfg).event_queue_depth
    pub queued : length s.events.buffer ≤ s.events.depth
    pub pending : length (pending_of p) ≤ s.events.depth
    pub channels : (r : ℕ) → Fits (pos_part (normalise cfg).send_queue_depth) (s.heap r).send_tcp

  Within-Bounded :
      {cfg : Config} {p : Phase} (q : Phase) {s t : Server}
      → Within s t
      → length (pending_of q) ≤ length (pending_of p)
      → Bounded cfg p s
      → Bounded cfg q t
  Within-Bounded q w fewer v = record {
    config = w.cfg ∙ v.config;
    depth = w.depth ∙ v.depth;
    queued = w.fits v.queued;
    pending = omega (arith, fewer, v.pending, w.depth);
    channels =
        w.channels _ (ap (λ (c : Config). pos_part c.send_queue_depth) (sym v.config)) v.channels;
  }

  began-Bounded :
      {cfg : Config} (tc : TickCtx) (s : Server)
      → Bounded cfg at_ticker s
      → Bounded cfg (handling tc (drain s.events).0) (begin_tick s)
  unfolding begin_tick
  began-Bounded tc s v = rw (drain_lem s.events) (record {
    config = v.config;
    depth = v.depth;
    queued = omega arith;
    pending = v.queued;
    channels = v.channels;
  })

  Move-Bounded :
      {cfg : Config} {s t : Server} {p q : Phase} → Move s p t q → Bounded cfg p s → Bounded cfg q t
  unfolding end_tick
  Move-Bounded {q = q} (other step) v = Within-Bounded q (IoStep-Within step) (omega arith) v
  Move-Bounded {s = s} (began now) v = began-Bounded _ s v
  Move-Bounded {s = s} (handled {tc = tc} {e = e} {es = es}) v =
      Within-Bounded (handling tc es) (handle_event-R Within Within-across cleanup-Within tc e s)
        (omega arith) v
  Move-Bounded {s = s} (ended {tc = tc}) v =
      let s' : Server = run_ping_tick tc s in
      Within-Bounded at_ticker
        (Loud-Within
          (Quiet-Loud (Quiet-trans (ping_tick-Quiet tc s) (on_tick-Quiet s'.on_tick tc s'))))
        (omega arith) v

  Moves-Bounded :
      {cfg : Config} {s : Server} {p : Phase} {t : Server} {q : Phase}
      → Moves s p t q
      → Bounded cfg p s
      → Bounded cfg q t
  Moves-Bounded none_yet v = v
  Moves-Bounded (and_then before move) v = Move-Bounded move (Moves-Bounded before v)

  default_twice :
      (n : ℤ)
      → pos_part (or_default (or_default n default_event_queue_depth) default_event_queue_depth)
        ≡ pos_part (or_default n default_event_queue_depth)
  default_twice (pos zero) = refl
  default_twice (pos (suc n)) = refl
  default_twice (negsuc n) = refl

  new-Bounded : (cfg : Config) (game : Game) → Bounded cfg at_ticker (new_server cfg game)
  unfolding new_server normalise new_queue
  new-Bounded cfg game = record {
    config = refl;
    depth = default_twice cfg.event_queue_depth;
    queued = omega arith;
    pending = omega arith;
    channels = λ r. tt;
  }

  -- However the rounds of the other goroutines fall between the moves of the ticks: at every
  -- moment of a run from a new server its configuration is what NewServer made of the one given,
  -- the event queue has the depth that this says and holds no more, nor does a tick have more
  -- events left to handle, and the channel of each session, if it is open, has the capacity that it
  -- says and holds no more.
  pub interleaved-Bounded :
      (cfg : Config) (game : Game) (s : Server) (p : Phase)
      → Moves (new_server cfg game) at_ticker s p
      → Bounded cfg p s
  interleaved-Bounded cfg game s p moves = Moves-Bounded moves (new-Bounded cfg game)

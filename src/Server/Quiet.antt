-- ===== src/Server/Quiet.antt =====
-- The changes that sending makes: a server may queue bytes and disconnect events, write to sockets,
-- and note times and nonces, but who its players are stays.
pub mod Sends
pub mod Calls
pub mod Handlers
pub mod Handshake
pub mod Intake
use godotnet.Base.{
  ℕ, zero, suc, ◌+◌, ◌≤◌, ◌≡◌, refl, sym, ap, subst, ◌∙◌, inl, inr, String, Bool, true, false,
  Option, none, some, List, [], ◌∷◌, ◌++◌, Bytes, ◌<◌, length, length-append, ◌==◌, ==_iff,
  if◌then◌else◌, Bool-cases, arith,
}
use godotnet.Base.Map.{Map}
use godotnet.Errors.{Error}
use godotnet.Events.{Event, EventKind, event_message, event_connect, event_disconnect, Queue, push}
use godotnet.Session.{Channel, Session, SessionAuthState}
use godotnet.Env.{Env}
use godotnet.Server.{
  Server, Config, Effect, udp_written, tcp_closed, channel_closed, on_auth_called,
  on_connect_called, on_disconnect_called, on_tick_called, modify, emit,
}

abbrev pub to_ℕ : Bool → ℕ
to_ℕ false = 0
to_ℕ true = 1

abbrev pub is_at : Option ℕ → ℕ → Bool
is_at none r = false
is_at (some q) r = q == r

-- Whether an event is a disconnect of the session `r`, and how many of a list are.
abbrev pub disconnects : EventKind → Option ℕ → ℕ → ℕ
disconnects event_message sess r = 0
disconnects event_connect sess r = 0
disconnects event_disconnect sess r = to_ℕ (is_at sess r)

unfoldable pub owed : ℕ → List Event → ℕ
owed r [] = 0
owed r (e ∷ es) = disconnects e.kind e.sess r + owed r es

-- A channel with a capacity and within it, if it is open.
abbrev pub Fits : ℕ → Option Channel → Type 0
Fits capacity none = Unit {0}
Fits capacity (some c) = (c.capacity ≡ capacity) × (length c.queued ≤ capacity)

abbrev pub Keeps : Option Channel → Option Channel → Type 0
Keeps x y = (capacity : ℕ) → Fits capacity x → Fits capacity y

-- A queue after pushes.
pub record Swells (p q : Queue) : Type 0 where
  pub depth : q.depth ≡ p.depth
  pub longer : length p.buffer ≤ length q.buffer
  pub fits : length p.buffer ≤ p.depth → length q.buffer ≤ q.depth

pub push-Swells : (q : Queue) (e : Event) → Swells q (push q e).0
unfolding push
push-Swells q e = record {
  depth = ground arith;
  longer = ground (arith, length-append q.buffer (e ∷ []));
  fits = λ h. ground (arith, length-append q.buffer (e ∷ []));
}

pub owed-append : (r : ℕ) (es fs : List Event) → owed r (es ++ fs) ≡ owed r es + owed r fs
unfolding owed
owed-append r [] fs = omega arith
owed-append r (e ∷ es) fs = omega (arith, owed-append r es fs)

-- How often OnDisconnect was called for the session `r`.
abbrev pub goodbye : Effect → ℕ → ℕ
goodbye (on_disconnect_called q reason) r = to_ℕ (q == r)
goodbye _ r = 0

unfoldable pub goodbyes : ℕ → List Effect → ℕ
goodbyes r [] = 0
goodbyes r (e ∷ es) = goodbye e r + goodbyes r es

-- What identifies a session: its player, its place in the handshake, its token and UDP address.
abbrev pub Identity : Type 0
Identity = ℕ × SessionAuthState × String × Option String

abbrev pub identity : Session → Identity
identity x = (x.id, x.auth_state, x.session_token, x.udp_addr)

abbrev pub SameIdentity : Session → Session → Type 0
SameIdentity x y = identity y ≡ identity x

module _ ⦃env : Env⦄ where
  abbrev pub fired : Server → ℕ → ℕ
  fired s r = to_ℕ (s.heap r).disconnect_once

  pub record Quiet (s t : Server) : Type 0 where
    pub sessions : t.sessions ≡ s.sessions
    pub udp_sessions : t.udp_sessions ≡ s.udp_sessions
    pub same : (r : ℕ) → SameIdentity (s.heap r) (t.heap r)
    pub once : (r : ℕ) → fired s r ≤ fired t r
    pub debt : (r : ℕ) → owed r t.events.buffer + fired s r ≤ owed r s.events.buffer + fired t r
    pub parted : (r : ℕ) → goodbyes r t.trace ≡ goodbyes r s.trace
    pub cfg : t.cfg ≡ s.cfg
    pub fits : length s.events.buffer ≤ s.events.depth → length t.events.buffer ≤ t.events.depth
    pub channels : (r : ℕ) → Keeps (s.heap r).send_tcp (t.heap r).send_tcp
    pub depth : t.events.depth ≡ s.events.depth
    pub longer : length s.events.buffer ≤ length t.events.buffer
    -- If the queue still has room, then no disconnect was lost.
    pub promised :
        length t.events.buffer < t.events.depth
        → (r : ℕ) → owed r s.events.buffer + fired t r ≤ owed r t.events.buffer + fired s r

  pub Quiet-refl : (s : Server) → Quiet s s
  Quiet-refl s = record {
    sessions = refl;
    udp_sessions = refl;
    same = λ r. refl;
    once = λ r. omega arith;
    debt = λ r. omega arith;
    parted = λ r. refl;
    cfg = refl;
    fits = λ h. h;
    channels = λ r d h. h;
    depth = refl;
    longer = omega arith;
    promised = λ h r. omega arith;
  }

  pub Quiet-trans : {s t u : Server} → Quiet s t → Quiet t u → Quiet s u
  Quiet-trans p q = record {
    sessions = q.sessions ∙ p.sessions;
    udp_sessions = q.udp_sessions ∙ p.udp_sessions;
    same = λ r. q.same r ∙ p.same r;
    once = λ r. omega (arith, p.once r, q.once r);
    debt = λ r. omega (arith, p.debt r, q.debt r);
    parted = λ r. q.parted r ∙ p.parted r;
    cfg = q.cfg ∙ p.cfg;
    fits = λ h. q.fits (p.fits h);
    channels = λ r d h. q.channels r d (p.channels r d h);
    depth = q.depth ∙ p.depth;
    longer = omega (arith, p.longer, q.longer);
    promised =
        λ h r. omega (arith, p.promised (omega (arith, h, q.longer, q.depth)) r, q.promised h r);
  }

  -- A write to one session: what holds of it, and of every session with itself, holds of each.
  pub modify-pointwise :
      (R : Session → Session → Type 0) (r : ℕ) (f : Session → Session) (s : Server)
      → ((x : Session) → R x x)
      → R (s.heap r) (f (s.heap r))
      → (q : ℕ) → R (s.heap q) ((modify r f s).heap q)
  unfolding modify
  modify-pointwise R r f s same here q = elim (Bool-cases (q == r)) [
    | inl hit ↦
        rw (hit, modify) (subst (λ p. R (s.heap p) (f (s.heap r))) (sym ((==_iff q r).0 hit)) here)
    | inr miss ↦ rw (miss, modify) (same (s.heap q))
  ]

  -- A write that leaves the identity and the once alone.
  pub modify-Quiet :
      (r : ℕ) (f : Session → Session) (s : Server)
      → ((x : Session) → SameIdentity x (f x))
      → ((x : Session) → (f x).disconnect_once ≡ x.disconnect_once)
      → (Keeps (s.heap r).send_tcp (f (s.heap r)).send_tcp)
      → Quiet s (modify r f s)
  unfolding modify
  modify-Quiet r f s same once channel =
      let keeps : (q : ℕ) → ((modify r f s).heap q).disconnect_once ≡ (s.heap q).disconnect_once =
        modify-pointwise (λ x y. y.disconnect_once ≡ x.disconnect_once) r f s (λ x. refl)
          (once (s.heap r)) in
      record {
        sessions = refl;
        udp_sessions = refl;
        same = modify-pointwise SameIdentity r f s (λ x. refl) (same (s.heap r));
        once = λ q. omega (arith, ap to_ℕ (keeps q));
        debt = λ q. omega (arith, ap to_ℕ (keeps q));
        parted = λ q. refl;
        cfg = refl;
        fits = λ h. h;
        channels = modify-pointwise (λ x y. Keeps x.send_tcp y.send_tcp) r f s (λ x d h. h) channel;
        depth = refl;
        longer = omega arith;
        promised = λ h q. omega (arith, ap to_ℕ (keeps q));
      }

  -- A change of what the relation does not look at.
  pub Quiet-aside :
      (s t : Server)
      → t.sessions ≡ s.sessions
      → t.udp_sessions ≡ s.udp_sessions
      → t.heap ≡ s.heap
      → t.events ≡ s.events
      → t.trace ≡ s.trace
      → t.cfg ≡ s.cfg
      → Quiet s t
  Quiet-aside s t sessions udp_sessions heap events trace cfg = record {
    sessions = sessions;
    udp_sessions = udp_sessions;
    same = λ r. ap (λ h. identity (h r)) heap;
    once = λ r. omega (arith, ap (λ h. to_ℕ (h r).disconnect_once) heap);
    debt = λ r. omega (
      arith,
      ap (λ h. to_ℕ (h r).disconnect_once) heap,
      ap (λ (q : Queue). owed r q.buffer) events,
    );
    parted = λ r. ap (goodbyes r) trace;
    cfg = cfg;
    fits = λ h.
        omega (
          arith,
          h,
          ap (λ (q : Queue). length q.buffer) events,
          ap (λ (q : Queue). q.depth) events,
        );
    channels = λ r.
        subst (λ (h : ℕ → Session). Keeps (s.heap r).send_tcp (h r).send_tcp) (sym heap) (λ d h. h);
    depth = ap (λ (q : Queue). q.depth) events;
    longer = omega (arith, ap (λ (q : Queue). length q.buffer) events);
    promised = λ h r. omega (
      arith,
      ap (λ h. to_ℕ (h r).disconnect_once) heap,
      ap (λ (q : Queue). owed r q.buffer) events,
    );
  }

  pub emit-Quiet : (e : Effect) (s : Server) → ((r : ℕ) → goodbye e r ≡ 0) → Quiet s (emit e s)
  unfolding goodbyes
  emit-Quiet e s silent = record {
    sessions = refl;
    udp_sessions = refl;
    same = λ r. refl;
    once = λ r. omega arith;
    debt = λ r. omega arith;
    parted = λ r. omega (arith, silent r);
    cfg = refl;
    fits = λ h. h;
    channels = λ r d h. h;
    depth = refl;
    longer = omega arith;
    promised = λ h r. omega arith;
  }

  pub if-Quiet : (b : Bool) {s t u : Server} → Quiet s t → Quiet s u → Quiet s (if b then t else u)
  if-Quiet true p q = p
  if-Quiet false p q = q

-- ===== src/Server/Writer/Line.antt =====
-- tcp.go and server.go: runTCPWriter beside the goroutine that calls pushTCP for the same session.
use godotnet.Base.{
  arith, ltb, if◌then◌else◌, length, ℕ, ◌≡◌, refl, sym, ap, ◌∙◌, Bool, true, false, Option, none,
  some, List, [], ◌∷◌, ◌++◌, Bytes,
}
use mathlib.Core.List.{append-nil}
use godotnet.Errors.{Error}
use godotnet.Frame.{write_frame}
use godotnet.Session.{Session, Channel, try_send}
use godotnet.Env.{Env}
use godotnet.Server.{Server}
use godotnet.Server.Outbound.{push_tcp, push_channel}
use godotnet.Server.Intake.{first_queued, without_first, writer_take}
use godotnet.Server.Delivery.{push_tcp_lem}
use godotnet.Server.Invariant.{heap-modify_self}
use godotnet.Server.Writer.{Selected, ctx_done, received, after_write, writer_round, run_tcp_writer}

-- A call of pushTCP, or the `select` of the writer's next round: `receives` if it takes the
-- channel's oldest payload, which blocks if there is none, and `stops` if the context is done or
-- the channel closed.
pub data Turn : Type 0 where
  pushes : Bytes → Turn
  receives stops : Turn

abbrev pub payloads : List Selected → List Bytes
payloads [] = []
payloads (ctx_done ∷ xs) = payloads xs
payloads (received none ∷ xs) = payloads xs
payloads (received (some p) ∷ xs) = p ∷ payloads xs

abbrev pub queue_of : Option Channel → List Bytes
queue_of none = []
queue_of (some c) = c.queued

-- The payload, if the channel has room for it.
abbrev pub admitted : Option Channel → Bytes → List Bytes
admitted none p = []
admitted (some c) p = elim (try_send c p) [ none ↦ [] | some c' ↦ p ∷ [] ]

module _ ⦃env : Env⦄ where
  -- The server, the payloads that pushTCP has queued, the connection, and whether the writer runs.
  pub record Line (W : Type 0) : Type 0 where
    pub server : Server
    pub sent : List Bytes
    pub conn : W
    pub running : Bool

module _ ⦃env : Env⦄ {W : Type 0} (write : W → Bytes → W × Option Error) (r : ℕ) where
  unfoldable pub took : Option Bytes × Server → Line W → Line W
  took (none, s) l = l
  took (some p, s) l =
      let (w, goes_on) = writer_round write (received (some p)) l.conn in
      record l { server = s; conn = w; running = goes_on }

  abbrev pub if_running : Bool → Line W → Line W → Line W
  if_running true on off = on
  if_running false on off = off

  unfoldable pub turn : Turn → Line W → Line W
  unfolding took writer_take push_tcp writer_round
  turn (pushes p) l = record l {
    server = push_tcp (some r) p l.server;
    sent = l.sent ++ admitted (l.server.heap r).send_tcp p;
  }
  turn receives l = if_running l.running (took (writer_take r l.server) l) l
  turn stops l = record l { running = false }

  unfoldable pub turns : List Turn → Line W → Line W
  unfolding turn
  turns [] l = l
  turns (t ∷ ts) l = turns ts (turn t l)

  abbrev pub write_all : List Bytes → W → W
  write_all [] w = w
  write_all (p ∷ ps) w = write_all ps (write_frame write w p).0

  pub write_all-append :
      (ps : List Bytes) (p : Bytes) (w : W)
      → write_all (ps ++ p ∷ []) w ≡ (write_frame write (write_all ps w) p).0
  write_all-append [] p w = refl
  write_all-append (q ∷ ps) p w = write_all-append ps p (write_frame write w q).0

  pub round-conn :
      (p : Bytes) (w : W) → (writer_round write (received (some p)) w).0 ≡ (write_frame write w p).0
  unfolding writer_round
  round-conn p w = after (write_frame write w p)
    where
      after : (x : W × Option Error) → (after_write write x).0 ≡ x.0
      after (w', none) = refl
      after (w', some err) = refl

  pub run-append :
      (xs : List Selected) (x : Selected) (w0 w : W)
      → run_tcp_writer write xs w0 ≡ (w, true)
      → run_tcp_writer write (xs ++ x ∷ []) w0 ≡ writer_round write x w
  unfolding run_tcp_writer
  run-append [] x w0 w e =
      ap (λ (p : W × Bool). (run_tcp_writer write (x ∷ []) p.0)) e ∙ last (writer_round write x w)
    where
      last : (p : W × Bool) → (elim p.1 as (λ b. W × Bool) [ true ↦ (p.0, true) | false ↦ p ]) ≡ p
      last (w', true) = refl
      last (w', false) = refl
  run-append (y ∷ xs) x w0 w e = first (run-append xs x) (writer_round write y w0) e
    where
      first :
          ((v u : W)
            → run_tcp_writer write xs v ≡ (u, true)
            → run_tcp_writer write (xs ++ x ∷ []) v ≡ writer_round write x u)
          → (p : W × Bool)
          → (elim p.1 as (λ b. W × Bool) [ true ↦ run_tcp_writer write xs p.0 | false ↦ p ])
            ≡ (w, true)
          → (elim p.1 as (λ b. W × Bool) [
            | true ↦ run_tcp_writer write (xs ++ x ∷ []) p.0
            | false ↦ p
          ])
            ≡ writer_round write x w
      first rec (v, true) e = rec v w e
      first rec (v, false) e = ground arith

pub payloads-append : (xs ys : List Selected) → payloads (xs ++ ys) ≡ payloads xs ++ payloads ys
payloads-append [] ys = refl
payloads-append (ctx_done ∷ xs) ys = payloads-append xs ys
payloads-append (received none ∷ xs) ys = payloads-append xs ys
payloads-append (received (some p) ∷ xs) ys = ap (◌∷◌ p) (payloads-append xs ys)

admitted-queue :
    (c : Channel) (p : Bytes)
    → (if ltb (length c.queued) c.capacity
        then record c { queued = c.queued ++ p ∷ [] }
        else c).queued
      ≡ c.queued ++ admitted (some c) p
unfolding try_send
admitted-queue c p = room (ltb (length c.queued) c.capacity)
  where
    room :
        (b : Bool)
        → (if b then record c { queued = c.queued ++ p ∷ [] } else c).queued
          ≡ c.queued
            ++ (elim (if b then some (record c { queued = c.queued ++ p ∷ [] }) else none)
                as (λ x. List Bytes) [ none ↦ [] | some c' ↦ p ∷ [] ])
    room true = refl
    room false = sym (append-nil c.queued)

module _ ⦃env : Env⦄ where
  taken-first :
      (c : Option Channel) (p : Bytes)
      → first_queued c ≡ some p
      → queue_of c ≡ p ∷ queue_of (without_first c)
  unfolding first_queued without_first
  taken-first none p e = ground arith
  taken-first (some c) p e = head c.queued e
    where
      head :
          (q : List Bytes)
          → (elim q as (λ x. Option Bytes) [ [] ↦ none | x ∷ rest ↦ some x ]) ≡ some p
          → q ≡ p ∷ (elim q as (λ x. List Bytes) [ [] ↦ [] | x ∷ rest ↦ rest ])
      head [] e = ground arith
      head (x ∷ rest) e = cc

  pub push-queue :
      (r : ℕ) (p : Bytes) (s : Server)
      → queue_of ((push_tcp (some r) p s).heap r).send_tcp
        ≡ queue_of (s.heap r).send_tcp ++ admitted (s.heap r).send_tcp p
  unfolding push_tcp push_channel
  push-queue r p s = sent (s.heap r).send_tcp refl
    where
      sent :
          (c : Option Channel)
          → (s.heap r).send_tcp ≡ c
          → queue_of ((push_tcp (some r) p s).heap r).send_tcp ≡ queue_of c ++ admitted c p
      sent none e = rw (e, push_channel) (ap queue_of e)
      sent (some c) e = ap queue_of (push_tcp_lem r p s c e).0 ∙ admitted-queue c p

  pub take-queue :
      (r : ℕ) (p : Bytes) (s : Server)
      → (writer_take r s).0 ≡ some p
      → queue_of (s.heap r).send_tcp ≡ p ∷ queue_of ((writer_take r s).1.heap r).send_tcp
  unfolding writer_take
  take-queue r p s e =
      taken-first (s.heap r).send_tcp p e
      ∙ ap (λ (x : Session). p ∷ queue_of x.send_tcp)
          (sym (heap-modify_self r (λ x. record x { send_tcp = without_first x.send_tcp }) s))

-- ===== src/Server/AnyOrder.antt =====
-- Go's loops over the map of sessions, whose order is random: tickctx.go's BroadcastUDP and
-- BroadcastTCP, and ping.go's runPingTick.
use mathlib.Core.List.{Permᴰ}
use mathlib.Core.List.Permᴰ
use godotnet.Base.Permuted.{onto, from, add, add-Permᴰ, add-swap}
use godotnet.Base.{
  ℕ, ◌≡◌, refl, sym, ap, ◌∙◌, String, Bool, true, false, ◌||◌, ◌&&◌, Option, none, some, List, [],
  ◌∷◌, Bytes, ◌==◌, if◌then◌else◌,
}
use godotnet.Base.Map.{Map}
use godotnet.Env.{Env}
use godotnet.Base.Int.{pos, ltb_ℤ, ◌-ℤ◌, or_default}
use godotnet.Base.{length}
use godotnet.Server.{Server, Effect, udp_written}
use godotnet.Server.Outbound.{udp_send_raw}
use godotnet.Server.TickCtx.{
  TickCtx, is_paired, udp_all, tcp_all, ctx_broadcast_udp, ctx_broadcast_tcp,
  marshal_game_server_frame,
}
use godotnet.Server.Mail.{mail, all_delivered-Permᴰ, tcp_all-mail}
use godotnet.Server.Ping.{default_ping_timeout, run_ping_tick}
use godotnet.Server.Vital.{vital}
use godotnet.Server.Keepalive.{is_listed, is_silent, run_ping_tick_lem}

or-swap : (a b c : Bool) → (a || (b || c)) ≡ (b || (a || c))
or-swap true true c = refl
or-swap true false c = refl
or-swap false b c = refl

is_listed-Permᴰ : {m n : Map ℕ ℕ} (q : ℕ) → Permᴰ m n → is_listed m q ≡ is_listed n q
is_listed-Permᴰ q Permᴰ.nil = refl
is_listed-Permᴰ q (Permᴰ.cons {a = (i, r)} {b = (j, r')} {l₁ = m} {l₂ = n} e p) =
    ap (λ (x : ℕ × ℕ). x.1 == q || is_listed m q) e ∙ ap (λ b. r' == q || b) (is_listed-Permᴰ q p)
is_listed-Permᴰ q (Permᴰ.swap {a = a} {b = b} {a' = a'} {b' = b'} {l = m} e f) =
    or-swap (a.1 == q) (b.1 == q) (is_listed m q)
    ∙ ap (λ (x : ℕ × ℕ). x.1 == q || (a.1 == q || is_listed m q)) f
    ∙ ap (λ (x : ℕ × ℕ). a'.1 == q || (x.1 == q || is_listed m q)) e
is_listed-Permᴰ q (Permᴰ.trans p p') = is_listed-Permᴰ q p ∙ is_listed-Permᴰ q p'

module _ ⦃env : Env⦄ where
  open env use {Msg}

  -- The write that a broadcast makes for one entry, if it makes one.
  written : Server → Bytes → Option String → Option Effect
  written s bytes none = none
  written s bytes (some addr) =
      if s.udp_conn
      then if ltb_ℤ s.cfg.max_udp_payload (pos (length bytes))
        then none
        else some (udp_written addr bytes)
      else none

  datagram : Server → Bytes → ℕ × ℕ → Option Effect
  datagram s bytes entry =
      if is_paired s entry.1 then written s bytes (s.heap entry.1).udp_addr else none

  -- All of them, before the effects there are.
  datagrams : Map ℕ ℕ → Bytes → Server → List Effect → List Effect
  datagrams [] bytes s trace = trace
  datagrams (entry ∷ rest) bytes s trace =
      datagrams rest bytes s (add (datagram s bytes entry) trace)

  send-written :
      (addr : Option String) (bytes : Bytes) (s : Server) (trace : List Effect)
      → udp_send_raw addr bytes (record s { trace = trace })
        ≡ record s { trace = add (written s bytes addr) trace }
  unfolding udp_send_raw written
  send-written none bytes s trace = refl
  send-written (some addr) bytes s trace =
      open_ s.udp_conn (ltb_ℤ s.cfg.max_udp_payload (pos (length bytes)))
    where
      open_ :
          (conn large : Bool)
          → (if conn
              then if large
                then record s { trace = trace }
                else record s { trace = udp_written addr bytes ∷ trace }
              else record s { trace = trace })
            ≡ record s {
              trace =
                  add
                    (if conn then if large then none else some (udp_written addr bytes) else none)
                    trace;
            }
      open_ false large = refl
      open_ true true = refl
      open_ true false = refl

  send-datagram :
      (entry : ℕ × ℕ) (bytes : Bytes) (s : Server) (trace : List Effect)
      → (if is_paired s entry.1
          then udp_send_raw (s.heap entry.1).udp_addr bytes (record s { trace = trace })
          else record s { trace = trace })
        ≡ record s { trace = add (datagram s bytes entry) trace }
  unfolding datagram
  send-datagram entry bytes s trace = by_state (is_paired s entry.1)
    where
      by_state :
          (b : Bool)
          → (if b
              then udp_send_raw (s.heap entry.1).udp_addr bytes (record s { trace = trace })
              else record s { trace = trace })
            ≡ record s {
              trace = add (if b then written s bytes (s.heap entry.1).udp_addr else none) trace;
            }
      by_state true = send-written (s.heap entry.1).udp_addr bytes s trace
      by_state false = refl

  all-datagrams :
      (m : Map ℕ ℕ) (bytes : Bytes) (s : Server) (trace : List Effect)
      → udp_all m bytes (record s { trace = trace })
        ≡ record s { trace = datagrams m bytes s trace }
  unfolding udp_all datagrams
  all-datagrams [] bytes s trace = refl
  all-datagrams ((id, r) ∷ rest) bytes s trace =
      ap (udp_all rest bytes) (send-datagram (id, r) bytes s trace)
      ∙ all-datagrams rest bytes s (add (datagram s bytes (id, r)) trace)

  datagrams-same :
      (m : Map ℕ ℕ) {xs ys : List Effect} (bytes : Bytes) (s : Server)
      → Permᴰ xs ys
      → Permᴰ (datagrams m bytes s xs) (datagrams m bytes s ys)
  unfolding datagrams
  datagrams-same [] bytes s p = p
  datagrams-same (entry ∷ rest) bytes s p =
      datagrams-same rest bytes s (add-Permᴰ (datagram s bytes entry) p)

  datagrams-Permᴰ :
      {m n : Map ℕ ℕ} {xs ys : List Effect} (bytes : Bytes) (s : Server)
      → Permᴰ m n
      → Permᴰ xs ys
      → Permᴰ (datagrams m bytes s xs) (datagrams n bytes s ys)
  unfolding datagrams
  datagrams-Permᴰ bytes s Permᴰ.nil p = p
  datagrams-Permᴰ {ys = ys} bytes s (Permᴰ.cons {a = a} {b = b} {l₂ = n} e q) p =
      onto (datagrams-Permᴰ bytes s q (add-Permᴰ (datagram s bytes a) p))
        (ap (λ x. datagrams n bytes s (add (datagram s bytes x) ys)) e)
  datagrams-Permᴰ {xs = xs} {ys = ys} bytes s
        (Permᴰ.swap {a = a} {b = b} {a' = a'} {b' = b'} {l = l} e f) p =
      let d : ℕ × ℕ → Option Effect = datagram s bytes in
      let swapped : Permᴰ (add (d b) (add (d a) xs)) (add (d a) (add (d b) ys)) =
        Permᴰ.trans (add-swap (d b) (d a) xs) (add-Permᴰ (d a) (add-Permᴰ (d b) p)) in
      onto (datagrams-same l bytes s swapped) (
        ap (λ x. datagrams l bytes s (add (d a) (add (d x) ys))) f
        ∙ ap (λ x. datagrams l bytes s (add (d x) (add (d a') ys))) e)
  datagrams-Permᴰ {xs = xs} bytes s (Permᴰ.trans q q') p =
      Permᴰ.trans (datagrams-Permᴰ bytes s q (Permᴰ.refl xs)) (datagrams-Permᴰ bytes s q' p)

  datagrams-sessions :
      (n m : Map ℕ ℕ) (bytes : Bytes) (s : Server) (trace : List Effect)
      → datagrams n bytes (record s { sessions = m }) trace ≡ datagrams n bytes s trace
  unfolding datagrams datagram written
  datagrams-sessions [] m bytes s trace = refl
  datagrams-sessions (entry ∷ rest) m bytes s trace =
      datagrams-sessions rest m bytes s (add (datagram s bytes entry) trace)

  -- Go visits a map in any order, and this much does not depend on it, in any state of the server.
  -- If the entries stand in another order, then the keepalive fires the disconnects of the same
  -- sessions and leaves each session's state, address and time as it would have; a broadcast over
  -- TCP leaves each session's outbound queue as it would have and fires the disconnects of the same
  -- sessions; and a broadcast over UDP writes the same datagrams in some order and changes nothing
  -- else. (In which order the disconnects are queued, and whose find room when the event queue
  -- fills up, may depend on the order.)
  pub any_order :
      (tc : TickCtx) (msg : Msg) (m : Map ℕ ℕ) (s : Server)
      → Permᴰ s.sessions m
      → let t : Server = record s { sessions = m } in
        ((q : ℕ)
          → (vital ((run_ping_tick tc t).heap q) ≡ vital ((run_ping_tick tc s).heap q))
            × (((run_ping_tick tc t).heap q).disconnect_once
                ≡ ((run_ping_tick tc s).heap q).disconnect_once))
        × ((q : ℕ)
            → mail ((ctx_broadcast_tcp msg t).heap q) ≡ mail ((ctx_broadcast_tcp msg s).heap q))
        × Permᴰ (ctx_broadcast_udp msg s).trace (ctx_broadcast_udp msg t).trace
        × (ctx_broadcast_udp msg t ≡ record (ctx_broadcast_udp msg s) {
          sessions = m;
          trace = (ctx_broadcast_udp msg t).trace;
        })
  unfolding ctx_broadcast_udp ctx_broadcast_tcp marshal_game_server_frame
  any_order tc msg m s p = (
    λ q. pings q,
    λ q. mails (marshal_game_server_frame msg) q,
    (broadcasts (marshal_game_server_frame msg)).0,
    (broadcasts (marshal_game_server_frame msg)).1,
  )
    where
      t : Server
      t = record s { sessions = m }

      pings :
          (q : ℕ)
          → (vital ((run_ping_tick tc t).heap q) ≡ vital ((run_ping_tick tc s).heap q))
            × (((run_ping_tick tc t).heap q).disconnect_once
                ≡ ((run_ping_tick tc s).heap q).disconnect_once)
      pings q =
          let (same, fired) = run_ping_tick_lem tc s q in
          let (same', fired') = run_ping_tick_lem tc t q in
          let silent =
            is_silent (tc.now -ℤ or_default s.cfg.ping_timeout default_ping_timeout)
              (vital (s.heap q)) in
          (
            same' ∙ sym same,
            fired'
                ∙ ap (λ b. (s.heap q).disconnect_once || (b && silent)) (sym (is_listed-Permᴰ q p))
                ∙ sym fired,
          )

      mails :
          (o : Option Bytes) (q : ℕ)
          → mail (
              (elim o as (λ x. Server) [
                | none ↦ record s { sessions = m }
                | some bytes ↦ tcp_all m bytes (record s { sessions = m })
              ]).heap
                q)
            ≡ mail (
                (elim o as (λ x. Server) [
                  | none ↦ s
                  | some bytes ↦ tcp_all s.sessions bytes s
                ]).heap
                  q)
      mails none q = refl
      mails (some bytes) q =
          tcp_all-mail m bytes q (record s { sessions = m })
          ∙ sym (all_delivered-Permᴰ bytes q (mail (s.heap q)) p)
          ∙ sym (tcp_all-mail s.sessions bytes q s)

      sent : Option Bytes → Server → Server
      sent o u = elim o [ none ↦ u | some bytes ↦ udp_all u.sessions bytes u ]

      broadcasts :
          (o : Option Bytes)
          → Permᴰ (sent o s).trace (sent o t).trace
            × (sent o t ≡ record (sent o s) { sessions = m; trace = (sent o t).trace })
      broadcasts none = (Permᴰ.refl s.trace, refl)
      broadcasts (some bytes) =
          let before = all-datagrams s.sessions bytes s s.trace in
          let after = all-datagrams m bytes t s.trace in
          let trace : Server → List Effect = λ u. u.trace in
          let perm = datagrams-Permᴰ bytes s p (Permᴰ.refl s.trace) in
          let kept : Server → Server =
            λ u. record u { sessions = m; trace = trace (udp_all m bytes t) } in
          (
            onto (from (sym (ap trace before)) perm)
                (sym (ap trace after ∙ datagrams-sessions m m bytes s s.trace)),
            after ∙ ap (λ x. record t { trace = x }) (sym (ap trace after)) ∙ sym (ap kept before),
          )

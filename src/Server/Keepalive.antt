-- ===== src/Server/Keepalive.antt =====
-- Whom a tick's keepalive (runPingTick of ping.go) disconnects.
use godotnet.Base.{
  ℕ, ◌≡◌, refl, sym, ap, ◌∙◌, inl, inr, String, Bool, true, false, not, ◌||◌, ◌&&◌, Option, none,
  some, [], ◌∷◌, ◌==◌, ==_iff, if◌then◌else◌, Bool-cases, arith,
}
use godotnet.Base.Map.{Map}
use godotnet.Base.Int.{ℤ, ltb_ℤ, ◌-ℤ◌, or_default}
use godotnet.Errors.{sentinel, ping_timeout}
use godotnet.Env.{Env}
use godotnet.Server.{Server}
use godotnet.Server.Outbound.{schedule_disconnect}
use godotnet.Server.TickCtx.{TickCtx, is_ready, has_addr}
use godotnet.Server.Ping.{
  default_ping_interval, default_ping_timeout, time_sub, send_ping, ping_session, ping_all,
  run_ping_tick,
}
use godotnet.Server.Delivery.{schedule-pointwise, schedule-other, schedule-fired}
use godotnet.Server.Vital.{Vital, vital, Same, send_ping-Same}

-- Whether the loop over the entries meets the session.
abbrev pub is_listed : Map ℕ ℕ → ℕ → Bool
is_listed [] q = false
is_listed ((id, r) ∷ rest) q = r == q || is_listed rest q

module _ ⦃env : Env⦄ where
  -- A ready session with an address that was last seen before the limit.
  abbrev pub is_silent : ℤ → Vital → Bool
  is_silent limit v = is_ready v.0 && (has_addr v.1 && ltb_ℤ v.2 limit)

  -- All stays that the keepalive looks at, and the disconnects of the sessions that are hit fire.
  abbrev pub Fires : (ℕ → Bool) → Server → Server → Type 0
  Fires hit s t =
      (q : ℕ)
      → (vital (t.heap q) ≡ vital (s.heap q))
        × ((t.heap q).disconnect_once ≡ ((s.heap q).disconnect_once || hit q))

  unhit : (o b z : Bool) → (b ≡ true → z ≡ false) → o ≡ (o || (b && z))
  unhit true b z h = refl
  unhit false false z h = refl
  unhit false true z h = sym (h refl)

  -- A session that is not silent stays as it was.
  calm-Fires :
      (limit : ℤ) (r : ℕ) (s t : Server)
      → is_silent limit (vital (s.heap r)) ≡ false
      → ((q : ℕ) → Same (s.heap q) (t.heap q))
      → Fires (λ q. r == q && is_silent limit (vital (s.heap q))) s t
  calm-Fires limit r s t calm same q = (
    (same q).0,
    (same q).1
        ∙ unhit (s.heap q).disconnect_once (r == q) (is_silent limit (vital (s.heap q)))
            (λ hit. ap (λ p. is_silent limit (vital (s.heap p))) (sym ((==_iff r q).0 hit)) ∙ calm),
  )

  silent-Fires :
      (limit : ℤ) (r : ℕ) (s : Server)
      → is_silent limit (vital (s.heap r)) ≡ true
      → Fires
          (λ q. r == q && is_silent limit (vital (s.heap q)))
          s
          (schedule_disconnect (some r) (sentinel ping_timeout) s)
  silent-Fires limit r s silent q = (
    schedule-pointwise (λ x y. vital y ≡ vital x) r (sentinel ping_timeout) s (λ x. refl)
        (λ x. refl) q,
    elim (Bool-cases (r == q)) [
      | inl hit ↦
          let same : r ≡ q = (==_iff r q).0 hit in
          ap (λ p. (after.heap p).disconnect_once) (sym same)
          ∙ schedule-fired r (sentinel ping_timeout) s
          ∙ hit_or (s.heap q).disconnect_once (r == q) (is_silent limit (vital (s.heap q))) hit
              (ap (λ p. is_silent limit (vital (s.heap p))) (sym same) ∙ silent)
      | inr miss ↦
          ap (λ x. x.disconnect_once)
            (schedule-other r q (sentinel ping_timeout) s
              (λ e. let hit : (r == q) ≡ true = (==_iff r q).1 (sym e) in cc))
          ∙ unhit (s.heap q).disconnect_once (r == q) (is_silent limit (vital (s.heap q)))
              (λ hit. cc)
    ],
  )
    where
      after : Server
      after = schedule_disconnect (some r) (sentinel ping_timeout) s

      hit_or : (o b z : Bool) → b ≡ true → z ≡ true → true ≡ (o || (b && z))
      hit_or o b z p q = ground arith

  ping_session-Fires :
      (send_pings : Bool) (limit : ℤ) (r : ℕ) (s : Server)
      → Fires
          (λ q. r == q && is_silent limit (vital (s.heap q)))
          s
          (ping_session send_pings limit r (s.heap r).udp_addr s)
  unfolding ping_session
  ping_session-Fires send_pings limit r s = address (s.heap r).udp_addr refl
    where
      pinged : (b : Bool) (q : ℕ) → Same (s.heap q) ((if b then send_ping r s else s).heap q)
      pinged true q = send_ping-Same r s q
      pinged false q = (refl, refl)

      session :
          (ready late : Bool)
          → is_silent limit (vital (s.heap r)) ≡ (ready && late)
          → Fires
              (λ q. r == q && is_silent limit (vital (s.heap q)))
              s
              (if not ready
                then s
                else if late
                then schedule_disconnect (some r) (sentinel ping_timeout) s
                else if send_pings
                then send_ping r s
                else s)
      session false late e = calm-Fires limit r s s e (λ q. (refl, refl))
      session true true e = silent-Fires limit r s e
      session true false e =
          calm-Fires limit r s (if send_pings then send_ping r s else s) e (pinged send_pings)

      and-false : (b : Bool) → (b && false) ≡ false
      and-false true = refl
      and-false false = refl

      address :
          (a : Option String)
          → (s.heap r).udp_addr ≡ a
          → Fires
              (λ q. r == q && is_silent limit (vital (s.heap q)))
              s
              (ping_session send_pings limit r a s)
      address none e =
          calm-Fires limit r s s
            (ap (λ a. is_silent limit ((s.heap r).auth_state, a, (s.heap r).last_seen_unix_nano)) e
              ∙ and-false (is_ready (s.heap r).auth_state))
            (λ q. (refl, refl))
      address (some addr) e =
          session (is_ready (s.heap r).auth_state) (ltb_ℤ (s.heap r).last_seen_unix_nano limit)
            (ap (λ a. is_silent limit ((s.heap r).auth_state, a, (s.heap r).last_seen_unix_nano)) e)

  or-and : (o a b z : Bool) → ((o || (a && z)) || (b && z)) ≡ (o || ((a || b) && z))
  or-and true a b z = refl
  or-and false true b true = refl
  or-and false true true false = refl
  or-and false true false false = refl
  or-and false false b z = refl

  ping_all-Fires :
      (send_pings : Bool) (limit : ℤ) (l : Map ℕ ℕ) (s : Server)
      → Fires
          (λ q. is_listed l q && is_silent limit (vital (s.heap q)))
          s
          (ping_all send_pings limit l s)
  unfolding ping_all
  ping_all-Fires send_pings limit [] s q = (refl, ground arith)
  ping_all-Fires send_pings limit ((id, r) ∷ rest) s q =
      let s1 : Server = ping_session send_pings limit r (s.heap r).udp_addr s in
      let (first, fired) = ping_session-Fires send_pings limit r s q in
      let (second, then_fired) = ping_all-Fires send_pings limit rest s1 q in
      (
        second ∙ first,
        then_fired
            ∙ ap (λ v. (s1.heap q).disconnect_once || (is_listed rest q && is_silent limit v)) first
            ∙ ap (λ b. b || (is_listed rest q && is_silent limit (vital (s.heap q)))) fired
            ∙ or-and (s.heap q).disconnect_once (r == q) (is_listed rest q)
                (is_silent limit (vital (s.heap q))),
      )

  -- A tick's keepalive fires the disconnects of exactly the listed sessions that are ready, have an
  -- address and were last seen longer ago than the timeout; of no other session it fires one, and
  -- of none it changes the state, the address or the time when it was last seen.
  pub run_ping_tick_lem :
      (tc : TickCtx) (s : Server)
      → let limit = tc.now -ℤ or_default s.cfg.ping_timeout default_ping_timeout in
        Fires
          (λ q. is_listed s.sessions q && is_silent limit (vital (s.heap q)))
          s
          (run_ping_tick tc s)
  unfolding run_ping_tick
  run_ping_tick_lem tc s = batch (not (ltb_ℤ (time_sub tc.now s.last_ping_batch_at) interval))
    where
      interval : ℤ
      interval = or_default s.cfg.ping_interval default_ping_interval

      limit : ℤ
      limit = tc.now -ℤ or_default s.cfg.ping_timeout default_ping_timeout

      batch :
          (b : Bool)
          → Fires
              (λ q. is_listed s.sessions q && is_silent limit (vital (s.heap q)))
              s
              (ping_all b limit
                (if b then record s { last_ping_batch_at = tc.now } else s).sessions
                (if b then record s { last_ping_batch_at = tc.now } else s))
      batch true = ping_all-Fires true limit s.sessions (record s { last_ping_batch_at = tc.now })
      batch false = ping_all-Fires false limit s.sessions s

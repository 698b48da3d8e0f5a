-- ===== src/Server/Quiet/Sends.antt =====
-- The ways to send (server.go, udp.go), as quiet changes.
use godotnet.Base.{
  ltb, length-append, ◌<◌, ℕ, ◌+◌, ◌≤◌, ◌≡◌, refl, inl, inr, String, Bool, true, false, Option,
  none, some, [], ◌∷◌, Bytes, length, ◌==◌, ==_iff, if◌then◌else◌, Bool-cases, arith,
}
use godotnet.Base.Int.{pos, ltb_ℤ}
use godotnet.Errors.{Error}
use godotnet.Events.{Queue, push}
use godotnet.Session.{Session, Channel, try_send, do_once}
use godotnet.Env.{Env}
use godotnet.Server.{Server, udp_written, tcp_closed, modify, emit}
use godotnet.Server.Outbound.{
  disconnect_event, disconnect_body, pushed, push_channel, schedule_disconnect, push_tcp,
  udp_send_raw,
}
use godotnet.Server.Quiet.{
  to_ℕ, owed, owed-append, Swells, push-Swells, Keeps, SameIdentity, fired, Quiet, Quiet-refl,
  Quiet-trans, modify-pointwise, modify-Quiet, emit-Quiet, if-Quiet,
}

module _ ⦃env : Env⦄ where
  abbrev pub mark : Session → Session
  mark x = record x { disconnect_once = true }

  abbrev pub fire : ℕ → Server → Server
  fire r = modify r mark

  fired-fire :
      (r : ℕ) (s : Server)
      → (s.heap r).disconnect_once ≡ false
      → (q : ℕ) → fired (fire r s) q ≡ fired s q + to_ℕ (r == q)
  unfolding modify
  fired-fire r s h q = elim (Bool-cases (q == r)) [
    | inl hit ↦
        (let off : (s.heap q).disconnect_once ≡ false = rw ((==_iff q r).0 hit) h in
          rw (hit, modify) (ground arith))
    | inr miss ↦ rw (miss, modify) (ground arith)
  ]

  -- What becomes of the queue when a session fires: it may have got a disconnect of it, and has if
  -- there is room left.
  pub record Notes (r : ℕ) (p q : Queue) : Type 0 where
    pub swells : Swells p q
    pub at_most : (k : ℕ) → owed k q.buffer ≤ owed k p.buffer + to_ℕ (r == k)
    pub at_least :
        length q.buffer < q.depth → (k : ℕ) → owed k p.buffer + to_ℕ (r == k) ≤ owed k q.buffer

  pub push-Notes :
      (q : Queue) (r : ℕ) (reason : Error) → Notes r q (push q (disconnect_event r reason)).0
  unfolding push owed
  push-Notes q r reason = record {
    swells = push-Swells q (disconnect_event r reason);
    at_most = λ k. ground (arith, owed-append k q.buffer (disconnect_event r reason ∷ []));
    at_least = λ h k. ground (arith, owed-append k q.buffer (disconnect_event r reason ∷ []));
  }

  -- A full queue stays as it is.
  pub refused-Notes :
      (q : Queue) (r : ℕ) (reason : Error)
      → (push q (disconnect_event r reason)).1 ≡ false
      → Notes r q q
  unfolding push
  refused-Notes q r reason refused = record {
    swells = record { depth = refl; longer = omega arith; fits = λ h. h };
    at_most = λ k. omega arith;
    at_least = λ h k. ground arith;
  }

  -- The session has fired.
  pub fire-Quiet :
      (r : ℕ) (q : Queue) (s : Server)
      → (s.heap r).disconnect_once ≡ false
      → Notes r s.events q
      → Quiet s (record (fire r s) { events = q })
  unfolding modify
  fire-Quiet r q s off n = record {
    sessions = refl;
    udp_sessions = refl;
    same = modify-pointwise SameIdentity r mark s (λ x. refl) refl;
    once = λ p. omega (arith, fired-fire r s off p);
    debt = λ p. omega (arith, fired-fire r s off p, n.at_most p);
    parted = λ p. refl;
    cfg = refl;
    fits = n.swells.fits;
    channels =
        modify-pointwise (λ x y. Keeps x.send_tcp y.send_tcp) r mark s (λ x d h. h) (λ d h. h);
    depth = n.swells.depth;
    longer = n.swells.longer;
    promised = λ h p. omega (arith, fired-fire r s off p, n.at_least h p);
  }

  pub close-Quiet :
      (r : ℕ) (s : Server) → Quiet s (if (s.heap r).tcp then emit (tcp_closed r) s else s)
  close-Quiet r s = if-Quiet (s.heap r).tcp (emit-Quiet (tcp_closed r) s (λ q. refl)) (Quiet-refl s)

  body-Quiet :
      (r : ℕ) (s : Server) (p : Queue × Bool)
      → (s.heap r).disconnect_once ≡ false
      → Notes r s.events p.0
      → (p.1 ≡ false → Notes r s.events s.events)
      → Quiet s (disconnect_body r p (fire r s))
  unfolding disconnect_body modify
  body-Quiet r s (q, true) off noted kept = fire-Quiet r q s off noted
  body-Quiet r s (q, false) off noted kept =
      Quiet-trans (fire-Quiet r s.events s off (kept refl)) (close-Quiet r (fire r s))

  pub schedule-Quiet :
      (sess : Option ℕ) (reason : Error) (s : Server) → Quiet s (schedule_disconnect sess reason s)
  unfolding schedule_disconnect
  schedule-Quiet none reason s = Quiet-refl s
  schedule-Quiet (some r) reason s = elim (Bool-cases (s.heap r).disconnect_once) [
    | inl gone ↦ rw (gone, do_once) (Quiet-refl s)
    | inr off ↦
        rw (off, do_once)
          (body-Quiet r s (push s.events (disconnect_event r reason)) off
            (push-Notes s.events r reason) (refused-Notes s.events r reason))
  ]

  try_send-Keeps : (c : Channel) (payload : Bytes) → Keeps (some c) (try_send c payload)
  unfolding try_send
  try_send-Keeps c payload d (same, h) = elim (Bool-cases (ltb (length c.queued) c.capacity)) [
    | inl room ↦
        rw (room, try_send)
          (same, ground (arith, length-append c.queued (payload ∷ []), same, room))
    | inr full ↦ rw (full, try_send) tt
  ]

  pub push_tcp-Quiet :
      (sess : Option ℕ) (payload : Bytes) (s : Server) → Quiet s (push_tcp sess payload s)
  unfolding push_tcp
  push_tcp-Quiet none payload s = Quiet-refl s
  push_tcp-Quiet (some r) payload s = channel (s.heap r).send_tcp (λ d h. h)
    where
      sent : (c : Option Channel) → Keeps (s.heap r).send_tcp c → Quiet s (pushed c r s)
      sent none fits = schedule-Quiet (some r) _ s
      sent (some c) fits =
          modify-Quiet r (λ x. record x { send_tcp = some c }) s (λ x. refl) (λ x. refl) fits

      channel :
          (c : Option Channel) → Keeps (s.heap r).send_tcp c → Quiet s (push_channel c r payload s)
      channel none fits = Quiet-refl s
      channel (some c) fits =
          sent (try_send c payload) (λ d h. try_send-Keeps c payload d (fits d h))

  pub udp_send-Quiet :
      (addr : Option String) (payload : Bytes) (s : Server) → Quiet s (udp_send_raw addr payload s)
  unfolding udp_send_raw
  udp_send-Quiet none payload s = Quiet-refl s
  udp_send-Quiet (some addr) payload s =
      if-Quiet s.udp_conn
        (if-Quiet (ltb_ℤ s.cfg.max_udp_payload (pos (length payload))) (Quiet-refl s)
          (emit-Quiet (udp_written addr payload) s (λ r. refl)))
        (Quiet-refl s)

-- ===== src/Server/Quiet/Intake.antt =====
-- The readers and the writer (tcp.go, udp.go), as quiet changes.
use godotnet.Base.{
  Option, none, some, List, ◌≤◌, ℕ, ◌+◌, ◌≡◌, refl, Bool, true, false, [], ◌∷◌, Bytes, length, take,
  Bool-cases, inl, inr, String, arith,
}
use godotnet.Base.Int.{pos, pos_part, ltb_ℤ}
use godotnet.Errors.{Error, sentinel, outbound_queue_full}
use godotnet.Events.{Queue, push}
use godotnet.Session.{Channel, do_once}
use godotnet.Env.{Env}
use godotnet.Server.{Server}
use godotnet.Server.Outbound.{disconnect_event}
use godotnet.Server.Intake.{
  tcp_message, udp_message, reader_disconnect, frame_pushed, push_frame, udp_datagram, writer_take,
  without_first,
}
use godotnet.Server.Quiet.{
  Keeps, Swells, push-Swells, owed, owed-append, Quiet, Quiet-refl, if-Quiet, modify-Quiet,
}
use godotnet.Server.Quiet.Sends.{push-Notes, fire-Quiet}

module _ ⦃env : Env⦄ where
  pub reader_disconnect-Quiet :
      (r : ℕ) (reason : Error) (s : Server) → Quiet s (reader_disconnect r reason s)
  unfolding reader_disconnect
  reader_disconnect-Quiet r reason s = elim (Bool-cases (s.heap r).disconnect_once) [
    | inl gone ↦ rw (gone, do_once) (Quiet-refl s)
    | inr off ↦
        rw (off, do_once)
          (fire-Quiet r (push s.events (disconnect_event r reason)).0 s off
            (push-Notes s.events r reason))
  ]

  -- A message is no disconnect.
  message-Quiet :
      (q : Queue) (s : Server)
      → Swells s.events q
      → ((p : ℕ) → owed p q.buffer ≡ owed p s.events.buffer)
      → Quiet s (record s { events = q })
  message-Quiet q s swells same = record {
    sessions = refl;
    udp_sessions = refl;
    same = λ p. refl;
    once = λ p. omega arith;
    debt = λ p. omega (arith, same p);
    parted = λ p. refl;
    cfg = refl;
    fits = swells.fits;
    channels = λ r d h. h;
    depth = swells.depth;
    longer = swells.longer;
    promised = λ h p. omega (arith, same p);
  }

  owed-push_message :
      (q : Queue) (r : ℕ) (payload : Bytes) (p : ℕ)
      → owed p (push q (tcp_message r payload)).0.buffer ≡ owed p q.buffer
  unfolding push owed
  owed-push_message q r payload p =
      ground (arith, owed-append p q.buffer (tcp_message r payload ∷ []))

  owed-push_datagram :
      (q : Queue) (addr : String) (payload : Bytes) (p : ℕ)
      → owed p (push q (udp_message addr payload)).0.buffer ≡ owed p q.buffer
  unfolding push owed
  owed-push_datagram q addr payload p =
      ground (arith, owed-append p q.buffer (udp_message addr payload ∷ []))

  pub push_frame-Quiet : (r : ℕ) (payload : Bytes) (s : Server) → Quiet s (push_frame r payload s).0
  unfolding push_frame
  push_frame-Quiet r payload s =
      result (push s.events (tcp_message r payload)) (push-Swells s.events (tcp_message r payload))
        (owed-push_message s.events r payload)
    where
      result :
          (p : Queue × Bool)
          → Swells s.events p.0
          → ((q : ℕ) → owed q p.0.buffer ≡ owed q s.events.buffer)
          → Quiet s (frame_pushed p r s).0
      result (q, true) swells same = message-Quiet q s swells same
      result (q, false) swells same = reader_disconnect-Quiet r (sentinel outbound_queue_full) s

  pub datagram-Quiet :
      (addr : String) (bytes : Bytes) (s : Server) → Quiet s (udp_datagram addr bytes s)
  unfolding udp_datagram
  datagram-Quiet addr bytes s =
      let read : Bytes = take (pos_part s.cfg.max_udp_payload + 1) bytes in
      if-Quiet (ltb_ℤ s.cfg.max_udp_payload (pos (length read))) (Quiet-refl s) (
        message-Quiet (push s.events (udp_message addr read)).0 s
          (push-Swells s.events (udp_message addr read)) (owed-push_datagram s.events addr read))

  without_first-Keeps : (o : Option Channel) → Keeps o (without_first o)
  unfolding without_first
  without_first-Keeps none d h = tt
  without_first-Keeps (some c) d (same, h) = (same, rest c.queued h)
    where
      rest :
          (queue : List Bytes)
          → length queue ≤ d
          → length (elim queue [ [] ↦ [] | payload ∷ rest ↦ rest ]) ≤ d
      rest [] k = k
      rest (payload ∷ queue) k = omega arith

  pub writer-Quiet : (r : ℕ) (s : Server) → Quiet s (writer_take r s).1
  unfolding writer_take
  writer-Quiet r s =
      modify-Quiet r (λ x. record x { send_tcp = without_first x.send_tcp }) s (λ x. refl)
        (λ x. refl) (without_first-Keeps (s.heap r).send_tcp)

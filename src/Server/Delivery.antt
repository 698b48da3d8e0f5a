-- ===== src/Server/Delivery.antt =====
-- The branches of pushTCP and scheduleDisconnect (server.go).
use godotnet.Base.{
  ℕ, ◌≤◌, ◌≡◌, ◌≢◌, refl, ap, ◌∙◌, inl, inr, Bool, true, false, some, [], ◌∷◌, ◌++◌, Bytes, length,
  if◌then◌else◌, ltb, Bool-cases, arith,
}
use godotnet.Errors.{Error, sentinel, outbound_queue_full}
use godotnet.Events.{push}
use godotnet.Session.{Session, Channel, try_send, do_once}
use godotnet.Env.{Env}
use godotnet.Server.{Server, tcp_closed, modify, emit}
use godotnet.Server.Outbound.{
  disconnect_event, disconnect_body, schedule_disconnect, push_channel, push_tcp,
}
use godotnet.Server.Quiet.{modify-pointwise}
use godotnet.Server.Invariant.{heap-modify_self, heap-modify_ne}

module _ ⦃env : Env⦄ where
  open env use {marshal_frame}

  abbrev mark : Session → Session
  mark x = record x { disconnect_once = true }

  -- The first disconnect of a session, by whether the queue takes the event.
  scheduled : Bool → ℕ → Error → Server → Server
  scheduled true r reason s = record (modify r mark s) {
    events = record s.events { buffer = s.events.buffer ++ disconnect_event r reason ∷ [] };
  }
  scheduled false r reason s =
      if (s.heap r).tcp then emit (tcp_closed r) (modify r mark s) else modify r mark s

  body-scheduled :
      (r : ℕ) (reason : Error) (s : Server)
      → disconnect_body r (push s.events (disconnect_event r reason)) (modify r mark s)
        ≡ scheduled (ltb (length s.events.buffer) s.events.depth) r reason s
  unfolding disconnect_body scheduled push
  body-scheduled r reason s = elim (Bool-cases (ltb (length s.events.buffer) s.events.depth)) [
    | inl room ↦ rw (room, push)
    | inr full ↦
        rw (full, push)
          (ap
            (λ (x : Session).
              if x.tcp then emit (tcp_closed r) (modify r mark s) else modify r mark s)
            (heap-modify_self r mark s))
  ]

  schedule-first :
      (r : ℕ) (reason : Error) (s : Server)
      → (s.heap r).disconnect_once ≡ false
      → schedule_disconnect (some r) reason s
        ≡ scheduled (ltb (length s.events.buffer) s.events.depth) r reason s
  unfolding schedule_disconnect scheduled
  schedule-first r reason s off = rw (off, do_once) (body-scheduled r reason s)

  pub schedule-again :
      (r : ℕ) (reason : Error) (s : Server)
      → (s.heap r).disconnect_once ≡ true
      → schedule_disconnect (some r) reason s ≡ s
  unfolding schedule_disconnect
  schedule-again r reason s fired = rw (fired, do_once)

  scheduled-heap :
      (room : Bool) (r : ℕ) (reason : Error) (s : Server)
      → (scheduled room r reason s).heap ≡ (modify r mark s).heap
  unfolding scheduled
  scheduled-heap true r reason s = refl
  scheduled-heap false r reason s = elim (Bool-cases (s.heap r).tcp) [
    | inl open_conn ↦ rw open_conn
    | inr no_conn ↦ rw no_conn
  ]

  scheduled-fired :
      (room : Bool) (r : ℕ) (reason : Error) (s : Server)
      → ((scheduled room r reason s).heap r).disconnect_once ≡ true
  scheduled-fired room r reason s =
      ap (λ h. (h r).disconnect_once) (scheduled-heap room r reason s)
      ∙ ap (λ x. x.disconnect_once) (heap-modify_self r mark s)

  pub send_tcp-schedule :
      (r : ℕ) (reason : Error) (s : Server)
      → ((schedule_disconnect (some r) reason s).heap r).send_tcp ≡ (s.heap r).send_tcp
  send_tcp-schedule r reason s = elim (Bool-cases (s.heap r).disconnect_once) [
    | inl fired ↦ rw (schedule-again r reason s fired)
    | inr off ↦ rw (schedule-first r reason s off) (
        ap (λ h. (h r).send_tcp) (scheduled-heap _ r reason s)
        ∙ ap (λ x. x.send_tcp) (heap-modify_self r mark s))
  ]

  pub schedule-fired :
      (r : ℕ) (reason : Error) (s : Server)
      → ((schedule_disconnect (some r) reason s).heap r).disconnect_once ≡ true
  schedule-fired r reason s = elim (Bool-cases (s.heap r).disconnect_once) [
    | inl fired ↦ rw (schedule-again r reason s fired) fired
    | inr off ↦ rw (schedule-first r reason s off) (scheduled-fired _ r reason s)
  ]

  -- The disconnect's flag is set and every other session is as it was.
  pub schedule-pointwise :
      (R : Session → Session → Type 0) (r : ℕ) (reason : Error) (s : Server)
      → ((x : Session) → R x x)
      → ((x : Session) → R x (mark x))
      → (q : ℕ) → R (s.heap q) ((schedule_disconnect (some r) reason s).heap q)
  schedule-pointwise R r reason s same marked q = elim (Bool-cases (s.heap r).disconnect_once) [
    | inl fired ↦ rw (schedule-again r reason s fired) (same (s.heap q))
    | inr off ↦ rw (schedule-first r reason s off) (
        rw (scheduled-heap (ltb (length s.events.buffer) s.events.depth) r reason s)
          (modify-pointwise R r mark s same (marked (s.heap r)) q))
  ]

  pub schedule-other :
      (r q : ℕ) (reason : Error) (s : Server)
      → q ≢ r
      → (schedule_disconnect (some r) reason s).heap q ≡ s.heap q
  schedule-other r q reason s other = elim (Bool-cases (s.heap r).disconnect_once) [
    | inl fired ↦ rw (schedule-again r reason s fired) refl
    | inr off ↦ rw (schedule-first r reason s off) (
        ap (λ h. h q) (scheduled-heap (ltb (length s.events.buffer) s.events.depth) r reason s)
        ∙ heap-modify_ne r q mark s other)
  ]

  -- No event is queued for the first disconnect of a session while the queue is full.
  pub schedule-lost :
      (r : ℕ) (reason : Error) (s : Server)
      → (s.heap r).disconnect_once ≡ false
      → s.events.depth ≤ length s.events.buffer
      → (schedule_disconnect (some r) reason s).events ≡ s.events
  unfolding modify scheduled
  schedule-lost r reason s off full =
      let no_room : ltb (length s.events.buffer) s.events.depth ≡ false = ground arith in
      let result : schedule_disconnect (some r) reason s
          ≡ (if (s.heap r).tcp then emit (tcp_closed r) (modify r mark s) else modify r mark s) =
        schedule-first r reason s off ∙ ap (λ b. scheduled b r reason s) no_room in
      ap (λ t. t.events) result ∙ ground arith

  -- A payload goes to the end of a session's queue if there is room; otherwise the queue is as it
  -- was and the session's disconnect has fired.
  pub push_tcp_lem :
      (r : ℕ) (payload : Bytes) (s : Server) (c : Channel)
      → (s.heap r).send_tcp ≡ some c
      → let room = ltb (length c.queued) c.capacity in
        let after = (push_tcp (some r) payload s).heap r in
        (after.send_tcp ≡ some (if room then record c { queued = c.queued ++ payload ∷ [] } else c))
        × (after.disconnect_once ≡ (if room then (s.heap r).disconnect_once else true))
  unfolding push_tcp
  push_tcp_lem r payload s c e =
      rw (e, push_channel)
        (elim (Bool-cases (ltb (length c.queued) c.capacity)) [
          | inl room ↦
              let sent : Channel = record c { queued = c.queued ++ payload ∷ [] } in
              let written : Session → Session = λ x. record x { send_tcp = some sent } in
              rw (room, try_send)
                (
                  ap (λ x. x.send_tcp) (heap-modify_self r written s),
                  ap (λ x. x.disconnect_once) (heap-modify_self r written s),
                )
          | inr full ↦
              rw (full, try_send)
                (
                  send_tcp-schedule r (sentinel outbound_queue_full) s ∙ e,
                  schedule-fired r (sentinel outbound_queue_full) s,
                )
        ])

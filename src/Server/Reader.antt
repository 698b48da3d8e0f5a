-- ===== src/Server/Reader.antt =====
-- The loop of runTCPReader (tcp.go), from a connection's stream to the event queue.
use godotnet.Base.{
  ℕ, zero, suc, ◌+◌, ◌^◌, ◌≤◌, ◌<◌, ◌≡◌, refl, ap, ◌∙◌, ◌⊎◌, inl, inr, Bool, true, false, Option,
  some, List, [], ◌∷◌, Bytes, length, length-append, All, Bool-cases, arith,
}
use mathlib.Core.List.{◌++◌, append_assoc}
use godotnet.Errors.{Error, sentinel, prefixed, eof, outbound_queue_full}
use godotnet.Frame.{Read, got, failed, read_full, read_frame}
use godotnet.Frame.RoundTrip.{frame_bytes, read_frame-write_frame}
use godotnet.Frame.Sound.{read_frame-shrinks}
use godotnet.Events.{Event, Queue, push}
use godotnet.Session.{Session, do_once}
use godotnet.Env.{Env}
use godotnet.Server.{Server, modify}
use godotnet.Server.Outbound.{disconnect_event}
use godotnet.Server.Intake.{
  tcp_message, reader_disconnect, frame_pushed, push_frame, run_tcp_reader,
}
use godotnet.Server.Quiet.{Quiet, Quiet-trans}
use godotnet.Server.Quiet.Intake.{reader_disconnect-Quiet, push_frame-Quiet}
use godotnet.Server.Invariant.{heap-modify_self}

module _ ⦃env : Env⦄ where
  abbrev mark : Session → Session
  mark x = record x { disconnect_once = true }

  reader_disconnect-first :
      (r : ℕ) (reason : Error) (s : Server)
      → (s.heap r).disconnect_once ≡ false
      → reader_disconnect r reason s
        ≡ record (modify r mark s) { events = (push s.events (disconnect_event r reason)).0 }
  unfolding reader_disconnect modify
  reader_disconnect-first r reason s off = rw (off, do_once)

  reader_disconnect-fired :
      (r : ℕ) (reason : Error) (s : Server)
      → ((reader_disconnect r reason s).heap r).disconnect_once ≡ true
  unfolding reader_disconnect
  reader_disconnect-fired r reason s = elim (Bool-cases (s.heap r).disconnect_once) [
    | inl fired ↦ rw (fired, do_once) fired
    | inr off ↦
        ap (λ (t : Server). (t.heap r).disconnect_once) (reader_disconnect-first r reason s off)
        ∙ ap (λ x. x.disconnect_once) (heap-modify_self r mark s)
  ]

  -- The reader gives up only after a disconnect.
  stopped :
      (r : ℕ) (payload : Bytes) (s : Server)
      → (push_frame r payload s).1 ≡ false
      → ((push_frame r payload s).0.heap r).disconnect_once ≡ true
  unfolding push_frame
  stopped r payload s = result (push s.events (tcp_message r payload))
    where
      result :
          (p : Queue × Bool)
          → (frame_pushed p r s).1 ≡ false
          → ((frame_pushed p r s).0.heap r).disconnect_once ≡ true
      result (q, true) h = cc
      result (q, false) h = reader_disconnect-fired r (sentinel outbound_queue_full) s

  -- `Ended`: the loop has returned, and the session's disconnect has fired; all else that the
  -- relation `Quiet` speaks of is as it was.
  abbrev Ended : ℕ → Server → Option Server → Type 0
  Ended r s result =
      (t : Server) × (result ≡ some t) × ((t.heap r).disconnect_once ≡ true) × Quiet s t

  -- On any stream the reader's loop returns after at most one round for each byte, and one more.
  -- The session's disconnect has fired by then, with at most one event queued for it, and who
  -- plays, in which state and from which address, is as it was.
  pub run_tcp_reader-ends :
      (fuel r : ℕ) (stream : Bytes) (s : Server)
      → length stream < fuel
      → Ended r s (run_tcp_reader fuel r stream s)
  unfolding run_tcp_reader
  run_tcp_reader-ends zero r stream s h = elim h [ ]
  run_tcp_reader-ends (suc fuel) r stream s h =
      frame (λ rest s'. run_tcp_reader-ends fuel r rest s') (read_frame stream s.cfg.max_frame_len)
        refl
    where
      Next : Type 0
      Next =
          (rest : Bytes) (s' : Server)
          → length rest < fuel
          → Ended r s' (run_tcp_reader fuel r rest s')

      goes_on :
          (next : Next) (payload rest : Bytes) (b : Bool)
          → (push_frame r payload s).1 ≡ b
          → length rest < length stream
          → Ended r s (elim b [
            | true ↦ run_tcp_reader fuel r rest (push_frame r payload s).0
            | false ↦ some (push_frame r payload s).0
          ])
      goes_on next payload rest true e less =
          let s' : Server = (push_frame r payload s).0 in
          let (t, returns, fired, quiet) = next rest s' (omega arith) in
          (t, returns, fired, Quiet-trans (push_frame-Quiet r payload s) quiet)
      goes_on next payload rest false e less =
          ((push_frame r payload s).0, refl, stopped r payload s e, push_frame-Quiet r payload s)

      frame :
          (next : Next) (x : Read)
          → read_frame stream s.cfg.max_frame_len ≡ x
          → Ended r s (elim x [
            | failed err rest ↦ some (reader_disconnect r err s)
            | got payload rest ↦ elim (push_frame r payload s).1 [
              | true ↦ run_tcp_reader fuel r rest (push_frame r payload s).0
              | false ↦ some (push_frame r payload s).0
            ]
          ])
      frame next (failed err rest) e = (
        reader_disconnect r err s,
        refl,
        reader_disconnect-fired r err s,
        reader_disconnect-Quiet r err s,
      )
      frame next (got payload rest) e =
          goes_on next payload rest (push_frame r payload s).1 refl
            (read_frame-shrinks stream payload rest s.cfg.max_frame_len e)

  -- The bytes of frames, one after the other.
  abbrev pub frames : List Bytes → Bytes
  frames [] = []
  frames (p ∷ ps) = frame_bytes p ++ frames ps

  abbrev pub messages : ℕ → List Bytes → List Event
  messages r [] = []
  messages r (p ∷ ps) = tcp_message r p ∷ messages r ps

  -- The error of a stream that ends between two frames.
  abbrev pub stream_end : Error
  stream_end = prefixed "godotnet: read frame header: " (sentinel eof)

  push-room :
      (q : Queue) (e : Event)
      → length q.buffer < q.depth
      → push q e ≡ (record q { buffer = q.buffer ++ e ∷ [] }, true)
  unfolding push
  push-room q e room = ground arith

  push_frame-room :
      (r : ℕ) (payload : Bytes) (s : Server)
      → length s.events.buffer < s.events.depth
      → push_frame r payload s ≡ (
        record s {
          events = record s.events { buffer = s.events.buffer ++ tcp_message r payload ∷ [] };
        },
        true,
      )
  unfolding push_frame
  push_frame-room r payload s room =
      ap (λ p. frame_pushed p r s) (push-room s.events (tcp_message r payload) room)

  read_frame-end : (max_len : ℕ) → read_frame [] max_len ≡ failed stream_end []
  unfolding read_frame read_full
  read_frame-end max_len = refl

  buffer-disconnect :
      (r : ℕ) (reason : Error) (s : Server)
      → (s.heap r).disconnect_once ≡ false
      → length s.events.buffer < s.events.depth
      → (reader_disconnect r reason s).events.buffer
        ≡ s.events.buffer ++ disconnect_event r reason ∷ []
  buffer-disconnect r reason s off room =
      ap (λ (t : Server). t.events.buffer) (reader_disconnect-first r reason s off)
      ∙ ap (λ p. p.0.buffer) (push-room s.events (disconnect_event r reason) room)

  -- Frames within the cap that arrive one after the other, before the connection ends, reach the
  -- event queue as messages of the session in the same order and with their payloads unchanged,
  -- followed by one disconnect, if the queue has room for all of it and the session's disconnect
  -- has not fired.
  pub run_tcp_reader-frames :
      (fuel r : ℕ) (payloads : List Bytes) (s : Server)
      → length payloads < fuel
      → All
          (λ p.
            (length p < 2 ^ 32) × ((s.cfg.max_frame_len ≡ 0) ⊎ (length p ≤ s.cfg.max_frame_len)))
          payloads
      → length s.events.buffer + length payloads < s.events.depth
      → (s.heap r).disconnect_once ≡ false
      → (t : Server) × (run_tcp_reader fuel r (frames payloads) s ≡ some t)
        × (t.events.buffer
            ≡ s.events.buffer ++ (messages r payloads ++ disconnect_event r stream_end ∷ []))
  unfolding run_tcp_reader
  run_tcp_reader-frames zero r ps s h fit room off = elim h [ ]
  run_tcp_reader-frames (suc fuel) r [] s h fit room off = (
    reader_disconnect r stream_end s,
    rw (read_frame-end s.cfg.max_frame_len, run_tcp_reader) refl,
    buffer-disconnect r stream_end s off (omega arith),
  )
  run_tcp_reader-frames (suc fuel) r (p ∷ ps) s h ((fits, capped), fit) room off =
      let whole : read_frame (frame_bytes p ++ frames ps) s.cfg.max_frame_len ≡ got p (frames ps) =
        read_frame-write_frame p (frames ps) s.cfg.max_frame_len fits capped in
      let s' : Server = record s {
        events = record s.events { buffer = s.events.buffer ++ tcp_message r p ∷ [] };
      } in
      let taken : push_frame r p s ≡ (s', true) = push_frame-room r p s (omega arith) in
      let (t, returns, queued) =
        run_tcp_reader-frames fuel r ps s' (omega arith) fit
          (omega (arith, length-append {0} s.events.buffer (tcp_message r p ∷ []))) off in
      (
        t,
        rw (whole, taken, run_tcp_reader)
            (ap (λ a. run_tcp_reader fuel r (frames ps) a.0) taken ∙ returns),
        queued ∙ append_assoc s.events.buffer (tcp_message r p ∷ []) _,
      )

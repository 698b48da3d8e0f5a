-- ===== src/Server/Intake.antt =====
-- tcp.go and udp.go: the goroutines that accept connections and read from the sockets. Each pushes
-- events on the queue; none touches the session maps.
use godotnet.Base.{
  ℕ, zero, suc, ◌+◌, String, Bool, true, false, Option, none, some, [], ◌∷◌, Bytes, length, take,
  if◌then◌else◌,
}
use godotnet.Base.Int.{pos, pos_part, ltb_ℤ}
use godotnet.Errors.{Error, sentinel, outbound_queue_full, is, eof, unexpected_eof, net_closed}
use godotnet.Frame.{got, failed, read_frame}
use godotnet.Events.{Event, event_message, Queue, push}
use godotnet.Session.{Channel, Session, do_once}
use godotnet.Env.{Env}
use godotnet.Server.{Server, modify, blank_session}
use godotnet.Server.Outbound.{disconnect_event}

-- isCleanCloseErr
unfoldable pub is_clean_close_err : Error → Bool
unfolding is
is_clean_close_err err =
    if is err eof then true else if is err unexpected_eof then true else is err net_closed

abbrev pub tcp_message : ℕ → Bytes → Event
tcp_message r payload = record {
  kind = event_message;
  sess = some r;
  payload = payload;
  is_udp = false;
  udp_addr = none;
  reason = none;
}

abbrev pub udp_message : String → Bytes → Event
udp_message addr payload = record {
  kind = event_message;
  sess = none;
  payload = payload;
  is_udp = true;
  udp_addr = some addr;
  reason = none;
}

module _ ⦃env : Env⦄ where
  open env use {clock}

  -- The session of a connection that was just accepted.
  unfoldable pub new_session : Server → Session
  new_session s = record blank_session {
    tcp = true;
    send_tcp = some (record { capacity = pos_part s.cfg.send_queue_depth; queued = [] });
    connected_at = clock s.clock_reads;
  }

  -- The start of serveTCPConn, at the pointer that the allocator gives for the session.
  unfoldable pub accept_conn : ℕ → Server → Server
  unfolding modify new_session
  accept_conn r s =
      let s' : Server = modify r (λ x. new_session s) s in
      record s' { clock_reads = s.clock_reads + 1 }

  -- The reader's disconnectOnce.Do: the result of the push is not looked at.
  unfoldable pub once_push : Bool × Bool → ℕ → Error → Server → Server
  unfolding modify push
  once_push (false, fired) r reason s = s
  once_push (true, fired) r reason s =
      let s' : Server = modify r (λ x. record x { disconnect_once = fired }) s in
      record s' { events = (push s'.events (disconnect_event r reason)).0 }

  unfoldable pub reader_disconnect : ℕ → Error → Server → Server
  unfolding once_push do_once
  reader_disconnect r reason s = once_push (do_once (s.heap r).disconnect_once) r reason s

  -- What one round of the reader's loop does with a frame: the server, and whether it goes on.
  unfoldable pub frame_pushed : Queue × Bool → ℕ → Server → Server × Bool
  unfolding reader_disconnect
  frame_pushed (q, true) r s = (record s { events = q }, true)
  frame_pushed (q, false) r s = (reader_disconnect r (sentinel outbound_queue_full) s, false)

  unfoldable pub push_frame : ℕ → Bytes → Server → Server × Bool
  unfolding frame_pushed push
  push_frame r payload s = frame_pushed (push s.events (tcp_message r payload)) r s

  -- The loop of runTCPReader over what is left of a connection's stream. `none` means that the fuel
  -- ran out.
  unfoldable pub run_tcp_reader : ℕ → ℕ → Bytes → Server → Option Server
  unfolding push_frame reader_disconnect read_frame
  run_tcp_reader zero r stream s = none
  run_tcp_reader (suc fuel) r stream s = elim (read_frame stream s.cfg.max_frame_len) [
    | failed err rest ↦ some (reader_disconnect r err s)
    | got payload rest ↦ elim (push_frame r payload s).1 [
      | true ↦ run_tcp_reader fuel r rest (push_frame r payload s).0
      | false ↦ some (push_frame r payload s).0
    ]
  ]

  -- One round of runUDPReader: a datagram is cut to the buffer, one byte longer than the cap, and
  -- dropped if it then exceeds the cap, or if the queue is full.
  unfoldable pub udp_datagram : String → Bytes → Server → Server
  unfolding push
  udp_datagram addr bytes s =
      let read = take (pos_part s.cfg.max_udp_payload + 1) bytes in
      if ltb_ℤ s.cfg.max_udp_payload (pos (length read))
      then s
      else record s { events = (push s.events (udp_message addr read)).0 }

  -- runTCPWriter takes the oldest payload off the channel; it writes it by WriteFrame.
  unfoldable pub first_queued : Option Channel → Option Bytes
  first_queued none = none
  first_queued (some c) = elim c.queued [ [] ↦ none | payload ∷ rest ↦ some payload ]

  unfoldable pub without_first : Option Channel → Option Channel
  without_first none = none
  without_first (some c) =
      some (record c { queued = elim c.queued [ [] ↦ [] | payload ∷ rest ↦ rest ] })

  unfoldable pub writer_take : ℕ → Server → Option Bytes × Server
  unfolding first_queued without_first modify
  writer_take r s = (
    first_queued (s.heap r).send_tcp,
    modify r (λ x. record x { send_tcp = without_first x.send_tcp }) s,
  )

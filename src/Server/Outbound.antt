-- ===== src/Server/Outbound.antt =====
-- What the tick goroutine sends: server.go's pushTCP and scheduleDisconnect, and udp.go's
-- udpSendRaw. Log lines are left out. A UDP write that fails is logged and no more, so a write is
-- the effect that is tried.
use godotnet.Base.{
  ℕ, String, Bool, true, false, Option, none, some, Bytes, length, if◌then◌else◌, [],
}
use godotnet.Base.Int.{pos, ltb_ℤ}
use godotnet.Errors.{Error, sentinel, outbound_queue_full}
use godotnet.Events.{Event, event_disconnect, Queue, push}
use godotnet.Session.{Channel, try_send, do_once}
use godotnet.Env.{Env}
use godotnet.Server.{Server, tcp_closed, udp_written, modify, emit}

abbrev pub disconnect_event : ℕ → Error → Event
disconnect_event r reason = record {
  kind = event_disconnect;
  sess = some r;
  payload = [];
  is_udp = false;
  udp_addr = none;
  reason = some reason;
}

module _ ⦃env : Env⦄ where
  -- The function that scheduleDisconnect runs once.
  unfoldable pub disconnect_body : ℕ → Queue × Bool → Server → Server
  disconnect_body r (q, true) s = record s { events = q }
  disconnect_body r (q, false) s = if (s.heap r).tcp then emit (tcp_closed r) s else s

  unfoldable pub disconnect_if : Bool × Bool → ℕ → Error → Server → Server
  unfolding disconnect_body modify push
  disconnect_if (false, fired) r reason s = s
  disconnect_if (true, fired) r reason s =
      disconnect_body r (push s.events (disconnect_event r reason))
        (modify r (λ x. record x { disconnect_once = fired }) s)

  unfoldable pub schedule_disconnect : Option ℕ → Error → Server → Server
  unfolding disconnect_if do_once
  schedule_disconnect none reason s = s
  schedule_disconnect (some r) reason s =
      disconnect_if (do_once (s.heap r).disconnect_once) r reason s

  -- The `select` of pushTCP, by the channel that the send leaves.
  unfoldable pub pushed : Option Channel → ℕ → Server → Server
  unfolding schedule_disconnect modify
  pushed (some c) r s = modify r (λ x. record x { send_tcp = some c }) s
  pushed none r s = schedule_disconnect (some r) (sentinel outbound_queue_full) s

  unfoldable pub push_channel : Option Channel → ℕ → Bytes → Server → Server
  unfolding pushed try_send
  push_channel none r payload s = s
  push_channel (some c) r payload s = pushed (try_send c payload) r s

  unfoldable pub push_tcp : Option ℕ → Bytes → Server → Server
  unfolding push_channel
  push_tcp none payload s = s
  push_tcp (some r) payload s = push_channel (s.heap r).send_tcp r payload s

  unfoldable pub udp_send_raw : Option String → Bytes → Server → Server
  udp_send_raw none payload s = s
  udp_send_raw (some addr) payload s =
      if s.udp_conn
      then if ltb_ℤ s.cfg.max_udp_payload (pos (length payload))
        then s
        else emit (udp_written addr payload) s
      else s

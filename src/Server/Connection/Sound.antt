-- ===== src/Server/Connection/Sound.antt =====
-- tcp.go: what is so at every moment of a connection's goroutines.
use godotnet.Base.{◌≡◌, ◌≢◌, ◌⊎◌, inl, inr, refl, ap, Bool, true, false}
use godotnet.Server.Connection.{
  Serving, reading, read_over, awaiting_writer, returned, writer_done, Watching, watching, watched,
  Conn, accepted_conn, Own, frame_read, read_failed, closes, returns, selects, receives, sees_close,
  channel_ctx_done, nil_ctx_done, written, write_failed, watcher_closes, watcher_stops, pushed,
  force_closed, cleaned_up, Step, own, tick, cancelled, Reach, here, next,
}

abbrev is_over : Serving → Bool
is_over reading = false
is_over read_over = false
is_over awaiting_writer = true
is_over returned = true

pub record IsSound (s : Conn) : Type 0 where
  over : is_over s.serving ≡ true → s.conn_closed ≡ true
  pub joined : s.serving ≡ returned → s.writer ≡ writer_done
  stopped : s.watcher ≡ watched → s.conn_closed ≡ true

Own-IsSound : {s t : Conn} → Own s t → IsSound s → IsSound t
Own-IsSound (frame_read h o) v = v
Own-IsSound (read_failed h) v = record { over = λ e. cc; joined = λ e. cc; stopped = v.stopped }
Own-IsSound (closes h) v = record { over = λ e. refl; joined = λ e. cc; stopped = λ e. refl }
Own-IsSound (returns h w) v = record {
  over = λ e. v.over (ap is_over h);
  joined = λ e. w;
  stopped = v.stopped;
}
Own-IsSound (selects w) v = record {
  over = v.over;
  joined = λ e. (let w' = v.joined e in cc);
  stopped = v.stopped;
}
Own-IsSound (receives w q) v = record {
  over = v.over;
  joined = λ e. (let w' = v.joined e in cc);
  stopped = v.stopped;
}
Own-IsSound (sees_close w c q) v = record { over = v.over; joined = λ e. refl; stopped = v.stopped }
Own-IsSound (channel_ctx_done w c) v = record {
  over = v.over;
  joined = λ e. refl;
  stopped = v.stopped;
}
Own-IsSound (nil_ctx_done w c) v = record { over = v.over; joined = λ e. refl; stopped = v.stopped }
Own-IsSound (written w o) v = record {
  over = v.over;
  joined = λ e. (let w' = v.joined e in cc);
  stopped = v.stopped;
}
Own-IsSound (write_failed w) v = record { over = v.over; joined = λ e. refl; stopped = v.stopped }
Own-IsSound (watcher_closes w c) v = record {
  over = λ e. refl;
  joined = v.joined;
  stopped = λ e. refl;
}
Own-IsSound (watcher_stops w r) v = record {
  over = v.over;
  joined = v.joined;
  stopped = λ e. v.over (ap is_over r);
}

Step-IsSound : {s t : Conn} → Step s t → IsSound s → IsSound t
Step-IsSound (own step) v = Own-IsSound step v
Step-IsSound (tick (pushed c)) v = record { over = v.over; joined = v.joined; stopped = v.stopped }
Step-IsSound (tick force_closed) v = record {
  over = λ e. refl;
  joined = v.joined;
  stopped = λ e. refl;
}
Step-IsSound (tick cleaned_up) v = record {
  over = λ e. refl;
  joined = v.joined;
  stopped = λ e. refl;
}
Step-IsSound cancelled v = record { over = v.over; joined = v.joined; stopped = v.stopped }

pub Reach-IsSound : {s : Conn} → Reach accepted_conn s → IsSound s
Reach-IsSound here = record { over = λ e. cc; joined = λ e. cc; stopped = λ e. cc }
Reach-IsSound (next before step) = Step-IsSound step (Reach-IsSound before)

-- When serveTCPConn has returned, its connection is closed and its writer has returned; and at any
-- moment of a connection, whatever its goroutines, the tick goroutine and the context did, it is
-- closed or its watcher still waits to close it with the context.
pub serve_tcp_conn_lem :
    (s : Conn)
    → Reach accepted_conn s
    → ((s.serving ≢ returned) ⊎ ((s.conn_closed ≡ true) × (s.writer ≡ writer_done)))
      × ((s.conn_closed ≡ true) ⊎ (s.watcher ≡ watching))
serve_tcp_conn_lem s reach =
    let v = Reach-IsSound reach in (by_serving v s.serving refl, by_watcher v s.watcher refl)
  where
    by_serving :
        IsSound s
        → (x : Serving) → s.serving ≡ x
        → (s.serving ≢ returned) ⊎ ((s.conn_closed ≡ true) × (s.writer ≡ writer_done))
    by_serving v returned e = inr (v.over (ap is_over e), v.joined e)
    by_serving v reading e = inl (λ r. cc)
    by_serving v read_over e = inl (λ r. cc)
    by_serving v awaiting_writer e = inl (λ r. cc)

    by_watcher :
        IsSound s → (x : Watching) → s.watcher ≡ x → (s.conn_closed ≡ true) ⊎ (s.watcher ≡ watching)
    by_watcher v watching e = inr e
    by_watcher v watched e = inl (v.stopped e)

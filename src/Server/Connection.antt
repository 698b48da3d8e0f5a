-- ===== src/Server/Connection.antt =====
-- tcp.go: serveTCPConn, the goroutines of one connection. A step is what one of them does between
-- two points at which it may wait. The payloads are in Server/Writer; here they are only counted on
-- the channel, and what a read or a write gives besides its success is left out.
pub mod Sound
pub mod Shutdown
pub mod Leak
use godotnet.Base.{ℕ, zero, suc, ◌+◌, ◌≡◌, Bool, true, false}

-- serveTCPConn itself: in runTCPReader, after it, at the receive from writerDone, and at its
-- return, which closes stopWatcher.
pub data Serving : Type 0 where
  reading read_over awaiting_writer returned : Serving

-- runTCPWriter: before the `select`, which reads the field sendTCP as it begins; in it, on the
-- channel or on nil; in WriteFrame; and at its return, which closes writerDone.
pub data Writing : Type 0 where
  at_select on_channel on_nil writing writer_done : Writing

-- The goroutine that closes the connection with the context.
pub data Watching : Type 0 where
  watching watched : Watching

-- The field sendTCP is nil, and its channel closed, once `cleaned` is true; `queued` counts the
-- payloads on the channel.
pub record Conn : Type 0 where
  pub ctx_done : Bool
  pub conn_closed : Bool
  pub cleaned : Bool
  pub queued : ℕ
  pub serving : Serving
  pub writer : Writing
  pub watcher : Watching

-- A connection that was just accepted.
abbrev pub accepted_conn : Conn
accepted_conn = record {
  ctx_done = false;
  conn_closed = false;
  cleaned = false;
  queued = 0;
  serving = reading;
  writer = at_select;
  watcher = watching;
}

-- The channel that the writer's `select` waits on.
abbrev pub entered : Bool → Writing
entered true = on_nil
entered false = on_channel

-- The steps of the connection's own goroutines. On a closed connection every read and write fails.
pub data Own (s : Conn) : Conn → Type 0 where
  frame_read : s.serving ≡ reading → s.conn_closed ≡ false → Own s s
  read_failed : s.serving ≡ reading → Own s (record s { serving = read_over })
  closes :
      s.serving ≡ read_over → Own s (record s { conn_closed = true; serving = awaiting_writer })
  returns :
      s.serving ≡ awaiting_writer → s.writer ≡ writer_done → Own s (record s { serving = returned })
  selects : s.writer ≡ at_select → Own s (record s { writer = entered s.cleaned })
  receives :
      {n : ℕ}
      → s.writer ≡ on_channel
      → s.queued ≡ suc n
      → Own s (record s { queued = n; writer = writing })
  sees_close :
      s.writer ≡ on_channel
      → s.cleaned ≡ true
      → s.queued ≡ 0
      → Own s (record s { writer = writer_done })
  channel_ctx_done :
      s.writer ≡ on_channel → s.ctx_done ≡ true → Own s (record s { writer = writer_done })
  nil_ctx_done : s.writer ≡ on_nil → s.ctx_done ≡ true → Own s (record s { writer = writer_done })
  written : s.writer ≡ writing → s.conn_closed ≡ false → Own s (record s { writer = at_select })
  write_failed : s.writer ≡ writing → Own s (record s { writer = writer_done })
  watcher_closes :
      s.watcher ≡ watching
      → s.ctx_done ≡ true
      → Own s (record s { conn_closed = true; watcher = watched })
  watcher_stops :
      s.watcher ≡ watching → s.serving ≡ returned → Own s (record s { watcher = watched })

-- What the tick goroutine does: pushTCP queues a payload, or closes the connection when it cannot
-- schedule a disconnect; cleanupSession closes connection and channel and clears the field.
pub data Tick (s : Conn) : Conn → Type 0 where
  pushed : s.cleaned ≡ false → Tick s (record s { queued = s.queued + 1 })
  force_closed : Tick s (record s { conn_closed = true })
  cleaned_up : Tick s (record s { conn_closed = true; cleaned = true })

pub data Step (s : Conn) : Conn → Type 0 where
  own : {t : Conn} → Own s t → Step s t
  tick : {t : Conn} → Tick s t → Step s t
  cancelled : Step s (record s { ctx_done = true })

pub data Reach (s : Conn) : Conn → Type 0 where
  here : Reach s s
  next : {t u : Conn} → Reach s t → Step t u → Reach s u

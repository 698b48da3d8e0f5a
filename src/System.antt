-- ===== src/System.antt =====
-- The server among its goroutines: one step is a whole tick, one round of a goroutine that accepts,
-- reads or writes, a registration, or the start or the end of Run. Any of them may come next.
pub mod Rounds
pub mod Safety
pub mod Interleaved
pub mod Listed
pub mod Attendance
pub mod Forever
pub mod Tenure
pub mod Settled
pub mod Expired
pub mod Bounded
use godotnet.Base.{List, [], ◌+◌, ℕ, ◌≡◌, ◌≢◌, String, Option, some, Bytes, nat_eq, string_eq}
use godotnet.Base.Map.{get}
use godotnet.Base.Int.{ℤ}
use godotnet.Errors.{Error}
use godotnet.Events.{Event}
use godotnet.Env.{Env}
use godotnet.Callbacks.{ClientHandler, RpcHandler, TickHandler}
use godotnet.Server.{Server, set_on_tick}
use godotnet.Server.Registry.{handle_client, handle_rpc}
use godotnet.Server.Lifecycle.{start, stop}
use godotnet.Server.Tick.{run_tick}
use godotnet.Server.Intake.{accept_conn, push_frame, reader_disconnect, udp_datagram, writer_take}
use godotnet.Server.Quiet.{owed, goodbyes}

module _ ⦃env : Env⦄ where
  open env use {Msg}

  -- What the allocator promises of the pointer to a new session: nothing refers to it, and no
  -- session had it before. `pending` are the events that a tick has drained and not handled yet.
  pub record IsFresh (r : ℕ) (pending : List Event) (s : Server) : Type 0 where
    pub unlisted : (id : ℕ) → get s.sessions id ≢ some r
    pub unpaired : (a : String) → get s.udp_sessions a ≢ some r
    pub unqueued : owed r pending + owed r s.events.buffer ≡ 0
    pub unused : goodbyes r s.trace ≡ 0

  -- The steps of everybody but the tick goroutine.
  pub data IoStep (pending : List Event) (s : Server) : Server → Type 0 where
    client_handled :
        (prototype : Option Msg) (h : Option ClientHandler)
        → IoStep pending s (handle_client prototype h s)
    rpc_handled :
        (prototype : Option Msg) (h : Option RpcHandler)
        → IoStep pending s (handle_rpc prototype h s)
    on_tick_set : (cb : Option TickHandler) → IoStep pending s (set_on_tick cb s)
    started :
        (quote : String → String) (tcp udp : Option Error)
        → IoStep pending s (start quote tcp udp s).0
    stopped : IoStep pending s (stop s)
    accepted : (r : ℕ) → IsFresh r pending s → IoStep pending s (accept_conn r s)
    frame_read : (r : ℕ) (payload : Bytes) → IoStep pending s (push_frame r payload s).0
    read_failed : (r : ℕ) (err : Error) → IoStep pending s (reader_disconnect r err s)
    datagram_read : (addr : String) (bytes : Bytes) → IoStep pending s (udp_datagram addr bytes s)
    written : (r : ℕ) → IoStep pending s (writer_take r s).1

  pub data Step (s : Server) : Server → Type 0 where
    io : {t : Server} → IoStep [] s t → Step s t
    ticked : (now : ℤ) → Step s (run_tick now s)

  pub data Reach (s : Server) : Server → Type 0 where
    here : Reach s s
    next : {t u : Server} → Reach s t → Step t u → Reach s u

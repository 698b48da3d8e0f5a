-- ===== src/Server.antt =====
-- server.go: the configuration and the state of a server.
pub mod Registry
pub mod Outbound
pub mod TickCtx
pub mod Cleanup
pub mod Handshake
pub mod Dispatch
pub mod Ping
pub mod Tick
pub mod Intake
pub mod Quiet
pub mod Route
pub mod Admission
pub mod Invariant
pub mod Responses
pub mod Delivery
pub mod Access
pub mod Departed
pub mod Pairing
pub mod Takeover
pub mod Reader
pub mod Lifecycle
pub mod Vital
pub mod Keepalive
pub mod Setup
pub mod Later
pub mod Onward
pub mod Mail
pub mod AnyOrder
pub mod Stages
pub mod Granted
pub mod Joining
pub mod Owing
pub mod Present
pub mod Accounts
pub mod Parting
pub mod Farewell
pub mod Broadcast
pub mod Loops
pub mod Writer
pub mod Connection
pub mod Group
pub mod Whole
use godotnet.Base.{
  ℕ, zero, suc, String, Bool, true, false, Option, none, some, List, [], ◌∷◌, Bytes, ◌==◌, ◌+◌,
  if◌then◌else◌,
}
use godotnet.Base.Map.{Map}
use godotnet.Base.Int.{ℤ, pos, negsuc, or_default}
use godotnet.Errors.{Error}
use godotnet.Events.{Queue, new_queue, default_event_queue_depth}
use godotnet.Session.{Session, session_pre_login}
use godotnet.Env.{Env}
use godotnet.Callbacks.{
  ClientHandler, RpcHandler, TickHandler, Authenticate, OnAuth, OnConnect, OnDisconnect,
}

-- Durations are nanoseconds.
abbrev pub default_tick_rate : ℤ
default_tick_rate = pos 50_000_000

abbrev pub default_max_frame_len : ℕ
default_max_frame_len = 1_048_576

abbrev pub default_send_queue_depth : ℤ
default_send_queue_depth = pos 256

abbrev pub default_max_udp_payload : ℤ
default_max_udp_payload = pos 1200

-- time.Time{}: midnight of the first of January of year 1, in nanoseconds from 1970.
abbrev zero_time : ℤ
zero_time = negsuc 62_135_596_799_999_999_999

-- What the server does that others can see, in the trace of a run.
pub data Effect : Type 0 where
  udp_written : String → Bytes → Effect
  tcp_closed : ℕ → Effect
  channel_closed : ℕ → Effect
  on_auth_called : ℕ → Effect
  on_connect_called : ℕ → Effect
  on_disconnect_called : ℕ → Option Error → Effect
  on_tick_called : ℕ → Effect

module _ ⦃env : Env⦄ where
  open env use {Msg, Game}

  pub record Config : Type 0 where
    pub tcp_addr : String
    pub udp_addr : String
    pub udp_advertise_addr : String
    pub tick_rate : ℤ
    pub authenticate : Option Authenticate
    pub login_prototype : Option Msg
    pub client_message_prototype : Option Msg
    pub rpc_request_prototype : Option Msg
    pub on_auth : Option OnAuth
    pub on_connect : Option OnConnect
    pub on_disconnect : Option OnDisconnect
    pub max_frame_len : ℕ
    pub send_queue_depth : ℤ
    pub event_queue_depth : ℤ
    pub max_udp_payload : ℤ
    pub ping_interval : ℤ
    pub ping_timeout : ℤ

  -- `heap` holds the sessions by pointer. `trace` is newest first.
  -- `clock_reads` and `random_reads` count the readings taken of the clock and the random source.
  pub record Server : Type 0 where
    pub cfg : Config
    pub on_tick : Option TickHandler
    pub handlers : Map String ClientHandler
    pub rpc_handlers : Map String RpcHandler
    pub events : Queue
    pub tick_count : ℕ
    pub last_ping_batch_at : ℤ
    pub sessions : Map ℕ ℕ
    pub udp_sessions : Map String ℕ
    pub udp_conn : Bool
    pub running : Bool
    pub heap : ℕ → Session
    pub clock_reads : ℕ
    pub random_reads : ℕ
    pub game : Game
    pub trace : List Effect

  -- The defaults that NewServer fills in.
  unfoldable pub normalise : Config → Config
  normalise cfg = record cfg {
    tick_rate = or_default cfg.tick_rate default_tick_rate;
    max_frame_len = if cfg.max_frame_len == 0 then default_max_frame_len else cfg.max_frame_len;
    send_queue_depth = or_default cfg.send_queue_depth default_send_queue_depth;
    event_queue_depth = or_default cfg.event_queue_depth default_event_queue_depth;
    max_udp_payload = or_default cfg.max_udp_payload default_max_udp_payload;
  }

  -- &Session{} and the zero time.
  abbrev pub blank_session : Session
  blank_session = record {
    id = 0;
    connected_at = zero_time;
    auth_state = session_pre_login;
    session_token = "";
    tcp = false;
    udp_addr = none;
    send_tcp = none;
    last_seen_unix_nano = pos 0;
    last_ping_nonce = 0;
    disconnect_once = false;
  }

  unfoldable pub new_server : Config → Game → Server
  unfolding normalise new_queue
  new_server config game =
      let cfg : Config = normalise config in
      record {
        cfg = cfg;
        on_tick = none;
        handlers = [];
        rpc_handlers = [];
        events = new_queue cfg.event_queue_depth;
        tick_count = 0;
        last_ping_batch_at = zero_time;
        sessions = [];
        udp_sessions = [];
        udp_conn = false;
        running = false;
        heap = λ r. blank_session;
        clock_reads = 0;
        random_reads = 0;
        game = game;
        trace = [];
      }

  -- A write to the session that `r` points to.
  unfoldable pub modify : ℕ → (Session → Session) → Server → Server
  modify r f s = record s { heap = λ q. if q == r then f (s.heap r) else s.heap q }

  abbrev pub emit : Effect → Server → Server
  emit e s = record s { trace = e ∷ s.trace }

  -- Server.OnTick
  unfoldable pub set_on_tick : Option TickHandler → Server → Server
  set_on_tick cb s = record s { on_tick = cb }

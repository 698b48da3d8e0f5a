-- ===== src/Callbacks.antt =====
-- The functions that a game hands to the server. They act on the server through TickCtx only: a
-- handler is given what it can see, and yields the calls that it makes, in order, the game's state
-- afterwards, and whether it returned or panicked. What a TickCtx shows of the sessions (their
-- identifiers) does not change while a handler runs, since its calls defer every removal.
use godotnet.Base.{ℕ, String, Option, List}
use godotnet.Base.Int.{ℤ}
use godotnet.Errors.{Error}
use godotnet.Env.{Env}

pub data Outcome (A : Type 0) : Type 0 where
  returned : A → Outcome A
  panicked : String → Outcome A

-- A session as a callback sees it: the pointer and the exported identifier.
pub record SessionView : Type 0 where
  pub pointer : ℕ
  pub id : ℕ

-- Tick, Now, Sessions and Session of TickCtx.
pub record View : Type 0 where
  pub tick : ℕ
  pub now : ℤ
  pub sessions : List SessionView

module _ ⦃env : Env⦄ where
  open env use {Msg, Game}

  -- The methods of TickCtx that act.
  pub data Call : Type 0 where
    send_udp : ℕ → Msg → Call
    send_tcp : ℕ → Msg → Call
    broadcast_udp : Msg → Call
    broadcast_tcp : Msg → Call
    disconnect : ℕ → String → Call

  pub record Script (A : Type 0) : Type 0 where
    pub calls : List Call
    pub game : Game
    pub outcome : Outcome A

  abbrev pub ClientHandler : Type 0
  ClientHandler = View → SessionView → Msg → Game → Script Unit

  abbrev pub RpcHandler : Type 0
  RpcHandler = View → SessionView → Msg → Game → Script (Option Msg × Option Error)

  abbrev pub TickHandler : Type 0
  TickHandler = View → Game → Script Unit

  -- Authenticate, OnAuth, OnConnect and OnDisconnect are given no TickCtx.
  abbrev pub Authenticate : Type 0
  Authenticate = Msg → Game → Outcome (ℕ × Option Error) × Game

  abbrev pub OnAuth : Type 0
  OnAuth = SessionView → Msg → Game → Outcome Unit × Game

  abbrev pub OnConnect : Type 0
  OnConnect = SessionView → Game → Outcome Unit × Game

  abbrev pub OnDisconnect : Type 0
  OnDisconnect = SessionView → Option Error → Game → Outcome Unit × Game

-- ===== src/Rpc.antt =====
-- rpc/rpc.go: registration of an RPC handler by its concrete types. `cast` is the assertion of a
-- message to the request's type, `as_message` and `of_response` take a request and a response as
-- messages (`none` for an interface that is nil), and `type_name` is the verb `%T` of fmt on a
-- message.
pub mod Served
use Prim.Native.String.{◌++◌ as append}
use godotnet.Base.{ℕ, String, Option, none, some, []}
use godotnet.Errors.{Error, message}
use godotnet.Env.{Env}
use godotnet.Callbacks.{Outcome, returned, panicked, Script, SessionView, View, RpcHandler}
use godotnet.Server.{Server}
use godotnet.Server.Registry.{handle_rpc}

module _ ⦃env : Env⦄ where
  open env use {Msg, Game}

  abbrev pub Handler : Type 0 → Type 0 → Type 0
  Handler Req Resp = View → SessionView → Req → Game → Script (Resp × Option Error)

  module _ {Req Resp : Type 0} (cast : Msg → Option Req) (as_message : Req → Option Msg)
      (of_response : Resp → Option Msg) (type_name : Msg → String) where
    -- With an error the response is dropped.
    abbrev pub untyped : Outcome (Resp × Option Error) → Outcome (Option Msg × Option Error)
    untyped (returned (resp, some err)) = returned (none, some err)
    untyped (returned (resp, none)) = returned (of_response resp, none)
    untyped (panicked p) = panicked p

    abbrev mismatch : Msg → Error
    mismatch msg = message (append "rpc: handler type mismatch: got " (type_name msg))

    -- The handler that is installed.
    unfoldable pub wrap : Handler Req Resp → RpcHandler
    wrap h view sess msg game = elim (cast msg) [
      | none ↦ record { calls = []; game = game; outcome = returned (none, some (mismatch msg)) }
      | some req ↦ record {
        calls = (h view sess req game).calls;
        game = (h view sess req game).game;
        outcome = untyped (h view sess req game).outcome;
      }
    ]

    -- A nil server or handler changes nothing.
    unfoldable pub register_typed : Req → Option (Handler Req Resp) → Option Server → Option Server
    unfolding wrap handle_rpc
    register_typed prototype h none = none
    register_typed prototype none (some s) = some s
    register_typed prototype (some h) (some s) =
        some (handle_rpc (as_message prototype) (some (wrap h)) s)

-- ===== src/Server/Registry.antt =====
-- The handler registries of dispatch.go: maps from a message type's full name to a handler. The
-- two registries differ only in the type of their handlers.
use godotnet.Base.{String, Option, none, some, string_eq}
use godotnet.Base.Map.{Map, get, put}
use godotnet.Env.{Env}
use godotnet.Callbacks.{ClientHandler, RpcHandler}
use godotnet.Server.{Server}

module _ ⦃env : Env⦄ where
  open env use {Msg, full_name}

  -- A nil prototype or handler changes nothing.
  unfoldable pub register : {H : Type 0} → Map String H → Option Msg → Option H → Map String H
  register m none h = m
  register m (some prototype) none = m
  register m (some prototype) (some h) = put m (full_name prototype) h

  unfoldable pub lookup : {H : Type 0} → Map String H → Option Msg → Option H
  lookup m none = none
  lookup m (some msg) = get m (full_name msg)

  -- The same for the handlers of RPCs.
  abbrev pub rpc_register :
      Map String RpcHandler → Option Msg → Option RpcHandler → Map String RpcHandler
  rpc_register m prototype h = register m prototype h

  abbrev pub rpc_lookup : Map String RpcHandler → Option Msg → Option RpcHandler
  rpc_lookup m msg = lookup m msg

  unfoldable pub handle_client : Option Msg → Option ClientHandler → Server → Server
  handle_client prototype h s = record s { handlers = register s.handlers prototype h }

  unfoldable pub handle_rpc : Option Msg → Option RpcHandler → Server → Server
  handle_rpc prototype h s = record s { rpc_handlers = rpc_register s.rpc_handlers prototype h }

-- ===== src/Server/Dispatch.antt =====
-- dispatch.go: game messages and RPC requests, from the payload to the handler and back.
use godotnet.Base.{ℕ, String, true, false, Option, none, some, List, [], ◌∷◌, Bytes}
use godotnet.Errors.{Error, sentinel, handler_panic, rpc_handler_panic, error_text}
use godotnet.Control.{RpcRequest, RpcResponse, rpc_response}
use godotnet.Env.{Env, Field, message_field, other_field}
use godotnet.Callbacks.{Script, Outcome, returned, panicked, ClientHandler, RpcHandler}
use godotnet.Server.{Server}
use godotnet.Server.Registry.{rpc_lookup, lookup}
use godotnet.Server.Outbound.{schedule_disconnect, push_tcp}
use godotnet.Server.TickCtx.{TickCtx, session_view, view, run_calls}

-- A step that may end the dispatch, with the text for the caller of an RPC.
pub data Found (A : Type 0) : Type 0 where
  found : A → Found A
  rejected : String → Found A

abbrev pub or_reject : {A : Type 0} → Option A → String → Found A
or_reject none msg = rejected msg
or_reject (some a) msg = found a

infixl 5 ◌>>=◌
abbrev pub ◌>>=◌ : {A B : Type 0} → Found A → (A → Found B) → Found B
found a >>= f = f a
rejected msg >>= f = rejected msg

module _ ⦃env : Env⦄ where
  open env use {Msg, Game, unmarshal, marshal, marshal_frame, oneofs}

  -- The first populated message among the oneofs.
  unfoldable pub first_message : List (Option (Field Msg)) → Option Msg
  first_message [] = none
  first_message (none ∷ rest) = first_message rest
  first_message (some other_field ∷ rest) = first_message rest
  first_message (some (message_field m) ∷ rest) = some m

  unfoldable pub extract_oneof_body : Msg → Option Msg
  unfolding first_message
  extract_oneof_body msg = first_message (oneofs msg)

  -- The calls that a handler made before it returned or panicked.
  unfoldable pub after_calls : {A : Type 0} → Script A → Server → Server
  unfolding run_calls
  after_calls script s = run_calls script.calls (record s { game = script.game })

  unfoldable pub recover_client : Outcome Unit → ℕ → Server → Server
  unfolding schedule_disconnect
  recover_client (returned u) r s = s
  recover_client (panicked p) r s = schedule_disconnect (some r) (sentinel handler_panic) s

  unfoldable pub invoke_client_handler : ClientHandler → TickCtx → ℕ → Msg → Server → Server
  unfolding view session_view after_calls recover_client
  invoke_client_handler h tc r msg s =
      let script : Script Unit = h (view tc s) (session_view s r) msg s.game in
      recover_client script.outcome r (after_calls script s)

  -- The handler and the message for a game payload. Every failure is logged and dropped.
  unfoldable pub find_client_handler : Server → Bytes → Found (ClientHandler × Msg)
  unfolding lookup extract_oneof_body
  find_client_handler s payload = do
    prototype ← or_reject s.cfg.client_message_prototype "ClientMessagePrototype not set"
    msg ← or_reject (unmarshal prototype payload) "malformed client message"
    inner ← or_reject (extract_oneof_body msg) "client message has no oneof body"
    h ← or_reject (lookup s.handlers (some inner)) "no handler for message type"
    found (h, inner)

  unfoldable pub handle_found : Found (ClientHandler × Msg) → TickCtx → ℕ → Server → Server
  unfolding invoke_client_handler
  handle_found (rejected msg) tc r s = s
  handle_found (found (h, inner)) tc r s = invoke_client_handler h tc r inner s

  unfoldable pub dispatch_user_message : TickCtx → ℕ → Bytes → Server → Server
  unfolding find_client_handler handle_found
  dispatch_user_message tc r payload s = handle_found (find_client_handler s payload) tc r s

  -- sendRPCOK and sendRPCError, after marshalRPCResponseFrame.
  unfoldable pub send_rpc : ℕ → RpcResponse → Server → Server
  unfolding push_tcp
  send_rpc r response s = elim (marshal_frame (rpc_response response)) [
    | none ↦ s
    | some bytes ↦ push_tcp (some r) bytes s
  ]

  abbrev pub rpc_ok : ℕ → Bytes → RpcResponse
  rpc_ok cid payload = record {
    correlation_id = cid;
    ok = true;
    error_message = "";
    payload = payload;
  }

  abbrev pub rpc_error : ℕ → String → RpcResponse
  rpc_error cid msg = record { correlation_id = cid; ok = false; error_message = msg; payload = [] }

  unfoldable pub send_rpc_ok : ℕ → ℕ → Bytes → Server → Server
  unfolding send_rpc
  send_rpc_ok r cid payload s = send_rpc r (rpc_ok cid payload) s

  unfoldable pub send_rpc_error : ℕ → ℕ → String → Server → Server
  unfolding send_rpc
  send_rpc_error r cid msg s = send_rpc r (rpc_error cid msg) s

  unfoldable pub recover_rpc : Outcome (Option Msg × Option Error) → Option Msg × Option Error
  recover_rpc (returned result) = result
  recover_rpc (panicked p) = (none, some (sentinel rpc_handler_panic))

  unfoldable pub invoke_rpc_handler :
      RpcHandler → TickCtx → ℕ → Msg → Server → (Option Msg × Option Error) × Server
  unfolding view session_view after_calls recover_rpc
  invoke_rpc_handler h tc r msg s =
      let script : Script (Option Msg × Option Error) =
        h (view tc s) (session_view s r) msg s.game in
      (recover_rpc script.outcome, after_calls script s)

  unfoldable pub find_rpc_handler : Server → Bytes → Found (RpcHandler × Msg)
  unfolding lookup extract_oneof_body
  find_rpc_handler s payload = do
    prototype ← or_reject s.cfg.rpc_request_prototype "rpc not configured on server"
    msg ← or_reject (unmarshal prototype payload) "malformed rpc request"
    inner ← or_reject (extract_oneof_body msg) "rpc request has no body"
    h ← or_reject (rpc_lookup s.rpc_handlers (some inner)) "no handler for request type"
    found (h, inner)

  -- The response to what the handler returned.
  unfoldable pub answer : ℕ → Option Msg × Option Error → RpcResponse
  answer cid (resp, some err) = rpc_error cid (error_text err)
  answer cid (none, none) = rpc_ok cid []
  answer cid (some resp, none) = elim (marshal resp) [
    | none ↦ rpc_error cid "response marshal failed"
    | some bytes ↦ rpc_ok cid bytes
  ]

  unfoldable pub serve_rpc : Found (RpcHandler × Msg) → TickCtx → ℕ → ℕ → Server → Server
  unfolding invoke_rpc_handler send_rpc answer
  serve_rpc (rejected msg) tc r cid s = send_rpc r (rpc_error cid msg) s
  serve_rpc (found (h, inner)) tc r cid s =
      let (result, s') = invoke_rpc_handler h tc r inner s in send_rpc r (answer cid result) s'

  unfoldable pub dispatch_rpc : TickCtx → ℕ → RpcRequest → Server → Server
  unfolding find_rpc_handler serve_rpc
  dispatch_rpc tc r req s = serve_rpc (find_rpc_handler s req.payload) tc r req.correlation_id s

-- ===== src/Server/Responses.antt =====
-- The responses to RPC requests (dispatchRPC of dispatch.go).
use godotnet.Base.{String, ℕ, ◌≡◌, true, false, Option, none, some, [], Bytes, string_eq}
use godotnet.Errors.{Error, sentinel, error_text, rpc_handler_panic}
use godotnet.Control.{RpcRequest, RpcResponse, rpc_response}
use godotnet.Env.{Env}
use godotnet.Callbacks.{RpcHandler, Outcome, returned, panicked}
use godotnet.Server.{Server}
use godotnet.Server.Outbound.{push_tcp}
use godotnet.Server.TickCtx.{TickCtx, view, session_view}
use godotnet.Server.Registry.{rpc_lookup}
use godotnet.Server.Dispatch.{Found, serve_rpc, after_calls, extract_oneof_body}

module _ ⦃env : Env⦄ where
  open env use {Msg, unmarshal, marshal, marshal_frame}

  abbrev pub failed : ℕ → String → RpcResponse
  failed cid msg = record { correlation_id = cid; ok = false; error_message = msg; payload = [] }

  abbrev pub succeeded : ℕ → Bytes → RpcResponse
  succeeded cid bytes = record {
    correlation_id = cid;
    ok = true;
    error_message = "";
    payload = bytes;
  }

  -- What a handler's outcome tells the client.
  abbrev pub reply : ℕ → Outcome (Option Msg × Option Error) → RpcResponse
  reply cid (panicked p) = failed cid (error_text (sentinel rpc_handler_panic))
  reply cid (returned (resp, some err)) = failed cid (error_text err)
  reply cid (returned (none, none)) = succeeded cid []
  reply cid (returned (some resp, none)) = elim (marshal resp) [
    | none ↦ failed cid "response marshal failed"
    | some bytes ↦ succeeded cid bytes
  ]

  -- How an RPC ends: with an error before any handler runs, by what is missing first, or with the reply to
  -- the outcome of the one handler that is registered for the request's body.
  pub data Served (tc : TickCtx) (r : ℕ) (req : RpcRequest) (s : Server)
      : RpcResponse → Server → Type 0 where
    unconfigured :
        s.cfg.rpc_request_prototype ≡ none
        → Served tc r req s (failed req.correlation_id "rpc not configured on server") s
    malformed :
        (prototype : Msg)
        → s.cfg.rpc_request_prototype ≡ some prototype
        → unmarshal prototype req.payload ≡ none
        → Served tc r req s (failed req.correlation_id "malformed rpc request") s
    without_body :
        (prototype msg : Msg)
        → s.cfg.rpc_request_prototype ≡ some prototype
        → unmarshal prototype req.payload ≡ some msg
        → extract_oneof_body msg ≡ none
        → Served tc r req s (failed req.correlation_id "rpc request has no body") s
    unknown :
        (prototype msg inner : Msg)
        → s.cfg.rpc_request_prototype ≡ some prototype
        → unmarshal prototype req.payload ≡ some msg
        → extract_oneof_body msg ≡ some inner
        → rpc_lookup s.rpc_handlers (some inner) ≡ none
        → Served tc r req s (failed req.correlation_id "no handler for request type") s
    handled :
        (prototype msg inner : Msg) (h : RpcHandler)
        → s.cfg.rpc_request_prototype ≡ some prototype
        → unmarshal prototype req.payload ≡ some msg
        → extract_oneof_body msg ≡ some inner
        → rpc_lookup s.rpc_handlers (some inner) ≡ some h
        → Served tc r req s
            (reply req.correlation_id (h (view tc s) (session_view s r) inner s.game).outcome)
            (after_calls (h (view tc s) (session_view s r) inner s.game) s)

  -- A response on its way: queued for the session's writer, if it marshals.
  abbrev pub responded : ℕ → RpcResponse → Server → Server
  responded r resp t = elim (marshal_frame (rpc_response resp)) [
    | none ↦ t
    | some bytes ↦ push_tcp (some r) bytes t
  ]

  module _ (tc : TickCtx) (r : ℕ) (req : RpcRequest) (s : Server) where
    -- The end of a request, by what was found for it.
    abbrev Finish : Found (RpcHandler × Msg) → Type 0
    Finish f =
        (resp : RpcResponse) × (t : Server) × (serve_rpc f tc r req.correlation_id s
          ≡ responded r resp t)
        × (resp.correlation_id ≡ req.correlation_id)
        × Served tc r req s resp t

-- ===== src/Rpc/Served.antt =====
-- What a caller gets from a handler that Register (rpc/rpc.go) installed.
use text.Mathlib.Text.{◌==◌ as str_eq}
use text.Mathlib.TextEquality.{eq_iff}
use godotnet.Base.{
  ℕ, ◌≡◌, refl, ap, ◌∙◌, String, true, Option, none, some, Bytes, if◌then◌else◌, string_eq, [],
  arith,
}
use godotnet.Errors.{Error, sentinel, error_text, rpc_handler_panic}
use godotnet.Control.{RpcRequest, RpcResponse}
use godotnet.Env.{Env}
use godotnet.Callbacks.{Outcome, returned, panicked, Script, SessionView, View, RpcHandler}
use godotnet.Server.{Server}
use godotnet.Server.Registry.{lookup, handle_rpc}
use godotnet.Server.TickCtx.{TickCtx, view, session_view}
use godotnet.Server.Dispatch.{
  found, extract_oneof_body, find_rpc_handler, after_calls, recover_rpc, rpc_ok, rpc_error, answer,
  send_rpc, serve_rpc, dispatch_rpc,
}
use godotnet.Server.Setup.{lookup-register}
use godotnet.Rpc.{Handler, untyped, wrap, register_typed}

module _ ⦃env : Env⦄ where
  open env use {Msg, Game, full_name, unmarshal, marshal}

  module _ {Req Resp : Type 0} (cast : Msg → Option Req) (as_message : Req → Option Msg)
      (of_response : Resp → Option Msg) (type_name : Msg → String) where
    -- The response for what a typed handler does: the marshalled response if it returns no error
    -- (and no bytes for one that is nil), and otherwise the error's text, or that of
    -- ErrRPCHandlerPanic after a panic.
    abbrev pub typed_ok : ℕ → Option Msg → RpcResponse
    typed_ok cid none = rpc_ok cid []
    typed_ok cid (some resp) = elim (marshal resp) [
      | none ↦ rpc_error cid "response marshal failed"
      | some bytes ↦ rpc_ok cid bytes
    ]

    abbrev pub typed_response : ℕ → Outcome (Resp × Option Error) → RpcResponse
    typed_response cid (returned (resp, some err)) = rpc_error cid (error_text err)
    typed_response cid (returned (resp, none)) = typed_ok cid (of_response resp)
    typed_response cid (panicked p) = rpc_error cid (error_text (sentinel rpc_handler_panic))

    answer-ok : (cid : ℕ) (o : Option Msg) → answer cid (o, none) ≡ typed_ok cid o
    unfolding answer
    answer-ok cid none = refl
    answer-ok cid (some resp) = refl

    answer-untyped :
        (cid : ℕ) (o : Outcome (Resp × Option Error))
        → answer cid (recover_rpc (untyped cast as_message of_response type_name o))
          ≡ typed_response cid o
    unfolding answer recover_rpc
    answer-untyped cid (returned (resp, some err)) = refl
    answer-untyped cid (returned (resp, none)) = answer-ok cid (of_response resp)
    answer-untyped cid (panicked p) = refl

    found_handler :
        (s : Server) (payload : Bytes) (prototype outer inner : Msg) (h : RpcHandler)
        → s.cfg.rpc_request_prototype ≡ some prototype
        → unmarshal prototype payload ≡ some outer
        → extract_oneof_body outer ≡ some inner
        → lookup s.rpc_handlers (some inner) ≡ some h
        → find_rpc_handler s payload ≡ found (h, inner)
    unfolding find_rpc_handler
    found_handler s payload prototype outer inner h configured parsed body listed = ground arith

    abbrev untyped_script : Script (Resp × Option Error) → Script (Option Msg × Option Error)
    untyped_script script = record {
      calls = script.calls;
      game = script.game;
      outcome = untyped cast as_message of_response type_name script.outcome;
    }

    wrap-typed :
        (h : Handler Req Resp) (v : View) (sess : SessionView) (inner : Msg) (game : Game)
        (typed : Req)
        → cast inner ≡ some typed
        → wrap cast as_message of_response type_name h v sess inner game
          ≡ untyped_script (h v sess typed game)
    unfolding wrap
    wrap-typed h v sess inner game typed is_typed = rw (is_typed, wrap)

    -- What is installed under the prototype's name, as the dispatcher finds it.
    served :
        (h : Handler Req Resp) (t : Server) (tc : TickCtx) (r cid : ℕ) (inner : Msg) (typed : Req)
        → cast inner ≡ some typed
        → let script = h (view tc t) (session_view t r) typed t.game in
          serve_rpc (found (wrap cast as_message of_response type_name h, inner)) tc r cid t
          ≡ send_rpc r (typed_response cid script.outcome) (after_calls script t)
    unfolding serve_rpc wrap after_calls
    served h t tc r cid inner typed is_typed =
        let script = h (view tc t) (session_view t r) typed t.game in
        ap
          (λ (x : Script (Option Msg × Option Error)).
            send_rpc r (answer cid (recover_rpc x.outcome)) (after_calls x t))
          (wrap-typed h (view tc t) (session_view t r) inner t.game typed is_typed)
        ∙ ap (λ response. send_rpc r response (after_calls script t))
            (answer-untyped cid script.outcome)

    -- After Register for a prototype that is not nil, a request whose body has the prototype's name
    -- and is of the handler's type is answered by one call of that handler: with the marshalled
    -- response if the handler returns no error, and with the error's text if it returns one or
    -- panics. What was registered before for that name makes no difference.
    pub register_typed_lem :
        (prototype : Req) (h : Handler Req Resp) (s : Server) (tc : TickCtx) (r : ℕ)
        (req : RpcRequest) (config outer inner named : Msg) (typed : Req)
        → s.cfg.rpc_request_prototype ≡ some config
        → unmarshal config req.payload ≡ some outer
        → extract_oneof_body outer ≡ some inner
        → as_message prototype ≡ some named
        → full_name named ≡ full_name inner
        → cast inner ≡ some typed
        → (t : Server) × (register_typed cast as_message of_response type_name prototype
              (some h)
              (some s)
            ≡ some t)
          × (let script = h (view tc t) (session_view t r) typed t.game in
              dispatch_rpc tc r req t
              ≡ send_rpc r
                  (typed_response req.correlation_id script.outcome)
                  (after_calls script t))
    unfolding register_typed dispatch_rpc handle_rpc
    register_typed_lem prototype h s tc r req config outer inner named typed configured parsed body
          is_named same is_typed =
        let wrapped : RpcHandler = wrap cast as_message of_response type_name h in
        let t : Server = handle_rpc (some named) (some wrapped) s in
        let hit : str_eq (full_name named) (full_name inner) ≡ true =
          (eq_iff (full_name named) (full_name inner)).1 same in
        let listed : lookup t.rpc_handlers (some inner) ≡ some wrapped =
          lookup-register RpcHandler s.rpc_handlers named inner wrapped
          ∙ ap (λ b. if b then some wrapped else lookup s.rpc_handlers (some inner)) hit in
        (
          t,
          ap (λ m. some (handle_rpc m (some wrapped) s)) is_named,
          ap (λ f. serve_rpc f tc r req.correlation_id t)
                (found_handler t req.payload config outer inner wrapped configured parsed body
                  listed)
              ∙ served h t tc r req.correlation_id inner typed is_typed,
        )

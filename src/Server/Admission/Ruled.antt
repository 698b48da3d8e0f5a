-- ===== src/Server/Admission/Ruled.antt =====
-- tick.go: dispatchMessage from its first statement, against the table.
use godotnet.Base.{
  ℕ, ◌≡◌, refl, ap, ◌∙◌, String, Bool, true, false, Option, none, some, if◌then◌else◌, nat_eq,
  string_eq,
}
use godotnet.Base.Map.{get}
use godotnet.Control.{ClientFrame}
use godotnet.Events.{Event}
use godotnet.Env.{Env}
use godotnet.Server.{Server, modify}
use godotnet.Server.Outbound.{schedule_disconnect}
use godotnet.Server.TickCtx.{TickCtx}
use godotnet.Server.Tick.{
  resolve_addr, resolve, is_stale, malformed, route, dispatch_resolved, dispatch_message,
}
use godotnet.Server.Admission.{
  over_tcp, over_udp, judged, wire_of, perform, with_state, is_left_over,
}
use godotnet.Server.Admission.Bodies.{nobody-perform, somebody-perform}

module _ ⦃env : Env⦄ where
  open env use {unmarshal_frame}

  frame-perform :
      (tc : TickCtx) (is_udp : Bool) (addr : Option String) (sess : Option ℕ)
      (o : Option ClientFrame) (s : Server)
      → (elim o as (λ x. Server) [
        | none ↦ malformed is_udp sess s
        | some frame ↦ route tc is_udp addr sess frame s
      ])
        ≡ perform tc (judged (with_state sess s) (wire_of is_udp addr) o) s
  unfolding malformed route perform schedule_disconnect
  frame-perform tc false addr none none s = refl
  frame-perform tc false addr (some r) none s = refl
  frame-perform tc true addr none none s = refl
  frame-perform tc true addr (some r) none s = refl
  frame-perform tc false addr none (some none) s = refl
  frame-perform tc false addr (some r) (some none) s = refl
  frame-perform tc true addr none (some none) s = refl
  frame-perform tc true addr (some r) (some none) s = refl
  frame-perform tc false addr none (some (some body)) s = nobody-perform tc false addr body s
  frame-perform tc true addr none (some (some body)) s = nobody-perform tc true addr body s
  frame-perform tc false addr (some r) (some (some body)) s =
      somebody-perform tc false addr body r s
  frame-perform tc true addr (some r) (some (some body)) s = somebody-perform tc true addr body r s

  stale-left_over :
      (is_udp : Bool) (addr : Option String) (sess : Option ℕ) (s : Server)
      → is_stale is_udp sess s ≡ is_left_over (wire_of is_udp addr) sess s
  unfolding is_stale
  stale-left_over false addr none s = refl
  stale-left_over false addr (some r) s = refl
  stale-left_over true addr none s = refl
  stale-left_over true addr (some r) s = refl

  resolved-perform :
      (tc : TickCtx) (e : Event) (sess : Option ℕ) (s : Server)
      → dispatch_resolved tc e sess s ≡ (
          if is_left_over (wire_of e.is_udp e.udp_addr) sess s
          then s
          else perform tc
              (judged (with_state sess s) (wire_of e.is_udp e.udp_addr) (unmarshal_frame e.payload))
              s)
  unfolding dispatch_resolved
  resolved-perform tc e sess s =
      ap (λ t. if is_stale e.is_udp sess s then s else t)
        (frame-perform tc e.is_udp e.udp_addr sess (unmarshal_frame e.payload) s)
      ∙ ap
          (λ b.
            if b
            then s
            else perform tc
                (judged (with_state sess s) (wire_of e.is_udp e.udp_addr)
                  (unmarshal_frame e.payload))
                s)
          (stale-left_over e.is_udp e.udp_addr sess s)

  -- The session that a message is from, and the server that has noted its time.
  abbrev pub sender : TickCtx → Event → Server → Option ℕ × Server
  sender tc e s = elim (wire_of e.is_udp e.udp_addr) [
    | over_tcp ↦ (e.sess, s)
    | over_udp none ↦ (none, s)
    | over_udp (some addr) ↦ elim (get s.udp_sessions addr) [
      | none ↦ (none, s)
      | some r ↦ (some r, modify r (λ x. record x { last_seen_unix_nano = tc.now }) s)
    ]
  ]

  pub resolve-sender : (tc : TickCtx) (e : Event) (s : Server) → resolve tc e s ≡ sender tc e s
  unfolding resolve resolve_addr modify
  resolve-sender tc e s = by_wire e.is_udp e.udp_addr
    where
      by_addr :
          (o : Option ℕ)
          → (elim o as (λ x. Option ℕ × Server) [
            | none ↦ (none, s)
            | some r ↦ (some r, modify r (λ x. record x { last_seen_unix_nano = tc.now }) s)
          ])
            ≡ (elim o as (λ x. Option ℕ × Server) [
              | none ↦ (none, s)
              | some r ↦ (some r, modify r (λ x. record x { last_seen_unix_nano = tc.now }) s)
            ])
      by_addr none = refl
      by_addr (some r) = refl

      by_wire :
          (b : Bool) (addr : Option String)
          → (if b then resolve_addr tc addr s else (e.sess, s))
            ≡ (elim (wire_of b addr) as (λ x. Option ℕ × Server) [
              | over_tcp ↦ (e.sess, s)
              | over_udp none ↦ (none, s)
              | over_udp (some a) ↦ elim (get s.udp_sessions a) as (λ x. Option ℕ × Server) [
                | none ↦ (none, s)
                | some r ↦ (some r, modify r (λ x. record x { last_seen_unix_nano = tc.now }) s)
              ]
            ])
      by_wire false addr = refl
      by_wire true none = refl
      by_wire true (some a) = by_addr (get s.udp_sessions a)

  -- What the table makes of a message that is from `sess`.
  abbrev pub ruled : TickCtx → Event → Option ℕ × Server → Server
  ruled tc e (sess, s) =
      let wire = wire_of e.is_udp e.udp_addr in
      if is_left_over wire sess s
      then s
      else perform tc (judged (with_state sess s) wire (unmarshal_frame e.payload)) s

  -- Each message does exactly what the table says. A login is heard over TCP before the session has
  -- logged in, a handshake over UDP from anyone, a pong from any session, a game message from a
  -- ready session over either, and an RPC from a ready session over TCP; bytes that are no frame
  -- expel their session if they came over TCP. All else is dropped, and so is what comes over TCP
  -- from a player who is not listed.
  pub dispatch_message_lem :
      (tc : TickCtx) (e : Event) (s : Server) → dispatch_message tc e s ≡ ruled tc e (sender tc e s)
  unfolding dispatch_message
  dispatch_message_lem tc e s =
      let (sess, s') = resolve tc e s in
      resolved-perform tc e sess s' ∙ ap (ruled tc e) (resolve-sender tc e s)

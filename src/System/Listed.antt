-- ===== src/System/Listed.antt =====
-- Who takes a player's place in the map of sessions (server.go, handshake.go, tick.go).
use godotnet.Base.{
  ℕ, ◌≡◌, ◌≢◌, ◌⊎◌, refl, sym, ap, subst, ◌∙◌, inl, inr, String, Bool, true, false, Option, none,
  some, List, ◌∷◌, ◌==◌, ==_iff, if◌then◌else◌, Bool-cases, nat_eq, string_eq,
}
use godotnet.Base.Map.{Map, get, delete, get-put, get-delete}
use godotnet.Errors.{Error}
use godotnet.Control.{UdpHandshake}
use godotnet.Events.{Event, EventKind, event_message, event_connect, event_disconnect}
use godotnet.Env.{Env}
use godotnet.Server.{Server, modify}
use godotnet.Server.Cleanup.{forget_player, cleanup_session}
use godotnet.Server.Handshake.{handle_login, handle_udp_handshake}
use godotnet.Server.Intake.{accept_conn}
use godotnet.Server.TickCtx.{TickCtx}
use godotnet.Server.Ping.{run_ping_tick}
use godotnet.Server.Tick.{by_kind, handle_event}
use godotnet.Server.Quiet.Handlers.{ping_tick-Quiet, on_tick-Quiet}
use godotnet.Server.Route.{IsAcross, dispatch_message-R, connect_event-R}
use godotnet.Server.Access.{LoginOutcome, entered, turned_away, handle_login_lem}
use godotnet.Server.Pairing.{PairingOutcome, paired, not_paired, handle_udp_handshake_lem}
use godotnet.Server.Departed.{sessions-cleanup}
use godotnet.System.{IoStep}
use godotnet.System.Rounds.{IoStep-cases}
use godotnet.System.Interleaved.{
  Phase, handling, Move, other, began, handled, ended, begin_tick, end_tick, Moves, none_yet,
  and_then,
}

module _ ⦃env : Env⦄ where
  -- Every player keeps its session.
  abbrev pub Kept : Server → Server → Type 0
  Kept s t = (id r : ℕ) → get s.sessions id ≡ some r → get t.sessions id ≡ some r

  pub same-Kept : (s t : Server) → t.sessions ≡ s.sessions → Kept s t
  same-Kept s t e id r h = ap (λ m. get m id) e ∙ h

  Login-Kept : (r : ℕ) (s t : Server) → LoginOutcome r s t → Kept s t
  Login-Kept r s t (entered j absent listed same_id state aside) id q h =
      ap (λ m. get m id) listed
      ∙ get-put s.sessions j id r
      ∙ elim (Bool-cases (j == id))
          as (λ x. (if j == id then some r else get s.sessions id) ≡ some q) [
            | inl hit ↦
                let both : none ≡ some q =
                  sym absent ∙ ap (get s.sessions) ((==_iff j id).0 hit) ∙ h in
                cc
            | inr miss ↦ rw miss h
          ]
  Login-Kept r s t (turned_away same state over aside) id q h = same-Kept s t same id q h

  Pairing-Kept :
      (addr : String) (hs : UdpHandshake) (s t : Server) → PairingOutcome addr hs s t → Kept s t
  Pairing-Kept addr hs s t (not_paired why same udp listed) = same-Kept s t listed
  Pairing-Kept addr hs s t (paired r found token waiting now others udp listed) =
      same-Kept s t listed

  pub Kept-across : IsAcross Kept
  Kept-across = record {
    quiet = λ s t k. same-Kept s t k.sessions;
    both = λ s t u f g id r h. g id r (f id r h);
    logs_in = λ r l s fresh. Login-Kept r s (handle_login r l s) (handle_login_lem r l s fresh);
    pairs = λ addr hs s.
        Pairing-Kept addr hs s (handle_udp_handshake addr hs s)
          (handle_udp_handshake_lem addr hs s);
  }

  forget_player-listed :
      (r : ℕ) (s : Server) (id q : ℕ)
      → get s.sessions id ≡ some q
      → (get (forget_player r s).sessions id ≡ some q)
        ⊎ ((get (forget_player r s).sessions id ≡ none) × ((s.heap r).id ≡ id) × (id ≢ 0))
  unfolding forget_player
  forget_player-listed r s id q h = by_zero ((s.heap r).id == 0) refl
    where
      by_id :
          (b : Bool)
          → ((s.heap r).id == id) ≡ b
          → ((s.heap r).id == 0) ≡ false
          → (get (delete s.sessions (s.heap r).id) id ≡ some q)
            ⊎ ((get (delete s.sessions (s.heap r).id) id ≡ none) × ((s.heap r).id ≡ id) × (id ≢ 0))
      by_id true hit named =
          let same : (s.heap r).id ≡ id = (==_iff (s.heap r).id id).0 hit in
          inr (
            get-delete s.sessions (s.heap r).id id
                ∙ ap (λ b. if b then none else get s.sessions id) hit,
            same,
            λ e.
                let odd : ((s.heap r).id == 0) ≡ true = (==_iff (s.heap r).id 0).1 (same ∙ e) in cc,
          )
      by_id false miss named = inl (
          get-delete s.sessions (s.heap r).id id
          ∙ ap (λ b. if b then none else get s.sessions id) miss
          ∙ h)

      by_zero :
          (b : Bool)
          → ((s.heap r).id == 0) ≡ b
          → let t = (if b then s else record s { sessions = delete s.sessions (s.heap r).id }) in
            (get t.sessions id ≡ some q)
            ⊎ ((get t.sessions id ≡ none) × ((s.heap r).id ≡ id) × (id ≢ 0))
      by_zero true e = inl h
      by_zero false e = by_id ((s.heap r).id == id) refl e

  -- A cleanup takes one entry out at most: that of the session's player, if it is not 0.
  pub cleanup-listed :
      (r : ℕ) (reason : Option Error) (s : Server) (id q : ℕ)
      → get s.sessions id ≡ some q
      → let t = cleanup_session (some r) reason s in
        (get t.sessions id ≡ some q)
        ⊎ ((get t.sessions id ≡ none) × ((s.heap r).id ≡ id) × (id ≢ 0))
  cleanup-listed r reason s id q h =
      subst
        (λ (m : Map ℕ ℕ).
          (get m id ≡ some q) ⊎ ((get m id ≡ none) × ((s.heap r).id ≡ id) × (id ≢ 0)))
        (sym (sessions-cleanup r reason s)) (forget_player-listed r s id q h)

  pub IoStep-Kept : {pending : List Event} {s t : Server} → IoStep pending s t → Kept s t
  unfolding accept_conn modify
  IoStep-Kept {pending} {s} {t} step = elim (IoStep-cases pending s t step) [
    | inl k ↦ same-Kept s t k.sessions
    | inr (r, fresh, e) ↦ subst (Kept s) (sym e) (same-Kept s (accept_conn r s) refl)
  ]

  -- The tick is about to handle a disconnect event of a session of the player `id`, who is not 0.
  pub data IsLeaving (id : ℕ) (s : Server) : Phase → Type 0 where
    leaving :
        (tc : TickCtx) (e : Event) (es : List Event) (r : ℕ)
        → e.kind ≡ event_disconnect
        → e.sess ≡ some r
        → (s.heap r).id ≡ id
        → id ≢ 0
        → IsLeaving id s (handling tc (e ∷ es))

  event-listed :
      (tc : TickCtx) (e : Event) (es : List Event) (s : Server) (id q : ℕ)
      → get s.sessions id ≡ some q
      → let t = handle_event tc e s in
        (get t.sessions id ≡ some q)
        ⊎ ((get t.sessions id ≡ none) × IsLeaving id s (handling tc (e ∷ es)))
  unfolding handle_event cleanup_session
  event-listed tc e es s id q h = kinds e.kind refl
    where
      After : Server → Type 0
      After t =
          (get t.sessions id ≡ some q)
          ⊎ ((get t.sessions id ≡ none) × IsLeaving id s (handling tc (e ∷ es)))

      cleaned :
          (o : Option ℕ)
          → e.kind ≡ event_disconnect
          → e.sess ≡ o
          → After (cleanup_session o e.reason s)
      cleaned none k p = inl h
      cleaned (some r) k p = left (cleanup-listed r e.reason s id q h)
        where
          left :
              (get (cleanup_session (some r) e.reason s).sessions id ≡ some q)
                ⊎ ((get (cleanup_session (some r) e.reason s).sessions id ≡ none)
                    × ((s.heap r).id ≡ id)
                    × (id ≢ 0))
              → After (cleanup_session (some r) e.reason s)
          left (inl stays) = inl stays
          left (inr (gone, same, named)) = inr (gone, leaving tc e es r k p same named)

      kinds : (k : EventKind) → e.kind ≡ k → After (by_kind k tc e s)
      kinds event_message k = inl (dispatch_message-R Kept Kept-across tc e s id q h)
      kinds event_connect k = inl (connect_event-R Kept Kept-across e.sess s id q h)
      kinds event_disconnect k = cleaned e.sess k refl

  end_tick-Kept : (tc : TickCtx) (s : Server) → Kept s (end_tick tc s)
  unfolding end_tick
  end_tick-Kept tc s =
      let s' : Server = run_ping_tick tc s in
      same-Kept s (end_tick tc s)
        ((on_tick-Quiet s'.on_tick tc s').sessions ∙ (ping_tick-Quiet tc s).sessions)

  -- Nobody takes the place of a player who is connected: whatever happens next in the server, the
  -- player's entry in the map of sessions leads to the same session as before, or it is gone, and
  -- then the tick was at a disconnect event of a session of that player, who is not 0.
  pub Move-listed :
      {s : Server} {p : Phase} {t : Server} {p' : Phase} (id q : ℕ)
      → Move s p t p'
      → get s.sessions id ≡ some q
      → (get t.sessions id ≡ some q) ⊎ ((get t.sessions id ≡ none) × IsLeaving id s p)
  unfolding begin_tick
  Move-listed id q (other step) h = inl (IoStep-Kept step id q h)
  Move-listed id q (began now) h = inl h
  Move-listed {s} id q (handled {tc = tc} {e = e} {es = es}) h = event-listed tc e es s id q h
  Move-listed {s} id q (ended {tc = tc}) h = inl (end_tick-Kept tc s id q h)

  IsLeaving-named : {id : ℕ} {s : Server} {p : Phase} → IsLeaving id s p → id ≢ 0
  IsLeaving-named (leaving tc e es r k p same named) = named

  -- A session that is listed as player 0 is never taken off the map: it is listed at every later
  -- moment of every run, whatever disconnects of it are handled meanwhile.
  pub Moves-zero :
      {s : Server} {p : Phase} {t : Server} {p' : Phase} (q : ℕ)
      → Moves s p t p'
      → get s.sessions 0 ≡ some q
      → get t.sessions 0 ≡ some q
  Moves-zero q none_yet h = h
  Moves-zero q (and_then before move) h = elim (Move-listed 0 q move (Moves-zero q before h)) [
    | inl stays ↦ stays
    | inr (gone, why) ↦ absurd (IsLeaving-named why refl)
  ]

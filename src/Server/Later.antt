-- ===== src/Server/Later.antt =====
-- What no event of a tick undoes of a session that has logged in: its player, and that no entry of
-- the maps leads to it (handshake.go, dispatch.go, server.go).
use godotnet.Base.{
  ℕ, ◌≡◌, ◌≢◌, refl, sym, ap, subst, ◌∙◌, inl, inr, String, Bool, true, false, Option, none, some,
  List, ◌==◌, ==_iff, if◌then◌else◌, Bool-cases, nat_eq, string_eq,
}
use godotnet.Base.Map.{get, delete, get-put-cases, get-delete-some}
use godotnet.Errors.{Error}
use godotnet.Control.{UdpHandshake}
use godotnet.Server.Handshake.{handle_login, handle_udp_handshake}
use godotnet.Events.{Event}
use godotnet.Session.{Session, session_pre_login, session_ready}
use godotnet.Env.{Env}
use godotnet.Callbacks.{OnDisconnect}
use godotnet.Server.{Server}
use godotnet.Server.TickCtx.{TickCtx}
use godotnet.Server.Cleanup.{
  invoke_on_disconnect, forget_player, forget_addr, close_tcp, close_channel, cleanup_session,
}
use godotnet.Server.Tick.{handle_event, handle_events}
use godotnet.Server.Quiet.{identity, Quiet}
use godotnet.Server.Quiet.Sends.{close-Quiet}
use godotnet.Server.Route.{IsAcross, handle_event-R, handle_events-R}
use godotnet.Server.Invariant.Cleanup.{close_channel-Quiet}
use godotnet.Server.Access.{LoginOutcome, entered, turned_away, handle_login_lem}
use godotnet.Server.Pairing.{PairingOutcome, paired, not_paired, handle_udp_handshake_lem}
use godotnet.Server.Departed.{udp-forget_player, maps-cleanup, sessions-cleanup}

module _ ⦃env : Env⦄ where
  -- A session that has logged in.
  abbrev pub HasPlayer : ℕ → Server → Type 0
  HasPlayer q s = (s.heap q).auth_state ≢ session_pre_login

  abbrev pub IsUnlisted : ℕ → Server → Type 0
  IsUnlisted q s = (id : ℕ) → get s.sessions id ≢ some q

  abbrev pub IsUnpaired : ℕ → Server → Type 0
  IsUnpaired q s = (a : String) → get s.udp_sessions a ≢ some q

  -- What time keeps of a session that has logged in: its player, and that it is not listed or
  -- paired anew once it is neither.
  pub record Later (q : ℕ) (s t : Server) : Type 0 where
    pub player : HasPlayer q s → HasPlayer q t × ((t.heap q).id ≡ (s.heap q).id)
    pub unlisted : HasPlayer q s → IsUnlisted q s → IsUnlisted q t
    pub unpaired : HasPlayer q s → IsUnlisted q s → IsUnpaired q s → IsUnpaired q t

  pub Quiet-Later : (q : ℕ) (s t : Server) → Quiet s t → Later q s t
  Quiet-Later q s t k = record {
    player = λ h. (λ e. h (sym (ap (λ x. x.1) (k.same q)) ∙ e), ap (λ x. x.0) (k.same q));
    unlisted = λ h u id e. u id (ap (λ m. get m id) (sym k.sessions) ∙ e);
    unpaired = λ h u v a e. v a (ap (λ m. get m a) (sym k.udp_sessions) ∙ e);
  }

  pub Later-trans : (q : ℕ) (s t u : Server) → Later q s t → Later q t u → Later q s u
  Later-trans q s t u p r = record {
    player =
        λ h. let (h', same) = p.player h in let (h'', same') = r.player h' in (h'', same' ∙ same);
    unlisted = λ h n. r.unlisted (p.player h).0 (p.unlisted h n);
    unpaired = λ h n m. r.unpaired (p.player h).0 (p.unlisted h n) (p.unpaired h n m);
  }

  Login-Later :
      (q r : ℕ) (s t : Server)
      → (s.heap r).auth_state ≡ session_pre_login
      → LoginOutcome r s t
      → Later q s t
  Login-Later q r s t fresh (entered id absent listed same_id state aside) = record {
    player = λ h.
        let same = aside.others q (other h) in
        (λ e. h (sym (ap (λ x. x.1) same) ∙ e), ap (λ x. x.0) same);
    unlisted = λ h n j e.
        elim (get-put-cases s.sessions id j r q (ap (λ m. get m j) (sym listed) ∙ e)) [
          | inl (k, p) ↦ other h p
          | inr old ↦ n j old
        ];
    unpaired = λ h n m a e. m a (ap (λ u. get u a) (sym aside.udp_sessions) ∙ e);
  }
    where
      other : HasPlayer q s → q ≢ r
      other h p = h (ap (λ p'. (s.heap p').auth_state) p ∙ fresh)
  Login-Later q r s t fresh (turned_away same state over aside) = record {
    player = λ h.
        let e = aside.others q (other h) in (λ c. h (sym (ap (λ x. x.1) e) ∙ c), ap (λ x. x.0) e);
    unlisted = λ h n j e. n j (ap (λ m. get m j) (sym same) ∙ e);
    unpaired = λ h n m a e. m a (ap (λ u. get u a) (sym aside.udp_sessions) ∙ e);
  }
    where
      other : HasPlayer q s → q ≢ r
      other h p = h (ap (λ p'. (s.heap p').auth_state) p ∙ fresh)

  Pairing-Later :
      (q : ℕ) (addr : String) (hs : UdpHandshake) (s t : Server)
      → PairingOutcome addr hs s t
      → Later q s t
  Pairing-Later q addr hs s t (not_paired why same udp listed) = record {
    player = λ h. (λ e. h (sym (ap (λ x. x.1) (same q)) ∙ e), ap (λ x. x.0) (same q));
    unlisted = λ h n id e. n id (ap (λ m. get m id) (sym listed) ∙ e);
    unpaired = λ h n m a e. m a (ap (λ u. get u a) (sym udp) ∙ e);
  }
  Pairing-Later q addr hs s t (paired r found token waiting now others udp listed) = record {
    player = λ h. elim (Bool-cases (q == r)) [
      | inl hit ↦ ready ((==_iff q r).0 hit)
      | inr miss ↦
          let same = others q (λ p. let hit : (q == r) ≡ true = (==_iff q r).1 p in cc) in
          (λ e. h (sym (ap (λ x. x.1) same) ∙ e), ap (λ x. x.0) same)
    ];
    unlisted = λ h n id e. n id (ap (λ m. get m id) (sym listed) ∙ e);
    unpaired = λ h n m a e.
        elim (get-put-cases s.udp_sessions addr a r q (ap (λ u. get u a) (sym udp) ∙ e)) [
          | inl (k, p) ↦ n hs.player_id (found ∙ ap some (sym p))
          | inr old ↦ m a old
        ];
  }
    where
      ready : q ≡ r → HasPlayer q t × ((t.heap q).id ≡ (s.heap q).id)
      ready p =
          let at_r : HasPlayer r t × ((t.heap r).id ≡ (s.heap r).id) = (
            λ e. let odd : session_ready ≡ session_pre_login = sym (ap (λ x. x.1) now) ∙ e in (cc),
            ap (λ x. x.0) now,
          ) in
          subst (λ p'. HasPlayer p' t × ((t.heap p').id ≡ (s.heap p').id)) (sym p) at_r

  Later-across : (q : ℕ) → IsAcross (Later q)
  Later-across q = record {
    quiet = Quiet-Later q;
    both = Later-trans q;
    logs_in =
        λ r l s fresh. Login-Later q r s (handle_login r l s) fresh (handle_login_lem r l s fresh);
    pairs = λ addr hs s.
        Pairing-Later q addr hs s (handle_udp_handshake addr hs s)
          (handle_udp_handshake_lem addr hs s);
  }

  heap-forget_player : (r : ℕ) (s : Server) → (forget_player r s).heap ≡ s.heap
  unfolding forget_player
  heap-forget_player r s = elim (Bool-cases ((s.heap r).id == 0)) [
    | inl hit ↦ rw hit
    | inr miss ↦ rw miss
  ]

  heap-forget_addr : (addr : Option String) (s : Server) → (forget_addr addr s).heap ≡ s.heap
  unfolding forget_addr
  heap-forget_addr none s = refl
  heap-forget_addr (some a) s = refl

  pub heap-on_disconnect :
      (cb : Option OnDisconnect) (r : ℕ) (reason : Option Error) (s : Server)
      → (invoke_on_disconnect cb r reason s).heap ≡ s.heap
  unfolding invoke_on_disconnect
  heap-on_disconnect none r reason s = refl
  heap-on_disconnect (some cb) r reason s = refl

  -- A cleanup changes the identity of no session.
  pub identity-cleanup :
      (r : ℕ) (reason : Option Error) (s : Server) (q : ℕ)
      → identity ((cleanup_session (some r) reason s).heap q) ≡ identity (s.heap q)
  unfolding cleanup_session
  identity-cleanup r reason s q =
      let x : Session = s.heap r in
      let s1 : Server = forget_addr x.udp_addr (forget_player r s) in
      let s2 : Server = close_tcp r s1 in
      let s3 : Server = close_channel x.send_tcp r s2 in
      ap (λ h. identity (h q)) (heap-on_disconnect s.cfg.on_disconnect r reason s3)
      ∙ (close_channel-Quiet x.send_tcp r s2).same q
      ∙ (close-Quiet r s1).same q
      ∙ ap (λ h. identity (h q)) (heap-forget_addr x.udp_addr (forget_player r s))
      ∙ ap (λ h. identity (h q)) (heap-forget_player r s)

  pub listed-forget_player :
      (r id q : ℕ) (s : Server)
      → get (forget_player r s).sessions id ≡ some q
      → get s.sessions id ≡ some q
  unfolding forget_player
  listed-forget_player r id q s = by_id ((s.heap r).id == 0)
    where
      by_id :
          (b : Bool)
          → get
              (if b then s else record s { sessions = delete s.sessions (s.heap r).id }).sessions
              id
            ≡ some q
          → get s.sessions id ≡ some q
      by_id true e = e
      by_id false e = get-delete-some s.sessions (s.heap r).id id q e

  paired-forget_addr :
      (addr : Option String) (a : String) (q : ℕ) (s : Server)
      → get (forget_addr addr s).udp_sessions a ≡ some q
      → get s.udp_sessions a ≡ some q
  unfolding forget_addr
  paired-forget_addr none a q s e = e
  paired-forget_addr (some b) a q s e = get-delete-some s.udp_sessions b a q e

  Cleanup-Later :
      (q r : ℕ) (reason : Option Error) (s : Server) → Later q s (cleanup_session (some r) reason s)
  Cleanup-Later q r reason s =
      let same = identity-cleanup r reason s q in
      record {
        player = λ h. (λ e. h (sym (ap (λ x. x.1) same) ∙ e), ap (λ x. x.0) same);
        unlisted = λ h n id e. n id (
            listed-forget_player r id q s
              (ap (λ m. get m id) (sym (sessions-cleanup r reason s)) ∙ e));
        unpaired = λ h n m a e. m a (
            ap (λ u. get u a) (sym (udp-forget_player r s))
            ∙ paired-forget_addr (s.heap r).udp_addr a q (forget_player r s)
                (ap (λ k. get k.1 a) (sym (maps-cleanup r reason s)) ∙ e));
      }

  pub event-Later :
      (q : ℕ) (tc : TickCtx) (e : Event) (s : Server) → Later q s (handle_event tc e s)
  event-Later q tc e s =
      handle_event-R (Later q) (Later-across q) (λ r reason t. Cleanup-Later q r reason t) tc e s

  pub events-Later :
      (q : ℕ) (tc : TickCtx) (es : List Event) (s : Server) → Later q s (handle_events tc es s)
  events-Later q tc es s =
      handle_events-R (Later q) (Later-across q) (λ r reason t. Cleanup-Later q r reason t) tc es s

-- ===== src/Server/Granted.antt =====
-- Which logins are granted (handleLogin of handshake.go), by the configuration, the credentials and what
-- Authenticate says.
use Prim.Native.String.{◌++◌ as append}
use godotnet.Base.{
  ℕ, ◌≡◌, refl, sym, ap, subst, ◌∙◌, String, Option, true, none, some, nat_eq, string_eq,
}
use godotnet.Base.Map.{get, put}
use godotnet.Errors.{Error, sentinel, suffixed, auth_rejected}
use godotnet.Control.{Login}
use godotnet.Session.{session_pre_login, session_awaiting_udp}
use godotnet.Env.{Env}
use godotnet.Callbacks.{Authenticate, Outcome, returned, panicked}
use godotnet.Server.{Server}
use godotnet.Server.Handshake.{
  Verdict, accept, refuse, or_refuse, ◌>>=◌, misconfigured, turn_away, credentials_of,
  call_authenticate, recovered, player_of, conclude, authenticate_then, handle_login,
}
use godotnet.Server.Access.{turn_away-denied, admit-Quiet, enter-heap}
use godotnet.Server.Stages.{player_of-absent, login-admit, login-lists}

bind-accept :
    {A B : Type 0} (o : Option A) (msg : String) (reason : Error) (f : A → Verdict B) (b : B)
    → or_refuse o msg reason >>= f ≡ accept b
    → (a : A) × (o ≡ some a) × (f a ≡ accept b)
bind-accept none msg reason f b e = cc
bind-accept (some a) msg reason f b e = (a, refl, e)

accept-injective : {A : Type 0} (a b : A) → accept a ≡ accept b → a ≡ b
accept-injective a b e = ap (λ v. elim v [ accept x ↦ x | refuse msg reason ↦ a ]) e

module _ ⦃env : Env⦄ where
  open env use {Msg, Game, unmarshal}

  -- The server has Authenticate and a prototype, the credentials parse, Authenticate returns the player
  -- without an error, and the player is not connected.
  pub record IsGranted (s : Server) (l : Login) (id : ℕ) : Type 0 where
    pub authenticate : Authenticate
    pub prototype : Msg
    pub creds : Msg
    pub game : Game
    pub configured : s.cfg.authenticate ≡ some authenticate
    pub typed : s.cfg.login_prototype ≡ some prototype
    pub parsed : unmarshal prototype l.credentials ≡ some creds
    pub approved : authenticate creds s.game ≡ (returned (id, none), game)
    pub absent : get s.sessions id ≡ none

  IsGranted-credentials :
      (s : Server) (l : Login) (id : ℕ) (g : IsGranted s l id)
      → credentials_of s l ≡ accept (g.authenticate, g.creds)
  unfolding credentials_of
  IsGranted-credentials s l id g = rw (g.configured, g.typed, g.parsed)

  credentials-found :
      (s : Server) (l : Login) (a : Authenticate) (c : Msg)
      → credentials_of s l ≡ accept (a, c)
      → (p : Msg) × (s.cfg.authenticate ≡ some a)
        × (s.cfg.login_prototype ≡ some p)
        × (unmarshal p l.credentials ≡ some c)
  unfolding credentials_of misconfigured
  credentials-found s l a c e =
      let (a', given, e1) = bind-accept s.cfg.authenticate _ _ _ (a, c) e in
      let (p, typed, e2) = bind-accept s.cfg.login_prototype _ _ _ (a, c) e1 in
      let (c', parsed, e3) = bind-accept (unmarshal p l.credentials) _ _ _ (a, c) e2 in
      let same : (a', c') ≡ (a, c) = accept-injective (a', c') (a, c) e3 in
      (p, given ∙ ap (λ x. some x.0) same, typed, parsed ∙ ap (λ x. some x.1) same)

  recovered-none :
      (o : Outcome (ℕ × Option Error)) (id : ℕ) → recovered o ≡ (id, none) → o ≡ returned (id, none)
  unfolding recovered
  recovered-none (returned result) id e = ap returned e
  recovered-none (panicked p) id e =
      let odd : some (suffixed (sentinel auth_rejected) (append ": panic " p)) ≡ none =
        ap (λ x. x.1) e in
      cc

  player_of-found :
      (result : ℕ × Option Error) (id : ℕ) (s : Server)
      → player_of result s ≡ accept id
      → (result ≡ (id, none)) × (get s.sessions id ≡ none)
  unfolding player_of
  player_of-found (j, some err) id s e = cc
  player_of-found (j, none) id s e = entry (get s.sessions j) refl e
    where
      pair : ℕ → ℕ × Option Error
      pair n = (n, none)

      entry :
          (o : Option ℕ)
          → get s.sessions j ≡ o
          → (elim o as (λ x. Verdict ℕ) [
            | none ↦ accept j
            | some r ↦ refuse "already connected" (suffixed (sentinel auth_rejected) ": duplicate")
          ])
            ≡ accept id
          → (pair j ≡ pair id) × (get s.sessions id ≡ none)
      entry none absent h =
          let same : j ≡ id = accept-injective j id h in
          (ap pair same, ap (get s.sessions) (sym same) ∙ absent)
      entry (some r) there h = cc

  -- `granted`: the session is listed as the player, and awaits its datagram. `denied`: the players are as
  -- they were, the session has not logged in, and its disconnect has fired.
  pub data Decision (r : ℕ) (l : Login) (s t : Server) : Type 0 where
    granted :
        (id : ℕ)
        → IsGranted s l id
        → t.sessions ≡ put s.sessions id r
        → (t.heap r).id ≡ id
        → (t.heap r).auth_state ≡ session_awaiting_udp
        → Decision r l s t
    denied :
        ((id : ℕ) → ¬ IsGranted s l id)
        → t.sessions ≡ s.sessions
        → (t.heap r).auth_state ≡ session_pre_login
        → (t.heap r).disconnect_once ≡ true
        → Decision r l s t

  login-granted :
      (r id : ℕ) (l : Login) (s : Server) → IsGranted s l id → Decision r l s (handle_login r l s)
  login-granted r id l s g =
      let good = IsGranted-credentials s l id g in
      let path = login-admit r id l g.authenticate g.creds g.game s good g.approved g.absent in
      let (listed, same_id, state) =
        login-lists r id l g.authenticate g.creds g.game s good g.approved g.absent in
      let (s1, token, before, after) = admit-Quiet r id g.creds (record s { game = g.game }) in
      let (same_id', state', put_in, aside) = enter-heap r id token s1 in
      granted id g
        (ap (λ (t : Server). t.sessions) path
          ∙ after.sessions
          ∙ put_in
          ∙ ap (λ m. put m id r) before.sessions)
        same_id state

  pub login-listed :
      (r id : ℕ) (l : Login) (s : Server)
      → IsGranted s l id
      → get (handle_login r l s).sessions id ≡ some r
  login-listed r id l s g =
      (login-lists r id l g.authenticate g.creds g.game s (IsGranted-credentials s l id g)
        g.approved g.absent).0

  away :
      (r : ℕ) (l : Login) (msg : String) (reason : Error) (s t : Server)
      → t.sessions ≡ s.sessions
      → (t.heap r).auth_state ≡ session_pre_login
      → ((id : ℕ) → ¬ IsGranted s l id)
      → Decision r l s (turn_away r msg reason t)
  away r l msg reason s t same fresh never =
      outcome (turn_away r msg reason t) (turn_away-denied r msg reason t fresh)
    where
      outcome :
          (u : Server)
          → (u.sessions ≡ t.sessions)
            × ((u.heap r).auth_state ≡ session_pre_login)
            × ((u.heap r).disconnect_once ≡ true)
          → Decision r l s u
      outcome u (kept, state, over) = denied never (kept ∙ same) state over

  -- What Authenticate says of the credentials, for a login that is granted.
  IsGranted-says :
      (s : Server) (l : Login) (a : Authenticate) (c : Msg) (id : ℕ)
      → credentials_of s l ≡ accept (a, c)
      → IsGranted s l id
      → player_of (recovered (a c s.game).0) (record s { game = (a c s.game).1 }) ≡ accept id
  unfolding recovered
  IsGranted-says s l a c id good g =
      let same : (a, c) ≡ (g.authenticate, g.creds) =
        accept-injective (a, c) (g.authenticate, g.creds)
          (sym good ∙ IsGranted-credentials s l id g) in
      let said : (a c s.game) ≡ (returned (id, none), g.game) =
        ap (λ x. x.0 x.1 s.game) same ∙ g.approved in
      ap (λ x. player_of (recovered x.0) (record s { game = x.1 })) said
      ∙ player_of-absent id (record s { game = g.game }) g.absent

  concluded :
      (r : ℕ) (l : Login) (a : Authenticate) (c : Msg) (s : Server)
      → credentials_of s l ≡ accept (a, c)
      → (s.heap r).auth_state ≡ session_pre_login
      → (v : Verdict ℕ)
      → player_of (recovered (a c s.game).0) (record s { game = (a c s.game).1 }) ≡ v
      → handle_login r l s ≡ conclude r c v (record s { game = (a c s.game).1 })
      → Decision r l s (handle_login r l s)
  unfolding conclude
  concluded r l a c s good fresh (accept id) e path =
      let (p, given, typed, parsed) = credentials-found s l a c good in
      let (said, absent) =
        player_of-found (recovered (a c s.game).0) id (record s { game = (a c s.game).1 }) e in
      let answer = recovered-none (a c s.game).0 id said in
      login-granted r id l s (record {
        authenticate = a;
        prototype = p;
        creds = c;
        game = (a c s.game).1;
        configured = given;
        typed = typed;
        parsed = parsed;
        approved = ap (λ o. (o, (a c s.game).1)) answer;
        absent = absent;
      })
  concluded r l a c s good fresh (refuse msg reason) e path = subst (Decision r l s) (sym path) (
      away r l msg reason s (record s { game = (a c s.game).1 }) refl fresh
        (λ id g.
          let odd : refuse msg reason ≡ accept id = sym e ∙ IsGranted-says s l a c id good g in cc))

  -- A login of a session that has not logged in lists it, as the player that Authenticate returned, exactly
  -- if the server is configured for logins, the credentials parse, Authenticate returns that player
  -- without an error, and the player is not connected. Otherwise the players stay as they were, and the
  -- session's disconnect has fired.
  pub login_decided :
      (r : ℕ) (l : Login) (s : Server)
      → (s.heap r).auth_state ≡ session_pre_login
      → Decision r l s (handle_login r l s)
  unfolding handle_login authenticate_then call_authenticate
  login_decided r l s fresh = by_credentials (credentials_of s l) refl
    where
      by_credentials :
          (v : Verdict (Authenticate × Msg))
          → credentials_of s l ≡ v
          → Decision r l s (handle_login r l s)
      by_credentials (refuse msg reason) e =
          subst (λ v. Decision r l s (authenticate_then r v s)) (sym e)
            (away r l msg reason s s refl fresh (λ id g.
              let odd : refuse msg reason ≡ accept (g.authenticate, g.creds) =
                sym e ∙ IsGranted-credentials s l id g in
              cc))
      by_credentials (accept (a, c)) e =
          concluded r l a c s e fresh
            (player_of (recovered (a c s.game).0) (record s { game = (a c s.game).1 })) refl
            (ap (λ v. authenticate_then r v s) e)

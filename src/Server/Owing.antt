-- ===== src/Server/Owing.antt =====
-- The other half of the disconnects' account (server.go, events.go): that none is lost while the
-- event queue has room.
use godotnet.Base.{
  sym, subst, ℕ, ◌+◌, ◌≤◌, ◌<◌, ◌≡◌, refl, ap, ◌∙◌, String, Bool, true, false, not, Option, none,
  some, length, if◌then◌else◌, nat_eq, string_eq, arith,
}
use text.Mathlib.Text.{◌==◌ as str_eq}
use godotnet.Base.Map.{get}
use godotnet.Control.{Login, UdpHandshake}
use godotnet.Events.{Queue}
use godotnet.Session.{Session, session_awaiting_udp, session_ready}
use godotnet.Env.{Env}
use godotnet.Callbacks.{Authenticate}
use godotnet.Server.{Server, modify}
use godotnet.Server.Handshake.{
  Verdict, accept, refuse, credentials_of, call_authenticate, player_of, enter, conclude,
  authenticate_then, handle_login, is_awaiting_udp, send_udp_handshake_ack, pair, accept_pairing,
  handle_udp_handshake,
}
use godotnet.Server.Quiet.{Keeps, to_ℕ, owed, goodbyes, fired, Quiet, Quiet-refl, modify-pointwise}
use godotnet.Server.Quiet.Handlers.{on_connect-Quiet}
use godotnet.Server.Quiet.Handshake.{ack-Quiet, turn_away-Quiet}
use godotnet.Server.Route.{IsAcross}
use godotnet.Server.Access.{admit-Quiet}

module _ ⦃env : Env⦄ where
  open env use {Msg, Game, clock}

  abbrev pub HasRoom : Server → Type 0
  HasRoom s = length s.events.buffer < s.events.depth

  -- What every event but a disconnect keeps to: the queue only grows, up to its depth, and while it
  -- has room each disconnect that fires is queued; what has fired stays fired, and each disconnect
  -- that is queued has fired; each channel keeps its capacity and within it.
  pub record Loud (s t : Server) : Type 0 where
    pub cfg : t.cfg ≡ s.cfg
    pub fits : length s.events.buffer ≤ s.events.depth → length t.events.buffer ≤ t.events.depth
    pub channels : (r : ℕ) → Keeps (s.heap r).send_tcp (t.heap r).send_tcp
    pub depth : t.events.depth ≡ s.events.depth
    pub longer : length s.events.buffer ≤ length t.events.buffer
    pub parted : (r : ℕ) → goodbyes r t.trace ≡ goodbyes r s.trace
    pub once : (r : ℕ) → fired s r ≤ fired t r
    pub debt : (r : ℕ) → owed r t.events.buffer + fired s r ≤ owed r s.events.buffer + fired t r
    pub promised :
        HasRoom t
        → (r : ℕ) → owed r s.events.buffer + fired t r ≤ owed r t.events.buffer + fired s r

  pub Quiet-Loud : {s t : Server} → Quiet s t → Loud s t
  Quiet-Loud q = record {
    cfg = q.cfg;
    fits = q.fits;
    channels = q.channels;
    depth = q.depth;
    longer = q.longer;
    parted = q.parted;
    once = q.once;
    debt = q.debt;
    promised = q.promised;
  }

  pub Loud-trans : {s t u : Server} → Loud s t → Loud t u → Loud s u
  Loud-trans p q = record {
    cfg = q.cfg ∙ p.cfg;
    fits = λ h. q.fits (p.fits h);
    channels = λ r d h. q.channels r d (p.channels r d h);
    depth = q.depth ∙ p.depth;
    longer = omega (arith, p.longer, q.longer);
    parted = λ r. q.parted r ∙ p.parted r;
    once = λ r. omega (arith, p.once r, q.once r);
    debt = λ r. omega (arith, p.debt r, q.debt r);
    promised =
        λ h r. omega (arith, p.promised (omega (arith, h, q.longer, q.depth)) r, q.promised h r);
  }

  -- A write to one session that leaves its once alone, and anything else that does not concern the
  -- queue.
  write-Loud :
      (r : ℕ) (f : Session → Session) (s t : Server)
      → ((x : Session) → (f x).disconnect_once ≡ x.disconnect_once)
      → ((x : Session) → (f x).send_tcp ≡ x.send_tcp)
      → t.heap ≡ (modify r f s).heap
      → t.cfg ≡ s.cfg
      → t.events ≡ s.events
      → t.trace ≡ s.trace
      → Loud s t
  write-Loud r f s t same kept heap cfg events trace =
      let once : (q : ℕ) → (t.heap q).disconnect_once ≡ (s.heap q).disconnect_once = λ q.
        ap (λ h. (h q).disconnect_once) heap
        ∙ modify-pointwise (λ x y. y.disconnect_once ≡ x.disconnect_once) r f s (λ x. refl)
            (same (s.heap r)) q in
      record {
        cfg = cfg;
        fits = λ h. omega (
          arith,
          h,
          ap (λ (q : Queue). length q.buffer) events,
          ap (λ (q : Queue). q.depth) events,
        );
        channels = λ q.
            subst (λ (h : ℕ → Session). Keeps (s.heap q).send_tcp (h q).send_tcp) (sym heap)
              (modify-pointwise (λ x y. Keeps x.send_tcp y.send_tcp) r f s (λ x d h. h)
                (subst (λ c. Keeps (s.heap r).send_tcp c) (sym (kept (s.heap r))) (λ d h. h)) q);
        depth = ap (λ (q : Queue). q.depth) events;
        longer = omega (arith, ap (λ (q : Queue). length q.buffer) events);
        parted = λ q. ap (goodbyes q) trace;
        once = λ q. omega (arith, ap to_ℕ (once q));
        debt = λ q. omega (arith, ap to_ℕ (once q), ap (λ (p : Queue). owed q p.buffer) events);
        promised =
            λ h q. omega (arith, ap to_ℕ (once q), ap (λ (p : Queue). owed q p.buffer) events);
      }

  enter-Loud : (r id : ℕ) (token : String) (s : Server) → Loud s (enter r id token s)
  unfolding enter modify
  enter-Loud r id token s =
      write-Loud r
        (λ x. record x { id = id; session_token = token; auth_state = session_awaiting_udp }) s
        (enter r id token s) (λ x. refl) (λ x. refl) refl refl refl refl

  pair-Loud : (addr : String) (r : ℕ) (s : Server) → Loud s (pair addr r s)
  unfolding pair modify
  pair-Loud addr r s =
      write-Loud r
        (λ x. record x {
          udp_addr = some addr;
          auth_state = session_ready;
          last_seen_unix_nano = clock s.clock_reads;
        })
        s (pair addr r s) (λ x. refl) (λ x. refl) refl refl refl refl

  conclude-Loud :
      (r : ℕ) (creds : Msg) (verdict : Verdict ℕ) (s : Server) → Loud s (conclude r creds verdict s)
  unfolding conclude
  conclude-Loud r creds (refuse msg reason) s = Quiet-Loud (turn_away-Quiet r msg reason s)
  conclude-Loud r creds (accept id) s =
      let (s1, token, before, after) = admit-Quiet r id creds s in
      Loud-trans (Quiet-Loud before) (Loud-trans (enter-Loud r id token s1) (Quiet-Loud after))

  authenticate-Loud :
      (r : ℕ) (verdict : Verdict (Authenticate × Msg)) (s : Server)
      → Loud s (authenticate_then r verdict s)
  unfolding authenticate_then call_authenticate
  authenticate-Loud r (refuse msg reason) s = Quiet-Loud (turn_away-Quiet r msg reason s)
  authenticate-Loud r (accept (authenticate, creds)) s =
      let (result, s') = call_authenticate authenticate creds s in
      Loud-trans (game-Loud s s'.game) (conclude-Loud r creds (player_of result s') s')
    where
      game-Loud : (t : Server) (game : Game) → Loud t (record t { game = game })
      game-Loud t game = record {
        cfg = refl;
        fits = λ h. h;
        channels = λ r d h. h;
        depth = refl;
        longer = omega arith;
        parted = λ q. refl;
        once = λ q. omega arith;
        debt = λ q. omega arith;
        promised = λ h q. omega arith;
      }

  login-Loud : (r : ℕ) (l : Login) (s : Server) → Loud s (handle_login r l s)
  unfolding handle_login
  login-Loud r l s = authenticate-Loud r (credentials_of s l) s

  handshake-Loud :
      (addr : String) (hs : UdpHandshake) (s : Server) → Loud s (handle_udp_handshake addr hs s)
  unfolding handle_udp_handshake accept_pairing
  handshake-Loud addr hs s = player (get s.sessions hs.player_id)
    where
      nak : Loud s (send_udp_handshake_ack addr false hs.player_id s)
      nak = Quiet-Loud (ack-Quiet addr false hs.player_id s)

      state : (r : ℕ) (b : Bool) → Loud s (if not b then s else accept_pairing addr r s)
      state r false = Quiet-Loud (Quiet-refl s)
      state r true =
          let s1 : Server = pair addr r s in
          let s2 : Server = send_udp_handshake_ack addr true (s.heap r).id s1 in
          Loud-trans (pair-Loud addr r s) (
            Loud-trans (Quiet-Loud (ack-Quiet addr true (s.heap r).id s1))
              (Quiet-Loud (on_connect-Quiet s.cfg.on_connect r s2)))

      token :
          (r : ℕ) (b : Bool)
          → Loud s (
              if not b
              then send_udp_handshake_ack addr false hs.player_id s
              else if not (is_awaiting_udp (s.heap r).auth_state)
              then s
              else accept_pairing addr r s)
      token r false = nak
      token r true = state r (is_awaiting_udp (s.heap r).auth_state)

      player :
          (o : Option ℕ)
          → Loud s (elim o [
            | none ↦ send_udp_handshake_ack addr false hs.player_id s
            | some r ↦
                if not (str_eq (s.heap r).session_token hs.session_token)
                then send_udp_handshake_ack addr false hs.player_id s
                else if not (is_awaiting_udp (s.heap r).auth_state)
                then s
                else accept_pairing addr r s
          ])
      player none = nak
      player (some r) = token r (str_eq (s.heap r).session_token hs.session_token)

  pub Loud-across : IsAcross Loud
  Loud-across = record {
    quiet = λ s t. Quiet-Loud;
    both = λ s t u. Loud-trans;
    logs_in = λ r l s fresh. login-Loud r l s;
    pairs = handshake-Loud;
  }

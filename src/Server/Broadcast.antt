-- ===== src/Server/Broadcast.antt =====
-- tickctx.go: the broadcasts, and the sends to each player one by one.
use godotnet.Base.{
  subst, ℕ, ◌≡◌, refl, sym, ap, ◌∙◌, Bool, true, false, Option, none, some, List, [], ◌∷◌, Bytes,
  if◌then◌else◌, nat_eq,
}
use godotnet.Base.Distinct.{AreDistinct, keys, AreListed, listed-all}
use godotnet.Base.Map.{Map, get}
use godotnet.Env.{Env}
use godotnet.Server.{Server}
use godotnet.Server.Outbound.{push_tcp, udp_send_raw}
use godotnet.Server.TickCtx.{
  is_paired, udp_to, tcp_to, marshal_game_server_frame, ctx_send_udp, ctx_send_tcp, udp_all,
  tcp_all, ctx_broadcast_udp, ctx_broadcast_tcp,
}
use godotnet.Server.Quiet.Sends.{udp_send-Quiet, push_tcp-Quiet}

module _ ⦃env : Env⦄ where
  open env use {Msg}

  abbrev pub send_each_udp : List ℕ → Msg → Server → Server
  send_each_udp [] msg s = s
  send_each_udp (id ∷ ids) msg s = send_each_udp ids msg (ctx_send_udp id msg s)

  abbrev pub send_each_tcp : List ℕ → Msg → Server → Server
  send_each_tcp [] msg s = s
  send_each_tcp (id ∷ ids) msg s = send_each_tcp ids msg (ctx_send_tcp id msg s)

  one-udp :
      (id r : ℕ) (msg : Msg) (bytes : Bytes) (s : Server)
      → marshal_game_server_frame msg ≡ some bytes
      → get s.sessions id ≡ some r
      → (if is_paired s r then udp_send_raw (s.heap r).udp_addr bytes s else s)
        ≡ ctx_send_udp id msg s
  unfolding ctx_send_udp udp_to
  one-udp id r msg bytes s whole listed =
      ap (λ o. if is_paired s r then udp_to o r s else s) (sym whole)
      ∙ ap
          (λ o. elim o as (λ x. Server) [
            | none ↦ s
            | some q ↦ if is_paired s q then udp_to (marshal_game_server_frame msg) q s else s
          ])
          (sym listed)

  one-tcp :
      (id r : ℕ) (msg : Msg) (bytes : Bytes) (s : Server)
      → marshal_game_server_frame msg ≡ some bytes
      → get s.sessions id ≡ some r
      → push_tcp (some r) bytes s ≡ ctx_send_tcp id msg s
  unfolding ctx_send_tcp tcp_to
  one-tcp id r msg bytes s whole listed =
      ap (λ o. tcp_to o r s) (sym whole)
      ∙ ap
          (λ o. elim o as (λ x. Server) [
            | none ↦ s
            | some q ↦ tcp_to (marshal_game_server_frame msg) q s
          ])
          (sym listed)

  sessions-udp :
      (b : Bool) (r : ℕ) (bytes : Bytes) (s : Server)
      → (if b then udp_send_raw (s.heap r).udp_addr bytes s else s).sessions ≡ s.sessions
  sessions-udp true r bytes s = (udp_send-Quiet (s.heap r).udp_addr bytes s).sessions
  sessions-udp false r bytes s = refl

  all-udp :
      (m : Map ℕ ℕ) (msg : Msg) (bytes : Bytes) (s : Server)
      → marshal_game_server_frame msg ≡ some bytes
      → AreListed s.sessions m
      → udp_all m bytes s ≡ send_each_udp (keys m) msg s
  unfolding udp_all
  all-udp [] msg bytes s whole l = refl
  all-udp ((id, r) ∷ m) msg bytes s whole (here, l) =
      let s' : Server = if is_paired s r then udp_send_raw (s.heap r).udp_addr bytes s else s in
      all-udp m msg bytes s' whole
        (subst (λ all. AreListed all m) (sym (sessions-udp (is_paired s r) r bytes s)) l)
      ∙ ap (λ t. send_each_udp (keys m) msg t) (one-udp id r msg bytes s whole here)

  all-tcp :
      (m : Map ℕ ℕ) (msg : Msg) (bytes : Bytes) (s : Server)
      → marshal_game_server_frame msg ≡ some bytes
      → AreListed s.sessions m
      → tcp_all m bytes s ≡ send_each_tcp (keys m) msg s
  unfolding tcp_all
  all-tcp [] msg bytes s whole l = refl
  all-tcp ((id, r) ∷ m) msg bytes s whole (here, l) =
      all-tcp m msg bytes (push_tcp (some r) bytes s) whole
        (subst (λ all. AreListed all m) (sym ((push_tcp-Quiet (some r) bytes s).sessions)) l)
      ∙ ap (λ t. send_each_tcp (keys m) msg t) (one-tcp id r msg bytes s whole here)

  none-udp :
      (ids : List ℕ) (msg : Msg) (s : Server)
      → marshal_game_server_frame msg ≡ none
      → s ≡ send_each_udp ids msg s
  unfolding udp_to ctx_send_udp
  none-udp [] msg s fails = refl
  none-udp (id ∷ ids) msg s fails =
      none-udp ids msg s fails ∙ ap (λ t. send_each_udp ids msg t) (kept (get s.sessions id))
    where
      kept :
          (o : Option ℕ)
          → s ≡ (elim o [
            | none ↦ s
            | some r ↦ if is_paired s r then udp_to (marshal_game_server_frame msg) r s else s
          ])
      kept none = refl
      kept (some r) = rw fails (by_pair (is_paired s r))
        where
          by_pair : (b : Bool) → s ≡ (if b then s else s)
          by_pair true = refl
          by_pair false = refl

  none-tcp :
      (ids : List ℕ) (msg : Msg) (s : Server)
      → marshal_game_server_frame msg ≡ none
      → s ≡ send_each_tcp ids msg s
  unfolding tcp_to ctx_send_tcp
  none-tcp [] msg s fails = refl
  none-tcp (id ∷ ids) msg s fails =
      none-tcp ids msg s fails ∙ ap (λ t. send_each_tcp ids msg t) (kept (get s.sessions id))
    where
      kept :
          (o : Option ℕ)
          → s ≡ (elim o [ none ↦ s | some r ↦ tcp_to (marshal_game_server_frame msg) r s ])
      kept none = refl
      kept (some r) = rw fails refl

  -- A broadcast, over UDP or TCP, has the effect of sending the message over it to each player with
  -- an entry of `sessions`, one after the other. This is for sessions in which no player has two
  -- entries.
  pub broadcast_lem :
      (msg : Msg) (s : Server)
      → AreDistinct (keys s.sessions)
      → (ctx_broadcast_udp msg s ≡ send_each_udp (keys s.sessions) msg s)
        × (ctx_broadcast_tcp msg s ≡ send_each_tcp (keys s.sessions) msg s)
  unfolding ctx_broadcast_udp ctx_broadcast_tcp
  broadcast_lem msg s d = by_bytes (marshal_game_server_frame msg) refl
    where
      by_bytes :
          (o : Option Bytes)
          → marshal_game_server_frame msg ≡ o
          → ((elim o [ none ↦ s | some bytes ↦ udp_all s.sessions bytes s ])
              ≡ send_each_udp (keys s.sessions) msg s)
            × ((elim o [ none ↦ s | some bytes ↦ tcp_all s.sessions bytes s ])
                ≡ send_each_tcp (keys s.sessions) msg s)
      by_bytes none e = (none-udp (keys s.sessions) msg s e, none-tcp (keys s.sessions) msg s e)
      by_bytes (some bytes) e = (
        all-udp s.sessions msg bytes s e (listed-all s.sessions d),
        all-tcp s.sessions msg bytes s e (listed-all s.sessions d),
      )

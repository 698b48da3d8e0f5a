-- ===== src/Sub/Delivered.antt =====
-- sub.go with tickctx.go and server.go: what a publish over TCP leaves on the players' channels.
use godotnet.Base.{
  ℕ, ◌≡◌, ◌≢◌, refl, sym, ap, subst, ◌∙◌, String, false, Option, none, some, List, [], ◌∷◌, ◌++◌,
  Bytes, All, length, ltb, ◌==◌, ==_iff, if◌then◌else◌, Bool-cases, Option-cases, inl, inr, nat_eq,
  string_eq,
}
use godotnet.Base.Map.{get}
use godotnet.Base.Distinct.{AreDistinct, keys}
use godotnet.Errors.{sentinel, outbound_queue_full}
use godotnet.Session.{Session, Channel, try_send}
use godotnet.Env.{Env}
use godotnet.Server.{Server, Config, new_server}
use godotnet.Server.Outbound.{push_tcp, push_channel, pushed}
use godotnet.Server.TickCtx.{marshal_game_server_frame, tcp_to, ctx_send_tcp, run_call, run_calls}
use godotnet.Server.Quiet.Sends.{push_tcp-Quiet}
use godotnet.Server.Invariant.{heap-modify_ne}
use godotnet.Server.Delivery.{schedule-other, push_tcp_lem}
use godotnet.System.{Reach}
use godotnet.System.Safety.{one_player}
use godotnet.Sub.Nested.{KeySet, is_some, member}
use godotnet.Sub.{Manager, new, transport_tcp, sends, publish_over}
use godotnet.Sub.Relation.{Operation, apply_all, subscribed, history, manager-refines}
use godotnet.Sub.Sets.{AreSets, apply_all-AreSets, new-AreSets}

-- A channel after a send that does not block.
abbrev pub with_payload : Bytes → Channel → Channel
with_payload bytes c =
    if ltb (length c.queued) c.capacity then record c { queued = c.queued ++ bytes ∷ [] } else c

module _ ⦃env : Env⦄ where
  open env use {Msg, Game}

  abbrev channel : ℕ → Server → Option Channel
  channel r s = (s.heap r).send_tcp

  channel-push_tcp :
      (q r : ℕ) (bytes : Bytes) (s : Server)
      → r ≢ q
      → channel r (push_tcp (some q) bytes s) ≡ channel r s
  unfolding push_tcp push_channel
  channel-push_tcp q r bytes s ne = by_channel (s.heap q).send_tcp
    where
      sent : (o : Option Channel) → channel r (pushed o q s) ≡ channel r s
      sent none =
          ap (λ (x : Session). x.send_tcp) (schedule-other q r (sentinel outbound_queue_full) s ne)
      sent (some c) =
          ap (λ (x : Session). x.send_tcp)
            (heap-modify_ne q r (λ x. record x { send_tcp = some c }) s ne)

      by_channel : (o : Option Channel) → channel r (push_channel o q bytes s) ≡ channel r s
      by_channel none = refl
      by_channel (some c) = sent (try_send c bytes)

  -- What a send to a player leaves, by what the player's entry of `sessions` is.
  module _ (msg : Msg) (bytes : Bytes) (whole : marshal_game_server_frame msg ≡ some bytes) where
    sent-missing : (j : ℕ) (s : Server) → get s.sessions j ≡ none → ctx_send_tcp j msg s ≡ s
    unfolding ctx_send_tcp
    sent-missing j s e =
        ap
          (λ o. elim o as (λ x. Server) [
            | none ↦ s
            | some q ↦ tcp_to (marshal_game_server_frame msg) q s
          ])
          e

    sent-listed :
        (j q : ℕ) (s : Server)
        → get s.sessions j ≡ some q
        → ctx_send_tcp j msg s ≡ push_tcp (some q) bytes s
    unfolding ctx_send_tcp tcp_to
    sent-listed j q s e =
        ap
          (λ o. elim o as (λ x. Server) [
            | none ↦ s
            | some q ↦ tcp_to (marshal_game_server_frame msg) q s
          ])
          e
        ∙ ap (λ o. tcp_to o q s) whole

    sessions-send : (j : ℕ) (s : Server) → (ctx_send_tcp j msg s).sessions ≡ s.sessions
    sessions-send j s = elim (Option-cases (get s.sessions j)) [
      | inl e ↦ ap (λ (t : Server). t.sessions) (sent-missing j s e)
      | inr (q, e) ↦
          ap (λ (t : Server). t.sessions) (sent-listed j q s e)
          ∙ (push_tcp-Quiet (some q) bytes s).sessions
    ]

    -- `r` is the session of no player but `id`.
    OnlyOf : ℕ → ℕ → Server → Type 0
    OnlyOf id r s = (j : ℕ) → get s.sessions j ≡ some r → j ≡ id

    channel-send :
        (id r j : ℕ) (s : Server)
        → OnlyOf id r s
        → j ≢ id
        → channel r (ctx_send_tcp j msg s) ≡ channel r s
    unfolding OnlyOf
    channel-send id r j s only other = elim (Option-cases (get s.sessions j)) [
      | inl e ↦ ap (channel r) (sent-missing j s e)
      | inr (q, e) ↦
          ap (channel r) (sent-listed j q s e)
          ∙ channel-push_tcp q r bytes s (λ p. other (only j (e ∙ ap some (sym p))))
    ]

    only-send : (id r j : ℕ) (s : Server) → OnlyOf id r s → OnlyOf id r (ctx_send_tcp j msg s)
    unfolding OnlyOf
    only-send id r j s only k e = only k (ap (λ m. get m k) (sym (sessions-send j s)) ∙ e)

    -- A publish's calls that do not name the player.
    channel-others :
        (id r : ℕ) (subs : KeySet ℕ) (s : Server)
        → OnlyOf id r s
        → All (λ j. id ≢ j) (keys subs)
        → channel r (run_calls (sends transport_tcp msg subs) s) ≡ channel r s
    unfolding run_calls run_call sends
    channel-others id r [] s only h = refl
    channel-others id r ((j, u) ∷ subs) s only (ne, h) =
        channel-others id r subs (ctx_send_tcp j msg s) (only-send id r j s only) h
        ∙ channel-send id r j s only (λ e. ne (sym e))

    channel-own :
        (id r : ℕ) (s : Server) (c : Channel)
        → get s.sessions id ≡ some r
        → channel r s ≡ some c
        → channel r (ctx_send_tcp id msg s) ≡ some (with_payload bytes c)
    channel-own id r s c e open_ =
        ap (channel r) (sent-listed id r s e) ∙ (push_tcp_lem r bytes s c open_).0

    -- All of a publish's calls: the player's channel gets the payload once if the player is in the
    -- set.
    channel-sends :
        (id r : ℕ) (subs : KeySet ℕ) (s : Server) (c : Channel)
        → AreDistinct (keys subs)
        → get s.sessions id ≡ some r
        → channel r s ≡ some c
        → OnlyOf id r s
        → channel r (run_calls (sends transport_tcp msg subs) s)
          ≡ some (if is_some (get subs id) then with_payload bytes c else c)
    unfolding run_calls run_call sends get
    channel-sends id r [] s c d e open_ only = open_
    channel-sends id r ((j, u) ∷ subs) s c (h, d) e open_ only = elim (Bool-cases (j == id)) [
      | inl hit ↦
          let same = (==_iff j id).0 hit in
          rw hit (
            channel-others id r subs (ctx_send_tcp j msg s) (only-send id r j s only)
              (subst (λ k. All (λ y. k ≢ y) (keys subs)) same h)
            ∙ ap (λ k. channel r (ctx_send_tcp k msg s)) same
            ∙ channel-own id r s c e open_)
      | inr miss ↦ rw miss (
          channel-sends id r subs (ctx_send_tcp j msg s) c d
            (ap (λ m. get m id) (sessions-send j s) ∙ e)
            (channel-send id r j s only (λ p. let hit = (==_iff j id).1 p in cc) ∙ open_)
            (only-send id r j s only))
    ]

    channel-publish :
        (topic : String) (m : Manager) (id r : ℕ) (s : Server) (c : Channel)
        → AreSets m.subscribers
        → get s.sessions id ≡ some r
        → channel r s ≡ some c
        → OnlyOf id r s
        → channel r (run_calls (publish_over topic msg transport_tcp m) s)
          ≡ some (if subscribed m id topic then with_payload bytes c else c)
    unfolding publish_over subscribed member run_calls get
    channel-publish topic m id r s c sets e open_ only =
        elim (Option-cases (get m.subscribers topic)) [
          | inl missing ↦ rw (missing, publish_over, subscribed, member) open_
          | inr (subs, found) ↦
              rw (found, publish_over, subscribed, member)
                (channel-sends id r subs s c (sets topic subs found) e open_ only)
        ]

    -- A TCP publish to a topic, after any subscribing, unsubscribing and leaving on a new manager,
    -- at any state that a new server reaches: the open channel of a player's session gets the
    -- payload, once, at the end of its queue and if there is room, exactly if the history of the
    -- manager says that the player is on the topic; otherwise the channel is as it was.
    pub publish_over-history :
        (os : List Operation) (topic : String) (cfg : Config) (game : Game) (s : Server) (id r : ℕ)
        (c : Channel)
        → Reach (new_server cfg game) s
        → get s.sessions id ≡ some r
        → (s.heap r).send_tcp ≡ some c
        → ((run_calls (publish_over topic msg transport_tcp (apply_all os new)) s).heap r).send_tcp
          ≡ some (if history os (λ q t. false) id topic then with_payload bytes c else c)
    unfolding OnlyOf
    publish_over-history os topic cfg game s id r c reach e open_ =
        channel-publish topic (apply_all os new) id r s c (apply_all-AreSets os new new-AreSets) e
          open_ (λ j p. one_player cfg game s j id r reach p e)
        ∙ ap (λ b. some (if b then with_payload bytes c else c)) (manager-refines os id topic).0

-- ===== src/Sub.antt =====
-- sub/sub.go: topics and their subscribers, in two maps of sets.
pub mod Nested
pub mod Relation
pub mod Publish
pub mod Sets
pub mod Tidy
pub mod Delivered
use godotnet.Base.{
  ℕ, String, Bool, true, false, Option, none, some, List, [], ◌∷◌, map, if◌then◌else◌, nat_eq,
  string_eq,
}
use godotnet.Base.Map.{Map, get, put, delete}
use godotnet.Env.{Env}
use godotnet.Callbacks.{Call, send_udp, send_tcp}
use Nested.{KeySet, Members, add_member, drop_member}

-- TransportUDP is the zero value and the default of the switch.
pub data Transport : Type 0 where
  transport_udp transport_tcp : Transport

pub record Manager : Type 0 where
  pub subscribers : Members String ℕ
  pub per_player : Members ℕ String

unfoldable pub new : Manager
new = record { subscribers = []; per_player = [] }

unfoldable pub subscribe : ℕ → String → Manager → Manager
unfolding add_member
subscribe player_id topic m = record {
  subscribers = add_member m.subscribers topic player_id;
  per_player = add_member m.per_player player_id topic;
}

unfoldable pub unsubscribe : ℕ → String → Manager → Manager
unfolding drop_member
unsubscribe player_id topic m = record {
  subscribers = drop_member m.subscribers topic player_id;
  per_player = drop_member m.per_player player_id topic;
}

-- The loop of UnsubscribeAll over the player's topics.
unfoldable pub leave_topics : KeySet String → ℕ → Members String ℕ → Members String ℕ
unfolding drop_member
leave_topics [] player_id subs = subs
leave_topics ((topic, u) ∷ topics) player_id subs =
    leave_topics topics player_id (drop_member subs topic player_id)

unfoldable pub unsubscribe_all : ℕ → Manager → Manager
unfolding leave_topics
unsubscribe_all player_id m = elim (get m.per_player player_id) [
  | none ↦ m
  | some topics ↦ record {
    subscribers = leave_topics topics player_id m.subscribers;
    per_player = delete m.per_player player_id;
  }
]

unfoldable pub keys : {K : Type 0} → KeySet K → List K
keys [] = []
keys ((k, u) ∷ m) = k ∷ keys m

-- Subscribers and Topics: a nil slice and an empty one are the same to their callers.
unfoldable pub subscribers_of : String → Manager → List ℕ
unfolding keys
subscribers_of topic m = elim (get m.subscribers topic) [ none ↦ [] | some subs ↦ keys subs ]

unfoldable pub topics_of : ℕ → Manager → List String
unfolding keys
topics_of player_id m = elim (get m.per_player player_id) [ none ↦ [] | some topics ↦ keys topics ]

module _ ⦃env : Env⦄ where
  open env use {Msg}

  unfoldable pub sends : Transport → Msg → KeySet ℕ → List Call
  sends transport msg [] = []
  sends transport_tcp msg ((pid, u) ∷ subs) = send_tcp pid msg ∷ sends transport_tcp msg subs
  sends transport_udp msg ((pid, u) ∷ subs) = send_udp pid msg ∷ sends transport_udp msg subs

  -- The calls on the TickCtx that a publish makes.
  unfoldable pub publish_over : String → Msg → Transport → Manager → List Call
  unfolding sends
  publish_over topic msg transport m = elim (get m.subscribers topic) [
    | none ↦ []
    | some subs ↦ sends transport msg subs
  ]

  unfoldable pub publish : String → Msg → Manager → List Call
  unfolding publish_over
  publish topic msg m = publish_over topic msg transport_udp m

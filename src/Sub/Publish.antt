-- ===== src/Sub/Publish.antt =====
-- sub.go: whom a publish reaches, and the two listings.
use godotnet.Base.{
  ℕ, String, ◌≡◌, refl, ap, Bool, false, ◌||◌, Option, none, some, List, [], ◌∷◌, Option-cases, map,
  inl, inr, Eq, nat_eq, string_eq, arith,
}
use godotnet.Base.Map.{get}
use godotnet.Env.{Env}
use godotnet.Callbacks.{Call, send_udp, send_tcp}
use godotnet.Sub.Nested.{KeySet, is_some, member}
use godotnet.Sub.{
  Manager, Transport, transport_udp, transport_tcp, keys, sends, subscribers_of, topics_of,
  publish_over,
}
use godotnet.Sub.Relation.{subscribed, listed}

abbrev pub contains {ℓ} : {K : Type ℓ} ⦃e : Eq K⦄ → K → List K → Bool
contains k [] = false
contains ⦃e⦄ k (x ∷ xs) = e.beq x k || contains k xs

contains-keys :
    {K : Type 0} ⦃e : Eq K⦄ (k : K) (m : KeySet K) → contains k (keys m) ≡ is_some (get m k)
unfolding keys get
contains-keys k [] = refl
contains-keys k ((j, u) ∷ m) = ground (arith, contains-keys k m)

players-at : (m : Manager) (p : ℕ) (t : String) → contains p (subscribers_of t m) ≡ subscribed m p t
unfolding subscribers_of subscribed member get
players-at m p t = elim (Option-cases (get m.subscribers t)) [
  | inl e ↦ rw (e, subscribers_of, subscribed, member)
  | inr (subs, e) ↦ rw (e, subscribers_of, subscribed, member) (contains-keys p subs)
]

topics-at : (m : Manager) (p : ℕ) (t : String) → contains t (topics_of p m) ≡ listed m p t
unfolding topics_of listed member get
topics-at m p t = elim (Option-cases (get m.per_player p)) [
  | inl e ↦ rw (e, topics_of, listed, member)
  | inr (topics, e) ↦ rw (e, topics_of, listed, member) (contains-keys t topics)
]

-- The two listings hold exactly the players of a topic, and exactly the topics of a player.
pub listings :
    (m : Manager) (p : ℕ) (t : String)
    → (contains p (subscribers_of t m) ≡ subscribed m p t)
      × (contains t (topics_of p m) ≡ listed m p t)
listings m p t = (players-at m p t, topics-at m p t)

module _ ⦃env : Env⦄ where
  open env use {Msg}

  -- The player to whom a call sends over the transport, if it does.
  abbrev pub target : Transport → Call → Option ℕ
  target transport_udp (send_udp q msg) = some q
  target transport_tcp (send_tcp q msg) = some q
  target _ _ = none

  abbrev pub targets : Transport → List Call → List (Option ℕ)
  targets transport [] = []
  targets transport (c ∷ calls) = target transport c ∷ targets transport calls

  targets-sends :
      (transport : Transport) (msg : Msg) (subs : KeySet ℕ)
      → targets transport (sends transport msg subs) ≡ map some (keys subs)
  unfolding sends keys
  targets-sends transport_udp msg [] = refl
  targets-sends transport_tcp msg [] = refl
  targets-sends transport_udp msg ((pid, u) ∷ subs) =
      ap (◌∷◌ (some pid)) (targets-sends transport_udp msg subs)
  targets-sends transport_tcp msg ((pid, u) ∷ subs) =
      ap (◌∷◌ (some pid)) (targets-sends transport_tcp msg subs)

  -- A publish makes one call for each listed subscriber of the topic, over the chosen transport,
  -- and no other call; and a player is among the listed subscribers exactly if subscribed.
  pub publish_over_lem :
      (t : String) (msg : Msg) (transport : Transport) (m : Manager) (p : ℕ)
      → (targets transport (publish_over t msg transport m) ≡ map some (subscribers_of t m))
        × (contains p (subscribers_of t m) ≡ subscribed m p t)
  unfolding publish_over subscribers_of
  publish_over_lem t msg transport m p = elim (Option-cases (get m.subscribers t)) [
    | inl e ↦ (rw (e, publish_over, subscribers_of), players-at m p t)
    | inr (subs, e) ↦
        (rw (e, publish_over, subscribers_of) (targets-sends transport msg subs), players-at m p t)
  ]

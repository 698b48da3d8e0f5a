-- ===== src/Sub/Tidy.antt =====
-- sub.go: the sets that are dropped with their last member (Unsubscribe and UnsubscribeAll).
use godotnet.Base.{
  ℕ, String, ◌≡◌, refl, ap, ◌∙◌, true, false, List, [], ◌∷◌, Bool-cases, Option-cases, inl, inr, Eq,
  nat_eq, string_eq,
}
use godotnet.Base.Map.{get, put, delete, beq_refl}
use godotnet.Sub.Nested.{
  KeySet, Members, is_empty, or_empty, member, add_member, remaining, drop_member,
}
use godotnet.Sub.{Manager, new, subscribe, unsubscribe, unsubscribe_all, leave_topics}
use godotnet.Sub.Relation.{
  Operation, subscribes, unsubscribes, leaves, apply, apply_all, history, subscribed, listed,
  manager-refines,
}

put-filled : {J : Type 0} ⦃f : Eq J⦄ (set : KeySet J) (j : J) → is_empty (put set j tt) ≡ false
unfolding put
put-filled [] j = refl
put-filled ⦃f⦄ ((i, u) ∷ set) j = elim (Bool-cases (f.beq i j)) [
  | inl hit ↦ rw hit refl
  | inr miss ↦ rw miss refl
]

module _ {K J : Type 0} ⦃e : Eq K⦄ ⦃f : Eq J⦄ where
  -- No entry's set is empty.
  abbrev pub AreFilled : Members K J → Type 0
  AreFilled [] = Unit {0}
  AreFilled ((k, set) ∷ m) = (is_empty set ≡ false) × AreFilled m

  put-AreFilled :
      (m : Members K J) (k : K) (set : KeySet J)
      → is_empty set ≡ false
      → AreFilled m
      → AreFilled (put m k set)
  unfolding put
  put-AreFilled [] k set some_in h = (some_in, tt)
  put-AreFilled ((j, w) ∷ m) k set some_in (h, hs) = elim (Bool-cases (e.beq j k)) [
    | inl hit ↦ rw hit (some_in, hs)
    | inr miss ↦ rw miss (h, put-AreFilled m k set some_in hs)
  ]

  pub delete-AreFilled : (m : Members K J) (k : K) → AreFilled m → AreFilled (delete m k)
  unfolding delete
  delete-AreFilled [] k h = tt
  delete-AreFilled ((j, w) ∷ m) k (h, hs) = elim (Bool-cases (e.beq j k)) [
    | inl hit ↦ rw hit (delete-AreFilled m k hs)
    | inr miss ↦ rw miss (h, delete-AreFilled m k hs)
  ]

  pub add_member-AreFilled :
      (m : Members K J) (k : K) (j : J) → AreFilled m → AreFilled (add_member m k j)
  unfolding add_member
  add_member-AreFilled m k j h =
      put-AreFilled m k (put (or_empty (get m k)) j tt) (put-filled (or_empty (get m k)) j) h

  remaining-AreFilled :
      (m : Members K J) (k : K) (rest : KeySet J) → AreFilled m → AreFilled (remaining m k rest)
  unfolding remaining
  remaining-AreFilled m k [] h = delete-AreFilled m k h
  remaining-AreFilled m k (x ∷ rest) h = put-AreFilled m k (x ∷ rest) refl h

  pub drop_member-AreFilled :
      (m : Members K J) (k : K) (j : J) → AreFilled m → AreFilled (drop_member m k j)
  unfolding drop_member
  drop_member-AreFilled m k j h = elim (Option-cases (get m k)) [
    | inl missing ↦ rw (missing, drop_member) h
    | inr (set, there) ↦ rw (there, drop_member) (remaining-AreFilled m k (delete set j) h)
  ]

  -- Maps without empty sets in which nobody is listed have no entry.
  pub AreFilled-empty :
      (m : Members K J) → AreFilled m → ((k : K) (j : J) → member m k j ≡ false) → m ≡ []
  unfolding member get
  AreFilled-empty [] h nobody = refl
  AreFilled-empty ((k, []) ∷ m) (h, hs) nobody = cc
  AreFilled-empty ((k, (j, u) ∷ set) ∷ m) (h, hs) nobody =
      let odd : true ≡ false = rw (beq_refl k, beq_refl j) at (nobody k j) in cc

abbrev AreTidy : Manager → Type 0
AreTidy m = AreFilled m.subscribers × AreFilled m.per_player

leave_topics-AreFilled :
    (topics : KeySet String) (p : ℕ) (subs : Members String ℕ)
    → AreFilled subs
    → AreFilled (leave_topics topics p subs)
unfolding leave_topics
leave_topics-AreFilled [] p subs h = h
leave_topics-AreFilled ((t, u) ∷ topics) p subs h =
    leave_topics-AreFilled topics p (drop_member subs t p) (drop_member-AreFilled subs t p h)

apply-AreTidy : (o : Operation) (m : Manager) → AreTidy m → AreTidy (apply o m)
unfolding apply subscribe unsubscribe unsubscribe_all
apply-AreTidy (subscribes p t) m (h, k) =
    (add_member-AreFilled m.subscribers t p h, add_member-AreFilled m.per_player p t k)
apply-AreTidy (unsubscribes p t) m (h, k) =
    (drop_member-AreFilled m.subscribers t p h, drop_member-AreFilled m.per_player p t k)
apply-AreTidy (leaves p) m (h, k) = elim (Option-cases (get m.per_player p)) [
  | inl missing ↦ rw (missing, unsubscribe_all) (h, k)
  | inr (topics, there) ↦
      rw (there, unsubscribe_all)
        (leave_topics-AreFilled topics p m.subscribers h, delete-AreFilled m.per_player p k)
]

apply_all-AreTidy : (os : List Operation) (m : Manager) → AreTidy m → AreTidy (apply_all os m)
unfolding apply_all
apply_all-AreTidy [] m h = h
apply_all-AreTidy (o ∷ os) m h = apply_all-AreTidy os (apply o m) (apply-AreTidy o m h)

new-AreTidy : AreTidy new
unfolding new
new-AreTidy = (tt, tt)

-- Subscriptions leave nothing behind: after any operations on a new manager whose history leaves
-- nobody on any topic, the manager is a new one again, with no entry in either map.
pub apply_all-new :
    (os : List Operation)
    → ((p : ℕ) (t : String) → history os (λ q u. false) p t ≡ false)
    → apply_all os new ≡ new
unfolding subscribed listed new
apply_all-new os gone =
    let (h, k) = apply_all-AreTidy os new new-AreTidy in
    let m : Manager = apply_all os new in
    let subs : m.subscribers ≡ [] =
      AreFilled-empty m.subscribers h (λ t p. (manager-refines os p t).0 ∙ gone p t) in
    let topics : m.per_player ≡ [] =
      AreFilled-empty m.per_player k (λ p t. (manager-refines os p t).1 ∙ gone p t) in
    ap (λ x. record { subscribers = x; per_player = m.per_player }) subs
    ∙ ap (λ x. record { subscribers = []; per_player = x }) topics

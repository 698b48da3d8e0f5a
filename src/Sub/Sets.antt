-- ===== src/Sub/Sets.antt =====
-- sub.go: the sets of subscribers hold no player twice, as any map of Go.
use godotnet.Base.{
  ℕ, ◌≡◌, refl, ap, String, Bool, true, false, Option, none, some, List, [], ◌∷◌, if◌then◌else◌,
  Option-cases, inl, inr, nat_eq, string_eq, arith,
}
use godotnet.Base.Map.{get, put, delete, get-put-cases, get-delete-some}
use godotnet.Base.Distinct.{AreDistinct, keys, put-AreDistinct, delete-AreDistinct}
use godotnet.Sub.Nested.{KeySet, Members, is_empty, or_empty, add_member, remaining, drop_member}
use godotnet.Sub.{Manager, new, subscribe, unsubscribe, unsubscribe_all, leave_topics}
use godotnet.Sub.Relation.{Operation, subscribes, unsubscribes, leaves, apply, apply_all}

abbrev pub AreSets : Members String ℕ → Type 0
AreSets m = (t : String) (set : KeySet ℕ) → get m t ≡ some set → AreDistinct (keys set)

put-AreSets :
    (m : Members String ℕ) (t : String) (set : KeySet ℕ)
    → AreSets m
    → AreDistinct (keys set)
    → AreSets (put m t set)
put-AreSets m t set s d u found h = elim (get-put-cases m t u set found h) [
  | inl (hit, same) ↦ ground (arith, ap (λ (x : KeySet ℕ). AreDistinct (keys x)) same)
  | inr old ↦ s u found old
]

delete-AreSets : (m : Members String ℕ) (t : String) → AreSets m → AreSets (delete m t)
delete-AreSets m t s u found h = s u found (get-delete-some m t u found h)

or_empty-AreDistinct :
    (m : Members String ℕ) (t : String) → AreSets m → AreDistinct (keys (or_empty (get m t)))
or_empty-AreDistinct m t s = elim (Option-cases (get m t)) [
  | inl e ↦ rw e tt
  | inr (set, e) ↦ rw e (s t set e)
]

add-AreSets : (m : Members String ℕ) (t : String) (p : ℕ) → AreSets m → AreSets (add_member m t p)
unfolding add_member
add-AreSets m t p s =
    put-AreSets m t (put (or_empty (get m t)) p tt) s
      (put-AreDistinct (or_empty (get m t)) p tt (or_empty-AreDistinct m t s))

drop-AreSets : (m : Members String ℕ) (t : String) (p : ℕ) → AreSets m → AreSets (drop_member m t p)
unfolding drop_member remaining
drop-AreSets m t p s = by_set (get m t) refl
  where
    rest :
        (set : KeySet ℕ) (b : Bool)
        → AreDistinct (keys set)
        → AreSets (if b then delete m t else put m t set)
    rest set true d = delete-AreSets m t s
    rest set false d = put-AreSets m t set s d

    by_set :
        (o : Option (KeySet ℕ))
        → get m t ≡ o
        → AreSets (elim o [ none ↦ m | some set ↦ remaining m t (delete set p) ])
    by_set none e = s
    by_set (some set) e =
        rest (delete set p) (is_empty (delete set p)) (delete-AreDistinct set p (s t set e))

leave-AreSets :
    (topics : KeySet String) (p : ℕ) (m : Members String ℕ)
    → AreSets m
    → AreSets (leave_topics topics p m)
unfolding leave_topics
leave-AreSets [] p m s = s
leave-AreSets ((t, u) ∷ topics) p m s =
    leave-AreSets topics p (drop_member m t p) (drop-AreSets m t p s)

apply-AreSets :
    (o : Operation) (m : Manager) → AreSets m.subscribers → AreSets (apply o m).subscribers
unfolding apply subscribe unsubscribe unsubscribe_all
apply-AreSets (subscribes p t) m s = add-AreSets m.subscribers t p s
apply-AreSets (unsubscribes p t) m s = drop-AreSets m.subscribers t p s
apply-AreSets (leaves p) m s = by_topics (get m.per_player p)
  where
    by_topics :
        (o : Option (KeySet String))
        → AreSets
            (elim o as (λ x. Manager) [
              | none ↦ m
              | some topics ↦ record {
                subscribers = leave_topics topics p m.subscribers;
                per_player = delete m.per_player p;
              }
            ]).subscribers
    by_topics none = s
    by_topics (some topics) = leave-AreSets topics p m.subscribers s

pub apply_all-AreSets :
    (os : List Operation) (m : Manager)
    → AreSets m.subscribers
    → AreSets (apply_all os m).subscribers
unfolding apply_all
apply_all-AreSets [] m s = s
apply_all-AreSets (o ∷ os) m s = apply_all-AreSets os (apply o m) (apply-AreSets o m s)

pub new-AreSets : AreSets new.subscribers
unfolding new get
new-AreSets t set h = cc

-- ===== src/Sub/Nested.antt =====
-- Go's `map[K]map[J]struct{}`, with the two updates that sub.go makes of each of its maps.
use mathlib.Core.Bool.{◌&&◌}
use godotnet.Base.{
  ◌≡◌, Bool, true, false, Option, none, some, List, [], ◌∷◌, if◌then◌else◌, Option-cases, inl, inr,
  Eq, arith,
}
use godotnet.Base.Map.{Map, get, put, delete, get-put, get-delete}

abbrev pub KeySet : Type 0 → Type 0
KeySet K = Map K (Unit {0})

abbrev pub Members : Type 0 → Type 0 → Type 0
Members K J = Map K (KeySet J)

abbrev pub is_some {ℓ} : {A : Type ℓ} → Option A → Bool
is_some none = false
is_some (some a) = true

abbrev pub is_empty {ℓ} : {A : Type ℓ} → List A → Bool
is_empty [] = true
is_empty (x ∷ xs) = false

abbrev pub or_empty {ℓ} : {A : Type ℓ} → Option (List A) → List A
or_empty none = []
or_empty (some xs) = xs

module _ {K J : Type 0} ⦃e : Eq K⦄ ⦃f : Eq J⦄ where
  -- The set at `k`, made if it is not there, gets `j`.
  unfoldable pub add_member : Members K J → K → J → Members K J
  add_member m k j = put m k (put (or_empty (get m k)) j tt)

  -- The set at `k` loses `j`, and its entry goes with its last member.
  unfoldable pub remaining : Members K J → K → KeySet J → Members K J
  remaining m k rest = if is_empty rest then delete m k else put m k rest

  unfoldable pub drop_member : Members K J → K → J → Members K J
  unfolding remaining
  drop_member m k j = elim (get m k) [ none ↦ m | some set ↦ remaining m k (delete set j) ]

  -- Whether `j` is in the set at `k`.
  unfoldable pub member : Members K J → K → J → Bool
  member m k j = is_some (get (or_empty (get m k)) j)

  pub member-add_member :
      (m : Members K J) (k k' : K) (j j' : J)
      → member (add_member m k j) k' j'
        ≡ (if e.beq k k' && f.beq j j' then true else member m k' j')
  unfolding member add_member
  member-add_member m k k' j j' = ground (
    arith,
    get-put m k k' (put (or_empty (get m k)) j tt),
    get-put (or_empty (get m k)) j j' tt,
    e.beq_iff k k',
  )

  -- A set that may be empty, and its entry with it.
  member-remaining :
      (m : Members K J) (k k' : K) (rest : KeySet J) (j' : J)
      → member (remaining m k rest) k' j'
        ≡ (if e.beq k k' then is_some (get rest j') else member m k' j')
  unfolding member remaining get
  member-remaining m k k' [] j' = ground (arith, get-delete m k k')
  member-remaining m k k' (x ∷ rest) j' = ground (arith, get-put m k k' (x ∷ rest))

  pub member-drop_member :
      (m : Members K J) (k k' : K) (j j' : J)
      → member (drop_member m k j) k' j'
        ≡ (if e.beq k k' && f.beq j j' then false else member m k' j')
  unfolding drop_member
  member-drop_member m k k' j j' = elim (Option-cases (get m k)) [
    | inl missing ↦ rw (missing, drop_member) (unfold member get in ground (arith, e.beq_iff k k'))
    | inr (set, there) ↦
        rw (there, drop_member, member-remaining m k k' (delete set j) j')
          (unfold member get in ground (arith, get-delete set j j', e.beq_iff k k'))
  ]

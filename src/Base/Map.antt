-- ===== src/Base/Map.antt =====
-- Go's maps as association lists. A loop over a map visits the entries in the list's order.
use mathlib.Core.Path.{◌≡◌, refl, ap, ◌∙◌}
use mathlib.Core.Bool.{true}
use mathlib.Core.Option.{Option, none, some}
use mathlib.Core.List.{List, [], ◌∷◌}
use mathlib.Core.Logic.{◌⊎◌, ◌≢◌, inl, inr}
use native.Mathlib.Omega.{arith}
use godotnet.Base.Tests.{if◌then◌else◌, Bool-cases}
use godotnet.Base.Interface.{Eq}

abbrev pub Map {ℓ κ} : Type ℓ → Type κ → Type (ℓ ⊔ κ)
Map K V = List (K × V)

pub beq_refl {ℓ} : {K : Type ℓ} ⦃e : Eq K⦄ (k : K) → e.beq k k ≡ true
beq_refl ⦃e⦄ k = (e.beq_iff k k).1 refl

module _ {ℓ κ} {K : Type ℓ} {V : Type κ} ⦃e : Eq K⦄ where
  unfoldable pub get : Map K V → K → Option V
  get [] k = none
  get ((j, v) ∷ m) k = if e.beq j k then some v else get m k

  unfoldable pub put : Map K V → K → V → Map K V
  put [] k v = (k, v) ∷ []
  put ((j, w) ∷ m) k v = if e.beq j k then (k, v) ∷ m else (j, w) ∷ put m k v

  unfoldable pub delete : Map K V → K → Map K V
  delete [] k = []
  delete ((j, v) ∷ m) k = let rest = delete m k in if e.beq j k then rest else (j, v) ∷ rest

  pub get-put :
      (m : Map K V) (k j : K) (v : V) → get (put m k v) j ≡ (if e.beq k j then some v else get m j)
  unfolding get put
  get-put [] k j v = refl
  get-put ((i, w) ∷ m) k j v =
      ground (arith, e.beq_iff k j, e.beq_iff i k, e.beq_iff i j, get-put m k j v)

  pub get-put_self : (m : Map K V) (k : K) (v : V) → get (put m k v) k ≡ some v
  get-put_self m k v = get-put m k k v ∙ ap (λ b. if b then some v else get m k) (beq_refl k)

  pub get-delete :
      (m : Map K V) (k j : K) → get (delete m k) j ≡ (if e.beq k j then none else get m j)
  unfolding get delete
  get-delete [] k j = ground arith
  get-delete ((i, w) ∷ m) k j =
      ground (arith, e.beq_iff k j, e.beq_iff i k, e.beq_iff i j, get-delete m k j)

  -- What is found after a write is the new entry, or was there before.
  pub get-put-cases :
      (m : Map K V) (k j : K) (v w : V)
      → get (put m k v) j ≡ some w
      → ((k ≡ j) × (w ≡ v)) ⊎ (get m j ≡ some w)
  get-put-cases m k j v w h = elim (Bool-cases (e.beq k j)) [
    | inl hit ↦
        let now : some v ≡ some w = rw (get-put m k j v, hit) at h in
        inl ((e.beq_iff k j).0 hit, (cc))
    | inr miss ↦ inr (rw (get-put m k j v, miss) at h)
  ]

  pub get-delete-some :
      (m : Map K V) (k j : K) (w : V) → get (delete m k) j ≡ some w → get m j ≡ some w
  get-delete-some m k j w h = elim (Bool-cases (e.beq k j)) [
    | inl hit ↦ let gone : none ≡ some w = rw (get-delete m k j, hit) at h in cc
    | inr miss ↦ rw (get-delete m k j, miss) at h
  ]

  -- If only the key `k` led to `w`, then without it no key does.
  pub get-delete-only :
      (m : Map K V) (k j : K) (w : V) → (get m j ≡ some w → k ≡ j) → get (delete m k) j ≢ some w
  get-delete-only m k j w only found =
      let same : k ≡ j = only (get-delete-some m k j w found) in
      let hit : e.beq k j ≡ true = (e.beq_iff k j).1 same in
      let never : none ≡ some w = rw (get-delete m k j, hit) at found in cc

-- ===== src/Base/Distinct.antt =====
-- Maps from numbers in which no key occurs twice.
use Prim.Native.Nat.{ℕ}
use mathlib.Core.Path.{◌≡◌, subst}
use mathlib.Core.Logic.{◌≢◌, inl, inr}
use mathlib.Core.Option.{some}
use mathlib.Core.List.{List, [], ◌∷◌, map}
use native.Mathlib.Omega.{arith}
use godotnet.Base.Tests.{Bool-cases, ◌==◌, ==_iff}
use godotnet.Base.Lists.{All}
use godotnet.Base.Interface.{nat_eq}
use godotnet.Base.Map.{Map, get, put, delete}

abbrev pub AreDistinct : List ℕ → Type 0
AreDistinct [] = Unit {0}
AreDistinct (x ∷ xs) = All (λ y. x ≢ y) xs × AreDistinct xs

abbrev pub keys {ℓ} : {V : Type ℓ} → Map ℕ V → List ℕ
keys m = map (λ entry. entry.0) m

module _ {ℓ} {V : Type ℓ} where
  All-put :
      (P : ℕ → Type 0) (m : Map ℕ V) (k : ℕ) (v : V)
      → All P (keys m)
      → P k
      → All P (keys (put m k v))
  unfolding put
  All-put P [] k v h p = (p, tt)
  All-put P ((j, w) ∷ m) k v (q, h) p = elim (Bool-cases (j == k)) [
    | inl hit ↦ rw hit (p, h)
    | inr miss ↦ rw miss (q, All-put P m k v h p)
  ]

  pub put-AreDistinct :
      (m : Map ℕ V) (k : ℕ) (v : V) → AreDistinct (keys m) → AreDistinct (keys (put m k v))
  unfolding put
  put-AreDistinct [] k v d = (tt, tt)
  put-AreDistinct ((j, w) ∷ m) k v (h, d) = elim (Bool-cases (j == k)) [
    | inl hit ↦ rw hit (subst (λ x. All (λ y. x ≢ y) (keys m)) ((==_iff j k).0 hit) h, d)
    | inr miss ↦ rw miss (
      All-put (λ y. j ≢ y) m k v h (λ e. let hit = (==_iff j k).1 e in cc),
      put-AreDistinct m k v d,
    )
  ]

  All-delete : (P : ℕ → Type 0) (m : Map ℕ V) (k : ℕ) → All P (keys m) → All P (keys (delete m k))
  unfolding delete
  All-delete P [] k h = tt
  All-delete P ((j, w) ∷ m) k (q, h) = elim (Bool-cases (j == k)) [
    | inl hit ↦ rw hit (All-delete P m k h)
    | inr miss ↦ rw miss (q, All-delete P m k h)
  ]

  pub delete-AreDistinct :
      (m : Map ℕ V) (k : ℕ) → AreDistinct (keys m) → AreDistinct (keys (delete m k))
  unfolding delete
  delete-AreDistinct [] k d = tt
  delete-AreDistinct ((j, w) ∷ m) k (h, d) = elim (Bool-cases (j == k)) [
    | inl hit ↦ rw hit (delete-AreDistinct m k d)
    | inr miss ↦ rw miss (All-delete (λ y. j ≢ y) m k h, delete-AreDistinct m k d)
  ]

-- `all` finds every entry of `m`.
abbrev pub AreListed : Map ℕ ℕ → Map ℕ ℕ → Type 0
AreListed all m = All (λ entry. get all entry.0 ≡ some entry.1) m

listed-more :
    (id r : ℕ) (all m : Map ℕ ℕ)
    → All (λ k. id ≢ k) (keys m)
    → AreListed all m
    → AreListed ((id, r) ∷ all) m
unfolding get
listed-more id r all [] h l = tt
listed-more id r all ((j, q) ∷ m) (ne, h) (here, l) =
    (ground (arith, ==_iff id j), listed-more id r all m h l)

pub listed-all : (m : Map ℕ ℕ) → AreDistinct (keys m) → AreListed m m
unfolding get
listed-all [] d = tt
listed-all ((id, r) ∷ m) (h, d) =
    (ground (arith, ==_iff id id), listed-more id r m m h (listed-all m d))

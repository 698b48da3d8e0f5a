-- ===== src/Base/Permuted.antt =====
-- Lists that are permutations of each other.
use mathlib.Core.Path.{◌≡◌, refl, subst}
use mathlib.Core.Option.{Option, none, some}
use mathlib.Core.List.{List, ◌∷◌, Permᴰ}
use mathlib.Core.List.Permᴰ

pub onto : {A : Type 0} {xs ys zs : List A} → Permᴰ xs ys → ys ≡ zs → Permᴰ xs zs
onto {xs = xs} p e = subst (Permᴰ xs) e p

pub from : {A : Type 0} {xs ys zs : List A} → xs ≡ ys → Permᴰ xs zs → Permᴰ ys zs
from {zs = zs} e p = subst (λ xs. Permᴰ xs zs) e p

-- An item that may be, before those there are.
abbrev pub add : {A : Type 0} → Option A → List A → List A
add none xs = xs
add (some x) xs = x ∷ xs

pub add-Permᴰ :
    {A : Type 0} (o : Option A) {xs ys : List A} → Permᴰ xs ys → Permᴰ (add o xs) (add o ys)
add-Permᴰ none p = p
add-Permᴰ (some x) p = Permᴰ.cons refl p

pub add-swap :
    {A : Type 0} (o o' : Option A) (xs : List A) → Permᴰ (add o (add o' xs)) (add o' (add o xs))
add-swap none o' xs = Permᴰ.refl (add o' xs)
add-swap (some x) none xs = Permᴰ.refl (x ∷ xs)
add-swap (some x) (some y) xs = Permᴰ.swap refl refl

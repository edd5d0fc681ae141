-- ===== src/Common/Lists.antt =====
-- Lists measured by native numbers, tests over lists, and predicates that hold of every element.
use Prim.Native.Nat.{ℕ, zero, suc}
use mathlib.Core.Bool.{Bool, false, ◌||◌}
use mathlib.Core.Path.{◌≡◌}
use mathlib.Core.Logic.{◌⊎◌, inl, inr}
use mathlib.Core.List.{List, [], ◌∷◌, Memᴰ}

module _ {ℓ} {A : Type ℓ} where
  abbrev pub length : List A → ℕ
  length [] = 0
  length (x ∷ xs) = suc (length xs)

  abbrev pub take : ℕ → List A → List A
  take zero xs = []
  take (suc n) [] = []
  take (suc n) (x ∷ xs) = x ∷ take n xs

  abbrev pub drop : ℕ → List A → List A
  drop zero xs = xs
  drop (suc n) [] = []
  drop (suc n) (x ∷ xs) = drop n xs

  abbrev pub any : (A → Bool) → List A → Bool
  any p [] = false
  any p (x ∷ xs) = p x || any p xs

module _ {ℓ κ} {A : Type ℓ} (P : A → Type κ) where
  abbrev pub All : List A → Type κ
  All [] = Unit
  All (x ∷ xs) = P x × All xs

pub All-map {ℓ κ} :
    {A : Type ℓ} {P Q : A → Type κ} (h : (a : A) → P a → Q a) (xs : List A) → All P xs → All Q xs
All-map h [] a = tt
All-map h (x ∷ xs) (p, a) = (h x p, All-map h xs a)

pub All-mem {ℓ κ} : {A : Type ℓ} (P : A → Type κ) {a : A} (xs : List A) → All P xs → Memᴰ a xs → P a
All-mem P [] h m = elim m [ ]
All-mem P (x ∷ xs) (p, h) (Memᴰ.head e) = rw e p
All-mem P (x ∷ xs) (p, h) (Memᴰ.tail m) = All-mem P xs h m

pub mem_cons {ℓ} : {A : Type ℓ} {a b : A} {l : List A} → Memᴰ a (b ∷ l) → (a ≡ b) ⊎ Memᴰ a l
mem_cons (Memᴰ.head e) = inl e
mem_cons (Memᴰ.tail m) = inr m

-- ===== src/Common/Table.antt =====
-- A database table or a key-value store, as an association list under string keys.
use mathlib.Core.Path.{◌≡◌, refl}
use mathlib.Core.Logic.{◌≢◌, ◌⊎◌, inl, inr}
use mathlib.Core.Bool.{true, false}
use mathlib.Core.Option.{Option, none, some}
use mathlib.Core.List.{List, [], ◌∷◌}
use Prim.Native.String.{String}
use native.Mathlib.Omega.{arith}
use text.Mathlib.Text.{◌==◌}
use text.Mathlib.TextEquality.{eq_iff}
use zapiack_console_backend.Common.Tests.{if◌then◌else◌, Bool-cases}

abbrev pub Table {ℓ} : Type ℓ → Type ℓ
Table V = List (String × V)

module _ {ℓ} {V : Type ℓ} where
  -- `findUnique`
  unfoldable pub find : String → Table V → Option V
  find k [] = none
  find k ((j, v) ∷ t) = if j == k then some v else find k t

  -- `create` and `update`: the row under this key is now `v`.
  unfoldable pub put : String → V → Table V → Table V
  put k v [] = (k, v) ∷ []
  put k v ((j, w) ∷ t) = if j == k then (k, v) ∷ t else (j, w) ∷ put k v t

  -- `delete`
  unfoldable pub remove : String → Table V → Table V
  remove k [] = []
  remove k ((j, v) ∷ t) = let rest = remove k t in if j == k then rest else (j, v) ∷ rest

  pub find-put :
      (k j : String) (v : V) (t : Table V)
      → find j (put k v t) ≡ (if k == j then some v else find j t)
  unfolding find put
  find-put k j v [] = refl
  find-put k j v ((i, w) ∷ t) = ground (arith, eq_iff k j, eq_iff i k, eq_iff i j, find-put k j v t)

  pub find-remove :
      (k j : String) (t : Table V) → find j (remove k t) ≡ (if k == j then none else find j t)
  unfolding find remove
  find-remove k j [] = ground arith
  find-remove k j ((i, v) ∷ t) =
      ground (arith, find-remove k j t, eq_iff i k, eq_iff i j, eq_iff k j)

pub str_cases : (s t : String) → (s ≡ t) ⊎ (s ≢ t)
str_cases s t = elim (Bool-cases (s == t)) [
  | inl same ↦ inl ((eq_iff s t).0 same)
  | inr other ↦ inr (λ e. cc ((eq_iff s t).1 e))
]

pub str_ne : (s t : String) → s ≢ t → (s == t) ≡ false
str_ne s t h = ground (arith, eq_iff s t)

module _ {ℓ} {V : Type ℓ} where
  pub find-put_self : (k : String) (v : V) (t : Table V) → find k (put k v t) ≡ some v
  find-put_self k v t = rw (find-put, (eq_iff k k).1 refl)

  pub find-put_ne : (k j : String) (v : V) (t : Table V) → k ≢ j → find j (put k v t) ≡ find j t
  find-put_ne k j v t h = ground (arith, find-put k j v t, eq_iff k j)

  -- A row found after a write is the written one, or was there.
  pub find-put_cases :
      (k j : String) (v w : V) (t : Table V)
      → find j (put k v t) ≡ some w
      → ((k ≡ j) × (v ≡ w)) ⊎ ((k ≢ j) × (find j t ≡ some w))
  find-put_cases k j v w t h = elim (str_cases k j) [
    | inl e ↦ inl (e, cc (find-put_self k v t))
    | inr n ↦ inr (n, cc (find-put_ne k j v t n))
  ]

-- A string equal to one text is not equal to another.
pub str_other : (s a b : String) → (a == b) ≡ false → (s == a) ≡ true → (s == b) ≡ false
str_other s a b h e = rw ((eq_iff s a).0 e) h

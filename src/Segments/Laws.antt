-- ===== src/Segments/Laws.antt =====
-- The size of a segment is that of its list, and a start keeps the segments that staff edited.
use zapiack_console_backend.Common.{
  ℕ, suc, String, Bool, true, ◌≡◌, refl, ap, none, some, List, [], ◌∷◌, map, length, arith,
  Bool-cases, inl, inr, is_some, ◌++◌, All, eq_iff, Option-cases, str_eq,
}
use zapiack_console_backend.Segments.{
  Account, Filter, Segment, to_resolved, build_where, find_many, count_many, count, resolve, Env,
  created, name_of, bootstrap_each, on_application_bootstrap, find_first, by_name, system,
}

length-find_many : (p : Account → Bool) (l : List Account) → length (find_many p l) ≡ count_many p l
unfolding find_many count_many
length-find_many p [] = refl
length-find_many p (a ∷ l) = ground (arith, length-find_many p l)

length-map {ℓ κ} : {A : Type ℓ} {B : Type κ} (f : A → B) (l : List A) → length (map f l) ≡ length l
length-map f [] = refl
length-map f (x ∷ l) = ap suc (length-map f l)

-- The size that is shown for a segment is the number of accounts that a campaign to it resolves to.
pub resolve-count :
    (now : ℕ) (accounts : List Account) (f : Filter)
    → length (resolve now accounts f none) ≡ count now accounts f
unfolding resolve count
resolve-count now accounts f =
    rw
      (
        length-map to_resolved (find_many (build_where now f) accounts),
        length-find_many (build_where now f) accounts,
      )
      refl

find_first-append :
    (p : Segment → Bool) (s : Segment) (l m : List Segment)
    → find_first p l ≡ some s
    → find_first p (l ++ m) ≡ some s
unfolding find_first
find_first-append p s [] m h = cc
find_first-append p s (x ∷ l) m h = ground (arith, find_first-append p s l m)

by_name-created :
    (env : Env) (row : String × String × Filter) (l : List Segment)
    → (s : Segment) × (by_name (name_of row) (l ++ created env row ∷ []) ≡ some s)
unfolding find_first
by_name-created env row [] =
    (created env row, rw ((eq_iff (name_of row) (name_of row)).1 refl) refl)
by_name-created env row (x ∷ l) = elim (Bool-cases (str_eq x.name (name_of row))) [
  | inl e ↦ (x, rw e refl)
  | inr e ↦ let (s, found) = by_name-created env row l in (s, rw e found)
]

-- A segment of the row's name is there.
unfoldable pub Has : List Segment → String × String × Filter → Type 0
Has l row = (s : Segment) × (by_name (name_of row) l ≡ some s)

module _ (env : Env) where
  bootstrap_each_kept :
      (rows : List (String × String × Filter)) (l : List Segment) (p : Segment → Bool) (s : Segment)
      → find_first p l ≡ some s
      → find_first p (bootstrap_each env rows l) ≡ some s
  unfolding bootstrap_each
  bootstrap_each_kept [] l p s h = h
  bootstrap_each_kept (row ∷ rows) l p s h = elim (Bool-cases (is_some (by_name (name_of row) l))) [
    | inl there ↦ rw there (bootstrap_each_kept rows l p s h)
    | inr absent ↦ elim (Bool-cases (env.create_ok (name_of row))) [
      | inr failed ↦ rw (absent, failed) h
      | inl fine ↦
          let more = l ++ created env row ∷ [] in
          rw (absent, fine)
            (bootstrap_each_kept rows more p s (find_first-append p s l (created env row ∷ []) h))
    ]
  ]

  bootstrap_each-All :
      (rows : List (String × String × Filter)) (l m : List Segment)
      → ((name : String) → env.create_ok name ≡ true)
      → bootstrap_each env rows l ≡ m
      → All (Has m) rows
  unfolding bootstrap_each Has
  bootstrap_each-All [] l m ok h = tt
  bootstrap_each-All (row ∷ rows) l m ok h = elim (Option-cases (by_name (name_of row) l)) [
    | inr (s, there) ↦
        let h' : bootstrap_each env rows l ≡ m = rw there at h in
        (
          (s, rw (← h') (bootstrap_each_kept rows l (λ t. str_eq t.name (name_of row)) s there)),
          bootstrap_each-All rows l m ok h',
        )
    | inl absent ↦
        let more = l ++ created env row ∷ [] in
        let (s, found) = by_name-created env row l in
        let h' : bootstrap_each env rows more ≡ m = rw (absent, ok (name_of row)) at h in
        (
          (s, rw (← h') (bootstrap_each_kept rows more (λ t. str_eq t.name (name_of row)) s found)),
          bootstrap_each-All rows more m ok h',
        )
  ]

  -- A start leaves the first segment that any test finds, so that what the staff renamed or edited
  -- stays, also where a write fails; where no write fails, both of the system's names are there
  -- afterwards.
  pub on_application_bootstrap_lem :
      (l : List Segment) (p : Segment → Bool) (s : Segment)
      → find_first p l ≡ some s
      → ((name : String) → env.create_ok name ≡ true)
      → (find_first p (on_application_bootstrap env l) ≡ some s)
        × All (λ row. Has (on_application_bootstrap env l) row) system
  unfolding on_application_bootstrap
  on_application_bootstrap_lem l p s h ok =
      (bootstrap_each_kept system l p s h, bootstrap_each-All system l _ ok refl)

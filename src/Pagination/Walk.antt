-- ===== src/Pagination/Walk.antt =====
-- Following the cursors from page to page.
use zapiack_console_backend.Common.{
  ℕ, zero, suc, String, true, false, ◌≡◌, refl, sym, ap, ◌∙◌, ◌≤◌, ◌<◌, Option, none, some, List,
  [], ◌∷◌, ◌++◌, ltb, length, take, drop, All, arith,
}
use mathlib.Core.List.{append_assoc}
use native.Mathlib.Decide.{dec_lt}
use zapiack_console_backend.Pagination.{
  CursorKey, Codec, IdOrder, last, build_page, decode_cursor, cursor_after, cursor_where, matching,
  list_page,
}

more : (n m : ℕ) → n < m → ltb n m ≡ true
more n m h = ground arith

not_more : (m n : ℕ) → m ≤ n → ltb n m ≡ false
not_more m n h = ground arith

module _ {ℓ} {A : Type ℓ} where
  length-take_le : (n : ℕ) (xs : List A) → length xs ≤ n → take n xs ≡ xs
  length-take_le zero [] h = refl
  length-take_le (suc n) [] h = refl
  length-take_le zero (x ∷ xs) h = absurd (omega arith)
  length-take_le (suc n) (x ∷ xs) h = ap (λ l. x ∷ l) (length-take_le n xs (omega arith))

  length-take_lt : (n : ℕ) (xs : List A) → n < length xs → length (take n xs) ≡ n
  length-take_lt zero xs h = refl
  length-take_lt (suc n) [] h = absurd (omega arith)
  length-take_lt (suc n) (x ∷ xs) h = ap suc (length-take_lt n xs (omega arith))

  take-take-suc : (n : ℕ) (xs : List A) → take n (take (suc n) xs) ≡ take n xs
  take-take-suc zero xs = refl
  take-take-suc (suc n) [] = refl
  take-take-suc (suc n) (x ∷ xs) = ap (λ l. x ∷ l) (take-take-suc n xs)

  length-take-suc : (n : ℕ) (xs : List A) → n < length xs → n < length (take (suc n) xs)
  length-take-suc zero [] h = absurd (omega arith)
  length-take-suc zero (x ∷ xs) h = omega arith
  length-take-suc (suc n) [] h = absurd (omega arith)
  length-take-suc (suc n) (x ∷ xs) h = omega (arith, length-take-suc n xs (omega arith))

  length-drop_lt : (n : ℕ) (xs : List A) → n < length xs → length (drop (suc n) xs) < length xs
  length-drop_lt n [] h = absurd (omega arith)
  length-drop_lt zero (x ∷ xs) h = omega arith
  length-drop_lt (suc n) (x ∷ xs) h = omega (arith, length-drop_lt n xs (omega arith))

module _ {ℓ} {R : Type ℓ} (codec : Codec) (key_of : R → CursorKey) where
  -- The last row of a page, and the list around it.
  split_page :
      (n : ℕ) (xs : List R)
      → n < length xs
      → (init : List R) × (r : R) × (last codec key_of (take (suc n) xs) ≡ some r)
        × (take (suc n) xs ≡ init ++ r ∷ [])
        × (xs ≡ init ++ r ∷ drop (suc n) xs)
  split_page n [] h = absurd (omega arith)
  split_page zero (x ∷ xs) h = ([], x, refl, refl, refl)
  split_page (suc n) (x ∷ y ∷ xs) h =
      let (init, r, at_end, taken, whole) = split_page n (y ∷ xs) (omega arith) in
      (x ∷ init, r, at_end, ap (λ l. x ∷ l) taken, ap (λ l. x ∷ l) whole)
  split_page (suc n) (x ∷ []) h = absurd (omega arith)

  module _ (order : IdOrder) where
    abbrev pub Older : CursorKey → R → Type 0
    Older c r = cursor_where codec key_of order (some c) r ≡ true

    -- Newest first, by instant and then by id, with no two rows alike.
    abbrev pub IsNewestFirst : List R → Type ℓ
    IsNewestFirst [] = Unit
    IsNewestFirst (r ∷ rs) = All (Older (key_of r)) rs × IsNewestFirst rs

    follow : List R → Option String → (String → List R) → List R
    follow rows none next = rows
    follow rows (some c) next = rows ++ next c

    -- All rows that a client gets which asks for page after page until there is no next cursor.
    unfoldable pub walk : ℕ → List R → ℕ → Option String → List R
    unfolding follow
    walk zero table limit cursor = []
    walk (suc fuel) table limit cursor =
        let page = list_page codec key_of order table cursor limit in
        follow page.rows page.next_cursor (λ c. walk fuel table limit (some c))

    Older-asym :
        (p r : R) → Older (key_of p) r → cursor_where codec key_of order (some (key_of r)) p ≡ false
    Older-asym p r h = ground (arith, order.lt_asym (key_of r).id (key_of p).id)

    Older-irrefl : (r : R) → cursor_where codec key_of order (some (key_of r)) r ≡ false
    Older-irrefl r = ground (arith, order.lt_irrefl (key_of r).id)

    matching_all :
        (c : CursorKey) (rs : List R)
        → All (Older c) rs
        → matching codec key_of order (some c) rs ≡ rs
    unfolding matching
    matching_all c [] h = refl
    matching_all c (r ∷ rs) (o, h) = rw o (ap (λ l. r ∷ l) (matching_all c rs h))

    All-at : (P : R → Type 0) (pre : List R) (r : R) (post : List R) → All P (pre ++ r ∷ post) → P r
    All-at P [] r post (p, h) = p
    All-at P (x ∷ pre) r post (p, h) = All-at P pre r post h

    -- What is older than a row of the table is what stands after it.
    matching_at :
        (pre : List R) (r : R) (post : List R)
        → IsNewestFirst (pre ++ r ∷ post)
        → matching codec key_of order (some (key_of r)) (pre ++ r ∷ post) ≡ post
    unfolding matching
    matching_at [] r post (h, _) = rw (Older-irrefl r) (matching_all (key_of r) post h)
    matching_at (p ∷ pre) r post (h, s) =
        rw (Older-asym p r (All-at (Older (key_of p)) pre r post h)) (matching_at pre r post s)

    page_short :
        (n : ℕ) (rs : List R)
        → length rs ≤ n
        → build_page codec key_of (take (suc n) rs) n
          ≡ record { rows = rs; has_more = false; next_cursor = none }
    unfolding build_page
    page_short n rs h =
        rw (length-take_le (suc n) rs (omega arith)) (rw (not_more (length rs) n h) refl)

    page_long :
        (n : ℕ) (rs : List R)
        → n < length rs
        → build_page codec key_of (take (suc n) rs) n ≡ record {
          rows = take n rs;
          has_more = true;
          next_cursor = cursor_after codec key_of true (last codec key_of (take n rs));
        }
    unfolding build_page
    page_long n rs h =
        rw (more n (length (take (suc n) rs)) (length-take-suc n rs h))
          (rw (take-take-suc n rs) refl)

    page_at :
        (table rest : List R) (n : ℕ) (cursor : Option String)
        → matching codec key_of order (decode_cursor codec key_of cursor) table ≡ rest
        → list_page codec key_of order table cursor n
          ≡ build_page codec key_of (take (suc n) rest) n
    unfolding list_page
    page_at table rest n cursor m = ap (λ rs. build_page codec key_of (take (suc n) rs) n) m

    next_rows :
        (table pre : List R) (r : R) (post : List R)
        → table ≡ pre ++ r ∷ post
        → IsNewestFirst table
        → matching codec key_of order (codec.decode (codec.encode (key_of r))) table ≡ post
    next_rows table pre r post e s =
        rw codec.decode-encode (rw e (matching_at pre r post (rw e at s)))

    walk_from :
        (fuel : ℕ) (table pre rest : List R) (n : ℕ) (cursor : Option String)
        → table ≡ pre ++ rest
        → IsNewestFirst table
        → matching codec key_of order (decode_cursor codec key_of cursor) table ≡ rest
        → length rest < fuel
        → walk fuel table (suc n) cursor ≡ rest
    unfolding walk
    walk_from zero table pre rest n cursor e s m h = absurd (omega arith)
    walk_from (suc fuel) table pre rest n cursor e s m h = elim (dec_lt (suc n) (length rest)) [
      | no short ↦
          rw (page_at table rest (suc n) cursor m, page_short (suc n) rest (omega arith)) refl
      | yes long ↦
          let (init, r, at_end, taken, whole) = split_page n rest (omega arith) in
          let post = drop (suc n) rest in
          let c = codec.encode (key_of r) in
          let at_r : table ≡ (pre ++ init) ++ r ∷ post =
            e ∙ ap (λ l. pre ++ l) whole ∙ sym (append_assoc pre init (r ∷ post)) in
          let after_r : table ≡ ((pre ++ init) ++ r ∷ []) ++ post =
            at_r ∙ sym (append_assoc (pre ++ init) (r ∷ []) post) in
          let later : walk fuel table (suc n) (some c) ≡ post =
            walk_from fuel table ((pre ++ init) ++ r ∷ []) post n (some c) after_r s
              (next_rows table (pre ++ init) r post at_r s)
              (omega (arith, length-drop_lt n rest (omega arith))) in
          rw (page_at table rest (suc n) cursor m, page_long (suc n) rest long, at_end, later)
            (ap (λ l. l ++ post) taken ∙ append_assoc init (r ∷ []) post ∙ sym whole)
    ]

    matching-none : (rs : List R) → matching codec key_of order none rs ≡ rs
    unfolding matching
    matching-none [] = refl
    matching-none (r ∷ rs) = ap (λ l. r ∷ l) (matching-none rs)

    -- Over a table that stands newest first with no two rows alike, a client that follows the cursors,
    -- with pages of any positive size, gets every row exactly once, in the table's order, and comes to
    -- an end within as many requests as there are rows, and one more.
    pub walk-eq-table :
        (table : List R) (limit fuel : ℕ)
        → IsNewestFirst table
        → length table < fuel
        → walk fuel table (suc limit) none ≡ table
    walk-eq-table table limit fuel s h =
        walk_from fuel table [] table limit none refl s (matching-none table) h

-- ===== src/Idempotency/Exclusion.antt =====
-- The handler runs for one request of a key at a time.
use zapiack_console_backend.Common.{
  ℕ, Bool, true, false, not, ◌&&◌, ◌≡◌, Option, none, some, is_some, ◌==◌, arith, Bool-cases, inl,
  inr, String, List, suc, ◌∷◌, refl, ◌≢◌, Option-cases,
}
use zapiack_console_backend.Idempotency.{
  Row, Pc, running, releasing, completing, State, set, Answer, Reach, answered, new_row, Step, Text,
  absent, collided, completed, deleted,
}

-- The id of the row that a request owns.
abbrev pub owned : Pc → Option ℕ
owned (running k) = some k
owned (releasing k) = some k
owned (completing k body) = some k
owned _ = none

abbrev pub is_open : ℕ → Option Row → Bool
is_open k none = false
is_open k (some r) = r.id == k && not (is_some r.response_body)

-- An owner's row is there, not completed, and there is one owner at most.
unfoldable pub Inv : State → Type 0
Inv s =
    ((i k : ℕ) → owned (s.pc i) ≡ some k → is_open k s.row ≡ true)
    × ((i j k l : ℕ) → owned (s.pc i) ≡ some k → owned (s.pc j) ≡ some l → i ≡ j)

-- A request moves on and owns nothing more than before; the row stays.
Inv-move :
    (s : State) (i : ℕ) (p : Pc)
    → ((k : ℕ) → owned p ≡ some k → owned (s.pc i) ≡ some k)
    → Inv s
    → Inv (record s { pc = set s.pc i p })
unfolding Inv
Inv-move s i p keeps (open_row, one) =
    let back : (j k : ℕ) → owned (set s.pc i p j) ≡ some k → owned (s.pc j) ≡ some k = λ j k h.
      elim (Bool-cases (i == j)) [
        | inl e ↦ let same : i ≡ j = ground arith in rw (← same) (keeps k (rw e at h))
        | inr e ↦ rw e at h
      ] in
    (λ j k h. open_row j k (back j k h), λ j l k m h h'. one j l k m (back j k h) (back l m h'))

-- The owner is done: nobody owns anything, whatever becomes of the row.
Inv-end :
    (s : State) (i k : ℕ) (a : Answer) (row : Option Row)
    → owned (s.pc i) ≡ some k
    → Inv s
    → Inv (record s { row = row; pc = set s.pc i (answered a) })
unfolding Inv
Inv-end s i k a row own (open_row, one) =
    let nobody : (j l : ℕ) → owned (set s.pc i (answered a) j) ≡ some l → ⊥ = λ j l h.
      elim (Bool-cases (i == j)) [
        | inl e ↦ cc (rw e at h)
        | inr e ↦
            let h' : owned (s.pc j) ≡ some l = rw e at h in
            let same = one i j k l own h' in ground (arith)
      ] in
    (λ j l h. absurd (nobody j l h), λ j l m n h h'. absurd (nobody j m h))

Inv-create :
    (s : State) (i : ℕ) (hash : String)
    → s.row ≡ none
    → Inv s
    → Inv (record s {
      row = some (new_row s.next_id hash);
      next_id = suc s.next_id;
      pc = set s.pc i (running s.next_id);
    })
unfolding Inv
Inv-create s i hash empty (open_row, one) =
    let only : (j l : ℕ)
        → owned (set s.pc i (running s.next_id) j) ≡ some l
        → (i ≡ j) × (s.next_id ≡ l) =
      λ j l h. elim (Bool-cases (i == j)) [
        | inl e ↦ let h' : some s.next_id ≡ some l = rw e at h in (ground arith, cc)
        | inr e ↦
            let h' : owned (s.pc j) ≡ some l = rw e at h in
            let o = open_row j l h' in cc (rw empty at o)
      ] in
    (
      λ j l h. let (_, e) = only j l h in ground arith,
      λ j l m n h h'. let (e, _) = only j m h in let (f, _) = only l n h' in cc,
    )

Inv-results : (s : State) (l : List (String × Text)) → Inv s → Inv (record s { results = l })
unfolding Inv
Inv-results s l inv = inv

Inv-lost : (s : State) (n : ℕ) → Inv s → Inv (record s { lost = n })
unfolding Inv
Inv-lost s n inv = inv

module _ (hash : ℕ → String) where
  pub Inv-step : (s t : State) → Step hash s t → Inv s → Inv t
  Inv-step s t (Step.find_row i r at' found) inv = Inv-move s i _ (λ k h. cc) inv
  Inv-step s t (Step.find_none i at' found) inv = Inv-move s i absent (λ k h. cc) inv
  Inv-step s t (Step.create i at' empty) inv = Inv-create s i (hash i) empty inv
  Inv-step s t (Step.unique_violation i r at' found) inv = Inv-move s i collided (λ k h. cc) inv
  Inv-step s t (Step.find_again i at') inv = Inv-move s i _ (λ k h. cc) inv
  Inv-step s t (Step.returns i k body at') inv =
      Inv-results _ ((hash i, body) ∷ s.results)
        (Inv-move s i (completing k body) (λ l h. rw at' h) inv)
  Inv-step s t (Step.throws i k at') inv = Inv-move s i (releasing k) (λ l h. rw at' h) inv
  Inv-step s t (Step.complete i k body at' there) inv =
      Inv-end s i k (Answer.result body) (completed k body s.row) (rw at' refl) inv
  Inv-step s t (Step.complete_fails i k body at') inv =
      Inv-lost _ (suc s.lost) (Inv-move s i (releasing k) (λ l h. rw at' h) inv)
  Inv-step s t (Step.release i k at') inv =
      Inv-end s i k Answer.failed (deleted k s.row) (rw at' refl) inv
  Inv-step s t (Step.release_fails i k at') inv = Inv-move s i _ (λ l h. cc) inv

  pub Inv-reach : (s : State) → Reach hash s → Inv s
  unfolding Inv
  Inv-reach s Reach.start = (λ i k h. cc, λ i j k l h. cc)
  Inv-reach s (Reach.later r step) = Inv-step _ s step (Inv-reach _ r)

  -- While one request of a key has the handler's run in hand, from its claim of the key until its row
  -- is completed or given up, no other has, however their steps interleave.
  pub one_owner :
      (s : State) (i j k : ℕ)
      → Reach hash s
      → owned (s.pc i) ≡ some k
      → j ≢ i
      → owned (s.pc j) ≡ none
  unfolding Inv
  one_owner s i j k r h other = elim (Option-cases (owned (s.pc j))) [
    | inl none_owned ↦ none_owned
    | inr (l, h') ↦ absurd (other ((Inv-reach s r).1 j i l k h' h))
  ]

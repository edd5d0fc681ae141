-- ===== src/Idempotency/Replay.antt =====
-- What is replayed is what the handler returned for the same body.
use zapiack_console_backend.Common.{
  ℕ, suc, String, true, ◌≡◌, refl, Option, none, some, ◌∷◌, str_eq, ◌==◌, arith, Memᴰ, Bool-cases,
  Option-cases, inl, inr, eq_iff,
}
use zapiack_console_backend.Common.Text.{Text}
use zapiack_console_backend.Idempotency.{
  Row, Answer, Pc, absent, collided, running, releasing, completing, answered, replayed, State,
  as_replay, set, new_row, raced, completed, deleted, has_row, Step, Reach,
}
use zapiack_console_backend.Idempotency.Exclusion.{owned, is_open, Inv, Inv-reach}

-- The body that a request has from the handler, or was answered as another's.
abbrev body_of : Pc → Option Text
body_of (completing k body) = some body
body_of (answered (replayed body)) = some body
body_of _ = none

module _ (hash : ℕ → String) where
  -- A body stands for a run of the handler that returned it, for the same hash.
  Recorded : State → Type 0
  Recorded s =
      ((i : ℕ) (b : Text) → body_of (s.pc i) ≡ some b → Memᴰ (hash i, b) s.results)
      × ((r : Row) (b : Text)
          → s.row ≡ some r
          → r.response_body ≡ some b
          → Memᴰ (r.request_hash, b) s.results)
      × ((i k : ℕ) (r : Row) → owned (s.pc i) ≡ some k → s.row ≡ some r → r.request_hash ≡ hash i)

  Recorded-move :
      (s : State) (i : ℕ) (p : Pc)
      → ((b : Text) → body_of p ≡ some b → Memᴰ (hash i, b) s.results)
      → ((k : ℕ) → owned p ≡ some k → owned (s.pc i) ≡ some k)
      → Recorded s
      → Recorded (record s { pc = set s.pc i p })
  unfolding Recorded
  Recorded-move s i p bodies keeps (bodies_of, rows_of, own_row) = (
    λ j b h. elim (Bool-cases (i == j)) [
      | inl e ↦ let same : i ≡ j = ground arith in rw (← same) (bodies b (rw e at h))
      | inr e ↦ bodies_of j b (rw e at h)
    ],
    rows_of,
    λ j k r h. elim (Bool-cases (i == j)) [
      | inl e ↦ let same : i ≡ j = ground arith in rw (← same) (own_row i k r (keeps k (rw e at h)))
      | inr e ↦ own_row j k r (rw e at h)
    ],
  )

  Recorded-lost : (s : State) (n : ℕ) → Recorded s → Recorded (record s { lost = n })
  unfolding Recorded
  Recorded-lost s n rec = rec

  replay-Recorded :
      (s : State) (r : Row) (i : ℕ) (b : Text)
      → s.row ≡ some r
      → Recorded s
      → body_of (answered (as_replay r (hash i))) ≡ some b
      → Memᴰ (hash i, b) s.results
  unfolding Recorded
  replay-Recorded s r i b there (bodies_of, rows_of, own_row) h =
      elim (Bool-cases (str_eq r.request_hash (hash i))) [
        | inr e ↦ cc (rw e at h)
        | inl e ↦ elim (Option-cases r.response_body) [
          | inl f ↦ cc (rw (e, f) at h)
          | inr (c, f) ↦
              let h' : some c ≡ some b = rw (e, f) at h in
              let same : c ≡ b = cc in
              rw (← (eq_iff r.request_hash (hash i)).0 e, ← same) (rows_of r c there f)
        ]
      ]

  raced-Recorded :
      (s : State) (o : Option Row) (i : ℕ) (b : Text)
      → s.row ≡ o
      → Recorded s
      → body_of (answered (raced o (hash i))) ≡ some b
      → Memᴰ (hash i, b) s.results
  raced-Recorded s none i b there rec h = cc
  raced-Recorded s (some r) i b there rec h = replay-Recorded s r i b there rec h

  Recorded-returns :
      (s : State) (i k : ℕ) (body : Text)
      → s.pc i ≡ running k
      → Recorded s
      → Recorded
          (record s { pc = set s.pc i (completing k body); results = (hash i, body) ∷ s.results })
  unfolding Recorded
  Recorded-returns s i k body at' (bodies_of, rows_of, own_row) = (
    λ j b h. elim (Bool-cases (i == j)) [
      | inl e ↦
          let same : i ≡ j = ground arith in
          let h' : some body ≡ some b = rw e at h in
          let f : body ≡ b = cc in rw (← same, ← f) (Memᴰ.head refl)
      | inr e ↦ Memᴰ.tail (bodies_of j b (rw e at h))
    ],
    λ r b there h. Memᴰ.tail (rows_of r b there h),
    λ j l r h. elim (Bool-cases (i == j)) [
      | inl e ↦ let same : i ≡ j = ground arith in rw (← same) (own_row i k r (rw at' refl))
      | inr e ↦ own_row j l r (rw e at h)
    ],
  )

  Recorded-complete :
      (s : State) (i k : ℕ) (body : Text) (row : Option Row)
      → s.row ≡ row
      → s.pc i ≡ completing k body
      → has_row k row ≡ true
      → Inv s
      → Recorded s
      → Recorded
          (record s { row = completed k body row; pc = set s.pc i (answered (Answer.result body)) })
  unfolding Recorded Inv
  Recorded-complete s i k body none there at' has inv rec = cc
  Recorded-complete s i k body (some r) there at' has (open_row, one)
        (bodies_of, rows_of, own_row) =
      let mine : r.request_hash ≡ hash i = own_row i k r (rw at' refl) there in
      let result_in : Memᴰ (hash i, body) s.results = bodies_of i body (rw at' refl) in
      rw has (
        λ j b h. elim (Bool-cases (i == j)) [
          | inl e ↦ cc (rw e at h)
          | inr e ↦ bodies_of j b (rw e at h)
        ],
        λ q b e h.
            let same : (record r { response_body = some body }) ≡ q = cc in
            let h' : some body ≡ some b = rw (← same) at h in
            let f : body ≡ b = cc in rw (← same, mine, ← f) result_in,
        λ j l q h. elim (Bool-cases (i == j)) [
          | inl e ↦ cc (rw e at h)
          | inr e ↦ let same = one i j k l (rw at' refl) (rw e at h) in absurd (ground arith)
        ],
      )

  Recorded-release :
      (s : State) (i k : ℕ) (row : Option Row)
      → s.row ≡ row
      → s.pc i ≡ releasing k
      → Inv s
      → Recorded s
      → Recorded (record s { row = deleted k row; pc = set s.pc i (answered Answer.failed) })
  unfolding Recorded Inv
  Recorded-release s i k none there at' (open_row, one) rec =
      let o = open_row i k (rw at' refl) in cc (rw there at o)
  Recorded-release s i k (some r) there at' (open_row, one) (bodies_of, rows_of, own_row) =
      let o : is_open k (some r) ≡ true = rw there at (open_row i k (rw at' refl)) in
      let mine : (r.id == k) ≡ true = ground arith in
      rw mine (
        λ j b h. elim (Bool-cases (i == j)) [
          | inl e ↦ cc (rw e at h)
          | inr e ↦ bodies_of j b (rw e at h)
        ],
        λ q b e h. cc,
        λ j l q h e. cc,
      )

  Recorded-create :
      (s : State) (i : ℕ)
      → s.row ≡ none
      → Inv s
      → Recorded s
      → Recorded (record s {
        row = some (new_row s.next_id (hash i));
        next_id = suc s.next_id;
        pc = set s.pc i (running s.next_id);
      })
  unfolding Recorded Inv
  Recorded-create s i empty (open_row, one) (bodies_of, rows_of, own_row) = (
    λ j b h. elim (Bool-cases (i == j)) [
      | inl e ↦ cc (rw e at h)
      | inr e ↦ bodies_of j b (rw e at h)
    ],
    λ r b there h. let same : new_row s.next_id (hash i) ≡ r = cc in cc (rw (← same) at h),
    λ j l r h there. elim (Bool-cases (i == j)) [
      | inl e ↦
          let same : i ≡ j = ground arith in
          let f : new_row s.next_id (hash i) ≡ r = cc in rw (← same, ← f) refl
      | inr e ↦ let o = open_row j l (rw e at h) in cc (rw empty at o)
    ],
  )

  Recorded-step : (s t : State) → Step hash s t → Inv s → Recorded s → Recorded t
  Recorded-step s t (Step.find_row i r at' found) inv rec =
      Recorded-move s i _ (λ b h. replay-Recorded s r i b found rec h) (λ k h. cc) rec
  Recorded-step s t (Step.find_none i at' found) inv rec =
      Recorded-move s i absent (λ b h. cc) (λ k h. cc) rec
  Recorded-step s t (Step.create i at' empty) inv rec = Recorded-create s i empty inv rec
  Recorded-step s t (Step.unique_violation i r at' found) inv rec =
      Recorded-move s i collided (λ b h. cc) (λ k h. cc) rec
  Recorded-step s t (Step.find_again i at') inv rec =
      Recorded-move s i _ (λ b h. raced-Recorded s s.row i b refl rec h) (λ k h. cc) rec
  Recorded-step s t (Step.returns i k body at') inv rec = Recorded-returns s i k body at' rec
  Recorded-step s t (Step.throws i k at') inv rec =
      Recorded-move s i (releasing k) (λ b h. cc) (λ l h. rw at' h) rec
  Recorded-step s t (Step.complete i k body at' there) inv rec =
      Recorded-complete s i k body s.row refl at' there inv rec
  Recorded-step s t (Step.complete_fails i k body at') inv rec =
      Recorded-lost _ (suc s.lost)
        (Recorded-move s i (releasing k) (λ b h. cc) (λ l h. rw at' h) rec)
  Recorded-step s t (Step.release i k at') inv rec = Recorded-release s i k s.row refl at' inv rec
  Recorded-step s t (Step.release_fails i k at') inv rec =
      Recorded-move s i _ (λ b h. cc) (λ l h. cc) rec

  Recorded-reach : (s : State) → Reach hash s → Recorded s
  unfolding Recorded
  Recorded-reach s Reach.start = (λ i b h. cc, λ r b h. cc, λ i k r h. cc)
  Recorded-reach s (Reach.later r step) =
      Recorded-step _ s step (Inv-reach hash _ r) (Recorded-reach _ r)

  -- A request that is answered by replay is answered what a run of the handler returned for a body
  -- with the same hash, however the requests of the key interleave.
  pub replayed-results :
      (s : State) (i : ℕ) (body : Text)
      → Reach hash s
      → s.pc i ≡ answered (replayed body)
      → Memᴰ (hash i, body) s.results
  unfolding Recorded
  replayed-results s i body r h = (Recorded-reach s r).0 i body (rw h refl)

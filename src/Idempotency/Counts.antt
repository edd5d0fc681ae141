-- ===== src/Idempotency/Counts.antt =====
-- How often the handler of a key returns.
use zapiack_console_backend.Common.{
  ℕ, suc, String, Bool, true, false, ◌≡◌, ◌≢◌, ◌≤◌, refl, Option, none, some, ◌∷◌, length, ◌==◌,
  arith, Bool-cases, inl, inr,
}
use zapiack_console_backend.Common.Text.{Text}
use zapiack_console_backend.Idempotency.{
  Row, Answer, Pc, arrived, absent, collided, running, releasing, completing, answered, State, set,
  completed, has_row, Step, Reach,
}
use zapiack_console_backend.Idempotency.Exclusion.{owned, Inv, Inv-reach}

-- The handler may still run, or its run is given up.
abbrev pub is_idle : Pc → Bool
is_idle (running k) = true
is_idle (releasing k) = true
is_idle _ = false

-- The runs that returned are one more than the lost completions at most, and not more than these while
-- there is no row or its owner has no result.
Counts : State → Type 0
Counts s =
    (length s.results ≤ suc s.lost)
    × ((i : ℕ) → is_idle (s.pc i) ≡ true → length s.results ≤ s.lost)
    × (s.row ≡ none → length s.results ≤ s.lost)

idle_at :
    (s : State) (i j : ℕ) (p : Pc)
    → (is_idle p ≡ true → is_idle (s.pc i) ≡ true)
    → is_idle (set s.pc i p j) ≡ true
    → (l : ℕ) × (is_idle (s.pc l) ≡ true)
idle_at s i j p keeps h = elim (Bool-cases (i == j)) [
  | inl e ↦ (i, keeps (rw e at h))
  | inr e ↦ (j, rw e at h)
]

Counts-move :
    (s : State) (i : ℕ) (p : Pc)
    → (is_idle p ≡ true → is_idle (s.pc i) ≡ true)
    → Counts s
    → Counts (record s { pc = set s.pc i p })
unfolding Counts
Counts-move s i p keeps (most, idle, gone) =
    (most, λ j h. let (l, h') = idle_at s i j p keeps h in idle l h', gone)

-- Nobody else is idle where one is the owner.
idle-owned : (p : Pc) → is_idle p ≡ true → (k : ℕ) × (owned p ≡ some k)
idle-owned (running k) h = (k, refl)
idle-owned (releasing k) h = (k, refl)
idle-owned (completing k body) h = cc
idle-owned arrived h = cc
idle-owned absent h = cc
idle-owned collided h = cc
idle-owned (answered a) h = cc

Counts-returns :
    (s : State) (i k : ℕ) (body : Text) (entry : String × Text)
    → s.pc i ≡ running k
    → Inv s
    → Counts s
    → Counts (record s { pc = set s.pc i (completing k body); results = entry ∷ s.results })
unfolding Counts Inv
Counts-returns s i k body entry at' (open_row, one) (most, idle, gone) =
    let few = idle i (rw at' refl) in
    (
      omega arith,
      λ j h. elim (Bool-cases (i == j)) [
        | inl e ↦ cc (rw e at h)
        | inr e ↦
            let h' : is_idle (s.pc j) ≡ true = rw e at h in
            let (l, own) = idle-owned (s.pc j) h' in
            let same = one i j k l (rw at' refl) own in ground (arith)
      ],
      λ none_there. let o = open_row i k (rw at' refl) in cc (rw none_there at o),
    )

completed-some :
    (k : ℕ) (body : Text) (row : Option Row) → has_row k row ≡ true → completed k body row ≢ none
completed-some k body none h e = cc
completed-some k body (some r) h e = cc (rw h at e)

module _ (hash : ℕ → String) where
  Counts-step : (s t : State) → Step hash s t → Inv s → Counts s → Counts t
  unfolding Counts Inv
  Counts-step s t (Step.find_row i r at' found) inv c = Counts-move s i _ (λ h. cc) c
  Counts-step s t (Step.find_none i at' found) inv c = Counts-move s i absent (λ h. cc) c
  Counts-step s t (Step.create i at' empty) inv (most, idle, gone) =
      (most, λ j h. gone empty, λ h. gone empty)
  Counts-step s t (Step.unique_violation i r at' found) inv c = Counts-move s i collided (λ h. cc) c
  Counts-step s t (Step.find_again i at') inv c = Counts-move s i _ (λ h. cc) c
  Counts-step s t (Step.returns i k body at') inv c =
      Counts-returns s i k body (hash i, body) at' inv c
  Counts-step s t (Step.throws i k at') inv c = Counts-move s i (releasing k) (λ h. rw at' refl) c
  Counts-step s t (Step.complete i k body at' there) inv (most, idle, gone) = (
    most,
    λ j h. let (l, h') = idle_at s i j (answered (Answer.result body)) (λ e. cc) h in idle l h',
    λ h. absurd (completed-some k body s.row there h),
  )
  Counts-step s t (Step.complete_fails i k body at') inv (most, idle, gone) =
      (omega arith, λ j h. most, λ h. most)
  Counts-step s t (Step.release i k at') inv (most, idle, gone) = (
    most,
    λ j h. let (l, h') = idle_at s i j (answered Answer.failed) (λ e. cc) h in idle l h',
    λ h. idle i (rw at' refl),
  )
  Counts-step s t (Step.release_fails i k at') inv c = Counts-move s i _ (λ h. cc) c

  Counts-reach : (s : State) → Reach hash s → Counts s
  unfolding Counts
  Counts-reach s Reach.start = (omega arith, λ i h. omega arith, λ h. omega arith)
  Counts-reach s (Reach.later r step) = Counts-step _ s step (Inv-reach hash _ r) (Counts-reach _ r)

  -- However the requests of one key interleave, the handler returns at most once more often than a
  -- completion write failed: once, where none did.
  pub results_bound : (s : State) → Reach hash s → length s.results ≤ suc s.lost
  unfolding Counts
  results_bound s r = (Counts-reach s r).0

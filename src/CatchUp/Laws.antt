-- ===== src/CatchUp/Laws.antt =====
-- Exactly which days are owed, in which order, and how many at most.
use zapiack_console_backend.Common.{
  ℕ, zero, suc, Bool, not, ◌&&◌, ◌≡◌, ◌≤◌, ◌<◌, ◌+◌, ◌-◌, refl, Option, none, some, List, [], ◌∷◌,
  ltb, leb, ◌==◌, any, length, arith, Bool-cases, inl, inr,
}
use zapiack_console_backend.CatchUp.{
  days_to, days_between, not_before, first_owed, missing_finalise_days, history_days,
  max_catch_up_days, max_history_days,
}

abbrev pub contains : ℕ → List ℕ → Bool
contains d days = any (λ x. x == d) days

-- One day after the other, from the first.
abbrev pub IsConsecutive : ℕ → List ℕ → Type 0
IsConsecutive first [] = Unit
IsConsecutive first (d ∷ days) = (d ≡ first) × IsConsecutive (suc first) days

contains-days_to :
    (rounds cursor last d : ℕ)
    → contains d (days_to rounds cursor last)
      ≡ (leb cursor d && leb d last && ltb d (cursor + rounds))
unfolding days_to
contains-days_to zero cursor last d = ground arith
contains-days_to (suc rounds) cursor last d =
    ground (arith, contains-days_to rounds (suc cursor) last d)

contains-days_between :
    (cursor last d : ℕ) → contains d (days_between cursor last) ≡ (leb cursor d && leb d last)
unfolding days_between
contains-days_between cursor last d =
    ground (arith, contains-days_to (suc last - cursor) cursor last d)

length-days_to : (rounds cursor last : ℕ) → length (days_to rounds cursor last) ≤ rounds
unfolding days_to
length-days_to zero cursor last = omega arith
length-days_to (suc rounds) cursor last = ground (arith, length-days_to rounds (suc cursor) last)

days_to-IsConsecutive : (rounds cursor last : ℕ) → IsConsecutive cursor (days_to rounds cursor last)
unfolding days_to
days_to-IsConsecutive zero cursor last = tt
days_to-IsConsecutive (suc rounds) cursor last = elim (Bool-cases (leb cursor last)) [
  | inl more ↦ rw more (refl, days_to-IsConsecutive rounds (suc cursor) last)
  | inr over ↦ rw over tt
]

length-days_between : (cursor last : ℕ) → length (days_between cursor last) ≤ suc last - cursor
unfolding days_between
length-days_between cursor last = length-days_to (suc last - cursor) cursor last

days_between-IsConsecutive : (cursor last : ℕ) → IsConsecutive cursor (days_between cursor last)
unfolding days_between
days_between-IsConsecutive cursor last = days_to-IsConsecutive (suc last - cursor) cursor last

module _ (day_of : ℕ → ℕ) where
  -- The days to finalise are every day from the first one owed (two days ago without a watermark) to
  -- yesterday, but none that is more than fourteen days old: one after the other, oldest first, at most
  -- fourteen, and never today.
  pub missing_finalise_days_lem :
      (processed_to : Option ℕ) (now : ℕ)
      → max_catch_up_days < day_of now
      → let days = missing_finalise_days day_of processed_to now in
        ((d : ℕ)
          → contains d days ≡ (
              leb (first_owed day_of processed_to (day_of now - 1)) d
              && ltb d (day_of now)
              && leb (day_of now) (d + max_catch_up_days)))
        × ((first : ℕ) × IsConsecutive first days)
        × (length days ≤ max_catch_up_days)
  unfolding missing_finalise_days
  missing_finalise_days_lem processed_to now late =
      let yesterday = day_of now - 1 in
      let first = not_before (yesterday - 13) (first_owed day_of processed_to yesterday) in
      (
        λ d. ground (arith, contains-days_between first yesterday d),
        (first, days_between-IsConsecutive first yesterday),
        ground (arith, length-days_between first yesterday),
      )

  -- The days of history are every day from the product's first activity to three days ago, but none
  -- that is more than 120 days old: one after the other, oldest first, and at most 118. There are none
  -- without any activity.
  pub history_days_lem :
      (first_activity now : ℕ)
      → max_history_days < day_of now
      → let days = history_days day_of (some first_activity) now in
        ((d : ℕ)
          → contains d days ≡ (
              leb (day_of first_activity) d
              && leb (d + 3) (day_of now)
              && leb (day_of now) (d + max_history_days)))
        × ((first : ℕ) × IsConsecutive first days)
        × (length days ≤ 118)
        × (history_days day_of none now ≡ [])
  unfolding history_days
  history_days_lem first_activity now late =
      let first = not_before (day_of now - 120) (day_of first_activity) in
      let last = day_of now - 3 in
      (
        λ d. ground (arith, contains-days_between first last d),
        (first, days_between-IsConsecutive first last),
        ground (arith, length-days_between first last),
        refl,
      )

  -- On a first start, without a watermark, the history and the days to finalise leave no gap and share
  -- no day: every day from the first activity to yesterday, up to 120 days ago, is in exactly one.
  pub history_days-missing_finalise_days :
      (first_activity now d : ℕ)
      → max_history_days < day_of now
      → day_of first_activity ≤ d
      → d < day_of now
      → day_of now ≤ d + max_history_days
      → contains d (history_days day_of (some first_activity) now)
        ≡ not (contains d (missing_finalise_days day_of none now))
  history_days-missing_finalise_days first_activity now d late active past recent =
      let (owed, _, _) = missing_finalise_days_lem none now (omega arith) in
      let (known, _, _, _) = history_days_lem first_activity now late in
      rw (owed d, known d) (ground arith)

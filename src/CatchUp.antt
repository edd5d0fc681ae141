-- ===== src/CatchUp.antt =====
-- The days that nightly jobs still owe: src/modules/jobs/catch-up.ts. The day in Lagos of an instant
-- is luxon's, and a parameter: a number of days from a start long before the first, so that the
-- subtractions below never reach it. A text for a day (`toISODate`) stands for its number.
pub mod Boot
pub mod Laws
mod Tests
use zapiack_console_backend.Common.{
  ℕ, zero, suc, ◌-◌, Option, none, some, List, [], ◌∷◌, ltb, leb, if◌then◌else◌,
}

abbrev pub max_catch_up_days : ℕ
max_catch_up_days = 14

abbrev pub max_history_days : ℕ
max_history_days = 120

abbrev recent_days_left_alone : ℕ
recent_days_left_alone = 3

-- The loop of both functions, with as many rounds as there can be days.
unfoldable pub days_to : ℕ → ℕ → ℕ → List ℕ
days_to zero cursor last = []
days_to (suc rounds) cursor last =
    let rest = days_to rounds (suc cursor) last in if leb cursor last then cursor ∷ rest else []

unfoldable pub days_between : ℕ → ℕ → List ℕ
days_between cursor last = days_to (suc last - cursor) cursor last

abbrev pub not_before : ℕ → ℕ → ℕ
not_before earliest cursor = if ltb cursor earliest then earliest else cursor

module _ (day_of : ℕ → ℕ) where
  -- The first day owed: the watermark's, or two days ago.
  abbrev pub first_owed : Option ℕ → ℕ → ℕ
  first_owed none yesterday = yesterday - 1
  first_owed (some processed_to) yesterday = day_of processed_to

  unfoldable pub missing_finalise_days : Option ℕ → ℕ → List ℕ
  missing_finalise_days processed_to now =
      let yesterday = day_of now - 1 in
      let earliest = yesterday - (max_catch_up_days - 1) in
      days_between (not_before earliest (first_owed processed_to yesterday)) yesterday

  unfoldable pub history_days : Option ℕ → ℕ → List ℕ
  history_days none now = []
  history_days (some first_activity) now =
      let today = day_of now in
      days_between (not_before (today - max_history_days) (day_of first_activity))
        (today - recent_days_left_alone)

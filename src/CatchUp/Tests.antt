-- ===== src/CatchUp/Tests.antt =====
-- Days of a thousand milliseconds, and a first start in a product that is ten days old.
use zapiack_console_backend.Common.{
  ℕ, true, false, not, ◌≡◌, refl, Option, none, some, [], ◌∷◌, arith,
}
use zapiack_console_backend.CatchUp.{missing_finalise_days, history_days, days_to, days_between}
use zapiack_console_backend.CatchUp.Laws.{contains, history_days-missing_finalise_days}
use zapiack_console_backend.CatchUp.Boot.{
  history, has_job, State, Env, ◌and_then◌, add, add_all, reconcile_latest, sync_sender_ids,
  mark_loaded, load_from, load_history, catch_up, on_application_bootstrap,
}
use zapiack_console_backend.CatchUp.Boot.Laws.Once.{on_application_bootstrap-loaded, starts}
use zapiack_console_backend.CatchUp.Boot.Laws.{on_application_bootstrap-IsComplete}

abbrev day_of : ℕ → ℕ
day_of ms = ms

history_days-missing_finalise_days_example :
    contains 995 (history_days day_of (some 990) 1000)
    ≡ not (contains 995 (missing_finalise_days day_of none 1000))
history_days-missing_finalise_days_example =
    history_days-missing_finalise_days day_of 990 1000 995 (omega arith) (omega arith) (omega arith)
      (omega arith)

abbrev env : Env
env = record {
  now = 1000;
  watermark = some none;
  marker_ok = true;
  first_activity = some (some 990);
  create_ok = true;
  accepts = λ j. true;
}

abbrev empty : State
empty = record { rollups = []; maintenance = []; loaded = false }

on_application_bootstrap-IsComplete_example :
    (first : Option ℕ) × (env.first_activity ≡ some first)
    × ((d : ℕ)
        → contains d (history_days day_of first env.now) ≡ true
        → has_job (history d) (on_application_bootstrap day_of env empty).rollups ≡ true)
unfolding on_application_bootstrap catch_up load_history load_from mark_loaded sync_sender_ids
    reconcile_latest add_all add ◌and_then◌ missing_finalise_days history_days days_between days_to
on_application_bootstrap-IsComplete_example =
    on_application_bootstrap-IsComplete env day_of empty refl refl

on_application_bootstrap-loaded_example :
    let t = on_application_bootstrap day_of env empty in
    let u = starts day_of (env ∷ record env { now = 2000 } ∷ []) t in
    (t.loaded ≡ true)
    × ((d : ℕ)
        → contains d (history_days day_of (some 990) 1000) ≡ true
        → has_job (history d) t.rollups ≡ true)
    × ((d : ℕ) → has_job (history d) u.rollups ≡ has_job (history d) t.rollups)
on_application_bootstrap-loaded_example =
    on_application_bootstrap-loaded day_of env (env ∷ record env { now = 2000 } ∷ []) none
      (some 990) empty refl refl refl refl (λ j. refl) refl

-- ===== src/CatchUp/Boot.antt =====
-- What a start of the process puts on the queues: src/modules/jobs/catch-up.service.ts. A queue drops
-- a job whose id it already holds. A job stands for its id and its data; what fails (a query, or the
-- queue) is in `Env`, and ends the start-up work where it fails, with an error in the log only.
pub mod Laws
use zapiack_console_backend.Common.{
  ℕ, Bool, true, false, not, Option, none, some, List, [], ◌∷◌, ◌++◌, map, any, ◌==◌, if◌then◌else◌,
}
use zapiack_console_backend.CatchUp.{missing_finalise_days, history_days}

pub data Job : Type 0 where
  finalise reconcile history : ℕ → Job
  usage_boot requests_boot sender_id_sync_boot : ℕ → Job

abbrev pub job_eq : Job → Job → Bool
job_eq (finalise a) (finalise b) = a == b
job_eq (reconcile a) (reconcile b) = a == b
job_eq (history a) (history b) = a == b
job_eq (usage_boot a) (usage_boot b) = a == b
job_eq (requests_boot a) (requests_boot b) = a == b
job_eq (sender_id_sync_boot a) (sender_id_sync_boot b) = a == b
job_eq _ _ = false

abbrev pub has_job : Job → List Job → Bool
has_job j queue = any (λ x. job_eq x j) queue

pub record State : Type 0 where
  pub rollups : List Job
  pub maintenance : List Job
  pub loaded : Bool  -- the `history.backfill` marker

pub record Env : Type 0 where
  pub now : ℕ
  pub watermark : Option (Option ℕ)  -- empty where the query fails
  pub marker_ok : Bool
  pub first_activity : Option (Option ℕ)  -- empty where the query fails
  pub create_ok : Bool
  pub accepts : Job → Bool

abbrev pub enqueue : Job → List Job → List Job
enqueue j queue = if has_job j queue then queue else queue ++ j ∷ []

-- The work so far, and whether it goes on.
infixl 1 ◌and_then◌
unfoldable pub ◌and_then◌ : State × Bool → (State → State × Bool) → State × Bool
(s, true) and_then next = next s
(s, false) and_then next = (s, false)

unfoldable pub add : Env → Job → State → State × Bool
add env j s =
    if env.accepts j then (record s { rollups = enqueue j s.rollups }, true) else (s, false)

unfoldable pub add_all : Env → List Job → State → State × Bool
add_all env [] s = (s, true)
add_all env (j ∷ jobs) s = add env j s and_then add_all env jobs

abbrev pub last_day : List ℕ → Option ℕ
last_day [] = none
last_day (d ∷ []) = some d
last_day (d ∷ e ∷ days) = last_day (e ∷ days)

unfoldable pub reconcile_latest : Env → Option ℕ → State → State × Bool
reconcile_latest env none s = (s, true)
reconcile_latest env (some day) s = add env (reconcile day) s

unfoldable pub sync_sender_ids : Env → State → State × Bool
sync_sender_ids env s =
    let j = sender_id_sync_boot env.now in
    if env.accepts j then (record s { maintenance = enqueue j s.maintenance }, true) else (s, false)

unfoldable pub mark_loaded : Env → State → State × Bool
mark_loaded env s = if env.create_ok then (record s { loaded = true }, true) else (s, false)

module _ (day_of : ℕ → ℕ) (env : Env) where
  unfoldable pub load_from : Option (Option ℕ) → State → State × Bool
  load_from none s = (s, false)
  load_from (some first) s =
      add_all env (map history (history_days day_of first env.now)) s and_then mark_loaded env

  unfoldable pub load_history : State → State × Bool
  load_history s =
      if not env.marker_ok
      then (s, false)
      else if s.loaded
      then (s, true)
      else load_from env.first_activity s

  unfoldable pub catch_up : Option (Option ℕ) → State → State × Bool
  catch_up none s = (s, false)
  catch_up (some processed_to) s =
      let days = missing_finalise_days day_of processed_to env.now in
      add_all env (map finalise days) s
      and_then reconcile_latest env (last_day days)
      and_then add env (usage_boot env.now)
      and_then load_history
      and_then add env (requests_boot env.now)
      and_then sync_sender_ids env

  unfoldable pub on_application_bootstrap : State → State
  on_application_bootstrap s = (catch_up env.watermark s).0

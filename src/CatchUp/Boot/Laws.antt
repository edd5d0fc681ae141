-- ===== src/CatchUp/Boot/Laws.antt =====
-- The history is marked as loaded only when all of it is queued.
pub mod Once
use zapiack_console_backend.Common.{
  ℕ, Bool, true, false, not, ◌≡◌, ◌||◌, refl, Option, none, some, List, [], ◌∷◌, ◌++◌, map,
  if◌then◌else◌, arith, Bool-cases, inl, inr,
}
use zapiack_console_backend.CatchUp.{missing_finalise_days, history_days}
use zapiack_console_backend.CatchUp.Laws.{contains}
use zapiack_console_backend.CatchUp.Boot.{
  Job, finalise, reconcile, history, usage_boot, requests_boot, sender_id_sync_boot, job_eq,
  has_job, State, Env, enqueue, ◌and_then◌, add, add_all, last_day, reconcile_latest,
  sync_sender_ids, mark_loaded, load_from, load_history, catch_up, on_application_bootstrap,
}

job_eq_refl : (j : Job) → job_eq j j ≡ true
job_eq_refl (finalise a) = ground arith
job_eq_refl (reconcile a) = ground arith
job_eq_refl (history a) = ground arith
job_eq_refl _ = ground arith

pub has_job-append :
    (j k : Job) (queue : List Job) → has_job j (queue ++ k ∷ []) ≡ (has_job j queue || job_eq k j)
has_job-append j k [] = ground arith
has_job-append j k (x ∷ queue) = ground (arith, has_job-append j k queue)

has_job-enqueue :
    (j k : Job) (queue : List Job) → has_job j queue ≡ true → has_job j (enqueue k queue) ≡ true
has_job-enqueue j k queue h = ground (arith, has_job-append j k queue)

has_job-enqueue_self : (j : Job) (queue : List Job) → has_job j (enqueue j queue) ≡ true
has_job-enqueue_self j queue = ground (arith, has_job-append j j queue, job_eq_refl j)

job_eq_sound : (j k : Job) → job_eq j k ≡ true → j ≡ k
job_eq_sound j k h = ground arith

job_trans : (x j : Job) (queue : List Job) → job_eq x j ≡ true → has_job x queue ≡ has_job j queue
job_trans x j queue h = rw (job_eq_sound x j h) refl

has_job-history : (d : ℕ) (days : List ℕ) → has_job (history d) (map history days) ≡ contains d days
has_job-history d [] = refl
has_job-history d (x ∷ days) = ground (arith, has_job-history d days)

-- What holds of a state and is kept by a step.
unfoldable pub Keeps : (State → Type 0) → (State → State × Bool) → Type 0
Keeps P step = (s : State) → P s → P (step s).0

pub either :
    (P : State → Type 0) (b : Bool) (r q : State × Bool) → P r.0 → P q.0 → P (if b then r else q).0
either P true r q pr pq = pr
either P false r q pr pq = pq

pub and_then-Keeps :
    (P : State → Type 0) (r : State × Bool) (next : State → State × Bool)
    → P r.0
    → Keeps P next
    → P (r and_then next).0
unfolding Keeps ◌and_then◌
and_then-Keeps P (s, true) next p keeps = keeps s p
and_then-Keeps P (s, false) next p keeps = p

module _ (env : Env) where
  pub add-Keeps :
      (P : State → Type 0) (j : Job)
      → ((s : State) → P s → P (record s { rollups = enqueue j s.rollups }))
      → Keeps P (add env j)
  unfolding Keeps add
  add-Keeps P j closed s p = elim (Bool-cases (env.accepts j)) [
    | inl taken ↦ rw taken (closed s p)
    | inr refused ↦ rw refused p
  ]

  add_all-Keeps :
      (P : State → Type 0)
      → ((s : State) (j : Job) → P s → P (record s { rollups = enqueue j s.rollups }))
      → (jobs : List Job) → Keeps P (add_all env jobs)
  unfolding Keeps add_all
  add_all-Keeps P closed [] s p = p
  add_all-Keeps P closed (j ∷ jobs) s p =
      and_then-Keeps P (add env j s) (add_all env jobs) (add-Keeps P j (λ t q. closed t j q) s p)
        (add_all-Keeps P closed jobs)

  -- Jobs that were all taken are all on the queue.
  has_job-add_all :
      (jobs : List Job) (s : State) (j : Job)
      → (add_all env jobs s).1 ≡ true
      → has_job j jobs ≡ true
      → has_job j (add_all env jobs s).0.rollups ≡ true
  unfolding add_all add ◌and_then◌ Keeps
  has_job-add_all [] s j went h = cc
  has_job-add_all (x ∷ jobs) s j went h = elim (Bool-cases (env.accepts x)) [
    | inr refused ↦ cc (rw refused at went)
    | inl taken ↦ rw taken (elim (Bool-cases (has_job j jobs)) [
      | inl later ↦
          has_job-add_all jobs (record s { rollups = enqueue x s.rollups }) j (rw taken at went)
            later
      | inr here ↦
          add_all-Keeps (λ t. has_job j t.rollups ≡ true) (λ t k p. has_job-enqueue j k t.rollups p)
            jobs (record s { rollups = enqueue x s.rollups })
            (ground (arith, has_job-append j x s.rollups, job_trans x j s.rollups))
    ])
  ]

  module _ (day_of : ℕ → ℕ) where
    -- Where the history is marked as loaded, every day of it is on the queue.
    abbrev pub IsComplete : State → Type 0
    IsComplete s =
        s.loaded ≡ true
        → (first : Option ℕ) × (env.first_activity ≡ some first)
          × ((d : ℕ)
              → contains d (history_days day_of first env.now) ≡ true
              → has_job (history d) s.rollups ≡ true)

    enqueue-IsComplete :
        (s : State) (j : Job)
        → IsComplete s
        → IsComplete (record s { rollups = enqueue j s.rollups })
    enqueue-IsComplete s j p loaded =
        let (first, e, h) = p loaded in
        (first, e, λ d c. has_job-enqueue (history d) j s.rollups (h d c))

    mark_loaded-IsComplete :
        (first : Option ℕ) (r : State × Bool)
        → env.first_activity ≡ some first
        → (r.1 ≡ true
            → (d : ℕ) → contains d (history_days day_of first env.now) ≡ true
            → has_job (history d) r.0.rollups ≡ true)
        → IsComplete r.0
        → IsComplete (r and_then mark_loaded env).0
    unfolding ◌and_then◌ mark_loaded
    mark_loaded-IsComplete first (t, false) e all p = p
    mark_loaded-IsComplete first (t, true) e all p = elim (Bool-cases env.create_ok) [
      | inl marked ↦ rw marked (λ _. (first, e, λ d c. all refl d c))
      | inr failed ↦ rw failed p
    ]

    load_from-IsComplete :
        (o : Option (Option ℕ)) (s : State)
        → env.first_activity ≡ o
        → IsComplete s
        → IsComplete (load_from day_of env o s).0
    unfolding load_from Keeps
    load_from-IsComplete none s e p = p
    load_from-IsComplete (some first) s e p =
        let days = history_days day_of first env.now in
        mark_loaded-IsComplete first (add_all env (map history days) s) e
          (λ went d c.
            has_job-add_all (map history days) s (history d) went (rw (has_job-history d days) c))
          (add_all-Keeps IsComplete enqueue-IsComplete (map history days) s p)

    load_history-Keeps : Keeps IsComplete (load_history day_of env)
    unfolding load_history Keeps
    load_history-Keeps s p =
        either IsComplete (not env.marker_ok) (s, false)
          (if s.loaded then (s, true) else load_from day_of env env.first_activity s) p
          (either IsComplete s.loaded (s, true) (load_from day_of env env.first_activity s) p
            (load_from-IsComplete env.first_activity s refl p))

    reconcile_latest-Keeps : (o : Option ℕ) → Keeps IsComplete (reconcile_latest env o)
    unfolding reconcile_latest Keeps
    reconcile_latest-Keeps none s p = p
    reconcile_latest-Keeps (some day) s p =
        add-Keeps IsComplete (reconcile day) (λ t q. enqueue-IsComplete t (reconcile day) q) s p

    sync_sender_ids-Keeps : Keeps IsComplete (sync_sender_ids env)
    unfolding sync_sender_ids Keeps
    sync_sender_ids-Keeps s p = elim (Bool-cases (env.accepts (sender_id_sync_boot env.now))) [
      | inl taken ↦ rw taken p
      | inr refused ↦ rw refused p
    ]

    add_one-Keeps : (j : Job) → Keeps IsComplete (add env j)
    add_one-Keeps j = add-Keeps IsComplete j (λ t q. enqueue-IsComplete t j q)

    catch_up-IsComplete :
        (o : Option (Option ℕ)) (s : State) → IsComplete s → IsComplete (catch_up day_of env o s).0
    unfolding catch_up Keeps
    catch_up-IsComplete none s p = p
    catch_up-IsComplete (some processed_to) s p =
        let days = missing_finalise_days day_of processed_to env.now in
        let r1 = add_all env (map finalise days) s in
        let r2 = r1 and_then reconcile_latest env (last_day days) in
        let r3 = r2 and_then add env (usage_boot env.now) in
        let r4 = r3 and_then load_history day_of env in
        let r5 = r4 and_then add env (requests_boot env.now) in
        let p1 = add_all-Keeps IsComplete enqueue-IsComplete (map finalise days) s p in
        let p2 =
          and_then-Keeps IsComplete r1 (reconcile_latest env (last_day days)) p1
            (reconcile_latest-Keeps (last_day days)) in
        let p3 =
          and_then-Keeps IsComplete r2 (add env (usage_boot env.now)) p2
            (add_one-Keeps (usage_boot env.now)) in
        let p4 = and_then-Keeps IsComplete r3 (load_history day_of env) p3 load_history-Keeps in
        let p5 =
          and_then-Keeps IsComplete r4 (add env (requests_boot env.now)) p4
            (add_one-Keeps (requests_boot env.now)) in
        and_then-Keeps IsComplete r5 (sync_sender_ids env) p5 sync_sender_ids-Keeps

    -- A start that finds the history not marked and leaves it marked as loaded has every day of it on the
    -- queue, whatever failed before or after.
    pub on_application_bootstrap-IsComplete :
        (s : State)
        → s.loaded ≡ false
        → (on_application_bootstrap day_of env s).loaded ≡ true
        → (first : Option ℕ) × (env.first_activity ≡ some first)
          × ((d : ℕ)
              → contains d (history_days day_of first env.now) ≡ true
              → has_job (history d) (on_application_bootstrap day_of env s).rollups ≡ true)
    unfolding on_application_bootstrap
    on_application_bootstrap-IsComplete s before after =
        catch_up-IsComplete env.watermark s (λ h. cc) after

-- ===== src/CatchUp/Boot/Laws/Once.antt =====
-- A start at which nothing fails loads the history, and no later start loads it again.
use zapiack_console_backend.Common.{
  ℕ, Bool, true, false, ◌≡◌, refl, Option, none, some, List, [], ◌∷◌, map, arith, sym, subst,
  Bool-cases, inl, inr, ◌∙◌,
}
use zapiack_console_backend.CatchUp.{missing_finalise_days, history_days}
use zapiack_console_backend.CatchUp.Laws.{contains}
use zapiack_console_backend.CatchUp.Boot.{
  Job, finalise, reconcile, history, usage_boot, requests_boot, sender_id_sync_boot, job_eq,
  has_job, State, Env, enqueue, ◌and_then◌, add, add_all, last_day, reconcile_latest,
  sync_sender_ids, mark_loaded, load_from, load_history, catch_up, on_application_bootstrap,
}
use zapiack_console_backend.CatchUp.Boot.Laws.{
  has_job-append, Keeps, and_then-Keeps, add-Keeps, on_application_bootstrap-IsComplete,
}

on_success :
    (r : State × Bool) (next : State → State × Bool) → r.1 ≡ true → (r and_then next) ≡ next r.0
unfolding ◌and_then◌
on_success (s, true) next h = refl
on_success (s, false) next h = cc

-- The marker is there, and as many days of the history are on the queue as in `s`.
NoneAdded : ℕ → State → State → Type 0
NoneAdded d s t =
    (t.loaded ≡ true) × (has_job (history d) t.rollups ≡ has_job (history d) s.rollups)

other_enqueued :
    (d : ℕ) (j : Job) (queue : List Job)
    → job_eq j (history d) ≡ false
    → has_job (history d) (enqueue j queue) ≡ has_job (history d) queue
other_enqueued d j queue h = ground (arith, has_job-append (history d) j queue)

module _ (env : Env) where
  add-NoneAdded :
      (d : ℕ) (s : State) (j : Job)
      → job_eq j (history d) ≡ false
      → Keeps (NoneAdded d s) (add env j)
  unfolding NoneAdded
  add-NoneAdded d s j other =
      add-Keeps env (NoneAdded d s) j
        (λ t (marked, same). (marked, other_enqueued d j t.rollups other ∙ same))

  finalise-NoneAdded :
      (d : ℕ) (s : State) (days : List ℕ) → Keeps (NoneAdded d s) (add_all env (map finalise days))
  unfolding add_all Keeps
  finalise-NoneAdded d s [] t kept = kept
  finalise-NoneAdded d s (x ∷ days) t kept =
      and_then-Keeps (NoneAdded d s) (add env (finalise x) t) (add_all env (map finalise days))
        (add-NoneAdded d s (finalise x) refl t kept) (finalise-NoneAdded d s days)

  reconcile-NoneAdded :
      (d : ℕ) (s : State) (o : Option ℕ) → Keeps (NoneAdded d s) (reconcile_latest env o)
  unfolding reconcile_latest Keeps
  reconcile-NoneAdded d s none t kept = kept
  reconcile-NoneAdded d s (some day) t kept = add-NoneAdded d s (reconcile day) refl t kept

  sync-NoneAdded : (d : ℕ) (s : State) → Keeps (NoneAdded d s) (sync_sender_ids env)
  unfolding sync_sender_ids Keeps NoneAdded
  sync-NoneAdded d s t kept = elim (Bool-cases (env.accepts (sender_id_sync_boot env.now))) [
    | inl taken ↦ rw taken kept
    | inr refused ↦ rw refused kept
  ]

  module _ (day_of : ℕ → ℕ) where
    already_loaded :
        (t : State) → env.marker_ok ≡ true → t.loaded ≡ true → load_history day_of env t ≡ (t, true)
    unfolding load_history
    already_loaded t seen marked = rw (seen, marked) refl

    load-NoneAdded : (d : ℕ) (s : State) → Keeps (NoneAdded d s) (load_history day_of env)
    unfolding Keeps NoneAdded
    load-NoneAdded d s t kept = elim (Bool-cases env.marker_ok) [
      | inl seen ↦ rw (already_loaded t seen kept.0) kept
      | inr unseen ↦ rw (unread t unseen) kept
    ]
      where
        unread : (t : State) → env.marker_ok ≡ false → load_history day_of env t ≡ (t, false)
        unread t h = unfold load_history in rw h refl

    catch_up-NoneAdded :
        (d : ℕ) (s : State) (o : Option (Option ℕ)) → Keeps (NoneAdded d s) (catch_up day_of env o)
    unfolding catch_up Keeps
    catch_up-NoneAdded d s none t kept = kept
    catch_up-NoneAdded d s (some processed_to) t kept =
        let days = missing_finalise_days day_of processed_to env.now in
        let r1 = add_all env (map finalise days) t in
        let r2 = r1 and_then reconcile_latest env (last_day days) in
        let r3 = r2 and_then add env (usage_boot env.now) in
        let r4 = r3 and_then load_history day_of env in
        let r5 = r4 and_then add env (requests_boot env.now) in
        let P = NoneAdded d s in
        let p2 =
          and_then-Keeps P r1 (reconcile_latest env (last_day days))
            (finalise-NoneAdded d s days t kept) (reconcile-NoneAdded d s (last_day days)) in
        let p3 =
          and_then-Keeps P r2 (add env (usage_boot env.now)) p2
            (add-NoneAdded d s (usage_boot env.now) refl) in
        let p4 = and_then-Keeps P r3 (load_history day_of env) p3 (load-NoneAdded d s) in
        let p5 =
          and_then-Keeps P r4 (add env (requests_boot env.now)) p4
            (add-NoneAdded d s (requests_boot env.now) refl) in
        and_then-Keeps P r5 (sync_sender_ids env) p5 (sync-NoneAdded d s)

    start-NoneAdded :
        (d : ℕ) (s t : State)
        → NoneAdded d s t
        → NoneAdded d s (on_application_bootstrap day_of env t)
    unfolding on_application_bootstrap Keeps
    start-NoneAdded d s t kept = catch_up-NoneAdded d s env.watermark t kept

  -- Nothing failed, and the marker is as it was.
  Goes : (State → State × Bool) → Type 0
  Goes step = (s : State) → ((step s).1 ≡ true) × ((step s).0.loaded ≡ s.loaded)

  add-Goes : ((j : Job) → env.accepts j ≡ true) → (j : Job) → Goes (add env j)
  unfolding Goes add
  add-Goes takes j s = (rw (takes j) refl, rw (takes j) refl)

  add_all-Goes : ((j : Job) → env.accepts j ≡ true) → (jobs : List Job) → Goes (add_all env jobs)
  unfolding Goes add_all
  add_all-Goes takes [] s = (refl, refl)
  add_all-Goes takes (j ∷ jobs) s =
      let (went, same) = add-Goes takes j s in
      let (went', same') = add_all-Goes takes jobs (add env j s).0 in
      rw (on_success (add env j s) (add_all env jobs) went) (went', same' ∙ same)

  reconcile-Goes :
      ((j : Job) → env.accepts j ≡ true) → (o : Option ℕ) → Goes (reconcile_latest env o)
  unfolding Goes reconcile_latest
  reconcile-Goes takes none s = (refl, refl)
  reconcile-Goes takes (some day) s = add-Goes takes (reconcile day) s

  sync-Goes : ((j : Job) → env.accepts j ≡ true) → Goes (sync_sender_ids env)
  unfolding Goes sync_sender_ids
  sync-Goes takes s =
      (rw (takes (sender_id_sync_boot env.now)) refl, rw (takes (sender_id_sync_boot env.now)) refl)

  and_then-Goes :
      (r : State × Bool) (next : State → State × Bool)
      → r.1 ≡ true
      → Goes next
      → ((r and_then next).1 ≡ true) × ((r and_then next).0.loaded ≡ r.0.loaded)
  unfolding Goes
  and_then-Goes r next went goes = rw (on_success r next went) (goes r.0)

  module _ (day_of : ℕ → ℕ) where
    mark_succeeds :
        (s : State)
        → env.create_ok ≡ true
        → ((mark_loaded env s).1 ≡ true) × ((mark_loaded env s).0.loaded ≡ true)
    unfolding mark_loaded
    mark_succeeds s writes = (rw writes refl, rw writes refl)

    load_from_succeeds :
        (first : Option ℕ) (s : State)
        → env.create_ok ≡ true
        → ((j : Job) → env.accepts j ≡ true)
        → ((load_from day_of env (some first) s).1 ≡ true)
          × ((load_from day_of env (some first) s).0.loaded ≡ true)
    unfolding load_from Goes
    load_from_succeeds first s writes takes =
        let jobs = map history (history_days day_of first env.now) in
        let (went, _) = add_all-Goes takes jobs s in
        rw (on_success (add_all env jobs s) (mark_loaded env) went)
          (mark_succeeds (add_all env jobs s).0 writes)

    load_reached :
        (s : State)
        → env.marker_ok ≡ true
        → s.loaded ≡ false
        → load_history day_of env s ≡ load_from day_of env env.first_activity s
    unfolding load_history
    load_reached s seen fresh = rw (seen, fresh) refl

    load_succeeds :
        (first : Option ℕ) (s : State)
        → env.first_activity ≡ some first
        → env.marker_ok ≡ true
        → env.create_ok ≡ true
        → ((j : Job) → env.accepts j ≡ true)
        → s.loaded ≡ false
        → ((load_history day_of env s).1 ≡ true) × ((load_history day_of env s).0.loaded ≡ true)
    load_succeeds first s activity seen writes takes fresh = rw (load_reached s seen fresh) (
        subst
          (λ o.
            ((load_from day_of env o s).1 ≡ true) × ((load_from day_of env o s).0.loaded ≡ true))
          (sym activity) (load_from_succeeds first s writes takes))

    start_succeeds :
        (processed_to first : Option ℕ) (s : State)
        → env.watermark ≡ some processed_to
        → env.first_activity ≡ some first
        → env.marker_ok ≡ true
        → env.create_ok ≡ true
        → ((j : Job) → env.accepts j ≡ true)
        → s.loaded ≡ false
        → (on_application_bootstrap day_of env s).loaded ≡ true
    unfolding on_application_bootstrap catch_up Goes
    start_succeeds processed_to first s known activity seen writes takes fresh =
        let days = missing_finalise_days day_of processed_to env.now in
        let r1 = add_all env (map finalise days) s in
        let r2 = r1 and_then reconcile_latest env (last_day days) in
        let r3 = r2 and_then add env (usage_boot env.now) in
        let r4 = r3 and_then load_history day_of env in
        let r5 = r4 and_then add env (requests_boot env.now) in
        let (w1, l1) = add_all-Goes takes (map finalise days) s in
        let (w2, l2) =
          and_then-Goes r1 (reconcile_latest env (last_day days)) w1
            (reconcile-Goes takes (last_day days)) in
        let (w3, l3) =
          and_then-Goes r2 (add env (usage_boot env.now)) w2
            (add-Goes takes (usage_boot env.now)) in
        let unmarked : r3.0.loaded ≡ false = l3 ∙ l2 ∙ l1 ∙ fresh in
        let (w4, l4) = load_succeeds first r3.0 activity seen writes takes unmarked in
        let e4 = on_success r3 (load_history day_of env) w3 in
        let (w5, l5) =
          and_then-Goes r4 (add env (requests_boot env.now)) (rw e4 w4)
            (add-Goes takes (requests_boot env.now)) in
        let (_, l6) = and_then-Goes r5 (sync_sender_ids env) w5 (sync-Goes takes) in
        let marked : r4.0.loaded ≡ true = rw e4 l4 in
        subst (λ o. (catch_up day_of env o s).0.loaded ≡ true) (sym known) (l6 ∙ l5 ∙ marked)

-- One start after the other.
unfoldable pub starts : (ℕ → ℕ) → List Env → State → State
starts day_of [] s = s
starts day_of (env ∷ envs) s = starts day_of envs (on_application_bootstrap day_of env s)

starts-NoneAdded :
    (day_of : ℕ → ℕ) (envs : List Env) (d : ℕ) (s t : State)
    → NoneAdded d s t
    → NoneAdded d s (starts day_of envs t)
unfolding starts
starts-NoneAdded day_of [] d s t kept = kept
starts-NoneAdded day_of (env ∷ envs) d s t kept =
    starts-NoneAdded day_of envs d s (on_application_bootstrap day_of env t)
      (start-NoneAdded env day_of d s t kept)

-- A start at which no query, write of the marker or queue fails, and that finds the history not marked,
-- has every day of the history on the queue and marks it as loaded; and no number of starts after it, at
-- any times and whatever fails then, puts a day of the history on the queue.
pub on_application_bootstrap-loaded :
    (day_of : ℕ → ℕ) (env : Env) (later : List Env) (processed_to first : Option ℕ) (s : State)
    → env.watermark ≡ some processed_to
    → env.first_activity ≡ some first
    → env.marker_ok ≡ true
    → env.create_ok ≡ true
    → ((j : Job) → env.accepts j ≡ true)
    → s.loaded ≡ false
    → let t = on_application_bootstrap day_of env s in
      let u = starts day_of later t in
      (t.loaded ≡ true)
      × ((d : ℕ)
          → contains d (history_days day_of first env.now) ≡ true
          → has_job (history d) t.rollups ≡ true)
      × ((d : ℕ) → has_job (history d) u.rollups ≡ has_job (history d) t.rollups)
unfolding NoneAdded
on_application_bootstrap-loaded day_of env later processed_to first s known activity seen writes
      takes fresh =
    let t = on_application_bootstrap day_of env s in
    let marked =
      start_succeeds env day_of processed_to first s known activity seen writes takes fresh in
    let (other, same, queued) = on_application_bootstrap-IsComplete env day_of s fresh marked in
    let e : other ≡ first = cc in
    (marked, λ d c. queued d (rw e c), λ d. (starts-NoneAdded day_of later d t t (marked, refl)).1)

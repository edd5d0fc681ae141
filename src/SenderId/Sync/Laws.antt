-- ===== src/SenderId/Sync/Laws.antt =====
-- What a sync with the product guarantees.
use zapiack_console_backend.Common.{
  String, Bool, true, false, ◌+◌, none, some, List, [], ◌∷◌, ◌≡◌, refl, map, arith, All, eq_iff,
  Option-cases, inl, inr, subst,
}
use zapiack_console_backend.Common.Table.{Table, find, put, find-put_self}
use zapiack_console_backend.SenderId.Status.{
  ReviewStatus, submitted, status_name, product_eq, present_status, to_review_status, checklist,
}
use zapiack_console_backend.SenderId.Types.{Application, Item, Review, State, Env}
use zapiack_console_backend.SenderId.Sync.{
  sla_ms, or_else, by_application, new_review, existing, created, create_review, ensure_missing,
  ensure_found, announce, ensure_review, refreshed, refresh_mapped, refresh_found, refresh_row,
  refresh_drifted, unticked,
}

-- The review presents as the product's application does, where that has a review at all.
abbrev pub Agrees : Table Application → Review → Type 0
Agrees apps r =
    (app : Application) (m : ReviewStatus)
    → find r.application_id apps ≡ some app
    → to_review_status app.status ≡ some m
    → product_eq (present_status (status_name m)) (present_status (status_name r.status)) ≡ true

product_eq_refl :
    (m : ReviewStatus)
    → product_eq (present_status (status_name m)) (present_status (status_name m)) ≡ true
product_eq_refl m = ground arith

refreshed-Agrees_at :
    (env : Env) (apps : Table Application) (r : Review) (app : Application) (m : ReviewStatus)
    → find r.application_id apps ≡ some app
    → to_review_status app.status ≡ some m
    → Agrees apps (refreshed env app m r)
unfolding refreshed
refreshed-Agrees_at env apps r app m found mapped app' m' found' mapped' =
    let same : m ≡ m' = cc in rw (← same) (product_eq_refl m)

refreshed-Agrees :
    (env : Env) (apps : Table Application) (r r' : Review)
    → refresh_row env apps r ≡ some r'
    → Agrees apps r'
unfolding refresh_row
refreshed-Agrees env apps r r' h = elim (Option-cases (find r.application_id apps)) [
  | inl gone ↦ absurd (ground arith)
  | inr (app, found) ↦ elim (Option-cases (to_review_status app.status)) [
    | inl unmapped ↦ absurd (ground arith)
    | inr (m, mapped) ↦
        let e : refreshed env app m r ≡ r' = ground arith in
        subst (Agrees apps) e (refreshed-Agrees_at env apps r app m found mapped)
  ]
]

kept-Agrees :
    (env : Env) (apps : Table Application) (r : Review)
    → refresh_row env apps r ≡ none
    → Agrees apps r
unfolding refresh_row
kept-Agrees env apps r h app m found mapped = ground arith

settled_row :
    (env : Env) (apps : Table Application) (r : Review)
    → Agrees apps r
    → refresh_row env apps r ≡ none
unfolding refresh_row
settled_row env apps r h = elim (Option-cases (find r.application_id apps)) [
  | inl gone ↦ ground arith
  | inr (app, found) ↦ elim (Option-cases (to_review_status app.status)) [
    | inl unmapped ↦ ground arith
    | inr (m, mapped) ↦ ground (arith, h app m found mapped)
  ]
]

-- After a refresh every review agrees with the product: where its application has a status that the
-- queue knows, the review presents as that status.
pub refresh_drifted-Agrees :
    (env : Env) (apps : Table Application) (t : Table Review)
    → All (λ row. Agrees apps row.1) (refresh_drifted env apps t).0
unfolding refresh_drifted
refresh_drifted-Agrees env apps [] = tt
refresh_drifted-Agrees env apps ((id, r) ∷ t) = elim (Option-cases (refresh_row env apps r)) [
  | inl same ↦ rw same (kept-Agrees env apps r same, refresh_drifted-Agrees env apps t)
  | inr (r', drifted) ↦
      rw drifted (refreshed-Agrees env apps r r' drifted, refresh_drifted-Agrees env apps t)
]

refresh_settled :
    (env : Env) (apps : Table Application) (t : Table Review)
    → All (λ row. Agrees apps row.1) t
    → refresh_drifted env apps t ≡ (t, 0)
unfolding refresh_drifted
refresh_settled env apps [] h = refl
refresh_settled env apps ((id, r) ∷ t) (agrees, h) =
    rw (settled_row env apps r agrees) (rw (refresh_settled env apps t h) refl)

-- A second refresh against the same applications, at whatever time, writes nothing and counts nothing.
pub refresh_drifted_twice :
    (env later : Env) (apps : Table Application) (t : Table Review)
    → refresh_drifted later apps (refresh_drifted env apps t).0
      ≡ ((refresh_drifted env apps t).0, 0)
refresh_drifted_twice env later apps t =
    refresh_settled later apps (refresh_drifted env apps t).0 (refresh_drifted-Agrees env apps t)

abbrev pub HasNoAnswer : Item → Type 0
HasNoAnswer item = item.passed ≡ none

unticked_all : (items : List Item) → All HasNoAnswer (map unticked items)
unticked_all [] = tt
unticked_all (item ∷ items) = (refl, unticked_all items)

-- An application that is back to waiting under a review that was decided starts over: the review is
-- undecided with no reason, nobody is assigned, every item of the checklist is unanswered, and it is
-- due 24 hours after the new filing.
pub refresh_row_resubmitted :
    (env : Env) (apps : Table Application) (r : Review) (app : Application)
    → find r.application_id apps ≡ some app
    → to_review_status app.status ≡ some submitted
    → product_eq (present_status (status_name submitted)) (present_status (status_name r.status))
      ≡ false
    → (r' : Review) × (refresh_row env apps r ≡ some r')
      × (r'.status ≡ submitted)
      × (r'.decided_at ≡ none)
      × (r'.decision_reason ≡ none)
      × (r'.assignee_id ≡ none)
      × All HasNoAnswer r'.checklist
      × (r'.submitted_at ≡ or_else app.submitted_at env.now)
      × (r'.sla_due_at ≡ r'.submitted_at + sla_ms)
unfolding refresh_row refreshed
refresh_row_resubmitted env apps r app found mapped drifted = (
  refreshed env app submitted r,
  rw (found, refresh_found) (rw (mapped, refresh_mapped) (rw drifted refl)),
  refl,
  refl,
  refl,
  refl,
  unticked_all r.checklist,
  refl,
  refl,
)

pub by_application-put :
    (id app : String) (r : Review) (t : Table Review)
    → r.application_id ≡ app
    → find id t ≡ none
    → by_application app t ≡ none
    → by_application app (put id r t) ≡ some (id, r)
unfolding by_application put find
by_application-put id app r [] e free none_yet = ground (arith, eq_iff r.application_id app)
by_application-put id app r ((i, x) ∷ t) e free none_yet =
    ground (arith, eq_iff r.application_id app, by_application-put id app r t)

pub announce_reviews :
    (loud : Bool) (id : String) (s : State) → (announce loud id s).reviews ≡ s.reviews
unfolding announce
announce_reviews true id s = refl
announce_reviews false id s = refl

ensure_review_fresh :
    (env : Env) (app_id : String) (loud : Bool) (s : State) (app : Application) (m : ReviewStatus)
    → by_application app_id s.reviews ≡ none
    → find app_id s.applications ≡ some app
    → to_review_status app.status ≡ some m
    → find (env.fresh_id app_id) s.reviews ≡ none
    → let id = env.fresh_id app_id in
      let r = new_review env app_id app m in
      ensure_review env app_id loud s
      ≡ (announce loud id (record s { reviews = put id r s.reviews }), created id r)
unfolding ensure_review
ensure_review_fresh env app_id loud s app m fresh found mapped free =
    rw (fresh, ensure_found)
      (rw (found, ensure_missing) (rw (mapped, create_review) (rw free refl)))

-- For a stored application without a review, whose status the queue knows, `ensureReview` creates one
-- that has this status, is due 24 hours after the filing, and has the four items of the checklist,
-- unanswered. Ensuring it once more, at whatever time, finds it and changes nothing.
pub ensure_review_created :
    (env later : Env) (app_id : String) (loud again : Bool) (s : State) (app : Application)
    (m : ReviewStatus)
    → by_application app_id s.reviews ≡ none
    → find app_id s.applications ≡ some app
    → to_review_status app.status ≡ some m
    → find (env.fresh_id app_id) s.reviews ≡ none
    → let t = (ensure_review env app_id loud s).0 in
      (r : Review) × (find (env.fresh_id app_id) t.reviews ≡ some r)
      × (r.status ≡ m)
      × (r.sla_due_at ≡ or_else app.submitted_at app.created_at + sla_ms)
      × (map (λ item. item.key) r.checklist ≡ checklist)
      × All HasNoAnswer r.checklist
      × (ensure_review later app_id again t ≡ (t, existing (env.fresh_id app_id) r))
unfolding ensure_review
ensure_review_created env later app_id loud again s app m fresh found mapped free =
    let id = env.fresh_id app_id in
    let r = new_review env app_id app m in
    let kept = announce_reviews loud id (record s { reviews = put id r s.reviews }) in
    rw (ensure_review_fresh env app_id loud s app m fresh found mapped free) (
      r,
      rw kept (find-put_self id r s.reviews),
      refl,
      refl,
      refl,
      (refl, (refl, (refl, (refl, tt)))),
      rw (kept, ensure_found) (rw (by_application-put id app_id r s.reviews refl free fresh) refl),
    )

-- ===== src/SenderId/Sync.antt =====
-- Reviews for the applications that the product has: `ensureReview` and `refreshDrifted` of
-- src/modules/sender-ids/sender-ids.service.ts.
pub mod Laws
pub mod Coverage
use zapiack_console_backend.Common.{
  ℕ, String, Bool, true, false, ◌||◌, ◌+◌, ◌*◌, Option, none, some, List, [], ◌∷◌, ◌++◌, map,
  str_eq, is_some, suc, if◌then◌else◌,
}
use zapiack_console_backend.Common.Table.{Table, find, put}
use zapiack_console_backend.SenderId.Status.{
  ReviewStatus, submitted, status_name, product_eq, present_status, to_review_status, checklist,
}
use zapiack_console_backend.SenderId.Types.{
  Application, Item, Review, Alert, State, Env, Error, received, resubmitted, changed_in_app,
  new_application, not_found, unique_violation,
}

-- 24 hours
abbrev pub sla_ms : ℕ
sla_ms = 24 * 3600000

abbrev pub or_else {ℓ} : {A : Type ℓ} → Option A → A → A
or_else none d = d
or_else (some a) d = a

-- `findUnique` by the unique column `applicationId`
unfoldable pub by_application : String → Table Review → Option (String × Review)
by_application app [] = none
by_application app ((id, r) ∷ t) =
    if str_eq r.application_id app then some (id, r) else by_application app t

-- Of the statuses that the code lists, those that `toReviewStatus` can give.
abbrev pub is_decided : ReviewStatus → Bool
is_decided ReviewStatus.approved = true
is_decided ReviewStatus.rejected = true
is_decided _ = false

abbrev blank_item : String → Item
blank_item key = record {
  key = key;
  passed = none;
  note = none;
  checked_by = none;
  checked_at = none;
}

-- The row that `ensureReview` creates.
abbrev pub new_review : Env → String → Application → ReviewStatus → Review
new_review env app_id app status =
    let filed = or_else app.submitted_at app.created_at in
    record {
      application_id = app_id;
      account_id = app.account_id;
      sender_id = app.sender_id;
      status = status;
      assignee_id = none;
      submitted_at = filed;
      sla_due_at = filed + sla_ms;
      decided_at = if is_decided status then some (or_else app.reviewed_at env.now) else none;
      decision_reason = app.rejection_reason;
      checklist = map blank_item checklist;
      events =
          record { from_status = none; to_status = status; actor_id = none; comment = received }
          ∷ [];
    }

pub data Ensured : Type 0 where
  existing created : String → Review → Ensured
  no_review : Ensured
  thrown : Error → Ensured

pub announce : Bool → String → State → State
announce false id s = s
announce true id s = record s {
  alerts =
      map (λ m. record { kind = new_application; staff_id = m; review_id = id }) s.reviewers
      ++ s.alerts;
}

create_review : Env → String → Bool → Application → Option ReviewStatus → State → State × Ensured
unfolding announce
create_review env app_id notify app none s = (s, no_review)
create_review env app_id notify app (some status) s =
    let id = env.fresh_id app_id in
    let r = new_review env app_id app status in
    if is_some (find id s.reviews)
    then (s, thrown unique_violation)
    else (announce notify id (record s { reviews = put id r s.reviews }), created id r)

ensure_missing : Env → String → Bool → Option Application → State → State × Ensured
unfolding create_review
ensure_missing env app_id notify none s = (s, thrown not_found)
ensure_missing env app_id notify (some app) s =
    create_review env app_id notify app (to_review_status app.status) s

ensure_found : Env → String → Bool → Option (String × Review) → State → State × Ensured
unfolding ensure_missing
ensure_found env app_id notify (some (id, r)) s = (s, existing id r)
ensure_found env app_id notify none s =
    ensure_missing env app_id notify (find app_id s.applications) s

pub ensure_review : Env → String → Bool → State → State × Ensured
unfolding ensure_found
ensure_review env app_id notify s =
    ensure_found env app_id notify (by_application app_id s.reviews) s

abbrev unticked : Item → Item
unticked item = record item { passed = none }

-- The `update` of one drifted review.
pub refreshed : Env → Application → ReviewStatus → Review → Review
refreshed env app mapped r =
    let decided = is_decided mapped in
    let filed = or_else app.submitted_at env.now in
    record r {
      status = mapped;
      decided_at = if decided then some (or_else app.reviewed_at env.now) else none;
      decision_reason = if decided then app.rejection_reason else none;
      submitted_at = if decided then r.submitted_at else filed;
      sla_due_at = if decided then r.sla_due_at else filed + sla_ms;
      assignee_id = if decided then r.assignee_id else none;
      checklist = if decided then r.checklist else map unticked r.checklist;
      events =
          r.events
          ++ record {
            from_status = some r.status;
            to_status = mapped;
            actor_id = none;
            comment = if decided then changed_in_app else resubmitted;
          }
            ∷ [];
    }

refresh_mapped : Env → Application → Option ReviewStatus → Review → Option Review
refresh_mapped env app none r = none
refresh_mapped env app (some mapped) r =
    if product_eq (present_status (status_name mapped)) (present_status (status_name r.status))
    then none
    else some (refreshed env app mapped r)

refresh_found : Env → Option Application → Review → Option Review
unfolding refresh_mapped
refresh_found env none r = none
refresh_found env (some app) r = refresh_mapped env app (to_review_status app.status) r

-- What the loop of `refreshDrifted` writes for one review; `none` where it goes on to the next.
pub refresh_row : Env → Table Application → Review → Option Review
unfolding refresh_found
refresh_row env apps r = refresh_found env (find r.application_id apps) r

-- The loop: the reviews as it leaves them, and how many it wrote.
pub refresh_drifted : Env → Table Application → Table Review → Table Review × ℕ
refresh_drifted env apps [] = ([], 0)
refresh_drifted env apps ((id, r) ∷ t) =
    let rest = refresh_drifted env apps t in
    let written = refresh_row env apps r in
    ((id, or_else written r) ∷ rest.0, if is_some written then suc rest.1 else rest.1)

-- ===== src/SenderId/Tests.antt =====
-- One application, its review in several statuses, and the theorems at them.
use zapiack_console_backend.Common.{
  String, true, false, ◌≡◌, ◌≢◌, refl, none, some, List, [], ◌∷◌, All,
}
use zapiack_console_backend.Common.Text.{codes, trim, to_upper}
use zapiack_console_backend.Common.Table.{Table, find, put}
use zapiack_console_backend.SenderId.{
  Application, Item, Review, State, Env, DecisionInput, thrown, decide, decided_review,
  decided_application, decision_of, written_reason, is_blank, is_stale, review_refusal, refused,
}
use zapiack_console_backend.SenderId.Status.{
  ReviewStatus, submitted, Decision, ProductStatus, already, decided_as, assert_decision,
  status_name, present_status, product_eq, to_review_status, customer_notice,
}
use zapiack_console_backend.SenderId.Status.Laws.{to_review_status_present}
use zapiack_console_backend.SenderId.Decide.{HasPassed, decide_checked, decide_written}
use zapiack_console_backend.SenderId.Sync.{refresh_drifted}
use zapiack_console_backend.SenderId.Sync.Laws.{Agrees, refresh_drifted-Agrees}
use zapiack_console_backend.SenderId.Desk.{Tick}
use zapiack_console_backend.SenderId.Sync.Coverage.{IsCovered}
use zapiack_console_backend.SenderId.Import.{sync_from_product}
use zapiack_console_backend.SenderId.Import.Laws.{sync_from_product-IsCovered}

to_review_status_present_example :
    (ProductStatus.approved ≡ ProductStatus.draft → to_review_status (codes " Approved") ≡ none)
    × (ProductStatus.approved ≢ ProductStatus.draft
        → (r : ReviewStatus) × (to_review_status (codes " Approved") ≡ some r)
          × (present_status (status_name r) ≡ ProductStatus.approved))
unfolding to_upper trim
to_review_status_present_example =
    to_review_status_present ProductStatus.approved (codes " Approved") refl

abbrev app : Application
app = record {
  account_id = "acct";
  project_id = "proj";
  sender_id = codes "ACME";
  status = codes "PENDING_REVIEW";
  submitted_at = some 100;
  created_at = 90;
  reviewed_at = none;
  rejection_reason = none;
}

abbrev ticked_item : Item
ticked_item = record {
  key = "loa_signed";
  passed = some true;
  note = none;
  checked_by = some "ada";
  checked_at = some 7;
}

abbrev review : Review
review = record {
  application_id = "app-1";
  account_id = "acct";
  sender_id = codes "ACME";
  status = submitted;
  assignee_id = none;
  submitted_at = 100;
  sla_due_at = 200;
  decided_at = none;
  decision_reason = none;
  checklist = ticked_item ∷ [];
  events = [];
}

abbrev env : Env
env = record { now = 300; fresh_id = λ a. a; audit_ok = λ _. true }

abbrev state : State
state = record {
  applications = ("app-1", app) ∷ [];
  user_of_account = ("acct", "user-1") ∷ [];
  user_notices = [];
  reviews = ("rev-1", review) ∷ [];
  reviewers = "obi" ∷ [];
  alerts = [];
  audits = [];
  cleared = [];
  nudged = [];
}

decide_checked_example :
    (r : Review) × (a : Application) × (find "rev-1" state.reviews ≡ some r)
    × (find r.application_id state.applications ≡ some a)
    × (is_stale (to_review_status a.status) r.status ≡ false)
    × (product_eq
          (present_status (status_name r.status))
          (decided_as (decision_of DecisionInput.approve))
        ≡ false)
    × (decision_of DecisionInput.approve ≡ Decision.rejected
        → is_blank (written_reason DecisionInput.approve none) ≡ false)
    × (decision_of DecisionInput.approve ≡ Decision.approved → All HasPassed r.checklist)
unfolding decide find review_refusal assert_decision written_reason is_stale to_review_status
    to_upper trim present_status
decide_checked_example =
    decide_checked env "obi" "rev-1" DecisionInput.approve none state
      (decided_review env "obi" Decision.approved none review) refl

decide_written_example :
    let why = written_reason DecisionInput.reject (some (codes "no letter")) in
    let t = (decide env "obi" "rev-1" DecisionInput.reject (some (codes "no letter")) state).0 in
    (find "rev-1" t.reviews ≡ some (decided_review env "obi" Decision.rejected why review))
    × (find "app-1" t.applications ≡ some (decided_application env Decision.rejected why app))
    × (to_review_status (decided_application env Decision.rejected why app).status
        ≡ some (decided_review env "obi" Decision.rejected why review).status)
    × (t.cleared ≡ "proj" ∷ state.cleared)
    × ((user : String)
        → find "acct" state.user_of_account ≡ some user
        → (t.user_notices
            ≡ record {
              user_id = user;
              account_id = "acct";
              application_id = "app-1";
              status = Decision.rejected;
              notice = customer_notice Decision.rejected review.sender_id why;
            }
              ∷ state.user_notices)
          × (t.nudged ≡ user ∷ state.nudged))
    × (decide env "obi" "rev-1" DecisionInput.reject none t
        ≡ (t, thrown (refused (already Decision.rejected))))
unfolding decide put find review_refusal assert_decision written_reason is_stale to_review_status
    to_upper trim present_status
decide_written_example =
    decide_written env env "obi" "rev-1" DecisionInput.reject (some (codes "no letter")) none state
      review app refl refl refl refl refl

-- A review that was approved, and one that the product rejected since.
abbrev drifted : Table Review
drifted = ("rev-1", record review { status = ReviewStatus.approved; decided_at = some 150 }) ∷ []

refresh_drifted-Agrees_example :
    All (λ row. Agrees state.applications row.1) (refresh_drifted env state.applications drifted).0
refresh_drifted-Agrees_example = refresh_drifted-Agrees env state.applications drifted

abbrev empty_queue : State
empty_queue = record state { reviews = [] }

abbrev ticks : List Tick
ticks = record { key = "loa_signed"; passed = false; note = none } ∷ []

sync_from_product-IsCovered_example :
    let out = (sync_from_product env empty_queue).0 in
    (out.error ≡ none)
    × ((id : String) (a : Application) (m : ReviewStatus)
        → find id empty_queue.applications ≡ some a
        → to_review_status a.status ≡ some m
        → IsCovered env id out.state.reviews)
unfolding find
sync_from_product-IsCovered_example = sync_from_product-IsCovered env empty_queue (refl, tt)

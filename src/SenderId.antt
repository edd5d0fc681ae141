-- ===== src/SenderId.antt =====
-- Sender ID review: src/modules/sender-ids/sender-ids.service.ts. Deciding an application, with the
-- product's row, the customer's notice, the caches and the review row that it writes.
pub mod Status
mod Types
mod Tests
pub mod Desk
pub mod Sync
pub mod Import
pub mod Decide
pub use Types.*
use mathlib.Core.Option
use zapiack_console_backend.Common.{
  ℕ, String, Bool, true, false, not, ◌&&◌, ◌||◌, ◌+◌, ◌*◌, Option, none, some, List, [], ◌∷◌, ◌++◌,
  map, str_eq, any, is_some, if◌then◌else◌, ltb,
}
use zapiack_console_backend.Common.Text.{Text, codes, trim}
use zapiack_console_backend.Common.Table.{Table, find, put}
use zapiack_console_backend.SenderId.Status.{
  ReviewStatus, Decision, Notice, status_name, product_eq, present_status, to_review_status,
  assert_decision, reason_required, customer_notice, checklist,
}

abbrev pub decision_of : DecisionInput → Decision
decision_of approve = Decision.approved
decision_of _ = Decision.rejected

-- `dto.reason?.trim()`, empty where it is missing or blank: the code tests it for truth.
abbrev trimmed : Option Text → Option Text
trimmed none = none
trimmed (some r) = some (trim r)

abbrev is_blank : Option Text → Bool
is_blank none = true
is_blank (some []) = true
is_blank (some _) = false

-- The old "changes requested" is a rejection that says what to fix.
unfoldable pub written_reason : DecisionInput → Option Text → Option Text
written_reason changes_requested given =
    if is_blank (trimmed given)
    then trimmed given
    else Option.map (λ r. codes "Changes requested: " ++ r) (trimmed given)
written_reason _ given = trimmed given

abbrev pub is_unchecked : Item → Bool
is_unchecked item = not (is_some item.passed)

abbrev pub has_failed : Item → Bool
has_failed item = elim (item.passed) [ some false ↦ true | _ ↦ false ]

abbrev pub decision_text : Decision → Text
decision_text Decision.approved = codes "APPROVED"
decision_text Decision.rejected = codes "REJECTED"

abbrev pub decision_status : Decision → ReviewStatus
decision_status Decision.approved = ReviewStatus.approved
decision_status Decision.rejected = ReviewStatus.rejected

-- The checks on the review alone, in the order of the code; `none` lets the decision through.
unfoldable pub review_refusal : Review → Decision → Option Text → Option Error
review_refusal r d why = elim (assert_decision (status_name r.status) d) [
  | some x ↦ some (refused x)
  | none ↦
      if reason_required d && is_blank why
      then some reason_needed
      else if not (reason_required d) && any is_unchecked r.checklist
      then some unchecked_items
      else if not (reason_required d) && any has_failed r.checklist
      then some failed_items
      else none
]

-- `!live || presentStatus(live) !== presentStatus(from)`
unfoldable pub is_stale : Option ReviewStatus → ReviewStatus → Bool
is_stale none from = true
is_stale (some live) from =
    not (product_eq (present_status (status_name live)) (present_status (status_name from)))

-- The product's row after the decision.
abbrev pub decided_application : Env → Decision → Option Text → Application → Application
decided_application env d why app = record app {
  status = decision_text d;
  reviewed_at = some env.now;
  rejection_reason = elim d [ Decision.approved ↦ none | Decision.rejected ↦ why ];
}

abbrev pub decided_review : Env → String → Decision → Option Text → Review → Review
decided_review env actor d why r = record r {
  status = decision_status d;
  decided_at = some env.now;
  decision_reason = why;
  events =
      r.events
      ++ record {
        from_status = some r.status;
        to_status = decision_status d;
        actor_id = some actor;
        comment = reason why;
      }
        ∷ [];
}

-- The notification of the transaction, and the nudge after it, where the account is there.
notify_customer : Option String → Decision → Notice → Review → State → State
notify_customer none d n r s = s
notify_customer (some user) d n r s = record s {
  user_notices =
      record {
        user_id = user;
        account_id = r.account_id;
        application_id = r.application_id;
        status = d;
        notice = n;
      }
      ∷ s.user_notices;
  nudged = user ∷ s.nudged;
}

-- Everything that `decide` writes before its audit row.
commit : Env → String → String → Review → Application → Decision → Option Text → State → State
unfolding notify_customer
commit env actor id r app d why s =
    let product = record s {
      applications = put r.application_id (decided_application env d why app) s.applications;
      cleared = app.project_id ∷ s.cleared;
    } in
    let told =
      notify_customer (find r.account_id s.user_of_account) d (customer_notice d r.sender_id why) r
        product in
    record told { reviews = put id (decided_review env actor d why r) told.reviews }

pub data Answer : Type 0 where
  done : Review → Answer
  skipped : Answer
  thrown : Error → Answer

decide_live :
    Env
    → String
    → String
    → Review
    → Decision
    → Option Text
    → Option Application
    → State
    → State × Answer
unfolding commit
decide_live env actor id r d why none s = (s, thrown not_found)
decide_live env actor id r d why (some app) s =
    if is_stale (to_review_status app.status) r.status
    then (s, thrown stale)
    else let t = commit env actor id r app d why s in
      if env.audit_ok (decide_action d)
      then (
        record t {
          audits =
              record { action = decide_action d; actor_id = actor; target_id = r.application_id }
              ∷ t.audits;
        },
        done (decided_review env actor d why r),
      )
      else (t, thrown audit_failed)

decide_found :
    Env → String → String → DecisionInput → Option Text → Option Review → State → State × Answer
unfolding decide_live
decide_found env actor id input given none s = (s, thrown not_found)
decide_found env actor id input given (some r) s =
    let d = decision_of input in
    let why = written_reason input given in
    elim (review_refusal r d why) [
      | some e ↦ (s, thrown e)
      | none ↦ decide_live env actor id r d why (find r.application_id s.applications) s
    ]

pub decide : Env → String → String → DecisionInput → Option Text → State → State × Answer
unfolding decide_found
decide env actor id input given s = decide_found env actor id input given (find id s.reviews) s

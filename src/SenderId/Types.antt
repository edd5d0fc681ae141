-- ===== src/SenderId/Types.antt =====
-- The rows that src/modules/sender-ids/sender-ids.service.ts reads and writes, and what its methods
-- answer. Instants are milliseconds.
use zapiack_console_backend.Common.{ℕ, String, Bool, Option, List}
use zapiack_console_backend.Common.Text.{Text}
use zapiack_console_backend.Common.Table.{Table}
use zapiack_console_backend.SenderId.Status.{ReviewStatus, Decision, Notice, Refusal}

-- The columns of the product's `SenderIdApplication` that the service uses.
pub record Application : Type 0 where
  pub account_id : String
  pub project_id : String
  pub sender_id : Text
  pub status : Text
  pub submitted_at : Option ℕ
  pub created_at : ℕ
  pub reviewed_at : Option ℕ
  pub rejection_reason : Option Text

pub record Item : Type 0 where
  pub key : String
  pub passed : Option Bool
  pub note : Option Text
  pub checked_by : Option String
  pub checked_at : Option ℕ

-- A comment is one of the service's fixed texts, an assignment, or the reviewer's reason.
pub data Comment : Type 0 where
  received resubmitted changed_in_app : Comment
  assigned_self : Comment
  assigned_to : String → Comment
  reason : Option Text → Comment

pub record Event : Type 0 where
  pub from_status : Option ReviewStatus
  pub to_status : ReviewStatus
  pub actor_id : Option String
  pub comment : Comment

pub record Review : Type 0 where
  pub application_id : String
  pub account_id : String
  pub sender_id : Text
  pub status : ReviewStatus
  pub assignee_id : Option String
  pub submitted_at : ℕ
  pub sla_due_at : ℕ
  pub decided_at : Option ℕ
  pub decision_reason : Option Text
  pub checklist : List Item
  pub events : List Event  -- oldest first

pub record UserNotice : Type 0 where
  pub user_id : String
  pub account_id : String
  pub application_id : String
  pub status : Decision
  pub notice : Notice

pub data AlertKind : Type 0 where
  new_application imported assigned sla_breach : AlertKind

-- A row of `staff_notifications`; the review that its link opens is empty for a summary.
pub record Alert : Type 0 where
  pub kind : AlertKind
  pub staff_id : String
  pub review_id : String

pub data AuditAction : Type 0 where
  assign_action : AuditAction
  decide_action : Decision → AuditAction

pub record Audit : Type 0 where
  pub action : AuditAction
  pub actor_id : String
  pub target_id : String

pub record State : Type 0 where
  pub applications : Table Application  -- the product's
  pub user_of_account : Table String  -- the product's accounts, each with its user
  pub user_notices : List UserNotice  -- the product's
  pub reviews : Table Review
  pub reviewers : List String  -- active staff who hold `senderid.review`
  pub alerts : List Alert  -- newest first
  pub audits : List Audit  -- newest first
  pub cleared : List String  -- projects whose cached sender ID was dropped
  pub nudged : List String  -- users whose dashboard was told

pub data Error : Type 0 where
  not_found : Error
  refused : Refusal → Error
  reason_needed unchecked_items failed_items stale : Error
  unknown_items audit_failed unique_violation : Error

pub data DecisionInput : Type 0 where
  approve reject changes_requested : DecisionInput

pub record Env : Type 0 where
  pub now : ℕ
  pub fresh_id : String → String  -- the id of the review row made for an application
  pub audit_ok : AuditAction → Bool

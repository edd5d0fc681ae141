-- ===== src/Credits/Types.antt =====
-- The rows, the inputs and the answers of src/modules/credits/credits.service.ts.
use zapiack_console_backend.Common.{ℕ, String, Bool, Option, List}
use zapiack_console_backend.Common.Text.{Text}
use zapiack_console_backend.Common.Table.{Table}

pub data Direction : Type 0 where
  credit debit : Direction

pub data Status : Type 0 where
  pending_approval approved applied rejected failed : Status

pub record Adjustment : Type 0 where
  pub account_id : String
  pub direction : Direction
  pub amount_ngn : Text
  pub reason : Text
  pub status : Status
  pub idempotency_key : String
  pub requested_by_id : String
  pub approved_by_id : Option String
  pub approved_at : Option ℕ
  pub rejected_reason : Option Text
  pub ledger_txn_id : Option String
  pub applied_at : Option ℕ
  pub failure_reason : Option Text

-- What `Number(input.amountNgn)` can be. A positive value is counted in ten-thousandths of a naira,
-- rounded up, so that its comparison with a whole number of naira is exact.
pub data Amount : Type 0 where
  not_finite not_positive : Amount
  positive : ℕ → Amount

pub record Input : Type 0 where
  pub direction : Direction
  pub amount_ngn : Text
  pub reason : Text

pub record Actor : Type 0 where
  pub id : String
  pub email : String

-- The body of the request to api-core's balance adjustment.
pub record Call : Type 0 where
  pub account_id : String
  pub direction : Direction
  pub amount : Text
  pub reason : Text
  pub idempotency_key : String
  pub recorded_by : String

-- api-core's answer: the transaction id and the balance of the result, or the message of the error.
pub data Reply : Type 0 where
  posted : Option String → Option Text → Reply
  failure : Text → Reply

pub data AuditAction : Type 0 where
  adjust_requested adjust_approved adjust_rejected adjust_applied : AuditAction

pub record Audit : Type 0 where
  pub action : AuditAction
  pub actor_id : String
  pub target_id : String
  pub reason : Text

-- A row of `staff`, with the permissions of its role.
pub record Staff : Type 0 where
  pub id : String
  pub active : Bool
  pub role_permissions : List String

-- A row of `staff_notifications`: who is told, and of which adjustment.
pub record Notification : Type 0 where
  pub staff_id : String
  pub adjustment_id : String
  pub account_id : String

pub record State : Type 0 where
  pub account_ids : List String  -- the product's accounts
  pub staff : List Staff
  pub adjustments : Table Adjustment
  pub audits : List Audit  -- newest first
  pub inbox : List Notification
  pub calls : List Call  -- what api-core was sent, newest first

pub record Env : Type 0 where
  pub now : ℕ
  pub fresh_id : String
  pub fresh_key : String
  pub reply : Call → Reply
  pub audit_ok : AuditAction → Bool
  pub audit_error : Text

pub data Error : Type 0 where
  bad_request not_found conflict forbidden : Error
  unique_violation audit_failed : Error
  upstream : Text → Error

pub data Answer : Type 0 where
  summary : String → Status → Answer
  done : String → Status → Option String → Option Text → Answer
  thrown : Error → Answer

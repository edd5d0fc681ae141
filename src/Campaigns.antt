-- ===== src/Campaigns.antt =====
-- Notification campaigns: the rows of src/modules/notifications/campaigns.service.ts, and what its
-- operations read and write. One operation or one job runs at a time, and the Admin database answers.
-- A campaign's recipients are kept under its id: an account has one row there, so that the row's id
-- stands for the account. The text of a message is not kept, only to whom it goes.
pub mod Desk
pub mod Rows
pub mod InApp
pub mod Worker
pub mod Reach
pub mod Approval
pub mod Runs
mod Tests
use zapiack_console_backend.Common.{ℕ, String, Bool, Option, List}
use zapiack_console_backend.Common.Text.{Text}
use zapiack_console_backend.Common.Table.{Table}
use zapiack_console_backend.Segments.{Account, Segment}

pub data Channel : Type 0 where
  in_app email sms : Channel

pub data AudienceKind : Type 0 where
  single_account account_list segment : AudienceKind

pub data Status : Type 0 where
  draft pending_approval scheduled sending sent failed cancelled : Status

pub data RecipientStatus : Type 0 where
  pending sent delivered failed skipped : RecipientStatus

pub record Recipient : Type 0 where
  pub id : String
  pub account_id : String
  pub destination : Option Text
  pub status : RecipientStatus
  pub failure_reason : Option Text
  pub sent_at : Option ℕ

pub record Campaign : Type 0 where
  pub channel : Channel
  pub subject : Option Text
  pub audience_kind : AudienceKind
  pub segment_id : Option String
  pub account_ids : List String
  pub status : Status
  pub scheduled_at : Option ℕ
  pub started_at : Option ℕ
  pub completed_at : Option ℕ
  pub recipient_count : ℕ
  pub sent_count : ℕ
  pub failed_count : ℕ
  pub requires_approval : Bool
  pub approved_by_id : Option String
  pub approved_at : Option ℕ
  pub created_by_id : String

-- `CreateCampaignDto`
pub record Draft : Type 0 where
  pub channel : Channel
  pub subject : Option Text
  pub audience_kind : AudienceKind
  pub segment_id : Option String
  pub account_ids : List String

-- `campaign-<id>` and `campaign-<id>-retry-<instant>`
pub data JobId : Type 0 where
  first : String → JobId
  again : String → ℕ → JobId

pub record Job : Type 0 where
  pub job_id : JobId
  pub delay : ℕ
  pub campaign_id : String
  pub retry : Bool

pub record Actor : Type 0 where
  pub id : String
  pub email : Text
  pub role_key : String
  pub permissions : List String

pub data Action : Type 0 where
  created approved was_scheduled retried was_cancelled : Action

pub record Audit : Type 0 where
  pub action : Action
  pub actor_id : String
  pub target_id : String

-- What was handed to a channel: the account's owner, the campaign, and the address where there is one.
pub record Message : Type 0 where
  pub campaign_id : String
  pub account_id : String
  pub address : Option Text

-- A row of `user_notifications` that a campaign wrote.
pub record Notice : Type 0 where
  pub user_id : String
  pub account_id : String
  pub campaign_id : String

pub record State : Type 0 where
  pub campaigns : Table Campaign
  pub recipients : Table (List Recipient)
  pub queue : List Job  -- the jobs that BullMQ has on file
  pub audits : List Audit  -- newest first
  pub told : List String  -- whom `notifyStaff` told of an approval, newest first
  pub messages : List Message  -- newest first
  pub notices : List Notice

-- What the operations read and do not write, and what may fail.
pub record Env : Type 0 where
  pub now : ℕ
  pub approval_threshold : ℕ
  pub accounts : List Account
  pub segments : List Segment
  pub approvers : List String  -- the active staff whose role is `super_admin`
  pub audit_ok : Action → Bool
  pub recipient_id : String → String → String  -- the id drawn for a campaign and an account
  pub mail : Text → Option Text  -- the message of the exception, where sending throws
  pub text_message : Text → Option Text
  pub in_app_rows : Option Text  -- the same, for the one statement that writes the notices

pub data Error : Type 0 where
  bad_request forbidden not_found conflict audit_failed : Error

pub data Outcome {ℓ} (A : Type ℓ) : Type ℓ where
  thrown : Error → Outcome A
  done : A → Outcome A

-- ===== src/Auth.antt =====
-- Sign-in, the second factor, invites and impersonation: the rows and parameters of
-- src/modules/auth/auth.service.ts. The hashes of passwords and the codes of the second factor are
-- parameters, as are JavaScript's `toLowerCase` and what a look-up of an address says of its place,
-- which is not kept.
pub mod SignIn
pub mod Lockout
pub mod Factor
pub mod Pending
pub mod Account
pub mod ViewAs
mod Tests
use zapiack_console_backend.Common.{
  ℕ, String, Bool, true, false, Option, none, some, List, [], ◌∷◌, if◌then◌else◌,
}
use zapiack_console_backend.Common.Text.{Text, text_eq}
use zapiack_console_backend.Common.Table.{Table}
use zapiack_console_backend.Sessions

pub data Status : Type 0 where
  invited active suspended disabled : Status

pub record Staff : Type 0 where
  pub email : Text
  pub password_hash : Text
  pub totp_secret : Option Text
  pub totp_enabled : Bool
  pub status : Status
  pub role_id : String
  pub failed_login_count : ℕ
  pub locked_until : Option ℕ
  pub last_login_at : Option ℕ
  pub last_login_ip : Option String
  pub session_epoch : ℕ

pub record Invite : Type 0 where
  pub email : Text
  pub role_id : String
  pub expires_at : ℕ
  pub accepted_at : Option ℕ
  pub revoked_at : Option ℕ

pub data Reason : Type 0 where
  unknown_email locked bad_password bad_totp : Reason
  not_active : Status → Reason

-- A row of `loginAttempt`; a success has no reason.
pub record Attempt : Type 0 where
  pub email : Text
  pub ip : Option String
  pub reason : Option Reason

-- A row of `staffSession`.
pub record SessionRow : Type 0 where
  pub staff_id : String
  pub revoked_at : Option ℕ

-- A row of `impersonationSession`.
pub record Impersonation : Type 0 where
  pub staff_id : String
  pub account_id : String
  pub expires_at : ℕ
  pub ended_at : Option ℕ

pub data Action : Type 0 where
  login logout password_changed invite_accepted impersonate impersonate_end : Action

pub record Audit : Type 0 where
  pub action : Action
  pub actor_id : String
  pub target_id : Option String

pub record State : Type 0 where
  pub staff : Table Staff
  pub invites : Table Invite  -- by the hash of the token
  pub sessions : Sessions.Store
  pub session_rows : Table SessionRow
  pub attempts : List Attempt  -- newest first
  pub audits : List Audit  -- newest first
  pub impersonations : List Impersonation

pub record Config : Type 0 where
  pub session : Sessions.Config
  pub max_failed_logins : ℕ
  pub lockout_minutes : ℕ
  pub impersonation_minutes : ℕ

pub record Context : Type 0 where
  pub ip : Option String
  pub user_agent : Option String

-- What a call reads and draws, and whether the audit row that may not be lost can be written.
pub record Env : Type 0 where
  pub now : ℕ
  pub to_lower_case : Text → Text
  pub password_ok : Text → Text → Bool  -- a password against a stored hash
  pub hash : Text → Text
  pub is_strong : Text → Bool
  pub totp_ok : Text → Text → Bool  -- a stored secret and a code
  pub fresh_secret : Text  -- as it is stored
  pub fresh_id : String
  pub fresh_token : String
  pub audit_ok : Bool

pub data Error : Type 0 where
  invalid_credentials not_active_account no_session session_expired no_factor invalid_code : Error
  wrong_password weak_password not_found audit_failed : Error
  invalid_invite used_invite expired_invite email_taken : Error
  locked_until : ℕ → Error

pub data Outcome (A : Type 0) : Type 0 where
  thrown : Error → Outcome A
  done : A → Outcome A

abbrev pub minute_ms : ℕ
minute_ms = 60000

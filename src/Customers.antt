-- ===== src/Customers.antt =====
-- What staff do to a customer's account: src/modules/customers/customer-actions.service.ts. The tables
-- of the product, the calls that api-core received, the keys of the product's cache that were
-- cleared, and the console's flags and audit rows are the state. A call that api-core refuses throws,
-- and so does a write that the database refuses. Amounts are ten-thousandths of a naira.
pub mod Money
pub mod Standing
mod Tests
use zapiack_console_backend.Common.{
  ℕ, String, Bool, true, false, not, ◌&&◌, ◌||◌, Option, none, some, List, [], ◌∷◌, any, is_some,
  str_eq, ltb, if◌then◌else◌,
}
use zapiack_console_backend.Common.Table.{Table, find, put}
use zapiack_console_backend.Common.Text.{Text}
use zapiack_console_backend.Segments.{Credits, pos, credits_lt}

pub data AccountStatus : Type 0 where
  active past_due probation suspended canceled banned : AccountStatus

pub record Account : Type 0 where
  pub account_status : AccountStatus
  pub credit_balance : Credits

pub record ApiKey : Type 0 where
  pub account_id : String
  pub key_prefix : String
  pub is_active : Bool
  pub is_deleted : Bool

pub record Project : Type 0 where
  pub account_id : String
  pub is_deleted : Bool

-- A payment has the plan, the amount, the reference and who recorded it.
pub data Call : Type 0 where
  force_logout reset_rate_limits : String → Call
  change_plan : String → String → Call
  charge_plan : String → String → Call
  record_payment : String → String → ℕ → String → String → Call

pub data Cleared : Type 0 where
  account_status api_key : String → Cleared

pub data Action : Type 0 where
  status : AccountStatus → Action
  logout restore_key revoke_key project_archived plan_changed card_charge payment_recorded : Action
  limits_reset flag_raised flag_resolved : Action

pub record Audit : Type 0 where
  pub action : Action
  pub actor_id : String
  pub target_id : String

pub record Flag : Type 0 where
  pub account_id : String
  pub raised_by : String
  pub resolved_by : Option String
  pub resolved_at : Option ℕ
  pub resolution : Option Text

pub record State : Type 0 where
  pub accounts : Table Account
  pub api_keys : Table ApiKey
  pub projects : Table Project
  pub flags : Table Flag
  pub calls : List Call  -- newest first
  pub cleared : List Cleared  -- newest first
  pub audits : List Audit  -- newest first

pub record Env : Type 0 where
  pub now : ℕ
  pub plans : Table ℕ  -- the base price of each plan
  pub limit : ℕ  -- `creditApprovalThresholdNgn`
  pub write_ok : Bool
  pub clears : Bool  -- the product's cache can be cleared
  pub accepts : Call → Bool
  pub already_applied : Call → Bool
  pub audit_ok : Bool

pub record Actor : Type 0 where
  pub id : String
  pub email : String
  pub permissions : List String

pub data Error : Type 0 where
  not_found conflict forbidden unavailable upstream audit_failed : Error

-- The state, and the exception if one is thrown.
abbrev pub Result : Type 0
Result = State × Option Error

abbrev pub audit : Env → Actor → Action → String → State → Result
audit env actor action target s =
    if env.audit_ok
    then (
      record s {
        audits = record { action = action; actor_id = actor.id; target_id = target } ∷ s.audits;
      },
      none,
    )
    else (s, some audit_failed)

abbrev pub status_eq : AccountStatus → AccountStatus → Bool
status_eq active active = true
status_eq past_due past_due = true
status_eq probation probation = true
status_eq suspended suspended = true
status_eq canceled canceled = true
status_eq banned banned = true
status_eq _ _ = false

-- `BANNED` while the account still holds credits.
abbrev pub strands : AccountStatus → Account → Bool
strands banned a = credits_lt (pos 0) a.credit_balance
strands _ a = false

abbrev pub moved : AccountStatus → Account → Account
moved new a = record a { account_status = new }

abbrev pub clear : Env → Cleared → State → State
clear env key s = if env.clears then record s { cleared = key ∷ s.cleared } else s

unfoldable pub set_found : Env → Actor → String → AccountStatus → Option Account → State → Result
set_found env actor id new none s = (s, some not_found)
set_found env actor id new (some a) s =
    if status_eq a.account_status new
    then (s, some conflict)
    else if strands new a
    then (s, some conflict)
    else if not env.write_ok
    then (s, some unavailable)
    else audit env actor (status new) id
        (clear env (account_status id) (record s { accounts = put id (moved new a) s.accounts }))

unfoldable pub set_status : Env → Actor → String → AccountStatus → State → Result
unfolding set_found
set_status env actor id new s = set_found env actor id new (find id s.accounts) s

pub suspend : Env → Actor → String → State → Result
unfolding set_status
suspend env actor id s = set_status env actor id suspended s

pub reactivate : Env → Actor → String → State → Result
unfolding set_status
reactivate env actor id s = set_status env actor id active s

unfoldable pub ban : Env → Actor → String → State → Result
unfolding set_status
ban env actor id s = set_status env actor id banned s

-- A command to api-core, and the audit row of what it did.
unfoldable pub command : Env → Actor → Action → String → Call → State → Result
command env actor action target call s =
    let t = record s { calls = call ∷ s.calls } in
    if env.accepts call then audit env actor action target t else (t, some upstream)

-- `requireAccount`
abbrev pub require_account : String → State → Result → Result
require_account id s next = if is_some (find id s.accounts) then next else (s, some not_found)

unfoldable pub force_logout_all : Env → Actor → String → State → Result
unfolding command
force_logout_all env actor id s =
    require_account id s (command env actor logout id (force_logout id) s)

abbrev key_action : Bool → Action
key_action true = restore_key
key_action false = revoke_key

unfoldable pub set_key_found : Env → Actor → String → String → Bool → Option ApiKey → State → Result
set_key_found env actor account id on none s = (s, some not_found)
set_key_found env actor account id on (some k) s =
    if not (str_eq k.account_id account)
    then (s, some not_found)
    else if k.is_deleted
    then (s, some conflict)
    else if not env.write_ok
    then (s, some unavailable)
    else audit env actor (key_action on) id (
        clear env (api_key k.key_prefix)
          (record s { api_keys = put id (record k { is_active = on }) s.api_keys }))

unfoldable pub set_api_key_active : Env → Actor → String → String → Bool → State → Result
unfolding set_key_found
set_api_key_active env actor account id on s =
    set_key_found env actor account id on (find id s.api_keys) s

archive_found : Env → Actor → String → String → Option Project → State → Result
archive_found env actor account id none s = (s, some not_found)
archive_found env actor account id (some p) s =
    if not (str_eq p.account_id account)
    then (s, some not_found)
    else if not env.write_ok
    then (s, some unavailable)
    else audit env actor project_archived id
        (record s { projects = put id (record p { is_deleted = true }) s.projects })

pub archive_project : Env → Actor → String → String → State → Result
unfolding archive_found
archive_project env actor account id s = archive_found env actor account id (find id s.projects) s

unfoldable pub change_plan_of : Env → Actor → String → String → State → Result
unfolding command
change_plan_of env actor id plan s = require_account id s (
    if is_some (find plan env.plans)
    then command env actor plan_changed id (change_plan id plan) s
    else (s, some not_found))

unfoldable pub reset_limits : Env → Actor → String → State → Result
unfolding command
reset_limits env actor id s =
    require_account id s (command env actor limits_reset id (reset_rate_limits id) s)

-- `fresh` is the id that the flag draws.
pub raise_flag : Env → Actor → String → String → State → Result
raise_flag env actor fresh id s = audit env actor flag_raised id (record s {
  flags =
      put fresh
        (record {
          account_id = id;
          raised_by = actor.id;
          resolved_by = none;
          resolved_at = none;
          resolution = none;
        })
        s.flags;
})

resolve_found : Env → Actor → String → Text → Option Flag → State → Result
resolve_found env actor id resolution none s = (s, some not_found)
resolve_found env actor id resolution (some f) s = audit env actor flag_resolved id (record s {
  flags =
      put id
        (record f {
          resolved_by = some actor.id;
          resolved_at = some env.now;
          resolution = some resolution;
        })
        s.flags;
})

pub resolve_flag : Env → Actor → String → Text → State → Result
unfolding resolve_found
resolve_flag env actor id resolution s = resolve_found env actor id resolution (find id s.flags) s

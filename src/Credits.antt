-- ===== src/Credits.antt =====
-- Credit adjustments: src/modules/credits/credits.service.ts, over the tables of
-- prisma/admin/schema.prisma. A method takes the service's state and returns the new state with a
-- reply or the exception that it throws. What the code asks of the outside (the clock, fresh ids,
-- api-core's answer, whether an audit row can be written) is the record `Env`, given anew to each call.
mod Types
mod Rows
mod Tests
pub mod Runs
pub mod Final
pub mod Outcomes
pub mod Authorised
pub use Types.*
use zapiack_console_backend.Common.{
  ℕ, ◌*◌, String, Bool, true, false, not, ◌&&◌, ◌||◌, Option, none, some, List, [], ◌∷◌, ◌++◌, map,
  str_eq, ltb, is_some, take, any, if◌then◌else◌,
}
use zapiack_console_backend.Common.Text.{Text}
use zapiack_console_backend.Common.Table.{Table, find, put}

abbrev pub is_positive : Amount → Bool
is_positive (positive _) = true
is_positive _ = false

-- `amount > this.threshold`, with the threshold in naira
abbrev pub above : ℕ → Amount → Bool
above threshold (positive n) = ltb (threshold * 10000) n
above threshold _ = false

-- The two unique columns of the table.
unfoldable pub key_taken : String → Table Adjustment → Bool
key_taken k [] = false
key_taken k ((_, a) ∷ t) = if str_eq a.idempotency_key k then true else key_taken k t

store : String → Adjustment → State → State
store id a s = record s { adjustments = put id a s.adjustments }

write_audit : AuditAction → Actor → String → Text → State → State
write_audit act actor target reason s = record s {
  audits =
      record { action = act; actor_id = actor.id; target_id = target; reason = reason } ∷ s.audits;
}

abbrev pub call_of : Actor → Adjustment → Call
call_of actor a = record {
  account_id = a.account_id;
  direction = a.direction;
  amount = a.amount_ngn;
  reason = a.reason;
  idempotency_key = a.idempotency_key;
  recorded_by = actor.email;
}

-- The `catch` of `apply`: the row is marked FAILED with the message, and the error goes on.
mark_failed : String → Adjustment → Text → Error → State → State × Answer
unfolding store
mark_failed id a message e s =
    (store id (record a { status = failed; failure_reason = some (take 500 message) }) s, thrown e)

-- The `try` of `apply` after api-core answered.
settle : Env → Actor → String → Adjustment → Reply → State → State × Answer
unfolding mark_failed store write_audit
settle env actor id a (failure message) s = mark_failed id a message (upstream message) s
settle env actor id a (posted txn balance) s =
    let b = record a { status = applied; applied_at = some env.now; ledger_txn_id = txn } in
    let t = store id b s in
    if env.audit_ok adjust_applied
    then (write_audit adjust_applied actor a.account_id a.reason t, done id applied txn balance)
    else mark_failed id b env.audit_error audit_failed t

apply_found : Env → Actor → String → Option Adjustment → State → State × Answer
unfolding settle
apply_found env actor id none s = (s, thrown not_found)
apply_found env actor id (some a) s =
    let call = call_of actor a in
    settle env actor id a (env.reply call) (record s { calls = call ∷ s.calls })

pub apply : Env → Actor → String → State → State × Answer
unfolding apply_found
apply env actor id s = apply_found env actor id (find id s.adjustments) s

-- `permissions: { has: … }` and `status: 'ACTIVE'`
abbrev can_approve : Staff → Bool
can_approve m = m.active && any (λ p. str_eq p "credits.approve") m.role_permissions

approvers : List Staff → List Staff
approvers [] = []
approvers (m ∷ ms) = let rest = approvers ms in if can_approve m then m ∷ rest else rest

notify_approvers : String → String → State → State
unfolding approvers
notify_approvers id account s = record s {
  inbox =
      map (λ m. record { staff_id = m.id; adjustment_id = id; account_id = account })
        (approvers s.staff)
      ++ s.inbox;
}

module _ (threshold : ℕ) (number : Text → Amount) where
  -- The row that `request` creates.
  abbrev pub new_adjustment : Env → Actor → String → Input → Adjustment
  new_adjustment env actor account input =
      let waits = above threshold (number input.amount_ngn) in
      record {
        account_id = account;
        direction = input.direction;
        amount_ngn = input.amount_ngn;
        reason = input.reason;
        status = if waits then pending_approval else approved;
        idempotency_key = env.fresh_key;
        requested_by_id = actor.id;
        approved_by_id = if waits then none else some actor.id;
        approved_at = if waits then none else some env.now;
        rejected_reason = none;
        ledger_txn_id = none;
        applied_at = none;
        failure_reason = none;
      }

  -- `request` once the row is created.
  requested : Env → Actor → String → Input → State → State × Answer
  unfolding notify_approvers write_audit
  requested env actor account input s =
      if env.audit_ok adjust_requested
      then after_audit (write_audit adjust_requested actor account input.reason s)
      else (s, thrown audit_failed)
    where
      after_audit : State → State × Answer
      after_audit t =
          if above threshold (number input.amount_ngn)
          then (notify_approvers env.fresh_id account t, summary env.fresh_id pending_approval)
          else apply env actor env.fresh_id t

  pub request : Env → Actor → String → Input → State → State × Answer
  unfolding requested store
  request env actor account input s =
      if not (is_positive (number input.amount_ngn))
      then (s, thrown bad_request)
      else if not (any (λ a. str_eq a account) s.account_ids)
      then (s, thrown not_found)
      else if is_some (find env.fresh_id s.adjustments) || key_taken env.fresh_key s.adjustments
      then (s, thrown unique_violation)
      else requested env actor account input
          (store env.fresh_id (new_adjustment env actor account input) s)

-- `approve` once the row is found to await approval.
approve_pending : Env → Actor → String → Text → Adjustment → State → State × Answer
unfolding store write_audit
approve_pending env actor id reason a s =
    if str_eq a.requested_by_id actor.id
    then (s, thrown forbidden)
    else let b = record a {
      status = approved;
      approved_by_id = some actor.id;
      approved_at = some env.now;
    } in
      let t = store id b s in
      if env.audit_ok adjust_approved
      then apply env actor id (write_audit adjust_approved actor id reason t)
      else (t, thrown audit_failed)

abbrev pub is_pending : Status → Bool
is_pending pending_approval = true
is_pending _ = false

abbrev pub is_failed : Status → Bool
is_failed failed = true
is_failed _ = false

approve_found : Env → Actor → String → Text → Option Adjustment → State → State × Answer
unfolding approve_pending
approve_found env actor id reason none s = (s, thrown not_found)
approve_found env actor id reason (some a) s =
    if is_pending a.status then approve_pending env actor id reason a s else (s, thrown conflict)

pub approve : Env → Actor → String → Text → State → State × Answer
unfolding approve_found
approve env actor id reason s = approve_found env actor id reason (find id s.adjustments) s

-- `update` of a missing row throws.
reject_found : Env → Actor → String → Text → Option Adjustment → State → State × Answer
unfolding store write_audit
reject_found env actor id reason none s = (s, thrown not_found)
reject_found env actor id reason (some a) s =
    let t = store id (record a { status = rejected; rejected_reason = some reason }) s in
    if env.audit_ok adjust_rejected
    then (write_audit adjust_rejected actor id reason t, summary id rejected)
    else (t, thrown audit_failed)

pub reject : Env → Actor → String → Text → State → State × Answer
unfolding reject_found
reject env actor id reason s = reject_found env actor id reason (find id s.adjustments) s

retry_found : Env → Actor → String → Option Adjustment → State → State × Answer
retry_found env actor id none s = (s, thrown not_found)
retry_found env actor id (some a) s =
    if is_failed a.status then apply env actor id s else (s, thrown conflict)

pub retry : Env → Actor → String → State → State × Answer
unfolding retry_found
retry env actor id s = retry_found env actor id (find id s.adjustments) s

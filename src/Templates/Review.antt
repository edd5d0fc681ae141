-- ===== src/Templates/Review.antt =====
-- A decision on a template, and the cached queue: `decide` and `everything` of
-- src/modules/templates/templates.service.ts. What api-core answers is in `Env`: a call that fails
-- throws its message.
pub mod Laws
use zapiack_console_backend.Common.{
  ℕ, String, Bool, true, false, not, ◌&&◌, ◌-◌, Option, none, some, List, [], ◌∷◌, ◌++◌, ltb,
  str_eq, if◌then◌else◌,
}
use zapiack_console_backend.Common.Text.{Text}
use zapiack_console_backend.Templates
use zapiack_console_backend.Templates.{
  Action, action_eq, statuses, assert_allowed, audit_action, flags_of, is_filled,
}

-- The fields of `ApiCoreTemplate` that the service uses.
pub record Template : Type 0 where
  pub id : String
  pub template_id : String
  pub name : Text
  pub status : String
  pub rejection_reason : Option Text
  pub review_notes : Option Text
  pub reviewed_at : Option Text
  pub account_id : Option String
  pub html : Option Text

-- What is sent to api-core's decision route.
pub record Call : Type 0 where
  pub id : String
  pub reviewer : String  -- the `id` of `console:<id>`
  pub approve : Bool
  pub reason : Option Text

pub record Audit : Type 0 where
  pub action : String
  pub actor_id : String
  pub target_id : String
  pub reason : Text
  pub before : String
  pub after : String
  pub flags : List Text
  pub approved_from_draft : Bool

pub record State : Type 0 where
  pub calls : List Call  -- newest first
  pub audits : List Audit  -- newest first
  pub cache : Option (ℕ × List Template)

pub data Reply {ℓ} (A : Type ℓ) : Type ℓ where
  failure : Text → Reply A
  answer : A → Reply A

pub record Env : Type 0 where
  pub now : ℕ
  pub lookup : String → Reply (Option Template)
  pub reply : Call → Reply Template
  pub queue : String → Reply (List Template)
  pub audit_ok : Bool

pub data Error : Type 0 where
  not_found audit_failed : Error
  upstream : Text → Error
  refused : Templates.Refusal → Error

pub record Decided : Type 0 where
  pub id : String
  pub template_id : String
  pub status : String
  pub previous_status : String
  pub rejection_reason : Option Text
  pub reviewed_at : Option Text

pub data Answer : Type 0 where
  decided : Decided → Answer
  thrown : Error → Answer

-- `Boolean(before.html)`
abbrev pub has_content : Template → Bool
has_content t = elim (t.html) [ none ↦ false | some html ↦ is_filled html ]

abbrev pub call_of : String → Template → Action → Text → Call
call_of actor t action reason = record {
  id = t.id;
  reviewer = actor;
  approve = action_eq action Templates.approve;
  reason = if action_eq action Templates.approve then none else some reason;
}

audit_of : String → Template → Template → Action → Text → Audit
audit_of actor before after action reason = record {
  action = audit_action action;
  actor_id = actor;
  target_id = before.id;
  reason = reason;
  before = before.status;
  after = after.status;
  flags = flags_of before.review_notes;
  approved_from_draft = action_eq action Templates.approve && str_eq before.status "DRAFT";
}

-- Once api-core has answered the decision.
conclude : Env → String → Template → Action → Text → Reply Template → State → State × Answer
unfolding audit_of
conclude env actor before action reason (failure message) s = (s, thrown (upstream message))
conclude env actor before action reason (answer after) s =
    let t = record s { cache = none } in
    if env.audit_ok
    then (
      record t { audits = audit_of actor before after action reason ∷ t.audits },
      decided (record {
        id = after.id;
        template_id = after.template_id;
        status = after.status;
        previous_status = before.status;
        rejection_reason = after.rejection_reason;
        reviewed_at = after.reviewed_at;
      }),
    )
    else (t, thrown audit_failed)

decide_found :
    Env → String → Template → Action → Text → Option Templates.Refusal → State → State × Answer
unfolding conclude
decide_found env actor t action reason (some e) s = (s, thrown (refused e))
decide_found env actor t action reason none s =
    let call = call_of actor t action reason in
    conclude env actor t action reason (env.reply call) (record s { calls = call ∷ s.calls })

decide_read : Env → String → Action → Text → Reply (Option Template) → State → State × Answer
unfolding decide_found
decide_read env actor action reason (failure message) s = (s, thrown (upstream message))
decide_read env actor action reason (answer none) s = (s, thrown not_found)
decide_read env actor action reason (answer (some t)) s =
    decide_found env actor t action reason (assert_allowed action t.status (has_content t)) s

unfoldable pub decide : Env → String → String → Action → Text → State → State × Answer
unfolding decide_read
decide env actor id action reason s = decide_read env actor action reason (env.lookup id) s

-- `CACHE_MS`
abbrev pub cache_ms : ℕ
cache_ms = 15000

-- The five queues, one status after the other; the first that fails fails all.
join : Reply (List Template) → Reply (List Template) → Reply (List Template)
join (failure message) rest = failure message
join (answer rows) (failure message) = failure message
join (answer rows) (answer more) = answer (rows ++ more)

unfoldable pub fetch : (String → Reply (List Template)) → List String → Reply (List Template)
unfolding join
fetch queue [] = answer []
fetch queue (status ∷ more) = join (queue status) (fetch queue more)

abbrev pub cached : ℕ → Option (ℕ × List Template) → Option (List Template)
cached now none = none
cached now (some (at', rows)) = if ltb (now - at') cache_ms then some rows else none

refill : ℕ → Reply (List Template) → State → State × Reply (List Template)
refill now (failure message) s = (s, failure message)
refill now (answer rows) s = (record s { cache = some (now, rows) }, answer rows)

everything_from : Env → Option (List Template) → State → State × Reply (List Template)
unfolding refill
everything_from env (some rows) s = (s, answer rows)
everything_from env none s = refill env.now (fetch env.queue statuses) s

pub everything : Env → State → State × Reply (List Template)
unfolding everything_from
everything env s = everything_from env (cached env.now s.cache) s

-- ===== src/Templates/Tests.antt =====
-- A draft that is approved, and a queue that is read twice.
use zapiack_console_backend.Common.{
  true, if◌then◌else◌, ◌≡◌, refl, none, some, List, [], ◌∷◌, str_eq,
}
use zapiack_console_backend.Templates
use zapiack_console_backend.Templates.{
  Action, reject, revoke, Refusal, assert_allowed, allowed_actions, statuses, use_revoke,
}
use zapiack_console_backend.Templates.Review.{
  Template, State, answer, failure, Env, Decided, has_content, call_of, decide,
}
use zapiack_console_backend.Templates.Review.Laws.{decide-Decided}

abbrev draft : Template
draft = record {
  id = "t-1";
  template_id = "tpl";
  name = [];
  status = "DRAFT";
  rejection_reason = none;
  review_notes = none;
  reviewed_at = none;
  account_id = none;
  html = some (60 ∷ []);
}

abbrev approved : Template
approved = record draft { status = "APPROVED" }

abbrev env : Env
env = record {
  now = 100;
  lookup = λ id. if str_eq id "t-1" then answer (some draft) else answer none;
  reply = λ c. answer approved;
  queue = λ s. answer (draft ∷ []);
  audit_ok = true;
}

abbrev later : Env
later = record env { now = 200; queue = λ s. failure [] }

abbrev start : State
start = record { calls = []; audits = []; cache = none }

abbrev outcome : Decided
outcome = record {
  id = "t-1";
  template_id = "tpl";
  status = "APPROVED";
  previous_status = "DRAFT";
  rejection_reason = none;
  reviewed_at = none;
}

decide-Decided_example :
    let t = (decide env "obi" "t-1" Templates.approve (7 ∷ []) start).0 in
    (before after : Template) × (env.lookup "t-1" ≡ answer (some before))
    × (assert_allowed Templates.approve before.status (has_content before) ≡ none)
    × (env.reply (call_of "obi" before Templates.approve (7 ∷ [])) ≡ answer after)
    × (t.calls ≡ call_of "obi" before Templates.approve (7 ∷ []) ∷ start.calls)
    × (outcome.status ≡ after.status)
    × (outcome.previous_status ≡ before.status)
    × (t.cache ≡ none)
unfolding decide assert_allowed allowed_actions
decide-Decided_example =
    decide-Decided env "obi" "t-1" Templates.approve (7 ∷ []) start outcome refl

abbrev rows : List Template
rows = draft ∷ draft ∷ draft ∷ draft ∷ draft ∷ []

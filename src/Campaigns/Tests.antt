-- ===== src/Campaigns/Tests.antt =====
-- One broadcast by e-mail to two accounts, which wants an approval, and what becomes of it.
use zapiack_console_backend.Common.{
  String, true, false, ◌≡◌, ◌≢◌, refl, none, some, List, [], ◌∷◌, ◌++◌, ◌||◌, ◌&&◌, is_some, any,
  str_eq, arith, if◌then◌else◌, map,
}
use zapiack_console_backend.Common.Text.{Text, codes, text_eq}
use zapiack_console_backend.Common.Table.{find, put}
use zapiack_console_backend.Segments.{
  Account, Resolved, Credits, to_resolved, resolve_accounts, find_many,
}
use zapiack_console_backend.Campaigns.{
  Draft, Campaign, Actor, Env, State, done, email, account_list, RecipientStatus, Recipient, draft,
  Status,
}
use zapiack_console_backend.Campaigns.Desk.{
  create, create_sized, validate_audience, estimate_size, approve, approve_found, others, send_now,
  tally, super_admin,
}
use zapiack_console_backend.Campaigns.Desk.Laws.{approve-done}
use zapiack_console_backend.Campaigns.Rows.{filled_rows, has_account, materialise_recipients}
use zapiack_console_backend.Campaigns.Rows.Laws.{filled_rows_lem, Distinct}
use zapiack_console_backend.Campaigns.Worker.{
  run, rounds, endless, pending_rows, mark, send_each, contact_of, address_of, Work,
}
use zapiack_console_backend.Campaigns.Worker.Loop.{rounds-end, waiting}
use zapiack_console_backend.Campaigns.Worker.Laws.{run-ends}
use zapiack_console_backend.Campaigns.Runs.{
  Op, creating, approving, sending_now, working, steps, empty, steps-contacted,
}

abbrev account : String → Text → Account
account id address = record {
  id = id;
  user_id = id;
  account_status = "ACTIVE";
  country_code = codes "NG";
  credit_balance = Credits.pos 0;
  email = address;
  display_name = none;
  email_verified = true;
  subscriptions = [];
  log_events = [];
}

abbrev bounced : Text
bounced = codes "b@x.ng"

abbrev accounts : List Account
accounts = account "a1" (codes "a@x.ng") ∷ account "a2" bounced ∷ []

-- The second address bounces.
abbrev env : Env
env = record {
  now = 1000;
  approval_threshold = 1;
  accounts = accounts;
  segments = [];
  approvers = "boss" ∷ "author" ∷ [];
  audit_ok = λ action. true;
  recipient_id = λ campaign id. id;
  mail = λ address. if text_eq address bounced then some (codes "bounced") else none;
  text_message = λ address. none;
  in_app_rows = none;
}

abbrev author : Actor
author = record {
  id = "author";
  email = codes "author@z.ng";
  role_key = "super_admin";
  permissions = "notifications.broadcast" ∷ [];
}

abbrev boss : Actor
boss = record author { id = "boss" }

abbrev news : Draft
news = record {
  channel = email;
  subject = some (codes "News");
  audience_kind = account_list;
  segment_id = none;
  account_ids = "a1" ∷ "a2" ∷ [];
}

abbrev sent_ops : List (Env × Op)
sent_ops =
    (env, creating author "c1" news)
    ∷ (env, approving boss "c1")
    ∷ (env, sending_now author "c1")
    ∷ (env, working "c1" false)
    ∷ []

abbrev ready : State
ready = steps ((env, creating author "c1" news) ∷ (env, approving boss "c1") ∷ []) empty

abbrev campaign_new : Campaign
campaign_new = record {
  channel = email;
  subject = news.subject;
  audience_kind = account_list;
  segment_id = none;
  account_ids = news.account_ids;
  status = draft;
  scheduled_at = none;
  started_at = none;
  completed_at = none;
  recipient_count = 2;
  sent_count = 0;
  failed_count = 0;
  requires_approval = true;
  approved_by_id = none;
  approved_at = none;
  created_by_id = "author";
}

abbrev campaign_after : Campaign
campaign_after = record campaign_new {
  status = Status.sent;
  scheduled_at = some 1000;
  started_at = some 1000;
  completed_at = some 1000;
  sent_count = 1;
  failed_count = 1;
  approved_by_id = some "boss";
  approved_at = some 1000;
}

steps-contacted_example : is_some campaign_after.approved_at ≡ true
unfolding steps find run send_now approve create validate_audience estimate_size put
    materialise_recipients pending_rows resolve_accounts find_many send_each address_of contact_of
    mark
steps-contacted_example = steps-contacted sent_ops "c1" campaign_after refl refl refl

abbrev drafted : State
drafted = (create env author "c1" news empty).0

approve-done_example :
    (c : Campaign) × (find "c1" drafted.campaigns ≡ some c)
    × (str_eq boss.role_key super_admin ≡ true)
    × (str_eq c.created_by_id boss.id && others boss.id env.approvers ≡ false)
    × (find "c1" (approve env boss "c1" drafted).0.campaigns
        ≡ some (record c { approved_by_id = some boss.id; approved_at = some env.now }))
unfolding create create_sized approve approve_found find validate_audience estimate_size put
approve-done_example = approve-done env boss "c1" drafted 1000 refl

abbrev scheduled_state : State
scheduled_state = (send_now env author "c1" ready).0

run-ends_example : (run env "c1" false scheduled_state).1 ≢ done endless
run-ends_example = run-ends env "c1" false scheduled_state

abbrev row : String → RecipientStatus → Recipient
row id status = record {
  id = id;
  account_id = id;
  destination = none;
  status = status;
  failure_reason = none;
  sent_at = none;
}

abbrev half_sent : State
half_sent = record empty {
  campaigns = ("c1", campaign_after) ∷ [];
  recipients = ("c1", row "a1" RecipientStatus.sent ∷ row "a2" RecipientStatus.failed ∷ []) ∷ [];
}

abbrev waiting_work : Work
waiting_work = record {
  rows = filled_rows env "c1" campaign_new (resolve_accounts accounts campaign_new.account_ids) [];
  messages = [];
  notices = [];
}

abbrev both : List Resolved
both = map to_resolved accounts

rounds-end_example :
    (v : Work) × (rounds env "c1" email both 3 waiting_work ≡ some v) × (waiting v.rows ≡ 0)
unfolding filled_rows resolve_accounts tally find_many
rounds-end_example = rounds-end env "c1" both email 3 waiting_work (omega arith)

filled_rows_lem_example :
    let filled = filled_rows env "c1" campaign_new both [] in
    ((more : List Recipient) × (filled ≡ [] ++ more))
    × Distinct filled
    × (has_account filled "a2" ≡ (has_account [] "a2" || any (λ r. str_eq r.account_id "a2") both))
filled_rows_lem_example = filled_rows_lem env "c1" campaign_new both [] "a2" tt

abbrev broken : Env
broken = record env { in_app_rows = some (codes "down") }

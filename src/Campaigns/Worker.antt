-- ===== src/Campaigns/Worker.antt =====
-- The job that sends a campaign: `run` of src/modules/notifications/campaign.processor.ts. The part
-- of the state that its loop touches is `Work`; the loop is given one turn more than there are
-- recipients waiting, and `Loop` shows that it ends before they are used up.
pub mod Loop
pub mod Laws
use zapiack_console_backend.Common.{
  ℕ, zero, suc, String, Bool, true, false, not, ◌&&◌, ◌||◌, Option, none, some, List, [], ◌∷◌, ◌++◌,
  any, take, str_eq, ltb, is_some, ◌==◌, if◌then◌else◌, length, map,
}
use zapiack_console_backend.Common.Table.{Table, find, put}
use zapiack_console_backend.Common.Text.{Text, codes}
use zapiack_console_backend.Segments.{Resolved}
use zapiack_console_backend.Campaigns
use zapiack_console_backend.Campaigns.{
  Campaign, Channel, in_app, email, sms, Recipient, RecipientStatus, Message, Notice, State, Env,
  Error, Outcome, thrown, done, Status, sending, pending_approval, cancelled,
}
use zapiack_console_backend.Campaigns.Desk.{status_eq, tally, unapproved, rows_of}
use zapiack_console_backend.Campaigns.Rows.{resolve_recipients, materialise_recipients}
use zapiack_console_backend.Campaigns.InApp.{deliver, Result, failure, success}

pub record Work : Type 0 where
  pub rows : List Recipient
  pub messages : List Message
  pub notices : List Notice

abbrev pub batch_size : ℕ
batch_size = 200

abbrev pub is_pending : Recipient → Bool
is_pending r = status_eq r.status RecipientStatus.pending

unfoldable pub pending_rows : List Recipient → List Recipient
pending_rows [] = []
pending_rows (r ∷ rows) = let rest = pending_rows rows in if is_pending r then r ∷ rest else rest

-- `contacts.get`
unfoldable pub contact_of : List Resolved → String → Option Resolved
contact_of [] account = none
contact_of (r ∷ l) account = if str_eq r.account_id account then some r else contact_of l account

abbrev pub to_sent : ℕ → Recipient → Recipient
to_sent now r = record r { status = RecipientStatus.sent; sent_at = some now }

abbrev pub to_failed : Text → Recipient → Recipient
to_failed reason r = record r { status = RecipientStatus.failed; failure_reason = some reason }

-- `update` of the row with this id
unfoldable pub mark : String → (Recipient → Recipient) → List Recipient → List Recipient
mark id f [] = []
mark id f (r ∷ rows) = let rest = mark id f rows in if str_eq r.id id then f r ∷ rest else r ∷ rest

-- `updateMany` of the rows with these ids
unfoldable pub mark_all : List Recipient → (Recipient → Recipient) → List Recipient → List Recipient
unfolding mark
mark_all [] f rows = rows
mark_all (r ∷ batch) f rows = mark_all batch f (mark r.id f rows)

abbrev filled : Option Text → Option Text
filled none = none
filled (some []) = none
filled (some (c ∷ s)) = some (c ∷ s)

-- Where a message goes: the address, where there is one.
unfoldable pub address_of : Channel → Option Resolved → Option Text
address_of channel none = none
address_of email (some r) = filled (some r.email)
address_of _ (some r) = filled r.phone

abbrev pub no_address : Channel → Text
no_address email = codes "No email address on file"
no_address _ = codes "No phone number on file"

-- What sending throws, if it does.
abbrev pub send : Env → Channel → Text → Option Text
send env email address = env.mail address
send env _ address = env.text_message address

abbrev pub settled : ℕ → Option Text → Recipient → Recipient
settled now none r = to_sent now r
settled now (some message) r = to_failed (take 300 message) r

unfoldable pub send_to : Env → String → Channel → Recipient → Option Text → Work → Work
send_to env id channel r none w = record w {
  rows = mark r.id (to_failed (no_address channel)) w.rows;
}
send_to env id channel r (some address) w = record w {
  rows = mark r.id (settled env.now (send env channel address)) w.rows;
  messages =
      record { campaign_id = id; account_id = r.account_id; address = some address } ∷ w.messages;
}

unfoldable pub send_each : Env → String → Channel → List Resolved → List Recipient → Work → Work
unfolding send_to
send_each env id channel contacts [] w = w
send_each env id channel contacts (r ∷ batch) w =
    send_each env id channel contacts batch
      (send_to env id channel r (address_of channel (contact_of contacts r.account_id)) w)

unfoldable pub gone : List Resolved → List Recipient → List Recipient
gone contacts [] = []
gone contacts (r ∷ batch) =
    let rest = gone contacts batch in
    if is_some (contact_of contacts r.account_id) then rest else r ∷ rest

unfoldable pub reachable : List Resolved → List Recipient → List Recipient
reachable contacts [] = []
reachable contacts (r ∷ batch) =
    let rest = reachable contacts batch in
    if is_some (contact_of contacts r.account_id) then r ∷ rest else rest

abbrev cons_some : Option Resolved → List Resolved → List Resolved
cons_some none l = l
cons_some (some r) l = r ∷ l

unfoldable pub deliverable : List Resolved → List Recipient → List Resolved
deliverable contacts [] = []
deliverable contacts (r ∷ batch) =
    cons_some (contact_of contacts r.account_id) (deliverable contacts batch)

abbrev pub gone_reason : Text
gone_reason = codes "The account no longer exists or no longer matches"

unfoldable pub delivered : Env → List Recipient → Work → List Notice × Result → Work
delivered env batch w (notices, failure message) = record w {
  rows = mark_all batch (to_failed (take 300 message)) w.rows;
}
delivered env batch w (notices, success d) = record w {
  rows = mark_all batch (to_sent env.now) w.rows;
  notices = notices;
}

unfoldable pub deliver_batch : Env → String → List Resolved → List Recipient → Work → Work
unfolding delivered deliverable gone reachable
deliver_batch env id contacts batch w =
    let u = record w { rows = mark_all (gone contacts batch) (to_failed gone_reason) w.rows } in
    delivered env (reachable contacts batch) u
      (deliver env id (deliverable contacts batch) u.notices)

abbrev pub settle_batch : Env → String → Channel → List Resolved → List Recipient → Work → Work
settle_batch env id in_app contacts batch w = deliver_batch env id contacts batch w
settle_batch env id email contacts batch w = send_each env id email contacts batch w
settle_batch env id sms contacts batch w = send_each env id sms contacts batch w

abbrev pub round : Work → List Recipient → Option Work → Option Work
round w [] rest = some w
round w (r ∷ batch) rest = rest

-- `for (;;)`: nothing is answered where the turns are used up.
unfoldable pub rounds : Env → String → Channel → List Resolved → ℕ → Work → Option Work
rounds env id channel contacts zero w = none
rounds env id channel contacts (suc n) w =
    let batch = take batch_size (pending_rows w.rows) in
    round w batch (rounds env id channel contacts n (settle_batch env id channel contacts batch w))

-- What the job answers.
pub data Report : Type 0 where
  deleted was_cancelled already_sent not_approved endless : Report
  totals : ℕ → ℕ → Report

abbrev pub started_campaign : ℕ → Campaign → Campaign
started_campaign now c = record c { status = sending; started_at = some now }

abbrev pub final_status : ℕ → ℕ → Status
final_status sent_total failed_total =
    if sent_total == 0 && ltb 0 failed_total then Status.failed else Status.sent

unfoldable pub completed_campaign : ℕ → List Recipient → Campaign → Campaign
unfolding tally
completed_campaign now rows c =
    let sent_total = tally RecipientStatus.sent rows in
    let failed_total = tally RecipientStatus.failed rows in
    record c {
      status = final_status sent_total failed_total;
      completed_at = some now;
      sent_count = sent_total;
      failed_count = failed_total;
    }

-- `c` is the row under `id`, as it stands when the loop begins.
unfoldable pub complete : Env → String → Campaign → State → Option Work → State × Outcome Report
unfolding completed_campaign
complete env id c s none = (s, done endless)
complete env id c s (some w) = (
  record s {
    recipients = put id w.rows s.recipients;
    messages = w.messages;
    notices = w.notices;
    campaigns = put id (completed_campaign env.now w.rows c) s.campaigns;
  },
  done (totals (tally RecipientStatus.sent w.rows) (tally RecipientStatus.failed w.rows)),
)

abbrev pub work_of : String → State → Work
work_of id s = record { rows = rows_of id s; messages = s.messages; notices = s.notices }

abbrev pub turns : Work → ℕ
turns w = suc (tally RecipientStatus.pending w.rows)

unfoldable pub send_all :
    Env → String → Campaign → Outcome (List Resolved) → State → State × Outcome Report
unfolding complete rounds
send_all env id c (thrown e) s = (s, thrown e)
send_all env id c (done contacts) s =
    let w = work_of id s in complete env id c s (rounds env id c.channel contacts (turns w) w)

-- After the recipients were materialised. The audience is resolved again for the contacts, by the row
-- that was read first.
unfoldable pub after_rows : Env → String → Campaign → State × Outcome ℕ → State × Outcome Report
unfolding send_all
after_rows env id c (s, thrown e) = (s, thrown e)
after_rows env id c (s, done n) =
    send_all env id (record c { recipient_count = n }) (resolve_recipients env c) s

unfoldable pub begin : Env → String → Bool → Campaign → State → State × Outcome Report
unfolding after_rows
begin env id retry c s =
    let started = started_campaign env.now c in
    let t = record s { campaigns = put id started s.campaigns } in
    if retry
    then send_all env id started (resolve_recipients env started) t
    else after_rows env id started (materialise_recipients env id started t)

abbrev pub held_campaign : Campaign → Campaign
held_campaign c = record c { status = pending_approval }

abbrev pub is_cancelled : Status → Bool
is_cancelled cancelled = true
is_cancelled _ = false

abbrev pub is_sent : Status → Bool
is_sent Status.sent = true
is_sent _ = false

unfoldable pub run_found : Env → String → Bool → Option Campaign → State → State × Outcome Report
unfolding begin
run_found env id retry none s = (s, done deleted)
run_found env id retry (some c) s =
    if is_cancelled c.status
    then (s, done was_cancelled)
    else if is_sent c.status
    then (s, done already_sent)
    else if unapproved c
    then (record s { campaigns = put id (held_campaign c) s.campaigns }, done not_approved)
    else begin env id retry c s

unfoldable pub run : Env → String → Bool → State → State × Outcome Report
unfolding run_found
run env id retry s = run_found env id retry (find id s.campaigns) s

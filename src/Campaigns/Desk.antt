-- ===== src/Campaigns/Desk.antt =====
-- What staff do with a campaign: create, approve, schedule, retry and cancel it.
pub mod Laws
use zapiack_console_backend.Common.{
  ℕ, String, Bool, true, false, not, ◌&&◌, ◌||◌, ◌-◌, Option, none, some, List, [], ◌∷◌, ◌++◌, any,
  str_eq, ltb, is_some, ◌==◌, if◌then◌else◌, length, suc, map,
}
use zapiack_console_backend.Common.Table.{Table, find, put}
use zapiack_console_backend.Common.Text.{Text}
use zapiack_console_backend.Segments.{by_id, count, Segment}
use zapiack_console_backend.Campaigns
use zapiack_console_backend.Campaigns.{
  AudienceKind, segment, single_account, Channel, email, Status, draft, pending_approval, scheduled,
  sending, Campaign, Recipient, RecipientStatus, Draft, Job, JobId, Actor, Action, Audit, State,
  Env, Error, Outcome, cancelled, Channel, thrown, draft, AudienceKind, Status,
  RecipientStatus.failed, done, scheduled, bad_request, forbidden, audit_failed, not_found,
  conflict, created, approved, was_cancelled, was_scheduled, retried, first, again,
}

-- Whether one of the strings is there.
abbrev pub one_of : List String → String → Bool
one_of l s = any (λ x. str_eq x s) l

-- An id that is empty is as good as none.
abbrev has_text : Option String → Bool
has_text none = false
has_text (some s) = not (str_eq s "")

abbrev has_subject : Option Text → Bool
has_subject none = false
has_subject (some []) = false
has_subject (some (c ∷ s)) = true

abbrev pub is_segment : AudienceKind → Bool
is_segment segment = true
is_segment _ = false

abbrev is_single : AudienceKind → Bool
is_single single_account = true
is_single _ = false

abbrev is_email : Channel → Bool
is_email email = true
is_email _ = false

-- `validateAudience`: whether it returns.
unfoldable pub validate_audience : Draft → Bool
validate_audience dto =
    if is_segment dto.audience_kind && not (has_text dto.segment_id)
    then false
    else if not (is_segment dto.audience_kind) && length dto.account_ids == 0
    then false
    else if is_single dto.audience_kind && not (length dto.account_ids == 1)
    then false
    else not (is_email dto.channel && not (has_subject dto.subject))

abbrev pub size_found : Env → Option Segment → Option ℕ
size_found env none = none
size_found env (some s) = some (count env.now env.accounts s.filter)

abbrev find_segment : Env → Option String → Option Segment
find_segment env none = none
find_segment env (some id) = by_id id env.segments

-- `estimateSize`; `none` is the exception "Segment not found".
unfoldable pub estimate_size : Env → Draft → Option ℕ
estimate_size env dto =
    if is_segment dto.audience_kind
    then size_found env (find_segment env dto.segment_id)
    else some (length dto.account_ids)

abbrev pub broadcast : String
broadcast = "notifications.broadcast"

abbrev pub super_admin : String
super_admin = "super_admin"

abbrev pub audit : Env → Actor → Action → String → State → State × Bool
audit env actor action id s =
    if env.audit_ok action
    then (
      record s {
        audits = record { action = action; actor_id = actor.id; target_id = id } ∷ s.audits;
      },
      true,
    )
    else (s, false)

abbrev pub conclude {ℓ} : {A : Type ℓ} → A → State × Bool → State × Outcome A
conclude a (s, true) = (s, done a)
conclude a (s, false) = (s, thrown audit_failed)

abbrev pub new_campaign : Draft → Actor → ℕ → Bool → Campaign
new_campaign dto actor size requires_approval = record {
  channel = dto.channel;
  subject = dto.subject;
  audience_kind = dto.audience_kind;
  segment_id = dto.segment_id;
  account_ids = dto.account_ids;
  status = draft;
  scheduled_at = none;
  started_at = none;
  completed_at = none;
  recipient_count = size;
  sent_count = 0;
  failed_count = 0;
  requires_approval = requires_approval;
  approved_by_id = none;
  approved_at = none;
  created_by_id = actor.id;
}

unfoldable pub create_sized :
    Env → Actor → String → Draft → Option ℕ → State → State × Outcome Campaign
create_sized env actor fresh dto none s = (s, thrown not_found)
create_sized env actor fresh dto (some size) s =
    let requires_approval = ltb env.approval_threshold size in
    let c = new_campaign dto actor size requires_approval in
    if requires_approval && not (one_of actor.permissions broadcast)
    then (s, thrown forbidden)
    else conclude c
        (audit env actor created fresh (record s { campaigns = put fresh c s.campaigns }))

-- `fresh` is the id that the new row draws.
unfoldable pub create : Env → Actor → String → Draft → State → State × Outcome Campaign
unfolding create_sized
create env actor fresh dto s =
    if validate_audience dto
    then create_sized env actor fresh dto (estimate_size env dto) s
    else (s, thrown bad_request)

-- The other active super admins, of whom there is one where the approver is not alone.
abbrev pub others : String → List String → Bool
others id l = any (λ x. not (str_eq x id)) l

abbrev pub approved_campaign : ℕ → Actor → Campaign → Campaign
approved_campaign now actor c = record c { approved_by_id = some actor.id; approved_at = some now }

abbrev pub tell : String → State × Outcome ℕ → State × Outcome ℕ
tell id (s, done t) = (record s { told = id ∷ s.told }, done t)
tell id (s, thrown e) = (s, thrown e)

unfoldable pub approve_found : Env → Actor → String → Option Campaign → State → State × Outcome ℕ
approve_found env actor id none s = (s, thrown not_found)
approve_found env actor id (some c) s =
    if str_eq c.created_by_id actor.id && others actor.id env.approvers
    then (s, thrown forbidden)
    else tell c.created_by_id (
        conclude env.now (
          audit env actor approved id
            (record s { campaigns = put id (approved_campaign env.now actor c) s.campaigns })))

-- The answer is the instant of the approval.
unfoldable pub approve : Env → Actor → String → State → State × Outcome ℕ
unfolding approve_found
approve env actor id s =
    if str_eq actor.role_key super_admin
    then approve_found env actor id (find id s.campaigns) s
    else (s, thrown forbidden)

abbrev pub job_id_eq : JobId → JobId → Bool
job_id_eq (first a) (first b) = str_eq a b
job_id_eq (again a t) (again b u) = str_eq a b && t == u
job_id_eq _ _ = false

abbrev pub on_file : JobId → List Job → Bool
on_file j queue = any (λ x. job_id_eq x.job_id j) queue

-- `queue.add`: a job whose id is on file is dropped.
abbrev pub add_job : Job → List Job → List Job
add_job job queue = if on_file job.job_id queue then queue else queue ++ job ∷ []

-- `queue.remove`
unfoldable pub remove_job : JobId → List Job → List Job
remove_job j [] = []
remove_job j (x ∷ queue) =
    let rest = remove_job j queue in if job_id_eq x.job_id j then rest else x ∷ rest

abbrev pub can_schedule : Status → Bool
can_schedule draft = true
can_schedule pending_approval = true
can_schedule scheduled = true
can_schedule _ = false

-- Approval is asked for, and was not given.
abbrev pub unapproved : Campaign → Bool
unapproved c = c.requires_approval && not (is_some c.approved_at)

abbrev pub scheduled_campaign : ℕ → Campaign → Campaign
scheduled_campaign at' c = record c { status = scheduled; scheduled_at = some at' }

unfoldable pub schedule_found :
    Env → Actor → String → ℕ → Option Campaign → State → State × Outcome ℕ
schedule_found env actor id at' none s = (s, thrown not_found)
schedule_found env actor id at' (some c) s =
    if not (can_schedule c.status)
    then (s, thrown conflict)
    else if unapproved c
    then (s, thrown forbidden)
    else conclude at' (
        audit env actor was_scheduled id (record s {
          campaigns = put id (scheduled_campaign at' c) s.campaigns;
          queue =
              add_job
                (record {
                  job_id = first id;
                  delay = at' - env.now;
                  campaign_id = id;
                  retry = false;
                })
                s.queue;
        }))

-- The answer is the instant that the campaign is scheduled for.
unfoldable pub schedule : Env → Actor → String → ℕ → State → State × Outcome ℕ
unfolding schedule_found
schedule env actor id at' s = schedule_found env actor id at' (find id s.campaigns) s

unfoldable pub send_now : Env → Actor → String → State → State × Outcome ℕ
unfolding schedule
send_now env actor id s = schedule env actor id env.now s

abbrev pub rows_of : String → State → List Recipient
rows_of id s = or_empty (find id s.recipients)
  where
    or_empty : Option (List Recipient) → List Recipient
    or_empty none = []
    or_empty (some rows) = rows

abbrev pub finished : Status → Bool
finished Status.sent = true
finished Status.failed = true
finished _ = false

abbrev pub status_eq : RecipientStatus → RecipientStatus → Bool
status_eq RecipientStatus.pending RecipientStatus.pending = true
status_eq RecipientStatus.sent RecipientStatus.sent = true
status_eq RecipientStatus.delivered RecipientStatus.delivered = true
status_eq RecipientStatus.failed RecipientStatus.failed = true
status_eq RecipientStatus.skipped RecipientStatus.skipped = true
status_eq _ _ = false

unfoldable pub tally : RecipientStatus → List Recipient → ℕ
tally d [] = 0
tally d (r ∷ rows) = let n = tally d rows in if status_eq r.status d then suc n else n

abbrev pub again_waiting : Recipient → Recipient
again_waiting r =
    if status_eq r.status RecipientStatus.failed
    then record r { status = RecipientStatus.pending; failure_reason = none }
    else r

abbrev pub retried_campaign : Campaign → Campaign
retried_campaign c = record c { status = scheduled; completed_at = none }

unfoldable pub retry_found : Env → Actor → String → Option Campaign → State → State × Outcome ℕ
unfolding tally
retry_found env actor id none s = (s, thrown not_found)
retry_found env actor id (some c) s =
    let rows = rows_of id s in
    if not (finished c.status)
    then (s, thrown conflict)
    else if tally RecipientStatus.failed rows == 0
    then (s, thrown conflict)
    else conclude (tally RecipientStatus.failed rows) (
        audit env actor retried id (record s {
          recipients = put id (map again_waiting rows) s.recipients;
          campaigns = put id (retried_campaign c) s.campaigns;
          queue =
              add_job
                (record { job_id = again id env.now; delay = 0; campaign_id = id; retry = true })
                s.queue;
        }))

-- The answer is how many recipients are tried again.
unfoldable pub retry : Env → Actor → String → State → State × Outcome ℕ
unfolding retry_found
retry env actor id s = retry_found env actor id (find id s.campaigns) s

abbrev pub cannot_cancel : Status → Bool
cannot_cancel Status.sent = true
cannot_cancel sending = true
cannot_cancel _ = false

abbrev pub cancelled_campaign : Campaign → Campaign
cancelled_campaign c = record c { status = cancelled }

unfoldable pub cancel_found :
    Env → Actor → String → Option Campaign → State → State × Outcome Status
cancel_found env actor id none s = (s, thrown not_found)
cancel_found env actor id (some c) s =
    if cannot_cancel c.status
    then (s, thrown conflict)
    else conclude cancelled (
        audit env actor was_cancelled id (record s {
          queue = remove_job (first id) s.queue;
          campaigns = put id (cancelled_campaign c) s.campaigns;
        }))

unfoldable pub cancel : Env → Actor → String → State → State × Outcome Status
unfolding cancel_found
cancel env actor id s = cancel_found env actor id (find id s.campaigns) s

-- ===== src/Campaigns/Rows.antt =====
-- The recipients of a campaign: `materialiseRecipients`, `resolveRecipients` and `chunked` of
-- src/modules/notifications/campaigns.service.ts.
pub mod Laws
use zapiack_console_backend.Common.{
  ℕ, zero, suc, String, Bool, true, false, Option, none, some, List, [], ◌∷◌, ◌++◌, any, length,
  take, drop, str_eq, if◌then◌else◌, map,
}
use zapiack_console_backend.Common.Table.{put}
use zapiack_console_backend.Common.Text.{Text}
use zapiack_console_backend.Masking.{mask_destination}
use zapiack_console_backend.Segments.{Resolved, resolve_by_id, resolve_accounts}
use zapiack_console_backend.Campaigns.{
  Campaign, Channel, sms, Recipient, RecipientStatus, State, Env, Outcome, thrown, done,
  bad_request, not_found,
}
use zapiack_console_backend.Campaigns.Desk.{rows_of, is_segment}

or_not_found : Option (List Resolved) → Outcome (List Resolved)
or_not_found none = thrown not_found
or_not_found (some l) = done l

resolve_segment : Env → Option String → Outcome (List Resolved)
unfolding or_not_found
resolve_segment env none = thrown bad_request
resolve_segment env (some id) =
    if str_eq id ""
    then thrown bad_request
    else or_not_found (resolve_by_id env.now env.accounts env.segments id)

unfoldable pub resolve_recipients : Env → Campaign → Outcome (List Resolved)
unfolding resolve_segment
resolve_recipients env c =
    if is_segment c.audience_kind
    then resolve_segment env c.segment_id
    else done (resolve_accounts env.accounts c.account_ids)

-- One turn of the loop for each item at most: a chunk takes at least one.
unfoldable pub chunks {ℓ} : {A : Type ℓ} → ℕ → ℕ → List A → List (List A)
chunks zero size items = []
chunks (suc n) size [] = []
chunks (suc n) size (x ∷ items) = take size (x ∷ items) ∷ chunks n size (drop size (x ∷ items))

unfoldable pub chunked {ℓ} : {A : Type ℓ} → List A → ℕ → List (List A)
unfolding chunks
chunked items size = chunks (length items) size items

abbrev pub has_account : List Recipient → String → Bool
has_account rows account = any (λ r. str_eq r.account_id account) rows

abbrev pub destination_of : Channel → Resolved → Option Text
destination_of sms r = r.phone
destination_of _ r = some r.email

abbrev pub new_row : Env → String → Channel → Resolved → Recipient
new_row env id channel r = record {
  id = env.recipient_id id r.account_id;
  account_id = r.account_id;
  destination = mask_destination (destination_of channel r);
  status = RecipientStatus.pending;
  failure_reason = none;
  sent_at = none;
}

-- `createMany` with `skipDuplicates`: one row for an account.
unfoldable pub create_many : List Recipient → List Recipient → List Recipient
create_many [] rows = rows
create_many (r ∷ more) rows =
    create_many more (if has_account rows r.account_id then rows else rows ++ r ∷ [])

unfoldable pub create_chunks :
    (Resolved → Recipient) → List (List Resolved) → List Recipient → List Recipient
unfolding create_many
create_chunks row [] rows = rows
create_chunks row (chunk ∷ more) rows = create_chunks row more (create_many (map row chunk) rows)

abbrev pub chunk_size : ℕ
chunk_size = 1000

-- The rows afterwards, once the audience is known.
unfoldable pub filled_rows :
    Env → String → Campaign → List Resolved → List Recipient → List Recipient
unfolding create_chunks chunked
filled_rows env id c l rows = create_chunks (new_row env id c.channel) (chunked l chunk_size) rows

abbrev pub counted_campaign : List Resolved → Campaign → Campaign
counted_campaign l c = record c { recipient_count = length l }

unfoldable pub materialise_resolved :
    Env → String → Campaign → Outcome (List Resolved) → State → State × Outcome ℕ
unfolding filled_rows
materialise_resolved env id c (thrown e) s = (s, thrown e)
materialise_resolved env id c (done l) s = (
  record s {
    recipients = put id (filled_rows env id c l (rows_of id s)) s.recipients;
    campaigns = put id (counted_campaign l c) s.campaigns;
  },
  done (length l),
)

-- `c` is the row under `id`.
unfoldable pub materialise_recipients : Env → String → Campaign → State → State × Outcome ℕ
unfolding materialise_resolved resolve_recipients
materialise_recipients env id c s = materialise_resolved env id c (resolve_recipients env c) s

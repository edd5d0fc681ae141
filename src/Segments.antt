-- ===== src/Segments.antt =====
-- Saved audiences: src/modules/notifications/segments.service.ts. The accounts of the product are
-- rows in the order of their ids, each with its owner's columns and what the filters read of its
-- subscriptions and log events; a query is a filter over them. Every query of this file answers.
pub mod Laws
mod Tests
use zapiack_console_backend.Common.{
  ℕ, String, Bool, true, false, not, ◌&&◌, ◌||◌, ◌-◌, ◌*◌, zero, suc, ◌++◌, Option, none, some,
  List, [], ◌∷◌, map, ltb, leb, any, is_some, length, take, str_eq, if◌then◌else◌,
}
use zapiack_console_backend.Common.Text.{Text, codes, text_eq, to_upper}
use zapiack_console_backend.Common.Table.{Table, find, put}
use zapiack_console_backend.Masking.{mask_email, mask_phone}

-- Credits in ten-thousandths, which is what the column keeps: `negsuc n` is -(n + 1).
pub data Credits : Type 0 where
  pos negsuc : ℕ → Credits

abbrev pub credits_lt : Credits → Credits → Bool
credits_lt (pos a) (pos b) = ltb a b
credits_lt (pos a) (negsuc b) = false
credits_lt (negsuc a) (pos b) = true
credits_lt (negsuc a) (negsuc b) = ltb b a

pub record Subscription : Type 0 where
  pub plan_id : String
  pub status : String

pub record LogEvent : Type 0 where
  pub channel : String
  pub created_at : ℕ

pub record Account : Type 0 where
  pub id : String
  pub user_id : String
  pub account_status : String
  pub country_code : Text
  pub credit_balance : Credits
  pub email : Text
  pub display_name : Option Text
  pub email_verified : Bool
  pub subscriptions : List Subscription
  pub log_events : List LogEvent

-- `SegmentFilterDto`: a list that is left out selects what an empty one does. A bound on the credits
-- is rounded up to ten-thousandths.
pub record Filter : Type 0 where
  pub plan_ids : List String
  pub statuses : List String
  pub countries : List Text
  pub credits_below : Option Credits
  pub balance_below_ngn : Option Credits
  pub inactive_for_days : Option ℕ
  pub used_channel : Option String
  pub email_verified : Option Bool

-- `ResolvedRecipient`
pub record Resolved : Type 0 where
  pub account_id : String
  pub user_id : String
  pub email : Text
  pub phone : Option Text
  pub business_name : Option Text

abbrev pub no_filter : Filter
no_filter = record {
  plan_ids = [];
  statuses = [];
  countries = [];
  credits_below = none;
  balance_below_ngn = none;
  inactive_for_days = none;
  used_channel = none;
  email_verified = none;
}

abbrev pub includes : List String → String → Bool
includes l s = any (λ x. str_eq x s) l

-- One clause of `buildWhere`, for a list: none where the list is empty.
abbrev in_list : List String → String → Bool
in_list [] s = true
in_list (x ∷ l) s = includes (x ∷ l) s

abbrev in_countries : List Text → Text → Bool
in_countries [] s = true
in_countries (x ∷ l) s = any (λ c. text_eq (to_upper c) s) (x ∷ l)

abbrev below : Option Credits → Credits → Bool
below none balance = true
below (some bound) balance = credits_lt balance bound

-- `filter.creditsBelow ?? filter.balanceBelowNgn`
abbrev or_else : Option Credits → Option Credits → Option Credits
or_else none other = other
or_else (some bound) other = some bound

abbrev bool_eq : Bool → Bool → Bool
bool_eq true b = b
bool_eq false b = not b

abbrev verified : Option Bool → Bool → Bool
verified none b = true
verified (some wanted) b = bool_eq wanted b

abbrev active : String
active = "ACTIVE"

abbrev subscribed : List String → List Subscription → Bool
subscribed [] subs = true
subscribed (p ∷ plans) subs =
    any (λ s. includes (p ∷ plans) s.plan_id && str_eq s.status active) subs

-- An empty channel is no filter.
abbrev used : Option String → List LogEvent → Bool
used none events = true
used (some channel) events = str_eq channel "" || any (λ e. str_eq e.channel channel) events

abbrev day_ms : ℕ
day_ms = 86400000

-- A day has 24 hours.
abbrev inactive : ℕ → Option ℕ → List LogEvent → Bool
inactive now none events = true
inactive now (some days) events = not (any (λ e. leb (now - days * day_ms) e.created_at) events)

-- `buildWhere`, as the test that the database makes of a row.
unfoldable pub build_where : ℕ → Filter → Account → Bool
build_where now f a =
    in_list f.statuses a.account_status
    && in_countries f.countries a.country_code
    && below (or_else f.credits_below f.balance_below_ngn) a.credit_balance
    && verified f.email_verified a.email_verified
    && subscribed f.plan_ids a.subscriptions
    && used f.used_channel a.log_events
    && inactive now f.inactive_for_days a.log_events

unfoldable pub find_many : (Account → Bool) → List Account → List Account
find_many p [] = []
find_many p (a ∷ l) = let rest = find_many p l in if p a then a ∷ rest else rest

abbrev pub to_resolved : Account → Resolved
to_resolved a = record {
  account_id = a.id;
  user_id = a.user_id;
  email = a.email;
  phone = none;
  business_name = a.display_name;
}

unfoldable pub count_many : (Account → Bool) → List Account → ℕ
count_many p [] = 0
count_many p (a ∷ l) = let rest = count_many p l in if p a then suc rest else rest

unfoldable pub count : ℕ → List Account → Filter → ℕ
count now accounts f = count_many (build_where now f) accounts

-- A limit of 0 is no limit.
abbrev limited : Option ℕ → List Account → List Account
limited none l = l
limited (some zero) l = l
limited (some (suc n)) l = take (suc n) l

unfoldable pub resolve : ℕ → List Account → Filter → Option ℕ → List Resolved
resolve now accounts f limit =
    map to_resolved (limited limit (find_many (build_where now f) accounts))

unfoldable pub resolve_accounts : List Account → List String → List Resolved
resolve_accounts accounts [] = []
resolve_accounts accounts (id ∷ ids) =
    map to_resolved (find_many (λ a. includes (id ∷ ids) a.id) accounts)

-- A row of `segment`; the name is unique.
pub record Segment : Type 0 where
  pub id : String
  pub name : String
  pub description : Option String
  pub filter : Filter
  pub created_by : Option String

unfoldable pub find_first : (Segment → Bool) → List Segment → Option Segment
find_first p [] = none
find_first p (s ∷ l) = if p s then some s else find_first p l

abbrev pub by_name : String → List Segment → Option Segment
by_name name l = find_first (λ s. str_eq s.name name) l

abbrev pub by_id : String → List Segment → Option Segment
by_id id l = find_first (λ s. str_eq s.id id) l

-- `none` is the exception "Segment not found".
abbrev pub resolve_found : ℕ → List Account → Option Segment → Option (List Resolved)
resolve_found now accounts none = none
resolve_found now accounts (some s) = some (resolve now accounts s.filter none)

unfoldable pub resolve_by_id : ℕ → List Account → List Segment → String → Option (List Resolved)
resolve_by_id now accounts segments id = resolve_found now accounts (by_id id segments)

pub record Sample : Type 0 where
  pub account_id : String
  pub business_name : Option Text
  pub email : Option Text
  pub phone : Option Text

abbrev sample_of : Resolved → Sample
sample_of r = record {
  account_id = r.account_id;
  business_name = r.business_name;
  email = mask_email (some r.email);
  phone = mask_phone r.phone;
}

unfoldable pub preview : ℕ → List Account → Filter → ℕ × List Sample
preview now accounts f = (count now accounts f, map sample_of (resolve now accounts f (some 10)))

-- What a write meets: the id that a new row draws, and whether the row and the audit can be written.
pub record Env : Type 0 where
  pub fresh_id : String → String
  pub create_ok : String → Bool
  pub audit_ok : Bool

abbrev pub active_only : Filter
active_only = record no_filter { statuses = active ∷ [] }

-- The segments that every console needs: name, description and filter.
abbrev pub system : List (String × String × Filter)
system =
    ("All customers", "Every account, whatever its status.", no_filter)
    ∷ ("Active customers", "Accounts in good standing.", active_only)
    ∷ []

abbrev pub created : Env → String × String × Filter → Segment
created env (name, description, filter) = record {
  id = env.fresh_id name;
  name = name;
  description = some description;
  filter = filter;
  created_by = none;
}

abbrev pub name_of : String × String × Filter → String
name_of (name, description, filter) = name

-- The loop of `onApplicationBootstrap`: a write that fails ends it, with an error in the log only.
unfoldable pub bootstrap_each : Env → List (String × String × Filter) → List Segment → List Segment
bootstrap_each env [] l = l
bootstrap_each env (row ∷ rows) l =
    let kept = bootstrap_each env rows l in
    let more = bootstrap_each env rows (l ++ created env row ∷ []) in
    if is_some (by_name (name_of row) l)
    then kept
    else if env.create_ok (name_of row)
    then more
    else l

pub on_application_bootstrap : Env → List Segment → List Segment
unfolding bootstrap_each
on_application_bootstrap env l = bootstrap_each env system l

pub record Upsert : Type 0 where
  pub name : String
  pub description : Option String
  pub filter : Filter

abbrev or_kept : Option String → Option String → Option String
or_kept none old = old
or_kept (some new) old = some new

abbrev pub updated : Upsert → Segment → Segment
updated dto s = record s {
  description = or_kept dto.description s.description;
  filter = dto.filter;
}

unfoldable pub update_named : Upsert → List Segment → List Segment
update_named dto [] = []
update_named dto (s ∷ l) =
    let rest = update_named dto l in if str_eq s.name dto.name then updated dto s ∷ l else s ∷ rest

abbrev upserted : Env → String → Upsert → Option Segment → List Segment → List Segment
upserted env actor dto (some s) l = update_named dto l
upserted env actor dto none l =
    l
    ++ record {
      id = env.fresh_id dto.name;
      name = dto.name;
      description = dto.description;
      filter = dto.filter;
      created_by = some actor;
    }
      ∷ []

-- The size is answered where the audit row could be written; the segment stays in either case.
pub upsert : ℕ → List Account → Env → String → Upsert → List Segment → List Segment × Option ℕ
upsert now accounts env actor dto l = (
  upserted env actor dto (by_name dto.name l) l,
  if env.audit_ok then some (count now accounts dto.filter) else none,
)

-- ===== src/Plans.antt =====
-- The plans that customers subscribe to: src/modules/plans/plan-update.ts, and the writes of plans of
-- src/modules/plans/catalogue.service.ts. Prices are whole kobo and quotas whole numbers, which is what
-- the patterns of the request let through.
pub mod Upsert
pub mod Laws
mod Tests
use zapiack_console_backend.Common.{
  ℕ, String, Bool, true, false, not, ◌&&◌, ◌||◌, ◌==◌, Option, none, some, List, [], ◌∷◌, any,
  is_some, str_eq, if◌then◌else◌,
}
use zapiack_console_backend.Common.Table.{Table, find, put}

-- `PlanRow`
pub record Plan : Type 0 where
  pub name : String
  pub slug : String
  pub description : Option String
  pub type : String
  pub channel : String
  pub billing_interval : String
  pub base_price : ℕ
  pub overage_price : ℕ
  pub overage_enabled : Bool
  pub monthly_quota : ℕ
  pub daily_quota : Option ℕ
  pub max_contacts : ℕ
  pub is_active : Bool
  pub is_public : Bool
  pub is_free : Bool

-- `PlanChanges`: a field that is left out is `none`. An edit has the same fields.
pub record Changes : Type 0 where
  pub name : Option String
  pub slug : Option String
  pub description : Option (Option String)
  pub type : Option String
  pub channel : Option String
  pub billing_interval : Option String
  pub base_price : Option ℕ
  pub overage_price : Option ℕ
  pub overage_enabled : Option Bool
  pub monthly_quota : Option ℕ
  pub daily_quota : Option (Option ℕ)
  pub max_contacts : Option ℕ
  pub is_public : Option Bool
  pub is_free : Option Bool

abbrev pub or_stored {ℓ} : {A : Type ℓ} → Option A → A → A
or_stored none old = old
or_stored (some new) old = new

-- A value equal to what is stored is dropped.
unfoldable pub differing {ℓ} : {A : Type ℓ} → (A → A → Bool) → A → Option A → Option A
differing same current none = none
differing same current (some value) = if same current value then none else some value

abbrev pub option_same {ℓ} : {A : Type ℓ} → (A → A → Bool) → Option A → Option A → Bool
option_same same none none = true
option_same same none (some b) = false
option_same same (some a) none = false
option_same same (some a) (some b) = same a b

abbrev pub bool_same : Bool → Bool → Bool
bool_same true b = b
bool_same false b = not b

abbrev pub changed : Plan → Changes → Changes
changed before next = record {
  name = differing str_eq before.name next.name;
  slug = differing str_eq before.slug next.slug;
  description = differing (option_same str_eq) before.description next.description;
  type = differing str_eq before.type next.type;
  channel = differing str_eq before.channel next.channel;
  billing_interval = differing str_eq before.billing_interval next.billing_interval;
  base_price = differing ◌==◌ before.base_price next.base_price;
  overage_price = differing ◌==◌ before.overage_price next.overage_price;
  overage_enabled = differing bool_same before.overage_enabled next.overage_enabled;
  monthly_quota = differing ◌==◌ before.monthly_quota next.monthly_quota;
  daily_quota = differing (option_same ◌==◌) before.daily_quota next.daily_quota;
  max_contacts = differing ◌==◌ before.max_contacts next.max_contacts;
  is_public = differing bool_same before.is_public next.is_public;
  is_free = differing bool_same before.is_free next.is_free;
}

-- `planChanges`, where none is the exception.
unfoldable pub plan_changes : Plan → Changes → Option Changes
plan_changes before dto =
    let c = changed before dto in
    if or_stored c.is_public false && not before.is_active
    then none
    else if or_stored c.is_free before.is_free
        && not (or_stored c.base_price before.base_price == 0)
    then none
    else some c

-- What the database makes of an update.
abbrev pub applied : Changes → Plan → Plan
applied c p = record {
  name = or_stored c.name p.name;
  slug = or_stored c.slug p.slug;
  description = or_stored c.description p.description;
  type = or_stored c.type p.type;
  channel = or_stored c.channel p.channel;
  billing_interval = or_stored c.billing_interval p.billing_interval;
  base_price = or_stored c.base_price p.base_price;
  overage_price = or_stored c.overage_price p.overage_price;
  overage_enabled = or_stored c.overage_enabled p.overage_enabled;
  monthly_quota = or_stored c.monthly_quota p.monthly_quota;
  daily_quota = or_stored c.daily_quota p.daily_quota;
  max_contacts = or_stored c.max_contacts p.max_contacts;
  is_active = p.is_active;
  is_public = or_stored c.is_public p.is_public;
  is_free = or_stored c.is_free p.is_free;
}

abbrev pub is_empty : Changes → Bool
is_empty c = not (
    is_some c.name
    || is_some c.slug
    || is_some c.description
    || is_some c.type
    || is_some c.channel
    || is_some c.billing_interval
    || is_some c.base_price
    || is_some c.overage_price
    || is_some c.overage_enabled
    || is_some c.monthly_quota
    || is_some c.daily_quota
    || is_some c.max_contacts
    || is_some c.is_public
    || is_some c.is_free)

pub data Action : Type 0 where
  created updated made_public made_private activated retired : Action

pub record Audit : Type 0 where
  pub action : Action
  pub actor_id : String
  pub target_id : String

pub record State : Type 0 where
  pub plans : Table Plan
  pub audits : List Audit  -- newest first

pub data Error : Type 0 where
  not_found bad_request conflict audit_failed : Error

abbrev pub Result : Type 0
Result = State × Option Error

-- The row is written, and then the audit row if it can be.
abbrev pub store : Bool → String → Action → String → Plan → State → Result
store audit_ok actor action id p s =
    let t = record s { plans = put id p s.plans } in
    if audit_ok
    then (
      record t { audits = record { action = action; actor_id = actor; target_id = id } ∷ t.audits },
      none,
    )
    else (t, some audit_failed)

-- Another plan has the slug.
abbrev pub clash : Option String → String → Table Plan → Bool
clash none id t = false
clash (some slug) id t = any (λ row. str_eq row.1.slug slug && not (str_eq row.0 id)) t

unfoldable pub update_changed : Bool → String → String → Plan → Option Changes → State → Result
update_changed audit_ok actor id p none s = (s, some bad_request)
update_changed audit_ok actor id p (some c) s =
    if is_empty c
    then (s, some bad_request)
    else if clash c.slug id s.plans
    then (s, some conflict)
    else store audit_ok actor updated id (applied c p) s

unfoldable pub update_found : Bool → String → String → Changes → Option Plan → State → Result
unfolding update_changed plan_changes
update_found audit_ok actor id dto none s = (s, some not_found)
update_found audit_ok actor id dto (some p) s =
    update_changed audit_ok actor id p (plan_changes p dto) s

unfoldable pub update_plan : Bool → String → String → Changes → State → Result
unfolding update_found
update_plan audit_ok actor id dto s = update_found audit_ok actor id dto (find id s.plans) s

abbrev pub visibility_action : Bool → Action
visibility_action true = made_public
visibility_action false = made_private

unfoldable pub visibility_found : Bool → String → String → Bool → Option Plan → State → Result
visibility_found audit_ok actor id on none s = (s, some not_found)
visibility_found audit_ok actor id on (some p) s =
    if on && not p.is_active
    then (s, some bad_request)
    else if bool_same p.is_public on
    then (s, none)
    else store audit_ok actor (visibility_action on) id (record p { is_public = on }) s

unfoldable pub set_plan_visibility : Bool → String → String → Bool → State → Result
unfolding visibility_found
set_plan_visibility audit_ok actor id on s =
    visibility_found audit_ok actor id on (find id s.plans) s

abbrev pub active_action : Bool → Action
active_action true = activated
active_action false = retired

unfoldable pub active_found : Bool → String → String → Bool → Option Plan → State → Result
active_found audit_ok actor id on none s = (s, some not_found)
active_found audit_ok actor id on (some p) s =
    store audit_ok actor (active_action on) id
      (record p { is_active = on; is_public = if on then p.is_public else false }) s

unfoldable pub set_plan_active : Bool → String → String → Bool → State → Result
unfolding active_found
set_plan_active audit_ok actor id on s = active_found audit_ok actor id on (find id s.plans) s

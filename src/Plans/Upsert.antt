-- ===== src/Plans/Upsert.antt =====
-- `upsertPlan` of src/modules/plans/catalogue.service.ts, which rebuilds the whole row from defaults.
use zapiack_console_backend.Common.{
  ℕ, String, Bool, true, false, Option, none, some, any, str_eq, if◌then◌else◌,
}
use zapiack_console_backend.Common.Table.{find}
use zapiack_console_backend.Plans.{
  Plan, or_stored, updated, created, State, not_found, conflict, Result, store, clash,
}

-- `UpsertPlanDto`
pub record Upsert : Type 0 where
  pub id : Option String
  pub name : String
  pub slug : String
  pub description : Option String
  pub type : String
  pub channel : String
  pub billing_interval : Option String
  pub base_price : ℕ
  pub overage_price : ℕ
  pub overage_enabled : Option Bool
  pub monthly_quota : ℕ
  pub daily_quota : Option ℕ
  pub max_contacts : Option ℕ
  pub is_active : Option Bool
  pub is_public : Option Bool
  pub is_free : Option Bool

-- A description that is left out stays as it is stored.
abbrev kept_description : Option String → Option String → Option String
kept_description none stored = stored
kept_description (some text) stored = some text

abbrev rebuilt : Upsert → Option String → Plan
rebuilt dto stored = record {
  name = dto.name;
  slug = dto.slug;
  description = kept_description dto.description stored;
  type = dto.type;
  channel = dto.channel;
  billing_interval = or_stored dto.billing_interval "MONTHLY";
  base_price = dto.base_price;
  overage_price = dto.overage_price;
  overage_enabled = or_stored dto.overage_enabled true;
  monthly_quota = dto.monthly_quota;
  daily_quota = dto.daily_quota;
  max_contacts = or_stored dto.max_contacts 0;
  is_active = or_stored dto.is_active true;
  is_public = or_stored dto.is_public true;
  is_free = or_stored dto.is_free false;
}

upsert_stored : Bool → String → Upsert → String → Option Plan → State → Result
upsert_stored audit_ok actor dto id none s = (s, some not_found)
upsert_stored audit_ok actor dto id (some p) s =
    if clash (some dto.slug) id s.plans
    then (s, some conflict)
    else store audit_ok actor updated id (rebuilt dto p.description) s

-- `fresh` is the id that a new row draws.
upsert_by_id : Bool → String → String → Upsert → Option String → State → Result
unfolding upsert_stored
upsert_by_id audit_ok actor fresh dto none s =
    if any (λ row. str_eq row.1.slug dto.slug) s.plans
    then (s, some conflict)
    else store audit_ok actor created fresh (rebuilt dto none) s
upsert_by_id audit_ok actor fresh dto (some id) s =
    upsert_stored audit_ok actor dto id (find id s.plans) s

pub upsert_plan : Bool → String → String → Upsert → State → Result
unfolding upsert_by_id
upsert_plan audit_ok actor fresh dto s = upsert_by_id audit_ok actor fresh dto dto.id s

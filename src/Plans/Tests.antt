-- ===== src/Plans/Tests.antt =====
-- A private plan whose price is edited and which is then offered.
use zapiack_console_backend.Common.{
  true, false, ◌≡◌, refl, none, some, [], ◌∷◌, str_eq, Bool-cases, inl, inr,
}
use zapiack_console_backend.Common.Table.{find}
use zapiack_console_backend.Plans.{
  Plan, Changes, applied, State, plan_changes, update_plan, differing,
}
use zapiack_console_backend.Plans.Laws.{NoneRetired, plan_changes-applied, update_plan-NoneRetired}

abbrev starter : Plan
starter = record {
  name = "Starter";
  slug = "starter";
  description = some "For small senders";
  type = "SUBSCRIPTION";
  channel = "EMAIL";
  billing_interval = "MONTHLY";
  base_price = 500000;
  overage_price = 250;
  overage_enabled = true;
  monthly_quota = 10000;
  daily_quota = some 500;
  max_contacts = 1000;
  is_active = true;
  is_public = false;
  is_free = false;
}

abbrev nothing : Changes
nothing = record {
  name = none;
  slug = none;
  description = none;
  type = none;
  channel = none;
  billing_interval = none;
  base_price = none;
  overage_price = none;
  overage_enabled = none;
  monthly_quota = none;
  daily_quota = none;
  max_contacts = none;
  is_public = none;
  is_free = none;
}

abbrev sent : Changes
sent = record nothing { name = some "Starter"; base_price = some 600000; is_public = some true }

abbrev dropped : Changes
dropped = record nothing { base_price = some 600000; is_public = some true }

plan_changes-applied_example :
    (applied dropped starter ≡ applied sent starter)
    × ((applied dropped starter).is_free ≡ true → (applied dropped starter).base_price ≡ 0)
    × (dropped.is_public ≡ some true → starter.is_active ≡ true)
unfolding plan_changes differing
plan_changes-applied_example = plan_changes-applied starter sent dropped refl

abbrev before : State
before = record { plans = ("p1", starter) ∷ []; audits = [] }

before-NoneRetired : NoneRetired before.plans
unfolding NoneRetired find
before-NoneRetired k p found h = elim (Bool-cases (str_eq "p1" k)) [
  | inl e ↦ cc (rw e at found)
  | inr e ↦ cc (rw e at found)
]

update_plan-NoneRetired_example : NoneRetired (update_plan true "m1" "p1" sent before).0.plans
update_plan-NoneRetired_example =
    update_plan-NoneRetired true "m1" "p1" sent before before-NoneRetired

-- ===== src/Plans/Laws.antt =====
-- An edit is the fields that were sent, and neither an edit nor a change of visibility or retirement
-- offers a retired plan.
use zapiack_console_backend.Common.{
  ℕ, String, Bool, true, false, not, ◌&&◌, ◌==◌, ◌≡◌, refl, sym, ◌∙◌, ap, Option, none, some,
  Bool-cases, Option-cases, inl, inr, str_eq, eq_iff, arith, if◌then◌else◌, subst,
}
use zapiack_console_backend.Common.Table.{Table, find, put, find-put_cases}
use zapiack_console_backend.Plans.{
  Plan, Changes, or_stored, differing, option_same, bool_same, changed, plan_changes, applied,
  is_empty, Action, State, store, clash, update_changed, update_found, update_plan,
  visibility_found, set_plan_visibility, active_found, set_plan_active, visibility_action,
  active_action, updated,
}

stored-differing {ℓ} :
    {A : Type ℓ} (same : A → A → Bool) (agrees : (a b : A) → same a b ≡ true → a ≡ b) (current : A)
    (o : Option A)
    → or_stored (differing same current o) current ≡ or_stored o current
unfolding differing
stored-differing same agrees current none = refl
stored-differing same agrees current (some value) = elim (Bool-cases (same current value)) [
  | inl e ↦ rw e (agrees current value e)
  | inr e ↦ rw e refl
]

str_agrees : (a b : String) → str_eq a b ≡ true → a ≡ b
str_agrees a b h = (eq_iff a b).0 h

nat_agrees : (a b : ℕ) → (a == b) ≡ true → a ≡ b
nat_agrees a b h = ground arith

bool_agrees : (a b : Bool) → bool_same a b ≡ true → a ≡ b
bool_agrees true b h = sym h
bool_agrees false true h = cc
bool_agrees false false h = refl

option_agrees {ℓ} :
    {A : Type ℓ} (same : A → A → Bool) (agrees : (a b : A) → same a b ≡ true → a ≡ b)
    (a b : Option A)
    → option_same same a b ≡ true
    → a ≡ b
option_agrees same agrees none none h = refl
option_agrees same agrees none (some b) h = cc
option_agrees same agrees (some a) none h = cc
option_agrees same agrees (some a) (some b) h = ap some (agrees a b h)

-- What is written is what was sent, over what was stored.
applied-changed : (p : Plan) (dto : Changes) → applied (changed p dto) p ≡ applied dto p
applied-changed p dto =
    rw
      (
        stored-differing str_eq str_agrees p.name dto.name,
        stored-differing str_eq str_agrees p.slug dto.slug,
        stored-differing (option_same str_eq) (option_agrees str_eq str_agrees) p.description
            dto.description,
        stored-differing str_eq str_agrees p.type dto.type,
        stored-differing str_eq str_agrees p.channel dto.channel,
        stored-differing str_eq str_agrees p.billing_interval dto.billing_interval,
        stored-differing ◌==◌ nat_agrees p.base_price dto.base_price,
        stored-differing ◌==◌ nat_agrees p.overage_price dto.overage_price,
        stored-differing bool_same bool_agrees p.overage_enabled dto.overage_enabled,
        stored-differing ◌==◌ nat_agrees p.monthly_quota dto.monthly_quota,
        stored-differing (option_same ◌==◌) (option_agrees ◌==◌ nat_agrees) p.daily_quota
            dto.daily_quota,
        stored-differing ◌==◌ nat_agrees p.max_contacts dto.max_contacts,
        stored-differing bool_same bool_agrees p.is_public dto.is_public,
        stored-differing bool_same bool_agrees p.is_free dto.is_free,
      )
      refl

both_free : (free : Bool) (price : ℕ) → (free && not (price == 0)) ≡ false → free ≡ true → price ≡ 0
both_free free price h e = ground arith

published :
    (o : Option Bool) (live : Bool)
    → (or_stored o false && not live) ≡ false
    → o ≡ some true
    → live ≡ true
published o live h e = ground (arith, rw e at h)

Permitted : Plan → Changes → Changes → Type 0
Permitted p dto c =
    (applied c p ≡ applied dto p)
    × ((applied c p).is_free ≡ true → (applied c p).base_price ≡ 0)
    × (c.is_public ≡ some true → p.is_active ≡ true)

-- An edit that is let through writes each field that was sent and keeps each that was left out,
-- although it names only those that differ; a plan that is then free costs nothing; and a plan that
-- it makes public is active.
pub plan_changes-applied :
    (p : Plan) (dto c : Changes)
    → plan_changes p dto ≡ some c
    → (applied c p ≡ applied dto p)
      × ((applied c p).is_free ≡ true → (applied c p).base_price ≡ 0)
      × (c.is_public ≡ some true → p.is_active ≡ true)
unfolding Permitted plan_changes
plan_changes-applied p dto c h =
    elim (Bool-cases (or_stored (changed p dto).is_public false && not p.is_active)) [
      | inl e ↦ cc (rw e at h)
      | inr e ↦
          elim (Bool-cases (
            or_stored (changed p dto).is_free p.is_free
            && not (or_stored (changed p dto).base_price p.base_price == 0))) [
              | inl f ↦ cc (rw (e, f) at h)
              | inr f ↦
                  let same : changed p dto ≡ c = cc (rw (e, f) at h) in
                  let free =
                    both_free (or_stored (changed p dto).is_free p.is_free)
                      (or_stored (changed p dto).base_price p.base_price) f in
                  let live = published (changed p dto).is_public p.is_active e in
                  subst (λ c. Permitted p dto c) same (applied-changed p dto, free, live)
            ]
    ]

-- No plan that is retired is offered at sign-up.
unfoldable pub NoneRetired : Table Plan → Type 0
NoneRetired t =
    (k : String) (p : Plan) → find k t ≡ some p → p.is_public ≡ true → p.is_active ≡ true

put-NoneRetired :
    (id : String) (p : Plan) (t : Table Plan)
    → (p.is_public ≡ true → p.is_active ≡ true)
    → NoneRetired t
    → NoneRetired (put id p t)
unfolding NoneRetired
put-NoneRetired id p t fine kept k q found h = elim (find-put_cases id k p q t found) [
  | inl e ↦ sym (ap (λ r. r.is_active) e.1) ∙ fine (ap (λ r. r.is_public) e.1 ∙ h)
  | inr e ↦ kept k q e.1 h
]

store-NoneRetired :
    (ok : Bool) (actor : String) (action : Action) (id : String) (p : Plan) (s : State)
    → (p.is_public ≡ true → p.is_active ≡ true)
    → NoneRetired s.plans
    → NoneRetired (store ok actor action id p s).0.plans
store-NoneRetired true actor action id p s fine kept = put-NoneRetired id p s.plans fine kept
store-NoneRetired false actor action id p s fine kept = put-NoneRetired id p s.plans fine kept

now_public :
    (o : Option Bool) (was live : Bool)
    → (was ≡ true → live ≡ true)
    → (o ≡ some true → live ≡ true)
    → or_stored o was ≡ true
    → live ≡ true
now_public none was live before made h = before h
now_public (some b) was live before made h = made (ap some h)

changed-NoneRetired :
    (ok : Bool) (actor id : String) (p : Plan) (o : Option Changes) (s : State)
    → (p.is_public ≡ true → p.is_active ≡ true)
    → ((c : Changes) → o ≡ some c → c.is_public ≡ some true → p.is_active ≡ true)
    → NoneRetired s.plans
    → NoneRetired (update_changed ok actor id p o s).0.plans
unfolding update_changed
changed-NoneRetired ok actor id p none s fine made kept = kept
changed-NoneRetired ok actor id p (some c) s fine made kept = elim (Bool-cases (is_empty c)) [
  | inl e ↦ rw e kept
  | inr e ↦ elim (Bool-cases (clash c.slug id s.plans)) [
    | inl f ↦ rw (e, f) kept
    | inr f ↦
        rw (e, f)
          (store-NoneRetired ok actor updated id (applied c p) s
            (now_public c.is_public p.is_public p.is_active fine (made c refl)) kept)
  ]
]

stored_fine :
    (id : String) (p : Plan) (t : Table Plan)
    → NoneRetired t
    → find id t ≡ some p
    → p.is_public ≡ true
    → p.is_active ≡ true
unfolding NoneRetired
stored_fine id p t kept found = kept id p found

visibility-NoneRetired :
    (ok : Bool) (actor id : String) (on : Bool) (o : Option Plan) (s : State)
    → NoneRetired s.plans
    → NoneRetired (visibility_found ok actor id on o s).0.plans
unfolding visibility_found
visibility-NoneRetired ok actor id on none s kept = kept
visibility-NoneRetired ok actor id on (some p) s kept = elim (Bool-cases (on && not p.is_active)) [
  | inl e ↦ rw e kept
  | inr e ↦ elim (Bool-cases (bool_same p.is_public on)) [
    | inl f ↦ rw (e, f) kept
    | inr f ↦
        rw (e, f)
          (store-NoneRetired ok actor (visibility_action on) id (record p { is_public = on }) s
            (λ h. both on p.is_active e h) kept)
  ]
]
  where
    both : (on live : Bool) → (on && not live) ≡ false → on ≡ true → live ≡ true
    both on live e h = ground arith

active-NoneRetired :
    (ok : Bool) (actor id : String) (on : Bool) (o : Option Plan) (s : State)
    → NoneRetired s.plans
    → NoneRetired (active_found ok actor id on o s).0.plans
unfolding active_found
active-NoneRetired ok actor id on none s kept = kept
active-NoneRetired ok actor id on (some p) s kept =
    store-NoneRetired ok actor (active_action on) id
      (record p { is_active = on; is_public = if on then p.is_public else false }) s
      (live on p.is_public) kept
  where
    live : (on was : Bool) → (if on then was else false) ≡ true → on ≡ true
    live true was h = refl
    live false was h = cc

-- If no retired plan is offered, then none is after an edit of a plan, which a refusal and a lost audit
-- row do not change.
pub update_plan-NoneRetired :
    (ok : Bool) (actor id : String) (dto : Changes) (s : State)
    → NoneRetired s.plans
    → NoneRetired (update_plan ok actor id dto s).0.plans
unfolding update_plan update_found
update_plan-NoneRetired ok actor id dto s kept = elim (Option-cases (find id s.plans)) [
  | inl e ↦ rw e kept
  | inr (p, e) ↦ rw e (
      changed-NoneRetired ok actor id p (plan_changes p dto) s (stored_fine id p s.plans kept e)
        (λ c g. (plan_changes-applied p dto c g).2) kept)
]

-- If no retired plan is offered, then none is after a change of a plan's visibility, or after it is
-- retired or taken back.
pub set_plan-NoneRetired :
    (ok : Bool) (actor id : String) (on : Bool) (s : State)
    → NoneRetired s.plans
    → NoneRetired (set_plan_visibility ok actor id on s).0.plans
      × NoneRetired (set_plan_active ok actor id on s).0.plans
unfolding set_plan_visibility set_plan_active
set_plan-NoneRetired ok actor id on s kept = (
  visibility-NoneRetired ok actor id on (find id s.plans) s kept,
  active-NoneRetired ok actor id on (find id s.plans) s kept,
)

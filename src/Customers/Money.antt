-- ===== src/Customers/Money.antt =====
-- The two actions that ask for a customer's money: `chargePlanToCard` and `recordPlanPayment` of
-- src/modules/customers/customer-actions.service.ts.
pub mod Laws
use zapiack_console_backend.Common.{
  ℕ, String, Bool, true, false, not, ◌&&◌, ◌||◌, Option, none, some, List, [], ◌∷◌, any, is_some,
  str_eq, ltb, if◌then◌else◌,
}
use zapiack_console_backend.Common.Table.{Table, find}
use zapiack_console_backend.Customers.{
  State, Env, Actor, Call, charge_plan, record_payment, Result, Error, not_found, conflict,
  forbidden, upstream, card_charge, payment_recorded, audit, command, require_account,
}

-- `credits.approve` is among the permissions.
abbrev pub may_approve : Actor → Bool
may_approve actor = any (λ p. str_eq p "credits.approve") actor.permissions

-- More than the limit, without the permission for it.
abbrev pub too_much : Env → Actor → ℕ → Bool
too_much env actor amount = ltb env.limit amount && not (may_approve actor)

unfoldable pub charge_found : Env → Actor → String → String → Option ℕ → State → Result
unfolding command
charge_found env actor id plan none s = (s, some not_found)
charge_found env actor id plan (some price) s =
    if too_much env actor price
    then (s, some forbidden)
    else command env actor card_charge id (charge_plan id plan) s

unfoldable pub charge_plan_to_card : Env → Actor → String → String → State → Result
unfolding charge_found
charge_plan_to_card env actor id plan s =
    require_account id s (charge_found env actor id plan (find plan env.plans) s)

-- What `Number(input.amountReceivedNgn)` can be; an amount is rounded up to ten-thousandths.
pub data Received : Type 0 where
  not_finite negative : Received
  received : ℕ → Received

-- api-core answers that it had the payment already, and then nothing is written.
unfoldable pub record_sent : Env → Actor → String → Call → State → Result
record_sent env actor id call s =
    let t = record s { calls = call ∷ s.calls } in
    if not (env.accepts call)
    then (t, some upstream)
    else if env.already_applied call
    then (t, none)
    else audit env actor payment_recorded id t

unfoldable pub record_amount : Env → Actor → String → String → String → Received → State → Result
unfolding record_sent
record_amount env actor id plan ref not_finite s = (s, some conflict)
record_amount env actor id plan ref negative s = (s, some conflict)
record_amount env actor id plan ref (received amount) s =
    if too_much env actor amount
    then (s, some forbidden)
    else if is_some (find plan env.plans)
    then record_sent env actor id (record_payment id plan amount ref actor.email) s
    else (s, some not_found)

unfoldable pub record_plan_payment :
    Env → Actor → String → String → String → Received → State → Result
unfolding record_amount
record_plan_payment env actor id plan ref amount s =
    require_account id s (record_amount env actor id plan ref amount s)

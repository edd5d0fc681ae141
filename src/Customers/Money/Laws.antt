-- ===== src/Customers/Money/Laws.antt =====
-- Money is asked for within the limit, or with the permission for more.
use zapiack_console_backend.Common.{
  ℕ, String, true, false, ◌≡◌, refl, some, ◌∷◌, Option-cases, Bool-cases, inl, inr, is_some, ◌⊎◌,
}
use zapiack_console_backend.Common.Table.{find}
use zapiack_console_backend.Customers.{
  State, Env, Actor, Action, Call, charge_plan, record_payment, audit, command, payment_recorded,
  card_charge,
}
use zapiack_console_backend.Customers.Money.{
  too_much, charge_found, charge_plan_to_card, Received, not_finite, negative, received,
  record_sent, record_amount, record_plan_payment,
}

audit-calls :
    (env : Env) (actor : Actor) (action : Action) (target : String) (s : State)
    → (audit env actor action target s).0.calls ≡ s.calls
audit-calls env actor action target s = elim (Bool-cases env.audit_ok) [
  | inl e ↦ rw e refl
  | inr e ↦ rw e refl
]

pub command-calls :
    (env : Env) (actor : Actor) (action : Action) (target : String) (call : Call) (s : State)
    → (command env actor action target call s).0.calls ≡ call ∷ s.calls
unfolding command
command-calls env actor action target call s = elim (Bool-cases (env.accepts call)) [
  | inl e ↦ rw e (audit-calls env actor action target (record s { calls = call ∷ s.calls }))
  | inr e ↦ rw e refl
]

sent-calls :
    (env : Env) (actor : Actor) (id : String) (call : Call) (s : State)
    → (record_sent env actor id call s).0.calls ≡ call ∷ s.calls
unfolding record_sent
sent-calls env actor id call s = elim (Bool-cases (env.accepts call)) [
  | inl e ↦ elim (Bool-cases (env.already_applied call)) [
    | inl f ↦ rw (e, f) refl
    | inr f ↦
        rw (e, f) (audit-calls env actor payment_recorded id (record s { calls = call ∷ s.calls }))
  ]
  | inr e ↦ rw e refl
]

-- A customer's card is charged only for a plan that there is, whose price is within the limit or which
-- someone with the permission to approve credit asks for.
pub charge_plan_to_card-calls :
    (env : Env) (actor : Actor) (id plan : String) (s : State)
    → ((charge_plan_to_card env actor id plan s).0.calls ≡ s.calls)
      ⊎ ((price : ℕ) × (find plan env.plans ≡ some price)
          × ((charge_plan_to_card env actor id plan s).0.calls ≡ charge_plan id plan ∷ s.calls)
          × (too_much env actor price ≡ false))
unfolding charge_plan_to_card charge_found
charge_plan_to_card-calls env actor id plan s = elim (Bool-cases (is_some (find id s.accounts))) [
  | inr e ↦ rw e (inl refl)
  | inl e ↦ elim (Option-cases (find plan env.plans)) [
    | inl f ↦ rw (e, f) (inl refl)
    | inr (price, f) ↦ elim (Bool-cases (too_much env actor price)) [
      | inl g ↦ rw (e, f, g) (inl refl)
      | inr g ↦
          rw (e, f, g)
            (inr (price, refl, command-calls env actor card_charge id (charge_plan id plan) s, g))
    ]
  ]
]

-- A payment reaches api-core at most once for one request, only for an account and a plan that there
-- are and a finite amount, zero or more, which is within the limit or recorded by someone with the
-- permission to approve credit.
pub record_plan_payment-calls :
    (env : Env) (actor : Actor) (id plan ref : String) (amount : Received) (s : State)
    → ((record_plan_payment env actor id plan ref amount s).0.calls ≡ s.calls)
      ⊎ ((n : ℕ) × (amount ≡ received n)
          × (is_some (find id s.accounts) ≡ true)
          × (is_some (find plan env.plans) ≡ true)
          × ((record_plan_payment env actor id plan ref amount s).0.calls
              ≡ record_payment id plan n ref actor.email ∷ s.calls)
          × (too_much env actor n ≡ false))
unfolding record_plan_payment record_amount
record_plan_payment-calls env actor id plan ref not_finite s =
    elim (Bool-cases (is_some (find id s.accounts))) [
      | inl e ↦ rw e (inl refl)
      | inr e ↦ rw e (inl refl)
    ]
record_plan_payment-calls env actor id plan ref negative s =
    elim (Bool-cases (is_some (find id s.accounts))) [
      | inl e ↦ rw e (inl refl)
      | inr e ↦ rw e (inl refl)
    ]
record_plan_payment-calls env actor id plan ref (received n) s =
    elim (Bool-cases (is_some (find id s.accounts))) [
      | inr e ↦ rw e (inl refl)
      | inl e ↦ elim (Bool-cases (too_much env actor n)) [
        | inl g ↦ rw (e, g) (inl refl)
        | inr g ↦ elim (Bool-cases (is_some (find plan env.plans))) [
          | inr f ↦ rw (e, g, f) (inl refl)
          | inl f ↦
              rw (e, g, f)
                (inr (
                  n,
                  refl,
                  refl,
                  refl,
                  sent-calls env actor id (record_payment id plan n ref actor.email) s,
                  g,
                ))
        ]
      ]
    ]

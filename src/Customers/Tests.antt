-- ===== src/Customers/Tests.antt =====
-- An account without credits is banned, and an agent records a large payment.
use zapiack_console_backend.Common.{
  true, false, ◌≡◌, [], ◌∷◌, str_eq, Bool-cases, inl, inr, ◌⊎◌, ℕ, is_some,
}
use zapiack_console_backend.Common.Table.{find}
use zapiack_console_backend.Segments.{pos}
use zapiack_console_backend.Customers.{
  Account, active, banned, State, Env, Actor, record_payment, set_status,
}
use zapiack_console_backend.Customers.Standing.{IsSettled, set_status-IsSettled}
use zapiack_console_backend.Customers.Money.{received, record_plan_payment, too_much}
use zapiack_console_backend.Customers.Money.Laws.{record_plan_payment-calls}

abbrev env : Env
env = record {
  now = 1000;
  plans = ("p1", 5000) ∷ [];
  limit = 10000;
  write_ok = true;
  clears = true;
  accepts = λ c. true;
  already_applied = λ c. false;
  audit_ok = true;
}

abbrev agent : Actor
agent = record { id = "m1"; email = "a@z.ng"; permissions = "credits.approve" ∷ [] }

abbrev empty_account : Account
empty_account = record { account_status = active; credit_balance = pos 0 }

abbrev before : State
before = record {
  accounts = ("c1", empty_account) ∷ [];
  api_keys = [];
  projects = [];
  flags = [];
  calls = [];
  cleared = [];
  audits = [];
}

before-IsSettled : IsSettled before.accounts
unfolding IsSettled find
before-IsSettled k a found is_banned = elim (Bool-cases (str_eq "c1" k)) [ inl e ↦ cc | inr e ↦ cc ]

set_status-IsSettled_example : IsSettled (set_status env agent "c1" banned before).0.accounts
set_status-IsSettled_example = set_status-IsSettled env agent "c1" banned before before-IsSettled

record_plan_payment-calls_example :
    ((record_plan_payment env agent "c1" "p1" "t1" (received 20000) before).0.calls ≡ before.calls)
    ⊎ ((n : ℕ) × (received 20000 ≡ received n)
        × (is_some (find "c1" before.accounts) ≡ true)
        × (is_some (find "p1" env.plans) ≡ true)
        × ((record_plan_payment env agent "c1" "p1" "t1" (received 20000) before).0.calls
            ≡ record_payment "c1" "p1" n "t1" agent.email ∷ before.calls)
        × (too_much env agent n ≡ false))
record_plan_payment-calls_example =
    record_plan_payment-calls env agent "c1" "p1" "t1" (received 20000) before

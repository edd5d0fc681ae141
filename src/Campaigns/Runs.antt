-- ===== src/Campaigns/Runs.antt =====
-- Sequences of what staff do and of jobs, on any campaigns and in any order, a job run more than once
-- or for a campaign that was never scheduled included.
use zapiack_console_backend.Campaigns.Worker.{run}
use zapiack_console_backend.Common.{
  String, Bool, true, false, ◌≡◌, some, List, inl, inr, Option-cases, arith, is_some, if◌then◌else◌,
  [], ◌∷◌,
}
use zapiack_console_backend.Common.Table.{find}
use zapiack_console_backend.Campaigns.{Campaign, State, Env, Actor, Draft, ℕ}
use zapiack_console_backend.Campaigns.Desk.{
  unapproved, retry, approve, cancel, create, schedule, send_now,
}
use zapiack_console_backend.Campaigns.Reach.{contacted}
use zapiack_console_backend.Campaigns.Approval.{Holds, Inv}
use zapiack_console_backend.Campaigns.Approval.Steps.{
  Holds-create, Holds-approve, Holds-retry, Holds-cancel, Holds-schedule, Holds-run,
}

-- What staff ask for, and a job that a worker takes up.
pub data Op : Type 0 where
  creating : Actor → String → Draft → Op  -- with the id that the row draws
  approving retrying cancelling sending_now : Actor → String → Op
  scheduling : Actor → String → ℕ → Op
  working : String → Bool → Op

-- An id that is drawn is new; the database refuses another.
unfoldable pub step : Env → Op → State → State
step env (creating actor fresh dto) s =
    if is_some (find fresh s.campaigns) then s else (create env actor fresh dto s).0
step env (approving actor id) s = (approve env actor id s).0
step env (retrying actor id) s = (retry env actor id s).0
step env (cancelling actor id) s = (cancel env actor id s).0
step env (sending_now actor id) s = (send_now env actor id s).0
step env (scheduling actor id at') s = (schedule env actor id at' s).0
step env (working id again) s = (run env id again s).0

-- Each step with what it reads and what fails in it.
unfoldable pub steps : List (Env × Op) → State → State
unfolding step
steps [] s = s
steps ((env, op) ∷ ops) s = steps ops (step env op s)

Holds-step : (env : Env) (op : Op) (s : State) → Holds s → Holds (step env op s)
unfolding step send_now
Holds-step env (creating actor fresh dto) s inv = elim (Option-cases (find fresh s.campaigns)) [
  | inl new ↦ rw new (Holds-create env actor fresh dto s new inv)
  | inr (c, found) ↦ rw found inv
]
Holds-step env (approving actor id) s inv = Holds-approve env actor id s inv
Holds-step env (retrying actor id) s inv = Holds-retry env actor id s inv
Holds-step env (cancelling actor id) s inv = Holds-cancel env actor id s inv
Holds-step env (sending_now actor id) s inv = Holds-schedule env actor id env.now s inv
Holds-step env (scheduling actor id at') s inv = Holds-schedule env actor id at' s inv
Holds-step env (working id again) s inv = Holds-run env id again s inv

Holds-steps : (ops : List (Env × Op)) (s : State) → Holds s → Holds (steps ops s)
unfolding steps
Holds-steps [] s inv = inv
Holds-steps ((env, op) ∷ ops) s inv = Holds-steps ops (step env op s) (Holds-step env op s inv)

abbrev pub empty : State
empty = record {
  campaigns = [];
  recipients = [];
  queue = [];
  audits = [];
  told = [];
  messages = [];
  notices = [];
}

Holds-empty : Holds empty
unfolding Holds Inv find
Holds-empty = (λ id c h u. cc, λ id h. cc)

-- Whatever staff ask for and whichever jobs run, in any order and with anything failing, a campaign
-- that wants an approval and reached anybody, by a message or a notice in its name, was approved.
pub steps-contacted :
    (ops : List (Env × Op)) (id : String) (c : Campaign)
    → find id (steps ops empty).campaigns ≡ some c
    → contacted id (steps ops empty).messages (steps ops empty).notices ≡ true
    → c.requires_approval ≡ true
    → is_some c.approved_at ≡ true
unfolding Holds Inv
steps-contacted ops id c found h wanted =
    let (b, there, fine) = (Holds-steps ops empty Holds-empty).1 id h in
    let same : b ≡ c = cc in let u : unapproved c ≡ false = rw (← same) fine in ground arith

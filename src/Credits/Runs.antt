-- ===== src/Credits/Runs.antt =====
-- Runs of the credits service: any operations, by any staff, with any answers from outside.
use zapiack_console_backend.Common.{
  arith, String, ◌≡◌, ◌∙◌, sym, List, [], ◌∷◌, All, All-mem, Memᴰ, ap, some, ℕ,
}
use zapiack_console_backend.Common.Text.{Text}
use zapiack_console_backend.Common.Table.{find}
use zapiack_console_backend.Credits.{
  Adjustment, Actor, Amount, Call, Env, Input, Staff, State, Answer, request, approve, reject,
  retry,
}
use zapiack_console_backend.Credits.Rows.{IsBacked, IsApproved, Carries}
use zapiack_console_backend.Credits.Authorised.{
  Holds, request-Holds, approve-Holds, reject-Holds, retry-Holds,
}

-- The routes of credits.controller.ts that write.
pub data Op : Type 0 where
  ask : (account_id : String) → Input → Op
  approve_it reject_it : (id : String) → (reason : Text) → Op
  retry_it : (id : String) → Op

module _ (threshold : ℕ) (number : Text → Amount) where
  unfoldable pub step : Env → Actor → Op → State → State × Answer
  step env actor (ask account input) s = request threshold number env actor account input s
  step env actor (approve_it id reason) s = approve env actor id reason s
  step env actor (reject_it id reason) s = reject env actor id reason s
  step env actor (retry_it id) s = retry env actor id s

  unfoldable pub run : List (Env × Actor × Op) → State → State
  run [] s = s
  run ((env, actor, op) ∷ ops) s = run ops (step env actor op s).0

  step-Holds :
      (env : Env) (actor : Actor) (op : Op) (s : State)
      → Holds threshold number s
      → Holds threshold number (step env actor op s).0
  unfolding step
  step-Holds env actor (ask account input) s =
      request-Holds threshold number env actor account input s
  step-Holds env actor (approve_it id reason) s =
      approve-Holds threshold number env actor id reason s
  step-Holds env actor (reject_it id reason) s = reject-Holds threshold number env actor id reason s
  step-Holds env actor (retry_it id) s = retry-Holds threshold number env actor id s

  run-Holds :
      (ops : List (Env × Actor × Op)) (s : State)
      → Holds threshold number s
      → Holds threshold number (run ops s)
  unfolding run
  run-Holds [] s h = h
  run-Holds ((env, actor, op) ∷ ops) s h =
      run-Holds ops (step env actor op s).0 (step-Holds env actor op s h)

-- Before the first adjustment.
abbrev pub start : List String → List Staff → State
start accounts staff = record {
  account_ids = accounts;
  staff = staff;
  adjustments = [];
  audits = [];
  inbox = [];
  calls = [];
}

module _ (threshold : ℕ) (number : Text → Amount) where
  start-Holds :
      (accounts : List String) (staff : List Staff) → Holds threshold number (start accounts staff)
  unfolding find
  start-Holds accounts staff = record { rows = λ id a at. cc; sent = tt; keys = λ i j a b at. cc }

  -- In every run, whatever api-core answers and whichever audit writes fail, each request that was sent
  -- to api-core carries the account, direction, amount, reason and key of a stored adjustment that
  -- somebody approved; and if the amount is above the threshold, that is not who requested it.
  pub run-sent :
      (accounts : List String) (staff : List Staff) (ops : List (Env × Actor × Op))
      → let s = run threshold number ops (start accounts staff) in
        All
          (λ c.
            (id : String) × (a : Adjustment) × (find id s.adjustments ≡ some a)
            × Carries c a
            × IsApproved threshold number a)
          s.calls
  run-sent accounts staff ops = (run-Holds threshold number ops _ (start-Holds accounts staff)).sent

  -- In every run, two requests to api-core under one idempotency key are for the same account,
  -- direction and amount: a retry never reuses a key for another movement of money.
  pub run-one_key :
      (accounts : List String) (staff : List Staff) (ops : List (Env × Actor × Op)) (c d : Call)
      → let s = run threshold number ops (start accounts staff) in
        Memᴰ c s.calls
        → Memᴰ d s.calls
        → c.idempotency_key ≡ d.idempotency_key
        → (c.account_id ≡ d.account_id) × (c.direction ≡ d.direction) × (c.amount ≡ d.amount)
  run-one_key accounts staff ops c d m n e =
      let s = run threshold number ops (start accounts staff) in
      let inv =
        run-Holds threshold number ops (start accounts staff) (start-Holds accounts staff) in
      let backed = IsBacked threshold number s.adjustments in
      let (i, a, at_i, of_a, _) = All-mem backed s.calls inv.sent m in
      let (j, b, at_j, of_b, _) = All-mem backed s.calls inv.sent n in
      let same_id : i ≡ j = inv.keys i j a b at_i at_j (sym of_a.0 ∙ e ∙ of_b.0) in
      let same_row : some a ≡ some b = sym at_i ∙ ap (λ k. find k s.adjustments) same_id ∙ at_j in
      (ground arith, ground arith, ground arith)

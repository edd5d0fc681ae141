-- ===== src/Credits/Tests.antt =====
-- A threshold of one naira, two members of staff, and the theorems at a few concrete runs.
use zapiack_console_backend.Common.{
  String, ◌≡◌, refl, true, false, none, some, List, [], ◌∷◌, All, Memᴰ, length,
}
use zapiack_console_backend.Common.Text.{Text}
use zapiack_console_backend.Common.Table.{find, put}
use mathlib.Core.Option
use zapiack_console_backend.Credits.{
  Adjustment, Amount, not_finite, positive, credit, Actor, Call, Env, Input, posted, failure, Staff,
  State, call_of, applied, rejected, approve, approve_found, approve_pending, request, requested,
  new_adjustment, apply, reject, retry, retry_found, thrown, conflict, key_taken,
}
use zapiack_console_backend.Credits.Rows.{Carries, IsApproved}
use zapiack_console_backend.Credits.Final.{reject_final}
use zapiack_console_backend.Credits.Runs.{
  Op, ask, approve_it, retry_it, run, step, start, run-sent, run-one_key,
}

-- The first code unit is the amount.
abbrev number : Text → Amount
number [] = not_finite
number (n ∷ _) = positive n

abbrev ada : Actor
ada = record { id = "ada"; email = "ada@zapiack.com" }

abbrev obi : Actor
obi = record { id = "obi"; email = "obi@zapiack.com" }

abbrev up : Env
up = record {
  now = 5;
  fresh_id = "adj-1";
  fresh_key = "key-1";
  reply = λ _. posted (some "txn-1") none;
  audit_ok = λ _. true;
  audit_error = [];
}

abbrev down : Env
down = record {
  now = 6;
  fresh_id = "adj-2";
  fresh_key = "key-2";
  reply = λ _. failure (1 ∷ 2 ∷ []);
  audit_ok = λ _. true;
  audit_error = [];
}

abbrev large : Input
large = record { direction = credit; amount_ngn = 20000 ∷ []; reason = 7 ∷ [] }

abbrev small : Input
small = record { direction = credit; amount_ngn = 500 ∷ []; reason = 7 ∷ [] }

abbrev staff : List Staff
staff = record { id = "obi"; active = true; role_permissions = "credits.approve" ∷ [] } ∷ []

abbrev waiting : Adjustment
waiting = new_adjustment 1 number up ada "acct" large

-- A large adjustment: self-approval is refused, the second approver's request fails, a retry lands.
abbrev story : List (Env × Actor × Op)
story =
    (up, ada, ask "acct" large)
    ∷ (up, ada, approve_it "adj-1" [])
    ∷ (down, obi, approve_it "adj-1" [])
    ∷ (up, obi, retry_it "adj-1")
    ∷ []

story_ends :
    let s = run 1 number story (start ("acct" ∷ []) staff) in
    (length s.calls ≡ 2) × (Option.map (λ a. a.status) (find "adj-1" s.adjustments) ≡ some applied)
unfolding run step request requested apply approve approve_found approve_pending retry retry_found
    find put key_taken
story_ends = (refl, refl)

run-sent_example :
    let s = run 1 number story (start ("acct" ∷ []) staff) in
    All
      (λ c.
        (id : String) × (a : Adjustment) × (find id s.adjustments ≡ some a)
        × Carries c a
        × IsApproved 1 number a)
      s.calls
run-sent_example = run-sent 1 number ("acct" ∷ []) staff story

abbrev sent : Call
sent = call_of obi waiting

run-one_key_example :
    (sent.account_id ≡ sent.account_id)
    × (sent.direction ≡ sent.direction)
    × (sent.amount ≡ sent.amount)
unfolding run step request requested apply approve approve_found approve_pending retry retry_found
    find put key_taken
run-one_key_example =
    run-one_key 1 number ("acct" ∷ []) staff story sent sent (Memᴰ.head refl)
      (Memᴰ.tail (Memᴰ.head refl)) refl

abbrev stored : State
stored = record (start ("acct" ∷ []) staff) { adjustments = ("adj-1", waiting) ∷ [] }

abbrev paid : Adjustment
paid = record waiting { status = applied; ledger_txn_id = some "txn-1" }

abbrev ledgered : State
ledgered = record stored { adjustments = ("adj-1", paid) ∷ [] }

reject_final_example :
    let t = (reject up obi "adj-1" [] ledgered).0 in
    let u = run 1 number story t in
    (find "adj-1" t.adjustments
      ≡ some (record paid { status = rejected; rejected_reason = some [] }))
    × (t.calls ≡ ledgered.calls)
    × ((b : Adjustment) × (find "adj-1" u.adjustments ≡ some b)
        × (b.status ≡ rejected)
        × (b.ledger_txn_id ≡ some "txn-1"))
    × (approve down ada "adj-1" large.reason u ≡ (u, thrown conflict))
    × (retry down ada "adj-1" u ≡ (u, thrown conflict))
unfolding find
reject_final_example =
    reject_final 1 number up down obi ada "adj-1" [] large.reason ledgered paid story refl

abbrev unaudited : Env
unaudited = record up { audit_ok = λ _. false }

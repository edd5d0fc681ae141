-- ===== src/Idempotency/Tests.antt =====
-- One request that runs the handler, and another with the same body that comes after it.
use zapiack_console_backend.Common.{
  ℕ, String, ◌≡◌, refl, ◌≤◌, Memᴰ, length, suc, some, none, ◌∷◌, [], arith,
}
use zapiack_console_backend.Common.Text.{Text, codes}
use zapiack_console_backend.Idempotency.{
  State, Step, Reach, init, set, absent, running, completing, answered, result, replayed, new_row,
  completed,
}
use zapiack_console_backend.Idempotency.Exclusion.{one_owner, owned}
use zapiack_console_backend.Idempotency.Counts.{results_bound}
use zapiack_console_backend.Idempotency.Replay.{replayed-results}

abbrev hash : ℕ → String
hash i = "h"

abbrev body : Text
body = codes "ok"

abbrev looked : State
looked = record init { pc = set init.pc 0 absent }

abbrev claimed : State
claimed = record looked {
  row = some (new_row 0 "h");
  next_id = 1;
  pc = set looked.pc 0 (running 0);
}

abbrev returned : State
returned = record claimed { pc = set claimed.pc 0 (completing 0 body); results = ("h", body) ∷ [] }

abbrev ended : State
ended = record returned {
  row = completed 0 body returned.row;
  pc = set returned.pc 0 (answered (result body));
}

abbrev repeated : State
repeated = record ended { pc = set ended.pc 1 (answered (replayed body)) }

claimed-Reach : Reach hash claimed
claimed-Reach =
    Reach.later (Reach.later Reach.start (Step.find_none 0 refl refl)) (Step.create 0 refl refl)

returned-Reach : Reach hash returned
returned-Reach = Reach.later claimed-Reach (Step.returns 0 0 body refl)

repeated-Reach : Reach hash repeated
repeated-Reach =
    Reach.later (Reach.later returned-Reach (Step.complete 0 0 body refl refl))
      (Step.find_row 1 (record { id = 0; request_hash = "h"; response_body = some body }) refl refl)

abbrev second : ℕ
second = 1

one_owner_example : owned (claimed.pc second) ≡ none
one_owner_example = one_owner hash claimed 0 second 0 claimed-Reach refl (λ e. absurd (omega arith))

results_bound_example : length repeated.results ≤ suc repeated.lost
results_bound_example = results_bound hash repeated repeated-Reach

replayed-results_example : Memᴰ (hash 1, body) repeated.results
replayed-results_example = replayed-results hash repeated 1 body repeated-Reach refl

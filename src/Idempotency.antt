-- ===== src/Idempotency.antt =====
-- Write routes with an Idempotency-Key: src/common/idempotency/idempotency.interceptor.ts. The
-- requests are those that carry one key, of one member of staff, on one route; each await of
-- `intercept` and `claim` is a step, and the steps of the requests interleave in any order. The hash of
-- a body is its SHA-256, given with the request; that the key is there is checked before.
pub mod Exclusion
pub mod Counts
pub mod Replay
mod Tests
use zapiack_console_backend.Common.{
  ℕ, suc, String, Bool, true, false, not, ◌≡◌, Option, none, some, List, [], ◌∷◌, str_eq, is_some,
  ◌==◌, if◌then◌else◌,
}
use zapiack_console_backend.Common.Text.{Text}

-- A row of `idempotencyRecord`; the body is there from `completedAt` on.
pub record Row : Type 0 where
  pub id : ℕ
  pub request_hash : String
  pub response_body : Option Text

-- What a request is answered.
pub data Answer : Type 0 where
  other_payload in_flight not_found failed : Answer
  replayed result : Text → Answer

-- Where a request stands, with the id of the row that it created.
pub data Pc : Type 0 where
  arrived absent collided : Pc
  running releasing : ℕ → Pc
  completing : ℕ → Text → Pc
  answered : Answer → Pc

pub record State : Type 0 where
  pub row : Option Row
  pub next_id : ℕ
  pub pc : ℕ → Pc
  pub results : List (String × Text)  -- of the handler's runs that returned: hash and result
  pub lost : ℕ  -- completion writes that failed

abbrev pub replay_body : Row → Answer
replay_body r = elim (r.response_body) [ none ↦ in_flight | some body ↦ replayed body ]

abbrev pub as_replay : Row → String → Answer
as_replay r hash = if not (str_eq r.request_hash hash) then other_payload else replay_body r

abbrev pub set : (ℕ → Pc) → ℕ → Pc → ℕ → Pc
set pc i p j = if i == j then p else pc j

abbrev pub new_row : ℕ → String → Row
new_row id hash = record { id = id; request_hash = hash; response_body = none }

-- What the second look of `claim` answers.
abbrev pub raced : Option Row → String → Answer
raced none hash = not_found
raced (some r) hash = as_replay r hash

-- `update` and `delete` of the row with this id.
abbrev pub completed : ℕ → Text → Option Row → Option Row
completed k body none = none
completed k body (some r) =
    if r.id == k then some (record r { response_body = some body }) else some r

abbrev pub deleted : ℕ → Option Row → Option Row
deleted k none = none
deleted k (some r) = if r.id == k then none else some r

abbrev pub has_row : ℕ → Option Row → Bool
has_row k none = false
has_row k (some r) = r.id == k

-- One await of one request, whose body has the hash `hash i`.
pub data Step (hash : ℕ → String) (s : State) : State → Type 0 where
  find_row :
      (i : ℕ) (r : Row)
      → s.pc i ≡ arrived
      → s.row ≡ some r
      → Step hash s (record s { pc = set s.pc i (answered (as_replay r (hash i))) })
  find_none :
      (i : ℕ) → s.pc i ≡ arrived → s.row ≡ none → Step hash s (record s { pc = set s.pc i absent })
  create :
      (i : ℕ)
      → s.pc i ≡ absent
      → s.row ≡ none
      → Step hash s (record s {
        row = some (new_row s.next_id (hash i));
        next_id = suc s.next_id;
        pc = set s.pc i (running s.next_id);
      })
  unique_violation :
      (i : ℕ) (r : Row)
      → s.pc i ≡ absent
      → s.row ≡ some r
      → Step hash s (record s { pc = set s.pc i collided })
  find_again :
      (i : ℕ)
      → s.pc i ≡ collided
      → Step hash s (record s { pc = set s.pc i (answered (raced s.row (hash i))) })
  returns :
      (i k : ℕ) (body : Text)
      → s.pc i ≡ running k
      → Step hash s
          (record s { pc = set s.pc i (completing k body); results = (hash i, body) ∷ s.results })
  throws : (i k : ℕ) → s.pc i ≡ running k → Step hash s (record s { pc = set s.pc i (releasing k) })
  complete :
      (i k : ℕ) (body : Text)
      → s.pc i ≡ completing k body
      → has_row k s.row ≡ true
      → Step hash s
          (record s { row = completed k body s.row; pc = set s.pc i (answered (result body)) })
  -- The write throws, and `catchError` takes that for a failure of the handler.
  complete_fails :
      (i k : ℕ) (body : Text)
      → s.pc i ≡ completing k body
      → Step hash s (record s { pc = set s.pc i (releasing k); lost = suc s.lost })
  release :
      (i k : ℕ)
      → s.pc i ≡ releasing k
      → Step hash s (record s { row = deleted k s.row; pc = set s.pc i (answered failed) })
  release_fails :
      (i k : ℕ)
      → s.pc i ≡ releasing k
      → Step hash s (record s { pc = set s.pc i (answered failed) })

abbrev pub init : State
init = record { row = none; next_id = 0; pc = λ i. arrived; results = []; lost = 0 }

pub data Reach (hash : ℕ → String) : State → Type 0 where
  start : Reach hash init
  later : {s t : State} → Reach hash s → Step hash s t → Reach hash t

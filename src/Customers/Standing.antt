-- ===== src/Customers/Standing.antt =====
-- A change of status leaves no banned account with credits.
use zapiack_console_backend.Common.{
  String, false, ◌≡◌, refl, ◌∙◌, Option, none, some, Bool-cases, inl, inr, ap,
}
use zapiack_console_backend.Common.Table.{Table, find, put, find-put_cases}
use zapiack_console_backend.Segments.{pos, credits_lt}
use zapiack_console_backend.Customers.{
  AccountStatus, active, suspended, banned, past_due, probation, canceled, Account, status,
  account_status, State, Env, Actor, Action, Cleared, audit, clear, strands, moved, status_eq,
  set_found, set_status,
}

-- No account that is banned holds credits.
unfoldable pub IsSettled : Table Account → Type 0
IsSettled t =
    (k : String) (a : Account)
    → find k t ≡ some a
    → a.account_status ≡ banned
    → credits_lt (pos 0) a.credit_balance ≡ false

audit-accounts :
    (env : Env) (actor : Actor) (action : Action) (target : String) (s : State)
    → (audit env actor action target s).0.accounts ≡ s.accounts
audit-accounts env actor action target s = elim (Bool-cases env.audit_ok) [
  | inl e ↦ rw e refl
  | inr e ↦ rw e refl
]

clear-accounts : (env : Env) (key : Cleared) (s : State) → (clear env key s).accounts ≡ s.accounts
clear-accounts env key s = elim (Bool-cases env.clears) [ inl e ↦ rw e refl | inr e ↦ rw e refl ]

strands-banned :
    (new : AccountStatus) (a : Account)
    → strands new a ≡ false
    → new ≡ banned
    → credits_lt (pos 0) a.credit_balance ≡ false
strands-banned active a h e = cc
strands-banned suspended a h e = cc
strands-banned banned a h e = h
strands-banned past_due a h e = cc
strands-banned probation a h e = cc
strands-banned canceled a h e = cc

put-IsSettled :
    (id : String) (new : AccountStatus) (a : Account) (t : Table Account)
    → strands new a ≡ false
    → IsSettled t
    → IsSettled (put id (moved new a) t)
unfolding IsSettled
put-IsSettled id new a t free settled k b found is_banned =
    elim (find-put_cases id k (moved new a) b t found) [
      | inl e ↦
          let is_new : moved new a ≡ b = e.1 in
          let new_banned : new ≡ banned = ap (λ c. c.account_status) is_new ∙ is_banned in
          let same : a.credit_balance ≡ b.credit_balance = ap (λ c. c.credit_balance) is_new in
          rw (← same) (strands-banned new a free new_banned)
      | inr e ↦ settled k b e.1 is_banned
    ]

written-IsSettled :
    (env : Env) (actor : Actor) (id : String) (new : AccountStatus) (a : Account) (s : State)
    → strands new a ≡ false
    → IsSettled s.accounts
    → IsSettled
        (audit env actor (status new) id (
          clear env
            (account_status id)
            (record s { accounts = put id (moved new a) s.accounts }))).0.accounts
written-IsSettled env actor id new a s free settled =
    let t = record s { accounts = put id (moved new a) s.accounts } in
    rw
      (
        audit-accounts env actor (status new) id (clear env (account_status id) t),
        clear-accounts env (account_status id) t,
      )
      (put-IsSettled id new a s.accounts free settled)

found-IsSettled :
    (env : Env) (actor : Actor) (id : String) (new : AccountStatus) (o : Option Account) (s : State)
    → IsSettled s.accounts
    → IsSettled (set_found env actor id new o s).0.accounts
unfolding set_found
found-IsSettled env actor id new none s settled = settled
found-IsSettled env actor id new (some a) s settled =
    elim (Bool-cases (status_eq a.account_status new)) [
      | inl e ↦ rw e settled
      | inr e ↦ elim (Bool-cases (strands new a)) [
        | inl f ↦ rw (e, f) settled
        | inr f ↦ elim (Bool-cases env.write_ok) [
          | inl w ↦ rw (e, f, w) (written-IsSettled env actor id new a s f settled)
          | inr w ↦ rw (e, f, w) settled
        ]
      ]
    ]

-- If no banned account holds credits, then none does after a change of an account's status, whichever
-- status is asked for and whether the change is made, refused or fails.
pub set_status-IsSettled :
    (env : Env) (actor : Actor) (id : String) (new : AccountStatus) (s : State)
    → IsSettled s.accounts
    → IsSettled (set_status env actor id new s).0.accounts
unfolding set_status
set_status-IsSettled env actor id new s settled =
    found-IsSettled env actor id new (find id s.accounts) s settled

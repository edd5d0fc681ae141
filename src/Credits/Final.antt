-- ===== src/Credits/Final.antt =====
-- A rejection is final: no run of the service takes it back.
use zapiack_console_backend.Common.{
  ℕ, String, ◌≡◌, refl, ◌≢◌, false, Option, some, List, [], ◌∷◌, Bool-cases, Option-cases, inl, inr,
  ◌∙◌, any, is_some, str_eq, ◌||◌,
}
use zapiack_console_backend.Common.Text.{Text}
use zapiack_console_backend.Common.Table.{find, find-put_ne, str_cases}
use zapiack_console_backend.Credits.{
  Adjustment, Amount, thrown, Actor, Env, Input, State, apply, apply_found, approve_pending,
  approve_found, approve, reject_found, reject, retry_found, retry, request, requested, above,
  is_positive, key_taken, is_pending, is_failed, rejected, adjust_approved, adjust_rejected,
  adjust_requested, conflict,
}
use zapiack_console_backend.Credits.Outcomes.{apply_outcome, reject_row}
use zapiack_console_backend.Credits.Runs.{Op, ask, approve_it, reject_it, retry_it, step, run}

module _ (env : Env) (actor : Actor) where
  apply-others :
      (id j : String) (s : State)
      → id ≢ j
      → find j (apply env actor id s).0.adjustments ≡ find j s.adjustments
  unfolding apply apply_found
  apply-others id j s n = elim (Option-cases (find id s.adjustments)) [
    | inl missing ↦ rw missing refl
    | inr (a, found) ↦ (apply_outcome env actor id s a found).5 j n
  ]

  approve-others :
      (id j : String) (reason : Text) (s : State)
      → id ≢ j
      → find j (approve env actor id reason s).0.adjustments ≡ find j s.adjustments
  unfolding approve approve_found approve_pending
  approve-others id j reason s n = elim (Option-cases (find id s.adjustments)) [
    | inl missing ↦ rw missing refl
    | inr (a, found) ↦ elim (Bool-cases (is_pending a.status)) [
      | inr e ↦ rw (found, e) refl
      | inl e ↦ elim (Bool-cases (str_eq a.requested_by_id actor.id)) [
        | inl f ↦ rw (found, e, f) refl
        | inr f ↦ elim (Bool-cases (env.audit_ok adjust_approved)) [
          | inl g ↦ rw (found, e, f, g) (apply-others id j _ n ∙ find-put_ne id j _ s.adjustments n)
          | inr g ↦ rw (found, e, f, g) (find-put_ne id j _ s.adjustments n)
        ]
      ]
    ]
  ]

  reject-others :
      (id j : String) (reason : Text) (s : State)
      → id ≢ j
      → find j (reject env actor id reason s).0.adjustments ≡ find j s.adjustments
  unfolding reject reject_found
  reject-others id j reason s n = elim (Option-cases (find id s.adjustments)) [
    | inl missing ↦ rw missing refl
    | inr (a, found) ↦ elim (Bool-cases (env.audit_ok adjust_rejected)) [
      | inl g ↦ rw (found, g) (find-put_ne id j _ s.adjustments n)
      | inr g ↦ rw (found, g) (find-put_ne id j _ s.adjustments n)
    ]
  ]

  retry-others :
      (id j : String) (s : State)
      → id ≢ j
      → find j (retry env actor id s).0.adjustments ≡ find j s.adjustments
  unfolding retry retry_found
  retry-others id j s n = elim (Option-cases (find id s.adjustments)) [
    | inl missing ↦ rw missing refl
    | inr (a, found) ↦ elim (Bool-cases (is_failed a.status)) [
      | inl e ↦ rw (found, e) (apply-others id j s n)
      | inr e ↦ rw (found, e) refl
    ]
  ]

module _ (threshold : ℕ) (number : Text → Amount) where
  requested-others :
      (env : Env) (actor : Actor) (account j : String) (input : Input) (s : State)
      → env.fresh_id ≢ j
      → find j (requested threshold number env actor account input s).0.adjustments
        ≡ find j s.adjustments
  unfolding requested
  requested-others env actor account j input s n =
      elim (Bool-cases (env.audit_ok adjust_requested)) [
        | inr e ↦ rw e refl
        | inl e ↦ elim (Bool-cases (above threshold (number input.amount_ngn))) [
          | inl f ↦ rw (e, f) refl
          | inr f ↦ rw (e, f) (apply-others env actor env.fresh_id j _ n)
        ]
      ]

  -- A new adjustment never takes the place of a stored one.
  request-stored :
      (env : Env) (actor : Actor) (account j : String) (input : Input) (s : State) (b : Adjustment)
      → find j s.adjustments ≡ some b
      → find j (request threshold number env actor account input s).0.adjustments ≡ some b
  unfolding request
  request-stored env actor account j input s b found =
      elim (Bool-cases (is_positive (number input.amount_ngn))) [
        | inr e ↦ rw e found
        | inl e ↦ elim (Bool-cases (any (λ a. str_eq a account) s.account_ids)) [
          | inr f ↦ rw (e, f) found
          | inl f ↦
              elim (Bool-cases (
                is_some (find env.fresh_id s.adjustments)
                || key_taken env.fresh_key s.adjustments)) [
                  | inl g ↦ rw (e, f, g) found
                  | inr g ↦
                      let n = other env.fresh_id j s b found g in
                      rw (e, f, g)
                        (requested-others env actor account j input _ n
                          ∙ find-put_ne env.fresh_id j _ s.adjustments n
                          ∙ found)
                ]
        ]
      ]
    where
      other :
          (fresh j : String) (s : State) (b : Adjustment)
          → find j s.adjustments ≡ some b
          → (is_some (find fresh s.adjustments) || key_taken env.fresh_key s.adjustments) ≡ false
          → fresh ≢ j
      other fresh j s b found g e =
          let here : find fresh s.adjustments ≡ some b = rw e found in cc (rw here at g)

  -- The adjustment is REJECTED, with this ledger transaction.
  IsRejected : String → Option String → State → Type 0
  IsRejected id txn s =
      (b : Adjustment) × (find id s.adjustments ≡ some b)
      × (b.status ≡ rejected)
      × (b.ledger_txn_id ≡ txn)

  approve_refused :
      (env : Env) (actor : Actor) (id : String) (reason : Text) (s : State) (b : Adjustment)
      → find id s.adjustments ≡ some b
      → b.status ≡ rejected
      → approve env actor id reason s ≡ (s, thrown conflict)
  unfolding approve approve_found
  approve_refused env actor id reason s b found e = rw (found, e) refl

  retry_refused :
      (env : Env) (actor : Actor) (id : String) (s : State) (b : Adjustment)
      → find id s.adjustments ≡ some b
      → b.status ≡ rejected
      → retry env actor id s ≡ (s, thrown conflict)
  unfolding retry retry_found
  retry_refused env actor id s b found e = rw (found, e) refl

  step-IsRejected :
      (env : Env) (actor : Actor) (op : Op) (id : String) (txn : Option String) (s : State)
      → IsRejected id txn s
      → IsRejected id txn (step threshold number env actor op s).0
  unfolding step IsRejected
  step-IsRejected env actor (ask account input) id txn s (b, found, e, l) =
      (b, request-stored env actor account id input s b found, e, l)
  step-IsRejected env actor (approve_it j why) id txn s (b, found, e, l) = elim (str_cases j id) [
    | inl same ↦ rw (same, approve_refused env actor id why s b found e) (b, found, e, l)
    | inr n ↦ (b, approve-others env actor j id why s n ∙ found, e, l)
  ]
  step-IsRejected env actor (reject_it j why) id txn s (b, found, e, l) = elim (str_cases j id) [
    | inl same ↦ rw same (_, (reject_row env actor id why s b found).0, refl, l)
    | inr n ↦ (b, reject-others env actor j id why s n ∙ found, e, l)
  ]
  step-IsRejected env actor (retry_it j) id txn s (b, found, e, l) = elim (str_cases j id) [
    | inl same ↦ rw (same, retry_refused env actor id s b found e) (b, found, e, l)
    | inr n ↦ (b, retry-others env actor j id s n ∙ found, e, l)
  ]

  run-IsRejected :
      (ops : List (Env × Actor × Op)) (id : String) (txn : Option String) (s : State)
      → IsRejected id txn s
      → IsRejected id txn (run threshold number ops s)
  unfolding run
  run-IsRejected [] id txn s h = h
  run-IsRejected ((env, actor, op) ∷ ops) id txn s h =
      run-IsRejected ops id txn (step threshold number env actor op s).0
        (step-IsRejected env actor op id txn s h)

  -- `reject` accepts a stored adjustment in whatever status, APPLIED included: it becomes REJECTED and
  -- api-core is sent nothing. From then on, after any operations by any staff, it is REJECTED and has
  -- its ledger transaction still, and `approve` and `retry` of it, by anyone, are refused with nothing
  -- changed.
  pub reject_final :
      (env later : Env) (actor other : Actor) (id : String) (reason why : Text) (s : State)
      (a : Adjustment) (ops : List (Env × Actor × Op))
      → find id s.adjustments ≡ some a
      → let t = (reject env actor id reason s).0 in
        let u = run threshold number ops t in
        (find id t.adjustments
          ≡ some (record a { status = rejected; rejected_reason = some reason }))
        × (t.calls ≡ s.calls)
        × ((b : Adjustment) × (find id u.adjustments ≡ some b)
            × (b.status ≡ rejected)
            × (b.ledger_txn_id ≡ a.ledger_txn_id))
        × (approve later other id why u ≡ (u, thrown conflict))
        × (retry later other id u ≡ (u, thrown conflict))
  unfolding IsRejected
  reject_final env later actor other id reason why s a ops found =
      let t = (reject env actor id reason s).0 in
      let u = run threshold number ops t in
      let (row, calls) = reject_row env actor id reason s a found in
      let (b, at, e, l) = run-IsRejected ops id a.ledger_txn_id t (_, row, refl, refl) in
      (
        row,
        calls,
        (b, at, e, l),
        approve_refused later other id why u b at e,
        retry_refused later other id u b at e,
      )

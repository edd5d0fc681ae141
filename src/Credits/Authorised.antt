-- ===== src/Credits/Authorised.antt =====
-- Every operation of the credits service keeps the invariant of `Rows`.
use zapiack_console_backend.Common.{
  ℕ, String, ◌≡◌, refl, true, some, ◌∷◌, arith, eq_iff, Option-cases, Bool-cases, inl, inr, ◌||◌,
  is_some, take, str_eq, any, not,
}
use zapiack_console_backend.Common.Text.{Text}
use zapiack_console_backend.Common.Table.{find, put, find-put_self}
use zapiack_console_backend.Credits.{
  Adjustment, Amount, Actor, Env, Error, Input, Reply, posted, failure, State, above, call_of,
  key_taken, store, write_audit, is_positive, mark_failed, settle, apply_found, apply,
  new_adjustment, requested, request, approve_pending, approve_found, approve, reject_found, reject,
  retry_found, retry, is_pending, is_failed, rejected, failed, applied, approved, adjust_requested,
  adjust_approved, adjust_rejected, adjust_applied, audit_failed, upstream,
}
use zapiack_console_backend.Credits.Rows.{is_sendable, IsApproved, Inv, Inv-put, Inv-new, Inv-call}

module _ (threshold : ℕ) (number : Text → Amount) where
  abbrev pub Holds : State → Type 0
  Holds s = Inv threshold number s.adjustments s.calls

  -- A failed row keeps its approval.
  mark_failed-Holds :
      (id : String) (a : Adjustment) (message : Text) (e : Error) (s : State)
      → find id s.adjustments ≡ some a
      → IsApproved threshold number a
      → Holds s
      → Holds (mark_failed id a message e s).0
  unfolding mark_failed
  mark_failed-Holds id a message e s found ok inv =
      Inv-put threshold number s.adjustments id a
        (record a { status = failed; failure_reason = some (take 500 message) }) found
        (refl, refl, refl, refl, refl, refl) (λ p. p) s.calls (λ _. ok) inv

  settle-Holds :
      (env : Env) (actor : Actor) (id : String) (a : Adjustment) (r : Reply) (s : State)
      → find id s.adjustments ≡ some a
      → IsApproved threshold number a
      → Holds s
      → Holds (settle env actor id a r s).0
  unfolding settle
  settle-Holds env actor id a (failure message) s found ok inv =
      mark_failed-Holds id a message (upstream message) s found ok inv
  settle-Holds env actor id a (posted txn balance) s found ok inv =
      let b : Adjustment = record a {
        status = applied;
        applied_at = some env.now;
        ledger_txn_id = txn;
      } in
      let kept : Inv threshold number (put id b s.adjustments) s.calls =
        Inv-put threshold number s.adjustments id a b found (refl, refl, refl, refl, refl, refl)
          (λ p. p) s.calls (λ _. ok) inv in
      elim (Bool-cases (env.audit_ok adjust_applied)) [
        | inl written ↦ rw written kept
        | inr lost ↦ rw lost (
            mark_failed-Holds id b env.audit_error audit_failed (store id b s)
              (find-put_self id b s.adjustments) ok kept)
      ]

  apply-Holds :
      (env : Env) (actor : Actor) (id : String) (s : State)
      → ((a : Adjustment) → find id s.adjustments ≡ some a → is_sendable a.status ≡ true)
      → Holds s
      → Holds (apply env actor id s).0
  unfolding apply
  apply-Holds env actor id s ready inv = elim (Option-cases (find id s.adjustments)) [
    | inl missing ↦ rw (missing, apply_found) inv
    | inr (a, found) ↦
        let ok = inv.rows id a found (ready a found) in
        rw (found, apply_found)
          (settle-Holds env actor id a (env.reply (call_of actor a))
            (record s { calls = call_of actor a ∷ s.calls }) found ok
            (Inv-call threshold number s.adjustments s.calls (call_of actor a)
              (id, a, found, (refl, refl, refl, refl, refl), ok) inv))
  ]

  -- The row that `request` makes is approved by its author, or waits.
  new_adjustment-good :
      (env : Env) (actor : Actor) (account : String) (input : Input)
      → let a = new_adjustment threshold number env actor account input in
        is_sendable a.status ≡ true → IsApproved threshold number a
  new_adjustment-good env actor account input h =
      elim (Bool-cases (above threshold (number input.amount_ngn))) [
        | inl waits ↦ cc (rw waits at h)
        | inr free ↦ (actor.id, rw free, λ e. cc)
      ]

  requested-Holds :
      (env : Env) (actor : Actor) (account : String) (input : Input) (s : State)
      → find env.fresh_id s.adjustments
        ≡ some (new_adjustment threshold number env actor account input)
      → Holds s
      → Holds (requested threshold number env actor account input s).0
  unfolding requested
  requested-Holds env actor account input s found inv =
      elim (Bool-cases (env.audit_ok adjust_requested)) [
        | inr lost ↦ rw lost inv
        | inl written ↦ rw written (elim (Bool-cases (above threshold (number input.amount_ngn))) [
          | inl waits ↦ rw waits inv
          | inr free ↦ rw free (
              apply-Holds env actor env.fresh_id
                (write_audit adjust_requested actor account input.reason s) (λ a at. ground arith)
                inv)
        ])
      ]

  pub request-Holds :
      (env : Env) (actor : Actor) (account : String) (input : Input) (s : State)
      → Holds s
      → Holds (request threshold number env actor account input s).0
  unfolding request
  request-Holds env actor account input s inv =
      elim (Bool-cases (not (is_positive (number input.amount_ngn)))) [
        | inl bad ↦ rw bad inv
        | inr good ↦ rw good (elim (Bool-cases (not (any (λ a. str_eq a account) s.account_ids))) [
          | inl missing ↦ rw missing inv
          | inr known ↦
              rw known
                (elim (Bool-cases (
                  is_some (find env.fresh_id s.adjustments)
                  || key_taken env.fresh_key s.adjustments)) [
                    | inl taken ↦ rw taken inv
                    | inr free ↦ rw free (
                        requested-Holds env actor account input _ (find-put_self _ _ _) (
                          Inv-new threshold number s.adjustments env.fresh_id _ (ground arith)
                            (ground arith) s.calls (new_adjustment-good env actor account input)
                            inv))
                  ])
        ])
      ]

  approve_pending-Holds :
      (env : Env) (actor : Actor) (id : String) (reason : Text) (a : Adjustment) (s : State)
      → find id s.adjustments ≡ some a
      → Holds s
      → Holds (approve_pending env actor id reason a s).0
  unfolding approve_pending
  approve_pending-Holds env actor id reason a s found inv =
      elim (Bool-cases (str_eq a.requested_by_id actor.id)) [
        | inl own ↦ rw own inv
        | inr other ↦
            let b : Adjustment = record a {
              status = approved;
              approved_by_id = some actor.id;
              approved_at = some env.now;
            } in
            let ok : IsApproved threshold number b =
              (actor.id, refl, λ _ e. ground (arith, eq_iff a.requested_by_id actor.id)) in
            let kept : Inv threshold number (put id b s.adjustments) s.calls =
              Inv-put threshold number s.adjustments id a b found
                (refl, refl, refl, refl, refl, refl) (λ _. ok) s.calls (λ _. ok) inv in
            rw other (elim (Bool-cases (env.audit_ok adjust_approved)) [
              | inl written ↦ rw written (
                  apply-Holds env actor id
                    (write_audit adjust_approved actor id reason (store id b s))
                    (λ c at. ground (arith, find-put_self id b s.adjustments)) kept)
              | inr lost ↦ rw lost kept
            ])
      ]

  pub approve-Holds :
      (env : Env) (actor : Actor) (id : String) (reason : Text) (s : State)
      → Holds s
      → Holds (approve env actor id reason s).0
  unfolding approve
  approve-Holds env actor id reason s inv = elim (Option-cases (find id s.adjustments)) [
    | inl missing ↦ rw (missing, approve_found) inv
    | inr (a, found) ↦
        rw (found, approve_found)
          (elim (Bool-cases (is_pending a.status)) [
            | inl waits ↦ rw waits (approve_pending-Holds env actor id reason a s found inv)
            | inr gone ↦ rw gone inv
          ])
  ]

  pub reject-Holds :
      (env : Env) (actor : Actor) (id : String) (reason : Text) (s : State)
      → Holds s
      → Holds (reject env actor id reason s).0
  unfolding reject
  reject-Holds env actor id reason s inv = elim (Option-cases (find id s.adjustments)) [
    | inl missing ↦ rw (missing, reject_found) inv
    | inr (a, found) ↦
        let b : Adjustment = record a { status = rejected; rejected_reason = some reason } in
        let kept : Inv threshold number (put id b s.adjustments) s.calls =
          Inv-put threshold number s.adjustments id a b found (refl, refl, refl, refl, refl, refl)
            (λ p. p) s.calls (λ e. cc) inv in
        rw (found, reject_found)
          (elim (Bool-cases (env.audit_ok adjust_rejected)) [
            | inl written ↦ rw written kept
            | inr lost ↦ rw lost kept
          ])
  ]

  pub retry-Holds :
      (env : Env) (actor : Actor) (id : String) (s : State)
      → Holds s
      → Holds (retry env actor id s).0
  unfolding retry
  retry-Holds env actor id s inv = elim (Option-cases (find id s.adjustments)) [
    | inl missing ↦ rw (missing, retry_found) inv
    | inr (a, found) ↦
        rw (found, retry_found)
          (elim (Bool-cases (is_failed a.status)) [
            | inl again ↦ rw again (apply-Holds env actor id s (λ b at. ground arith) inv)
            | inr gone ↦ rw gone inv
          ])
  ]

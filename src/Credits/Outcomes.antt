-- ===== src/Credits/Outcomes.antt =====
-- What each operation of the credits service does to the adjustment it is about.
use zapiack_console_backend.Common.{
  String, ◌≡◌, refl, ◌≢◌, true, false, Option, some, ◌∷◌, arith, eq_iff, if◌then◌else◌, Bool-cases,
  inl, inr, ◌∙◌, sym, ap,
}
use zapiack_console_backend.Common.Text.{Text}
use zapiack_console_backend.Common.Table.{find, find-put_self, find-put_ne, str_ne}
use zapiack_console_backend.Credits.{
  Adjustment, thrown, Actor, Env, Reply, posted, failure, State, Status, call_of, settle,
  apply_found, apply, approve_pending, approve_found, approve, reject_found, reject, retry_found,
  retry, is_pending, rejected, failed, applied, adjust_approved, adjust_rejected, adjust_applied,
  conflict, forbidden,
}

-- The status in which a request to api-core leaves the row: APPLIED needs the posting and its audit row.
abbrev pub final_status : Env → Reply → Status
final_status env (posted _ _) = if env.audit_ok adjust_applied then applied else failed
final_status env (failure _) = failed

settle_row :
    (env : Env) (actor : Actor) (id : String) (a : Adjustment) (r : Reply) (s : State)
    → let t = (settle env actor id a r s).0 in
      (b : Adjustment) × (find id t.adjustments ≡ some b)
      × (b.status ≡ final_status env r)
      × (b.idempotency_key ≡ a.idempotency_key)
unfolding settle
settle_row env actor id a (failure m) s = (_, find-put_self id _ s.adjustments, refl, refl)
settle_row env actor id a (posted txn bal) s = elim (Bool-cases (env.audit_ok adjust_applied)) [
  | inl written ↦ rw (written, final_status) (_, find-put_self id _ s.adjustments, refl, refl)
  | inr lost ↦ rw (lost, final_status) (_, find-put_self id _ _, refl, refl)
]

settle_others :
    (env : Env) (actor : Actor) (id : String) (a : Adjustment) (r : Reply) (s : State) (j : String)
    → id ≢ j
    → find j (settle env actor id a r s).0.adjustments ≡ find j s.adjustments
unfolding settle
settle_others env actor id a (failure m) s j h = find-put_ne id j _ s.adjustments h
settle_others env actor id a (posted txn bal) s j h =
    elim (Bool-cases (env.audit_ok adjust_applied)) [
      | inl written ↦ rw written (find-put_ne id j _ s.adjustments h)
      | inr lost ↦ rw lost (find-put_ne id j _ _ h ∙ find-put_ne id j _ s.adjustments h)
    ]

settle_calls :
    (env : Env) (actor : Actor) (id : String) (a : Adjustment) (r : Reply) (s : State)
    → (settle env actor id a r s).0.calls ≡ s.calls
unfolding settle
settle_calls env actor id a (failure m) s = refl
settle_calls env actor id a (posted txn bal) s = ground arith

-- `apply` sends api-core exactly one request, with the row's own key; the row ends APPLIED if api-core
-- posted it and the audit row was written, and FAILED otherwise; no other row changes.
pub apply_outcome :
    (env : Env) (actor : Actor) (id : String) (s : State) (a : Adjustment)
    → find id s.adjustments ≡ some a
    → let t = (apply env actor id s).0 in
      (b : Adjustment) × (find id t.adjustments ≡ some b)
      × (b.status ≡ final_status env (env.reply (call_of actor a)))
      × (b.idempotency_key ≡ a.idempotency_key)
      × (t.calls ≡ call_of actor a ∷ s.calls)
      × ((j : String) → id ≢ j → find j t.adjustments ≡ find j s.adjustments)
unfolding apply apply_found
apply_outcome env actor id s a found =
    let sent : State = record s { calls = call_of actor a ∷ s.calls } in
    let r = env.reply (call_of actor a) in
    let (b, at, status, key) = settle_row env actor id a r sent in
    rw found
      (b, at, status, key, settle_calls env actor id a r sent, settle_others env actor id a r sent)

approve_pending_sends :
    (env : Env) (actor : Actor) (id : String) (reason : Text) (s : State) (a : Adjustment)
    → actor.id ≢ a.requested_by_id
    → env.audit_ok adjust_approved ≡ true
    → (approve_pending env actor id reason a s).0.calls ≡ call_of actor a ∷ s.calls
unfolding approve_pending
approve_pending_sends env actor id reason s a n w =
    rw (str_ne a.requested_by_id actor.id (λ e. n (sym e)), w)
      (apply_outcome env actor id _ _ (find-put_self id _ s.adjustments)).4

-- `approve` on a stored adjustment: it is refused with nothing changed when the adjustment does not
-- await approval, or when the approver raised it; otherwise, once the approval's audit row is
-- written, one request carrying the row's key goes to api-core.
pub approve_guarded :
    (env : Env) (actor : Actor) (id : String) (reason : Text) (s : State) (a : Adjustment)
    → find id s.adjustments ≡ some a
    → (is_pending a.status ≡ false → approve env actor id reason s ≡ (s, thrown conflict))
      × (is_pending a.status ≡ true
          → actor.id ≡ a.requested_by_id
          → approve env actor id reason s ≡ (s, thrown forbidden))
      × (is_pending a.status ≡ true
          → actor.id ≢ a.requested_by_id
          → env.audit_ok adjust_approved ≡ true
          → (approve env actor id reason s).0.calls ≡ call_of actor a ∷ s.calls)
unfolding approve approve_found
approve_guarded env actor id reason s a found = rw found (
  λ h. rw h,
  λ h e. rw h (unfold approve_pending in rw ((eq_iff a.requested_by_id actor.id).1 (sym e))),
  λ h n w. rw h (approve_pending_sends env actor id reason s a n w),
)

-- `reject` accepts a stored adjustment in whatever status.
pub reject_row :
    (env : Env) (actor : Actor) (id : String) (reason : Text) (s : State) (a : Adjustment)
    → find id s.adjustments ≡ some a
    → let t = (reject env actor id reason s).0 in
      (find id t.adjustments ≡ some (record a { status = rejected; rejected_reason = some reason }))
      × (t.calls ≡ s.calls)
unfolding reject
reject_row env actor id reason s a found =
    rw (found, reject_found)
      (elim (Bool-cases (env.audit_ok adjust_rejected)) [
        | inl written ↦ rw written (find-put_self id _ s.adjustments, refl)
        | inr lost ↦ rw lost (find-put_self id _ s.adjustments, refl)
      ])

-- When api-core posts the adjustment and the audit row of it cannot be written, the row is FAILED, and
-- `retry` sends api-core the request once more, under the same idempotency key.
pub unaudited_retry :
    (env later : Env) (actor : Actor) (id : String) (s : State) (a : Adjustment)
    {txn : Option String} {balance : Option Text}
    → find id s.adjustments ≡ some a
    → env.reply (call_of actor a) ≡ posted txn balance
    → env.audit_ok adjust_applied ≡ false
    → let t = (apply env actor id s).0 in
      (b : Adjustment) × (find id t.adjustments ≡ some b)
      × (b.status ≡ failed)
      × ((retry later actor id t).0.calls ≡ call_of actor b ∷ call_of actor a ∷ s.calls)
      × (b.idempotency_key ≡ a.idempotency_key)
unfolding retry retry_found
unaudited_retry env later actor id s a found answer lost =
    let (b, at, status, key, calls, _) = apply_outcome env actor id s a found in
    let is_failed_now : b.status ≡ failed = ground arith in
    (
      b,
      at,
      is_failed_now,
      rw (at, is_failed_now)
          ((apply_outcome later actor id (apply env actor id s).0 b at).4
            ∙ ap (λ l. call_of actor b ∷ l) calls),
      key,
    )

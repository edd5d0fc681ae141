-- ===== src/Campaigns/Approval/Steps.antt =====
-- Every operation of a campaign, and every job, keeps the invariant of approvals.
use zapiack_console_backend.Campaigns.Rows.{
  materialise_resolved, materialise_recipients, counted_campaign, resolve_recipients, filled_rows,
}
use zapiack_console_backend.Segments.{Resolved}
use zapiack_console_backend.Campaigns.Worker.{
  run, send_all, complete, after_rows, begin, run_found, started_campaign, is_cancelled, Work,
  rounds, is_sent, held_campaign, turns, work_of, completed_campaign,
}
use zapiack_console_backend.Common.{
  refl, String, Bool, true, false, ◌≡◌, some, List, inl, inr, Option-cases, none, Bool-cases, ltb,
  str_eq, arith, ◌&&◌, not, ◌==◌, sym, ◌∙◌,
}
use zapiack_console_backend.Common.Table.{find, put, find-put_self, str_cases}
use zapiack_console_backend.Campaigns.{
  Campaign, State, cancelled, Env, Actor, Draft, Action, Option, ℕ, was_scheduled, Outcome,
  was_cancelled, done, thrown, RecipientStatus, approved, retried, created,
}
use zapiack_console_backend.Campaigns.Desk.{
  unapproved, retry, create_sized, approve, cancel, create, schedule, retry_found, schedule_found,
  cancel_found, conclude, audit, can_schedule, cannot_cancel, approve_found, finished,
  validate_audience, retried_campaign, cancelled_campaign, estimate_size, scheduled_campaign,
  new_campaign, super_admin, tally, others, rows_of, approved_campaign, one_of, broadcast,
}
use zapiack_console_backend.Campaigns.Reach.{contacted, reached-rounds}
use zapiack_console_backend.Campaigns.Approval.{
  Holds, Holds-tell, Holds-update, Inv, Inv-new, Inv-update, approved_of, finished-held,
}

module _ (env : Env) where
  pub Holds-audited {ℓ} :
      {A : Type ℓ} (a : A) (actor : Actor) (action : Action) (id : String) (s : State)
      → Holds s
      → Holds (conclude a (audit env actor action id s)).0
  unfolding Holds
  Holds-audited a actor action id s inv = elim (Bool-cases (env.audit_ok action)) [
    | inl e ↦ rw e inv
    | inr e ↦ rw e inv
  ]

  pub Holds-create_sized :
      (actor : Actor) (fresh : String) (dto : Draft) (o : Option ℕ) (s : State)
      → find fresh s.campaigns ≡ none
      → Holds s
      → Holds (create_sized env actor fresh dto o s).0
  unfolding create_sized
  Holds-create_sized actor fresh dto none s new inv = inv
  Holds-create_sized actor fresh dto (some size) s new inv =
      let big = ltb env.approval_threshold size in
      let c = new_campaign dto actor size big in
      elim (Bool-cases (big && not (one_of actor.permissions broadcast))) [
        | inl e ↦ rw e inv
        | inr e ↦ rw e (
            Holds-audited c actor created fresh (record s { campaigns = put fresh c s.campaigns })
              (Inv-new s fresh c new refl inv))
      ]

  pub Holds-create :
      (actor : Actor) (fresh : String) (dto : Draft) (s : State)
      → find fresh s.campaigns ≡ none
      → Holds s
      → Holds (create env actor fresh dto s).0
  unfolding create
  Holds-create actor fresh dto s new inv = elim (Bool-cases (validate_audience dto)) [
    | inl e ↦ rw e (Holds-create_sized actor fresh dto (estimate_size env dto) s new inv)
    | inr e ↦ rw e inv
  ]

  pub Holds-approve :
      (actor : Actor) (id : String) (s : State) → Holds s → Holds (approve env actor id s).0
  unfolding approve approve_found
  Holds-approve actor id s inv = elim (Bool-cases (str_eq actor.role_key super_admin)) [
    | inr e ↦ rw e inv
    | inl e ↦ elim (Option-cases (find id s.campaigns)) [
      | inl f ↦ rw (e, f) inv
      | inr (c, found) ↦
          elim (Bool-cases (str_eq c.created_by_id actor.id && others actor.id env.approvers)) [
            | inl f ↦ rw (e, found, f) inv
            | inr f ↦
                let d = approved_campaign env.now actor c in
                rw (e, found, f)
                  (Holds-tell c.created_by_id _ (
                    Holds-audited env.now actor approved id
                      (record s { campaigns = put id d s.campaigns })
                      (Holds-update s id c d found (λ u. ground arith) (λ u. ground arith) inv)))
          ]
    ]
  ]

  pub Holds-schedule :
      (actor : Actor) (id : String) (at' : ℕ) (s : State)
      → Holds s
      → Holds (schedule env actor id at' s).0
  unfolding schedule schedule_found Holds
  Holds-schedule actor id at' s inv = elim (Option-cases (find id s.campaigns)) [
    | inl e ↦ rw e inv
    | inr (c, found) ↦ elim (Bool-cases (can_schedule c.status)) [
      | inr e ↦ rw (found, e) inv
      | inl e ↦ elim (Bool-cases (unapproved c)) [
        | inl f ↦ rw (found, e, f) inv
        | inr f ↦
            rw (found, e, f)
              (Holds-audited at' actor was_scheduled id _
                (Holds-update s id c (scheduled_campaign at' c) found (λ u. cc) (λ u. u) inv))
      ]
    ]
  ]

  pub Holds-retry :
      (actor : Actor) (id : String) (s : State) → Holds s → Holds (retry env actor id s).0
  unfolding retry retry_found Holds
  Holds-retry actor id s inv = elim (Option-cases (find id s.campaigns)) [
    | inl e ↦ rw e inv
    | inr (c, found) ↦ elim (Bool-cases (finished c.status)) [
      | inr e ↦ rw (found, e) inv
      | inl e ↦
          let u = approved_of s id c found (finished-held c.status e) inv in
          let d = retried_campaign c in
          let n = tally RecipientStatus.failed (rows_of id s) in
          elim (Bool-cases (n == 0)) [
            | inl f ↦ rw (found, e, f) inv
            | inr f ↦
                rw (found, e, f)
                  (Holds-audited n actor retried id _
                    (Holds-update s id c d found (λ w. cc) (λ w. w) inv))
          ]
    ]
  ]

  pub Holds-cancel :
      (actor : Actor) (id : String) (s : State) → Holds s → Holds (cancel env actor id s).0
  unfolding cancel cancel_found Holds
  Holds-cancel actor id s inv = elim (Option-cases (find id s.campaigns)) [
    | inl e ↦ rw e inv
    | inr (c, found) ↦ elim (Bool-cases (cannot_cancel c.status)) [
      | inl e ↦ rw (found, e) inv
      | inr e ↦
          rw (found, e)
            (Holds-audited cancelled actor was_cancelled id _
              (Holds-update s id c (cancelled_campaign c) found (λ u. refl) (λ u. u) inv))
    ]
  ]

  -- The job, once the row under the id is the one that it goes on with.
  pub Holds-complete :
      (id : String) (c : Campaign) (contacts : List Resolved) (s : State) (o : Option Work)
      → find id s.campaigns ≡ some c
      → unapproved c ≡ false
      → rounds env id c.channel contacts (turns (work_of id s)) (work_of id s) ≡ o
      → Holds s
      → Holds (complete env id c s o).0
  unfolding complete Holds Inv
  Holds-complete id c contacts s none found fine h inv = inv
  Holds-complete id c contacts s (some w) found fine h (all_held, all_told) =
      let d = completed_campaign env.now w.rows c in
      let told : (j : String)
          → contacted j w.messages w.notices ≡ true
          → (b : Campaign) × (find j s.campaigns ≡ some b) × (unapproved b ≡ false) =
        λ j e. elim (str_cases id j) [
          | inl same ↦ (c, rw (← same) found, fine)
          | inr other ↦
              let equal = reached-rounds env id j contacts other c.channel _ _ w h in
              all_told j (sym equal ∙ e)
        ] in
      Inv-update s.campaigns w.messages w.notices id c d found (λ u. cc) (λ u. u) (all_held, told)

  pub Holds-send_all :
      (id : String) (c : Campaign) (r : Outcome (List Resolved)) (s : State)
      → find id s.campaigns ≡ some c
      → unapproved c ≡ false
      → Holds s
      → Holds (send_all env id c r s).0
  unfolding send_all
  Holds-send_all id c (thrown e) s found fine inv = inv
  Holds-send_all id c (done contacts) s found fine inv =
      Holds-complete id c contacts s _ found fine refl inv

  pub Holds-materialise :
      (id : String) (c : Campaign) (r : Outcome (List Resolved)) (s : State)
      → find id s.campaigns ≡ some c
      → unapproved c ≡ false
      → Holds s
      → Holds (after_rows env id c (materialise_resolved env id c r s)).0
  unfolding after_rows materialise_resolved Holds
  Holds-materialise id c (thrown e) s found fine inv = inv
  Holds-materialise id c (done l) s found fine inv =
      let d = counted_campaign l c in
      let t = record s {
        recipients = put id (filled_rows env id c l (rows_of id s)) s.recipients;
        campaigns = put id d s.campaigns;
      } in
      Holds-send_all id d (resolve_recipients env c) t (find-put_self id d s.campaigns) fine
        (Holds-update s id c d found (λ u. cc) (λ u. u) inv)

  pub Holds-begin :
      (id : String) (again : Bool) (c : Campaign) (s : State)
      → find id s.campaigns ≡ some c
      → unapproved c ≡ false
      → Holds s
      → Holds (begin env id again c s).0
  unfolding begin materialise_recipients
  Holds-begin id true c s found fine inv =
      let d = started_campaign env.now c in
      Holds-send_all id d (resolve_recipients env d) (record s { campaigns = put id d s.campaigns })
        (find-put_self id d s.campaigns) fine (Holds-update s id c d found (λ u. cc) (λ u. u) inv)
  Holds-begin id false c s found fine inv =
      let d = started_campaign env.now c in
      Holds-materialise id d (resolve_recipients env d)
        (record s { campaigns = put id d s.campaigns }) (find-put_self id d s.campaigns) fine
        (Holds-update s id c d found (λ u. cc) (λ u. u) inv)

  pub Holds-run : (id : String) (again : Bool) (s : State) → Holds s → Holds (run env id again s).0
  unfolding run run_found
  Holds-run id again s inv = elim (Option-cases (find id s.campaigns)) [
    | inl e ↦ rw e inv
    | inr (c, found) ↦ elim (Bool-cases (is_cancelled c.status)) [
      | inl e ↦ rw (found, e) inv
      | inr e ↦ elim (Bool-cases (is_sent c.status)) [
        | inl f ↦ rw (found, e, f) inv
        | inr f ↦ elim (Bool-cases (unapproved c)) [
          | inl g ↦
              rw (found, e, f, g)
                (Holds-update s id c (held_campaign c) found (λ u. refl) (λ u. u) inv)
          | inr g ↦ rw (found, e, f, g) (Holds-begin id again c s found g inv)
        ]
      ]
    ]
  ]

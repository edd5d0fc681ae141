-- ===== src/SenderId/Desk/Laws.antt =====
-- What assigning, ticking and the sweep of overdue reviews do, and what they leave alone.
use mathlib.Core.Option
use zapiack_console_backend.Common.{
  ℕ, String, Bool, true, ◌&&◌, ◌≡◌, refl, ap, ◌∙◌, ◌⊎◌, inl, inr, Option, none, some, List, [], ◌∷◌,
  ◌++◌, map, str_eq, any, arith, eq_iff, if◌then◌else◌, Option-cases, Bool-cases,
}
use zapiack_console_backend.Common.Table.{Table, find, put, find-put_self}
use zapiack_console_backend.SenderId.Types.{
  Item, Review, Alert, State, Env, Error, assign_action, assigned,
}
use zapiack_console_backend.SenderId.Desk.{
  assigned_review, target_of, tell_assignee, assign_found, assign, Tick, tick_item, tick_all,
  is_unknown, store_items, update_found, update_checklist, is_overdue, is_breach, already_alerted,
  breach_for, audience, sweep_row, sweep_rows, sweep_sla_breaches,
}

tell_assignee_lem :
    (actor target id : String) (s : State)
    → let t = tell_assignee actor target id s in
      (t.reviews ≡ s.reviews)
      × (t.applications ≡ s.applications)
      × (t.user_notices ≡ s.user_notices)
      × (t.alerts ≡ (
          if str_eq target actor
          then s.alerts
          else record { kind = assigned; staff_id = target; review_id = id } ∷ s.alerts))
unfolding tell_assignee
tell_assignee_lem actor target id s = elim (Bool-cases (str_eq target actor)) [
  | inl own ↦ rw own (refl, refl, refl, refl)
  | inr another ↦ rw another (refl, refl, refl, refl)
]

-- Assigning a stored review, with the audit row written: the review has the new assignee and its old
-- status; the product's applications and the customers' notifications are untouched; and one alert
-- goes to the assignee, unless that is the actor.
pub assign_lem :
    (env : Env) (actor id : String) (other : Option String) (s : State) (r : Review)
    → find id s.reviews ≡ some r
    → env.audit_ok assign_action ≡ true
    → let t = (assign env actor id other s).0 in
      let target = target_of actor other in
      (r' : Review) × (find id t.reviews ≡ some r')
      × (r'.status ≡ r.status)
      × (r'.assignee_id ≡ some target)
      × (t.applications ≡ s.applications)
      × (t.user_notices ≡ s.user_notices)
      × (t.alerts ≡ (
          if str_eq target actor
          then s.alerts
          else record { kind = assigned; staff_id = target; review_id = id } ∷ s.alerts))
unfolding assign
assign_lem env actor id other s r found written =
    let target = target_of actor other in
    let new = assigned_review actor target r in
    let t : State = record s {
      reviews = put id new s.reviews;
      audits = record { action = assign_action; actor_id = actor; target_id = id } ∷ s.audits;
    } in
    let (reviews, applications, notices, alerts) = tell_assignee_lem actor target id t in
    rw (found, assign_found)
      (rw written (
        new,
        rw reviews (find-put_self id new s.reviews),
        refl,
        refl,
        applications,
        notices,
        alerts,
      ))

abbrev pub key_of : Item → String
key_of item = item.key

tick_item-keys :
    (env : Env) (actor : String) (tick : Tick) (items out : List Item)
    → tick_item env actor tick items ≡ some out
    → map key_of out ≡ map key_of items
unfolding tick_item
tick_item-keys env actor tick [] out h = cc
tick_item-keys env actor tick (item ∷ items) out h = elim (Bool-cases (str_eq item.key tick.key)) [
  | inl here ↦ ground arith
  | inr later ↦
      let (rest, found, same) = (Option.map-eq-some_iff _ _).0 (rw later at h) in
      rw (← same) (ap (λ l. item.key ∷ l) (tick_item-keys env actor tick items rest found))
]

tick_all-keys :
    (env : Env) (actor : String) (ticks : List Tick) (items out : List Item)
    → tick_all env actor ticks items ≡ some out
    → map key_of out ≡ map key_of items
unfolding tick_all
tick_all-keys env actor [] items out h = ground arith
tick_all-keys env actor (tick ∷ ticks) items out h =
    elim (Option-cases (tick_item env actor tick items)) [
      | inl missing ↦ absurd (ground arith)
      | inr (next, found) ↦
          tick_all-keys env actor ticks next out (ground arith)
          ∙ tick_item-keys env actor tick items next found
    ]

update_checklist_done :
    (env : Env) (actor id : String) (ticks : List Tick) (s : State) (r : Review)
    → find id s.reviews ≡ some r
    → (update_checklist env actor id ticks s).1 ≡ none
    → (items : List Item) × (map key_of items ≡ map key_of r.checklist)
      × ((update_checklist env actor id ticks s).0
          ≡ record s { reviews = put id (record r { checklist = items }) s.reviews })
unfolding update_checklist
update_checklist_done env actor id ticks s r found h = elim (Bool-cases (any is_unknown ticks)) [
  | inl unknown ↦ absurd (ground arith)
  | inr known ↦ elim (Option-cases (tick_all env actor ticks r.checklist)) [
    | inl missing ↦ cc (rw (missing, store_items) at (rw (known, found, update_found) at h))
    | inr (items, done) ↦ (
      items,
      tick_all-keys env actor ticks r.checklist items done,
      rw known (rw (found, update_found) (rw (done, store_items) refl)),
    )
  ]
]

-- Updating the checklist is all or nothing: an exception leaves everything as it was, as a key that is
-- not one of the four always does; otherwise only the checklist of the review is written, and its items
-- have the same keys in the same order.
pub update_checklist_lem :
    (env : Env) (actor id : String) (ticks : List Tick) (s : State) (r : Review)
    → find id s.reviews ≡ some r
    → ((e : Error)
        → (update_checklist env actor id ticks s).1 ≡ some e
        → (update_checklist env actor id ticks s).0 ≡ s)
      × (any is_unknown ticks ≡ true → (update_checklist env actor id ticks s).0 ≡ s)
      × ((update_checklist env actor id ticks s).1 ≡ none
          → (items : List Item) × (map key_of items ≡ map key_of r.checklist)
            × ((update_checklist env actor id ticks s).0
                ≡ record s { reviews = put id (record r { checklist = items }) s.reviews }))
unfolding update_checklist
update_checklist_lem env actor id ticks s r found =
    (λ e h. ground arith, λ h. rw h refl, update_checklist_done env actor id ticks s r found)

abbrev told : String → Alert → Bool
told id a = is_breach a.kind && str_eq a.review_id id

any-append : (p : Alert → Bool) (xs ys : List Alert) → any p ys ≡ true → any p (xs ++ ys) ≡ true
any-append p [] ys h = h
any-append p (x ∷ xs) ys h = ground (arith, any-append p xs ys h)

-- A review about which the sweep has nothing more to say.
abbrev Quiet : List String → String → Review → List Alert → Type 0
Quiet reviewers id r alerts =
    (already_alerted id alerts ≡ true) ⊎ ((r.assignee_id ≡ none) × (reviewers ≡ []))

told_now :
    (id staff : String) (more : List String) (alerts : List Alert)
    → already_alerted id (map (breach_for id) (staff ∷ more) ++ alerts) ≡ true
unfolding already_alerted breach_for
told_now id staff more alerts = ground (arith, eq_iff id id)

sweep_row-Quiet :
    (reviewers : List String) (id : String) (r : Review) (alerts : List Alert)
    → Quiet reviewers id r (sweep_row reviewers id r alerts)
unfolding sweep_row
sweep_row-Quiet reviewers id r alerts = elim (Bool-cases (already_alerted id alerts)) [
  | inl before ↦ rw before (inl before)
  | inr first ↦ rw first (elim (Option-cases r.assignee_id) [
    | inr (staff, e) ↦ inl (rw (e, audience) (told_now id staff [] alerts))
    | inl e ↦ unassigned reviewers e
  ])
]
  where
    unassigned :
        (rs : List String)
        → r.assignee_id ≡ none
        → Quiet rs id r (map (breach_for id) (audience rs r.assignee_id) ++ alerts)
    unassigned [] e = inr (e, refl)
    unassigned (m ∷ ms) e = inl (rw (e, audience) (told_now id m ms alerts))

sweep_row-keeps :
    (reviewers : List String) (id j : String) (r q : Review) (alerts : List Alert)
    → Quiet reviewers j q alerts
    → Quiet reviewers j q (sweep_row reviewers id r alerts)
unfolding sweep_row already_alerted
sweep_row-keeps reviewers id j r q alerts (inr h) = inr h
sweep_row-keeps reviewers id j r q alerts (inl h) = elim (Bool-cases (already_alerted id alerts)) [
  | inl before ↦ rw before (inl h)
  | inr first ↦
      rw first (
        inl (any-append (told j) (map (breach_for id) (audience reviewers r.assignee_id)) alerts h))
]

sweep_row_settled :
    (reviewers : List String) (id : String) (r : Review) (alerts : List Alert)
    → Quiet reviewers id r alerts
    → sweep_row reviewers id r alerts ≡ alerts
unfolding sweep_row
sweep_row_settled reviewers id r alerts (inl h) = rw h refl
sweep_row_settled reviewers id r alerts (inr (e, none_left)) =
    elim (Bool-cases (already_alerted id alerts)) [
      | inl before ↦ rw before refl
      | inr first ↦ rw first (rw (e, none_left, audience) refl)
    ]

module _ (now : ℕ) (reviewers : List String) where
  abbrev AllQuiet : Table Review → List Alert → Type 0
  AllQuiet [] alerts = Unit
  AllQuiet ((id, r) ∷ t) alerts =
      (is_overdue now r ≡ true → Quiet reviewers id r alerts) × AllQuiet t alerts

  sweep_rows-keeps :
      (t : Table Review) (j : String) (q : Review) (alerts : List Alert)
      → Quiet reviewers j q alerts
      → Quiet reviewers j q (sweep_rows now reviewers t alerts)
  unfolding sweep_rows
  sweep_rows-keeps [] j q alerts h = h
  sweep_rows-keeps ((id, r) ∷ t) j q alerts h = elim (Bool-cases (is_overdue now r)) [
    | inl late ↦ rw late (sweep_rows-keeps t j q _ (sweep_row-keeps reviewers id j r q alerts h))
    | inr fine ↦ rw fine (sweep_rows-keeps t j q alerts h)
  ]

  sweep_rows-AllQuiet :
      (t : Table Review) (alerts : List Alert) → AllQuiet t (sweep_rows now reviewers t alerts)
  unfolding sweep_rows
  sweep_rows-AllQuiet [] alerts = tt
  sweep_rows-AllQuiet ((id, r) ∷ t) alerts = elim (Bool-cases (is_overdue now r)) [
    | inl late ↦ rw late (
      λ _. sweep_rows-keeps t id r _ (sweep_row-Quiet reviewers id r alerts),
      sweep_rows-AllQuiet t _,
    )
    | inr fine ↦ rw fine (λ e. cc, sweep_rows-AllQuiet t alerts)
  ]

  sweep_rows_settled :
      (t : Table Review) (alerts : List Alert)
      → AllQuiet t alerts
      → sweep_rows now reviewers t alerts ≡ alerts
  unfolding sweep_rows
  sweep_rows_settled [] alerts h = refl
  sweep_rows_settled ((id, r) ∷ t) alerts (h, rest) = elim (Bool-cases (is_overdue now r)) [
    | inl late ↦
        rw late
          (rw (sweep_row_settled reviewers id r alerts (h late)) (sweep_rows_settled t alerts rest))
    | inr fine ↦ rw fine (sweep_rows_settled t alerts rest)
  ]

-- A breach is announced once: sweeping again at the same moment sends no alert.
pub sweep_sla_breaches_twice :
    (env : Env) (s : State)
    → sweep_sla_breaches env (sweep_sla_breaches env s) ≡ sweep_sla_breaches env s
unfolding sweep_sla_breaches
sweep_sla_breaches_twice env s =
    ap (λ alerts. record s { alerts = alerts })
      (sweep_rows_settled env.now s.reviewers s.reviews _
        (sweep_rows-AllQuiet env.now s.reviewers s.reviews s.alerts))

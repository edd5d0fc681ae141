-- ===== src/SenderId/Desk.antt =====
-- The console's own bookkeeping on a review: `assign`, `updateChecklist` and `sweepSlaBreaches` of
-- src/modules/sender-ids/sender-ids.service.ts.
pub mod Laws
use mathlib.Core.Option
use zapiack_console_backend.Common.{
  ℕ, String, Bool, true, false, not, ◌&&◌, Option, none, some, List, [], ◌∷◌, ◌++◌, map, str_eq,
  any, is_some, ltb, if◌then◌else◌, length, ◌==◌,
}
use zapiack_console_backend.Common.Text.{Text}
use zapiack_console_backend.Common.Table.{Table, find, put}
use zapiack_console_backend.SenderId.Status.{ReviewStatus, submitted, in_review, checklist}
use zapiack_console_backend.SenderId.Types.{
  Item, Review, Alert, AlertKind, State, Env, Error, assigned_self, assigned_to, assigned,
  sla_breach, assign_action, not_found, audit_failed, unknown_items,
}

-- The row that `assign` writes.
abbrev pub assigned_review : String → String → Review → Review
assigned_review actor target r = record r {
  assignee_id = some target;
  events =
      r.events
      ++ record {
        from_status = some r.status;
        to_status = r.status;
        actor_id = some actor;
        comment = if str_eq target actor then assigned_self else assigned_to target;
      }
        ∷ [];
}

-- `assigneeId ?? actor.id`
abbrev pub target_of : String → Option String → String
target_of actor none = actor
target_of actor (some other) = other

tell_assignee : String → String → String → State → State
tell_assignee actor target id s = if str_eq target actor then s else record s {
  alerts = record { kind = assigned; staff_id = target; review_id = id } ∷ s.alerts;
}

assign_found : Env → String → String → Option String → Option Review → State → State × Option Error
unfolding tell_assignee
assign_found env actor id other none s = (s, some not_found)
assign_found env actor id other (some r) s =
    let target = target_of actor other in
    let t = record s { reviews = put id (assigned_review actor target r) s.reviews } in
    if env.audit_ok assign_action
    then (
      tell_assignee actor target id (record t {
        audits = record { action = assign_action; actor_id = actor; target_id = id } ∷ t.audits;
      }),
      none,
    )
    else (t, some audit_failed)

-- The exception, if one is thrown, is the second part.
pub assign : Env → String → String → Option String → State → State × Option Error
unfolding assign_found
assign env actor id other s = assign_found env actor id other (find id s.reviews) s

-- An item of the request: the answer is required, the note may be left out, and then it is kept.
pub record Tick : Type 0 where
  pub key : String
  pub passed : Bool
  pub note : Option Text

abbrev pub noted : Option Text → Option Text → Option Text
noted none old = old
noted (some new) old = some new

abbrev pub ticked : Env → String → Tick → Item → Item
ticked env actor tick item = record item {
  passed = some tick.passed;
  note = noted tick.note item.note;
  checked_by = some actor;
  checked_at = some env.now;
}

-- The `update` of one item; `none` where the review has no item of that key, which throws.
unfoldable pub tick_item : Env → String → Tick → List Item → Option (List Item)
tick_item env actor tick [] = none
tick_item env actor tick (item ∷ items) =
    let rest = Option.map (λ l. item ∷ l) (tick_item env actor tick items) in
    if str_eq item.key tick.key then some (ticked env actor tick item ∷ items) else rest

-- The transaction: every update or none.
unfoldable pub tick_all : Env → String → List Tick → List Item → Option (List Item)
unfolding tick_item
tick_all env actor [] items = some items
tick_all env actor (tick ∷ ticks) items = elim (tick_item env actor tick items) [
  | none ↦ none
  | some items' ↦ tick_all env actor ticks items'
]

abbrev pub is_unknown : Tick → Bool
is_unknown tick = not (any (λ k. str_eq k tick.key) checklist)

store_items : String → Review → Option (List Item) → State → State × Option Error
store_items id r none s = (s, some not_found)
store_items id r (some items) s =
    (record s { reviews = put id (record r { checklist = items }) s.reviews }, none)

update_found : Env → String → String → List Tick → Option Review → State → State × Option Error
unfolding store_items tick_all
update_found env actor id ticks none s = (s, if 0 == length ticks then none else some not_found)
update_found env actor id ticks (some r) s =
    store_items id r (tick_all env actor ticks r.checklist) s

pub update_checklist : Env → String → String → List Tick → State → State × Option Error
unfolding update_found
update_checklist env actor id ticks s =
    if any is_unknown ticks
    then (s, some unknown_items)
    else update_found env actor id ticks (find id s.reviews) s

abbrev is_waiting : ReviewStatus → Bool
is_waiting submitted = true
is_waiting in_review = true
is_waiting _ = false

-- The rows of the sweep's query.
abbrev pub is_overdue : ℕ → Review → Bool
is_overdue now r = not (is_some r.decided_at) && ltb r.sla_due_at now && is_waiting r.status

abbrev is_breach : AlertKind → Bool
is_breach sla_breach = true
is_breach _ = false

-- An alert of this type with this link is in somebody's inbox.
unfoldable pub already_alerted : String → List Alert → Bool
already_alerted id alerts = any (λ a. is_breach a.kind && str_eq a.review_id id) alerts

breach_for : String → String → Alert
breach_for id staff = record { kind = sla_breach; staff_id = staff; review_id = id }

-- Who is told: the assignee, or every reviewer.
audience : List String → Option String → List String
audience reviewers none = reviewers
audience reviewers (some staff) = staff ∷ []

-- One round of the loop, over the inboxes.
sweep_row : List String → String → Review → List Alert → List Alert
unfolding breach_for audience
sweep_row reviewers id r alerts =
    if already_alerted id alerts
    then alerts
    else map (breach_for id) (audience reviewers r.assignee_id) ++ alerts

-- The loop over the reviews that the query gave.
sweep_rows : ℕ → List String → Table Review → List Alert → List Alert
sweep_rows now reviewers [] alerts = alerts
sweep_rows now reviewers ((id, r) ∷ t) alerts =
    sweep_rows now reviewers t
      (if is_overdue now r then sweep_row reviewers id r alerts else alerts)

pub sweep_sla_breaches : Env → State → State
unfolding sweep_rows
sweep_sla_breaches env s = record s { alerts = sweep_rows env.now s.reviewers s.reviews s.alerts }

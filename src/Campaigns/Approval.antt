-- ===== src/Campaigns/Approval.antt =====
-- The invariant of approvals: a campaign that wants one and does not have it is held, and reached
-- nobody.
pub mod Steps
use zapiack_console_backend.Campaigns.Rows.{
  materialise_resolved, materialise_recipients, counted_campaign, resolve_recipients, filled_rows,
}
use zapiack_console_backend.Segments.{Resolved}
use zapiack_console_backend.Campaigns.Worker.{
  run, send_all, complete, after_rows, begin, run_found, started_campaign, is_cancelled, Work,
  rounds, is_sent, held_campaign, turns, work_of, completed_campaign,
}
use zapiack_console_backend.Common.{
  refl, String, Bool, true, false, ◌≡◌, some, List, inl, inr, Option-cases, none, Bool-cases, ltb,
  str_eq, arith, ◌&&◌, not, ◌==◌, is_some, if◌then◌else◌, [], ◌∷◌, sym, ◌∙◌,
}
use zapiack_console_backend.Common.Table.{
  Table, find, put, find-put_self, find-put_ne, find-put_cases, str_cases,
}
use zapiack_console_backend.Campaigns.{
  Campaign, State, Notice, Message, Status, draft, pending_approval, cancelled, Env, Actor, Draft,
  Action, Option, ℕ, was_scheduled, Outcome, was_cancelled, done, thrown, RecipientStatus, approved,
  retried, created,
}
use zapiack_console_backend.Campaigns.Desk.{
  unapproved, retry, create_sized, approve, cancel, create, schedule, retry_found, schedule_found,
  cancel_found, conclude, audit, can_schedule, cannot_cancel, approve_found, finished,
  validate_audience, retried_campaign, cancelled_campaign, estimate_size, scheduled_campaign, tell,
  new_campaign, super_admin, tally, others, rows_of, approved_campaign, one_of, broadcast, send_now,
}
use zapiack_console_backend.Campaigns.Reach.{contacted, reached-rounds}

-- Where a campaign can stand that wants an approval it does not have.
abbrev pub is_held : Status → Bool
is_held draft = true
is_held pending_approval = true
is_held cancelled = true
is_held _ = false

-- A campaign that is not held has the approval that it wants, and so has one that reached anybody.
unfoldable pub Inv : Table Campaign → List Message → List Notice → Type 0
Inv t messages notices =
    ((id : String) (c : Campaign)
      → find id t ≡ some c
      → unapproved c ≡ true
      → is_held c.status ≡ true)
    × ((id : String)
        → contacted id messages notices ≡ true
        → (c : Campaign) × (find id t ≡ some c) × (unapproved c ≡ false))

unfoldable pub Holds : State → Type 0
unfolding Inv
Holds s = Inv s.campaigns s.messages s.notices

-- A row may be written where it is held or has its approval, and loses none.
pub Inv-put :
    (t : Table Campaign) (messages : List Message) (notices : List Notice) (id : String)
    (d : Campaign)
    → (unapproved d ≡ true → is_held d.status ≡ true)
    → (contacted id messages notices ≡ true → unapproved d ≡ false)
    → Inv t messages notices
    → Inv (put id d t) messages notices
unfolding Inv
Inv-put t messages notices id d held kept (all_held, all_told) = (
  λ j c h u. elim (find-put_cases id j d c t h) [
    | inl (e, same) ↦ rw (← same) (held (rw same u))
    | inr (other, before) ↦ all_held j c before u
  ],
  λ j h. elim (str_cases id j) [
    | inl e ↦ (d, rw (← e) (find-put_self id d t), kept (rw e h))
    | inr other ↦
        let (c, found, fine) = all_told j h in (c, rw (find-put_ne id j d t other) found, fine)
  ],
)

-- The new row of one that is there.
pub Inv-update :
    (t : Table Campaign) (messages : List Message) (notices : List Notice) (id : String)
    (c d : Campaign)
    → find id t ≡ some c
    → (unapproved d ≡ true → is_held d.status ≡ true)
    → (unapproved c ≡ false → unapproved d ≡ false)
    → Inv t messages notices
    → Inv (put id d t) messages notices
unfolding Inv
Inv-update t messages notices id c d found held kept (all_held, all_told) =
    Inv-put t messages notices id d held
      (λ h.
        let (b, there, fine) = all_told id h in let same : b ≡ c = cc in kept (rw (← same) fine))
      (all_held, all_told)

pub Holds-update :
    (s : State) (id : String) (c d : Campaign)
    → find id s.campaigns ≡ some c
    → (unapproved d ≡ true → is_held d.status ≡ true)
    → (unapproved c ≡ false → unapproved d ≡ false)
    → Holds s
    → Holds (record s { campaigns = put id d s.campaigns })
unfolding Holds
Holds-update s id c d found held kept inv =
    Inv-update s.campaigns s.messages s.notices id c d found held kept inv

-- Under an id that nothing has yet, a held row.
pub Inv-new :
    (s : State) (id : String) (c : Campaign)
    → find id s.campaigns ≡ none
    → is_held c.status ≡ true
    → Holds s
    → Holds (record s { campaigns = put id c s.campaigns })
unfolding Holds Inv
Inv-new s id c new held inv =
    Inv-put s.campaigns s.messages s.notices id c (λ u. held)
      (λ h. let (b, found, _) = inv.1 id h in cc) inv

finished-held : (status : Status) → finished status ≡ true → is_held status ≡ false
finished-held draft h = cc
finished-held pending_approval h = cc
finished-held cancelled h = cc
finished-held _ h = ground arith

-- What is not held has its approval.
approved_of :
    (s : State) (id : String) (c : Campaign)
    → find id s.campaigns ≡ some c
    → is_held c.status ≡ false
    → Holds s
    → unapproved c ≡ false
unfolding Holds Inv
approved_of s id c found free inv = elim (Bool-cases (unapproved c)) [
  | inl u ↦ let held = inv.0 id c found u in cc
  | inr u ↦ u
]

pub Holds-tell : (id : String) (out : State × Outcome ℕ) → Holds out.0 → Holds (tell id out).0
unfolding Holds
Holds-tell id (s, done t) inv = inv
Holds-tell id (s, thrown e) inv = inv

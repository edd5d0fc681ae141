-- ===== src/Campaigns/Worker/Laws.antt =====
-- A job ends, and what it leaves behind.
use zapiack_console_backend.Common.{
  ℕ, String, Bool, true, false, ◌≡◌, ◌≢◌, refl, Option, none, some, List, arith, Bool-cases, inl,
  inr,
}
use zapiack_console_backend.Common.Table.{find, put, find-put_self}
use zapiack_console_backend.Segments.{Resolved}
use zapiack_console_backend.Campaigns.{Campaign, RecipientStatus, Env, State, Outcome, thrown, done}
use zapiack_console_backend.Campaigns.Desk.{tally, unapproved, rows_of}
use zapiack_console_backend.Campaigns.Rows.{resolve_recipients, materialise_recipients}
use zapiack_console_backend.Campaigns.Worker.{
  Work, turns, work_of, complete, completed_campaign, final_status, send_all, after_rows, begin,
  run_found, run, Report, totals, endless, deleted, was_cancelled, already_sent, not_approved,
  is_cancelled, is_sent, started_campaign,
}
use zapiack_console_backend.Campaigns.Worker.Loop.{rounds-end}

-- What a job that counted its recipients leaves: no one waits, the counts of the campaign are those of
-- its rows, and it failed only where it reached nobody and somebody was to be reached.
unfoldable pub Settled : String → State → ℕ → ℕ → Type 0
Settled id t a b =
    (d : Campaign) × (find id t.campaigns ≡ some d)
    × (d.status ≡ final_status a b)
    × (d.sent_count ≡ a)
    × (d.failed_count ≡ b)
    × (tally RecipientStatus.sent (rows_of id t) ≡ a)
    × (tally RecipientStatus.failed (rows_of id t) ≡ b)
    × (tally RecipientStatus.pending (rows_of id t) ≡ 0)

-- The answer of a job, and what it means where it is a pair of counts.
unfoldable pub Means : String → State × Outcome Report → Type 0
unfolding Settled
Means id (t, thrown e) = Unit
Means id (t, done (totals a b)) = Settled id t a b
Means id (t, done endless) = ⊥
Means id (t, done _) = Unit

module _ (env : Env) (id : String) where
  complete-Means :
      (c : Campaign) (s : State) (v : Work)
      → tally RecipientStatus.pending v.rows ≡ 0
      → Means id (complete env id c s (some v))
  unfolding Means Settled complete completed_campaign
  complete-Means c s v h =
      let e = find-put_self id v.rows s.recipients in
      (_, find-put_self id _ s.campaigns, refl, refl, refl, rw e refl, rw e refl, rw e h)

  send_all-Means :
      (c : Campaign) (r : Outcome (List Resolved)) (s : State) → Means id (send_all env id c r s)
  unfolding send_all Means
  send_all-Means c (thrown e) s = tt
  send_all-Means c (done contacts) s =
      let w = work_of id s in
      let (v, ended, settled_all) =
        rounds-end env id contacts c.channel (turns w) w (omega arith) in
      rw ended (complete-Means c s v settled_all)

  after_rows-Means : (c : Campaign) (out : State × Outcome ℕ) → Means id (after_rows env id c out)
  unfolding after_rows Means
  after_rows-Means c (s, thrown e) = tt
  after_rows-Means c (s, done n) =
      send_all-Means (record c { recipient_count = n }) (resolve_recipients env c) s

  abbrev started : Campaign → State → State
  started c s = record s { campaigns = put id (started_campaign env.now c) s.campaigns }

  begin-Means : (retry : Bool) (c : Campaign) (s : State) → Means id (begin env id retry c s)
  unfolding begin
  begin-Means true c s =
      send_all-Means (started_campaign env.now c)
        (resolve_recipients env (started_campaign env.now c)) (started c s)
  begin-Means false c s =
      after_rows-Means (started_campaign env.now c)
        (materialise_recipients env id (started_campaign env.now c) (started c s))

  run_found-Means :
      (retry : Bool) (o : Option Campaign) (s : State) → Means id (run_found env id retry o s)
  unfolding run_found Means
  run_found-Means retry none s = tt
  run_found-Means retry (some c) s = elim (Bool-cases (is_cancelled c.status)) [
    | inl e ↦ rw e tt
    | inr e ↦ elim (Bool-cases (is_sent c.status)) [
      | inl f ↦ rw (e, f) tt
      | inr f ↦ elim (Bool-cases (unapproved c)) [
        | inl g ↦ rw (e, f, g) tt
        | inr g ↦ rw (e, f, g) (begin-Means retry c s)
      ]
    ]
  ]

  run-Means : (retry : Bool) (s : State) → Means id (run env id retry s)
  unfolding run
  run-Means retry s = run_found-Means retry (find id s.campaigns) s

  never_endless : (out : State × Outcome Report) → Means id out → out.1 ≢ done endless
  unfolding Means
  never_endless (t, thrown e) m h = cc
  never_endless (t, done endless) m h = m
  never_endless (t, done deleted) m h = cc
  never_endless (t, done was_cancelled) m h = cc
  never_endless (t, done already_sent) m h = cc
  never_endless (t, done not_approved) m h = cc
  never_endless (t, done (totals a b)) m h = cc

  -- The job of a campaign ends: the turns that its loop is given here, one more than there are
  -- recipients waiting, are never used up, whatever the mailer, the SMS provider and the bell answer
  -- and whichever accounts are gone.
  pub run-ends : (retry : Bool) (s : State) → (run env id retry s).1 ≢ done endless
  run-ends retry s = never_endless (run env id retry s) (run-Means retry s)

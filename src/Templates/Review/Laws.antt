-- ===== src/Templates/Review/Laws.antt =====
-- When a decision goes to api-core, and when the console shows what it did.
use zapiack_console_backend.Common.{
  String, true, false, ◌≡◌, ◌⊎◌, inl, inr, ◌-◌, ◌≤◌, ◌<◌, ◌+◌, refl, Option, none, some, List, ◌∷◌,
  ltb, arith, Option-cases, Bool-cases,
}
use zapiack_console_backend.Common.Text.{Text}
use zapiack_console_backend.Templates.{Action, Refusal, assert_allowed, statuses}
use zapiack_console_backend.Templates.Review.{
  Template, Answer, State, Reply, failure, answer, Env, not_found, refused, Decided, decided,
  thrown, has_content, call_of, conclude, decide_found, decide_read, decide, cache_ms, cached,
  fetch, refill, everything_from, everything,
}

Reply-cases {ℓ} :
    {A : Type ℓ} (r : Reply A) → ((m : Text) × (r ≡ failure m)) ⊎ ((a : A) × (r ≡ answer a))
Reply-cases (failure m) = inl (m, refl)
Reply-cases (answer a) = inr (a, refl)

-- What became of a template that was found.
Outcome : Env → String → Template → Action → Text → State → State × Answer → Type 0
Outcome env actor t action reason s out =
    (d : Decided)
    → out.1 ≡ decided d
    → (after : Template) × (assert_allowed action t.status (has_content t) ≡ none)
      × (env.reply (call_of actor t action reason) ≡ answer after)
      × (out.0.calls ≡ call_of actor t action reason ∷ s.calls)
      × (d.status ≡ after.status)
      × (d.previous_status ≡ t.status)
      × (out.0.cache ≡ none)

found-Outcome :
    (env : Env) (actor : String) (t : Template) (action : Action) (reason : Text) (s : State)
    → Outcome env actor t action reason s
        (decide_found env actor t action reason (assert_allowed action t.status (has_content t)) s)
unfolding Outcome decide_found conclude
found-Outcome env actor t action reason s d h =
    elim (Option-cases (assert_allowed action t.status (has_content t))) [
      | inr (e, stopped) ↦ cc (rw (stopped, decide_found) at h)
      | inl fine ↦ elim (Reply-cases (env.reply (call_of actor t action reason))) [
        | inl (m, failed) ↦ cc (rw (failed, conclude) at (rw fine at h))
        | inr (after, answered) ↦ elim (Bool-cases env.audit_ok) [
          | inr lost ↦ cc (rw lost at (rw (answered, conclude) at (rw fine at h)))
          | inl kept ↦
              let e = rw kept at (rw (answered, conclude) at (rw fine at h)) in
              (
                after,
                fine,
                answered,
                rw fine (rw (answered, conclude) (rw kept refl)),
                cc,
                cc,
                rw fine (rw (answered, conclude) (rw kept refl)),
              )
        ]
      ]
    ]

decide_read-Decided :
    (env : Env) (actor : String) (r : Reply (Option Template)) (action : Action) (reason : Text)
    (s : State) (d : Decided)
    → (decide_read env actor action reason r s).1 ≡ decided d
    → let t = (decide_read env actor action reason r s).0 in
      (before after : Template) × (r ≡ answer (some before))
      × (assert_allowed action before.status (has_content before) ≡ none)
      × (env.reply (call_of actor before action reason) ≡ answer after)
      × (t.calls ≡ call_of actor before action reason ∷ s.calls)
      × (d.status ≡ after.status)
      × (d.previous_status ≡ before.status)
      × (t.cache ≡ none)
unfolding decide_read Outcome
decide_read-Decided env actor (failure m) action reason s d h = cc
decide_read-Decided env actor (answer none) action reason s d h = cc
decide_read-Decided env actor (answer (some t)) action reason s d h =
    let (after, fine, answered, sent, new, old, dropped) =
      found-Outcome env actor t action reason s d h in
    (t, after, refl, fine, answered, sent, new, old, dropped)

-- A decision is answered only for a template that api-core has, in a status that allows the action,
-- after api-core was told once and answered: the answer has the old status and api-core's new one, and
-- the cached queue is dropped, so that the next list asks api-core.
pub decide-Decided :
    (env : Env) (actor id : String) (action : Action) (reason : Text) (s : State) (d : Decided)
    → (decide env actor id action reason s).1 ≡ decided d
    → let t = (decide env actor id action reason s).0 in
      (before after : Template) × (env.lookup id ≡ answer (some before))
      × (assert_allowed action before.status (has_content before) ≡ none)
      × (env.reply (call_of actor before action reason) ≡ answer after)
      × (t.calls ≡ call_of actor before action reason ∷ s.calls)
      × (d.status ≡ after.status)
      × (d.previous_status ≡ before.status)
      × (t.cache ≡ none)
unfolding decide decide_read Outcome
decide-Decided env actor id action reason s d h =
    decide_read-Decided env actor (env.lookup id) action reason s d h

-- A decision that the rules refuse is not sent, and changes nothing; nor does one for a template that
-- api-core does not have.
pub decide-Refusal :
    (env : Env) (actor id : String) (action : Action) (reason : Text) (s : State)
    → ((t : Template) (e : Refusal)
        → env.lookup id ≡ answer (some t)
        → assert_allowed action t.status (has_content t) ≡ some e
        → decide env actor id action reason s ≡ (s, thrown (refused e)))
      × (env.lookup id ≡ answer none → decide env actor id action reason s ≡ (s, thrown not_found))
unfolding decide
decide-Refusal env actor id action reason s = (
  λ t e found stopped. rw (found, decide_read) (rw (stopped, decide_found) refl),
  λ missing. rw (missing, decide_read) refl,
)

-- Rows that were fetched are given again for fifteen seconds, whatever api-core would answer, and
-- after that it is asked again; a failure is never kept.
pub everything_again :
    (env later : Env) (s : State) (rows : List Template)
    → cached env.now s.cache ≡ none
    → fetch env.queue statuses ≡ answer rows
    → let t = (everything env s).0 in
      (everything env s ≡ (record s { cache = some (env.now, rows) }, answer rows))
      × (later.now < env.now + cache_ms → everything later t ≡ (t, answer rows))
      × (env.now + cache_ms ≤ later.now
          → (m : Text) → fetch later.queue statuses ≡ failure m
          → everything later t ≡ (t, failure m))
unfolding everything
everything_again env later s rows old fetched =
    let first : everything env s ≡ (record s { cache = some (env.now, rows) }, answer rows) =
      rw (old, everything_from) (rw (fetched, refill) refl) in
    let fresh : later.now < env.now + cache_ms → ltb (later.now - env.now) cache_ms ≡ true =
      λ h. ground arith in
    let over : env.now + cache_ms ≤ later.now → ltb (later.now - env.now) cache_ms ≡ false =
      λ h. ground arith in
    (
      first,
      λ h. rw first (rw (fresh h, everything_from) refl),
      λ h m failed. rw first (rw (over h, everything_from) (rw (failed, refill) refl)),
    )

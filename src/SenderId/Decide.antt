-- ===== src/SenderId/Decide.antt =====
-- What a decision on a sender ID review checks and writes.
use zapiack_console_backend.Common.{
  String, true, false, ◌≡◌, ◌≢◌, refl, Option, none, some, List, [], ◌∷◌, arith, All, any,
  Option-cases, inl, inr,
}
use zapiack_console_backend.Common.Text.{Text, trim, to_upper}
use zapiack_console_backend.Common.Table.{find, put, find-put_self}
use zapiack_console_backend.SenderId.Status.{
  Decision, already, status_name, product_eq, decided_as, present_status, to_review_status,
  assert_decision, customer_notice,
}
use zapiack_console_backend.SenderId.Status.Laws.{assert_decision_lem}
use zapiack_console_backend.SenderId.{
  Application, Item, Review, State, Error, refused, audit_failed, DecisionInput, Env, done, thrown,
  decision_of, written_reason, is_blank, is_unchecked, has_failed, decided_application,
  decided_review, review_refusal, is_stale, commit, decide_live, decide_found, decide,
  decide_action, decision_text, decision_status,
}

-- A decision that is refused, for whatever reason but a lost audit row, changes nothing.
pub decide_refused :
    (env : Env) (actor id : String) (input : DecisionInput) (given : Option Text) (s : State)
    (e : Error)
    → (decide env actor id input given s).1 ≡ thrown e
    → e ≢ audit_failed
    → (decide env actor id input given s).0 ≡ s
unfolding decide
decide_refused env actor id input given s e h n = ground arith

abbrev pub HasPassed : Item → Type 0
HasPassed item = item.passed ≡ some true

all_passed :
    (items : List Item)
    → any is_unchecked items ≡ false
    → any has_failed items ≡ false
    → All HasPassed items
all_passed [] h k = tt
all_passed (item ∷ items) h k = (ground arith, all_passed items (ground arith) (ground arith))

-- What the checks on the review alone let through.
let_through :
    (r : Review) (d : Decision) (why : Option Text)
    → review_refusal r d why ≡ none
    → (product_eq (present_status (status_name r.status)) (decided_as d) ≡ false)
      × (d ≡ Decision.rejected → is_blank why ≡ false)
      × (d ≡ Decision.approved → All HasPassed r.checklist)
unfolding review_refusal
let_through r Decision.approved why h = (
  ground (arith, assert_decision_lem (status_name r.status) Decision.approved),
  λ e. cc,
  λ e. all_passed r.checklist (ground arith) (ground arith),
)
let_through r Decision.rejected why h = (
  ground (arith, assert_decision_lem (status_name r.status) Decision.rejected),
  λ e. ground arith,
  λ e. cc,
)

-- A decision is answered only for a stored review and its application, when the application does not
-- already present as decided so, the product still shows it as the review does, a rejection has a
-- reason that is not blank, and for an approval every item of the checklist has passed.
pub decide_checked :
    (env : Env) (actor id : String) (input : DecisionInput) (given : Option Text) (s : State)
    (r' : Review)
    → (decide env actor id input given s).1 ≡ done r'
    → (r : Review) × (app : Application) × (find id s.reviews ≡ some r)
      × (find r.application_id s.applications ≡ some app)
      × (is_stale (to_review_status app.status) r.status ≡ false)
      × (product_eq (present_status (status_name r.status)) (decided_as (decision_of input))
          ≡ false)
      × (decision_of input ≡ Decision.rejected → is_blank (written_reason input given) ≡ false)
      × (decision_of input ≡ Decision.approved → All HasPassed r.checklist)
unfolding decide
decide_checked env actor id input given s r' h = elim (Option-cases (find id s.reviews)) [
  | inl missing ↦ absurd (ground arith)
  | inr (r, found) ↦
      elim (Option-cases (review_refusal r (decision_of input) (written_reason input given))) [
        | inr (e, stopped) ↦ absurd (ground arith)
        | inl fine ↦ elim (Option-cases (find r.application_id s.applications)) [
          | inl gone ↦ absurd (ground arith)
          | inr (app, there) ↦
              let (changes, explained, passed) =
                let_through r (decision_of input) (written_reason input given) fine in
              (r, app, found, there, ground arith, changes, explained, passed)
        ]
      ]
]

-- The product's row and the review after a decision name the same status.
in_sync : (d : Decision) → to_review_status (decision_text d) ≡ some (decision_status d)
unfolding to_review_status trim to_upper
in_sync Decision.approved = refl
in_sync Decision.rejected = refl

commit_reviews :
    (env : Env) (actor id : String) (r : Review) (app : Application) (d : Decision)
    (why : Option Text) (s : State)
    → (commit env actor id r app d why s).reviews
      ≡ put id (decided_review env actor d why r) s.reviews
unfolding commit
commit_reviews env actor id r app d why s = ground arith

commit_applications :
    (env : Env) (actor id : String) (r : Review) (app : Application) (d : Decision)
    (why : Option Text) (s : State)
    → ((commit env actor id r app d why s).applications
        ≡ put r.application_id (decided_application env d why app) s.applications)
      × ((commit env actor id r app d why s).cleared ≡ app.project_id ∷ s.cleared)
unfolding commit
commit_applications env actor id r app d why s = (ground arith, ground arith)

commit_told :
    (env : Env) (actor id : String) (r : Review) (app : Application) (d : Decision)
    (why : Option Text) (s : State) (user : String)
    → find r.account_id s.user_of_account ≡ some user
    → ((commit env actor id r app d why s).user_notices
        ≡ record {
          user_id = user;
          account_id = r.account_id;
          application_id = r.application_id;
          status = d;
          notice = customer_notice d r.sender_id why;
        }
          ∷ s.user_notices)
      × ((commit env actor id r app d why s).nudged ≡ user ∷ s.nudged)
unfolding commit
commit_told env actor id r app d why s user h = (ground arith, ground arith)

-- The state and the answer of a decision that is let through.
through :
    (env : Env) (actor id : String) (input : DecisionInput) (given : Option Text) (s : State)
    (r : Review) (app : Application)
    → find id s.reviews ≡ some r
    → find r.application_id s.applications ≡ some app
    → review_refusal r (decision_of input) (written_reason input given) ≡ none
    → is_stale (to_review_status app.status) r.status ≡ false
    → env.audit_ok (decide_action (decision_of input)) ≡ true
    → let why = written_reason input given in
      let t = commit env actor id r app (decision_of input) why s in
      decide env actor id input given s ≡ (
        record t {
          audits =
              record {
                action = decide_action (decision_of input);
                actor_id = actor;
                target_id = r.application_id;
              }
              ∷ t.audits;
        },
        done (decided_review env actor (decision_of input) why r),
      )
unfolding decide
through env actor id input given s r app found there fine live written =
    rw (found, decide_found) (rw fine (rw (there, decide_live) (rw (live, written) refl)))

refuses_again :
    (d : Decision) → assert_decision (status_name (decision_status d)) d ≡ some (already d)
unfolding assert_decision present_status
refuses_again Decision.approved = refl
refuses_again Decision.rejected = refl

already_decided :
    (r : Review) (d : Decision) (why : Option Text)
    → r.status ≡ decision_status d
    → review_refusal r d why ≡ some (refused (already d))
unfolding review_refusal
already_decided r d why e = ground (arith, refuses_again d)

decide_again :
    (env : Env) (actor id : String) (input : DecisionInput) (given : Option Text) (s : State)
    (r : Review)
    → r.status ≡ decision_status (decision_of input)
    → find id s.reviews ≡ some r
    → decide env actor id input given s ≡ (s, thrown (refused (already (decision_of input))))
unfolding decide
decide_again env actor id input given s r e found =
    rw (found, decide_found)
      (rw (already_decided r (decision_of input) (written_reason input given) e) refl)

-- A decision that passes the checks, with its audit row written: the review and the product's row
-- both carry it, and agree; the customer of a known account is notified and the dashboard nudged;
-- the project's cached sender ID is dropped; and the same decision again is refused as already made.
pub decide_written :
    (env later : Env) (actor id : String) (input : DecisionInput) (given again : Option Text)
    (s : State) (r : Review) (app : Application)
    → find id s.reviews ≡ some r
    → find r.application_id s.applications ≡ some app
    → review_refusal r (decision_of input) (written_reason input given) ≡ none
    → is_stale (to_review_status app.status) r.status ≡ false
    → env.audit_ok (decide_action (decision_of input)) ≡ true
    → let d = decision_of input in
      let why = written_reason input given in
      let t = (decide env actor id input given s).0 in
      (find id t.reviews ≡ some (decided_review env actor d why r))
      × (find r.application_id t.applications ≡ some (decided_application env d why app))
      × (to_review_status (decided_application env d why app).status
          ≡ some (decided_review env actor d why r).status)
      × (t.cleared ≡ app.project_id ∷ s.cleared)
      × ((user : String)
          → find r.account_id s.user_of_account ≡ some user
          → (t.user_notices
              ≡ record {
                user_id = user;
                account_id = r.account_id;
                application_id = r.application_id;
                status = d;
                notice = customer_notice d r.sender_id why;
              }
                ∷ s.user_notices)
            × (t.nudged ≡ user ∷ s.nudged))
      × (decide later actor id input again t ≡ (t, thrown (refused (already d))))
decide_written env later actor id input given again s r app found there fine live written =
    let d = decision_of input in
    let why = written_reason input given in
    let t = commit env actor id r app d why s in
    let (apps, cleared) = commit_applications env actor id r app d why s in
    let row : find id t.reviews ≡ some (decided_review env actor d why r) =
      rw (commit_reviews env actor id r app d why s)
        (find-put_self id (decided_review env actor d why r) s.reviews) in
    rw (through env actor id input given s r app found there fine live written) (
      row,
      rw apps (find-put_self r.application_id (decided_application env d why app) s.applications),
      in_sync d,
      cleared,
      λ user h. commit_told env actor id r app d why s user h,
      decide_again later actor id input again _ (decided_review env actor d why r) refl row,
    )

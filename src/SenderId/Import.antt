-- ===== src/SenderId/Import.antt =====
-- The import of the product's applications: `syncFromProduct` of
-- src/modules/sender-ids/sender-ids.service.ts, by one instance. The applications and the reviews are
-- read once, before anything is written.
pub mod Laws
use zapiack_console_backend.Common.{
  ℕ, suc, String, Bool, true, false, not, ◌&&◌, Option, none, some, List, [], ◌∷◌, ◌++◌, map,
  is_some, leb, ltb, length, if◌then◌else◌,
}
use zapiack_console_backend.Common.Text.{Text, codes, text_eq, trim, to_upper}
use zapiack_console_backend.Common.Table.{Table}
use zapiack_console_backend.SenderId.Status.{to_review_status}
use zapiack_console_backend.SenderId.Types.{
  Application, Review, State, Env, Error, unique_violation, imported,
}
use zapiack_console_backend.SenderId.Sync.{
  by_application, Ensured, existing, created, no_review, thrown, ensure_review, refresh_drifted,
}

-- The loop's variables: `skipped` has the keys of `unmapped`, newest first, each as often as counted.
pub record Import : Type 0 where
  pub state : State
  pub created : ℕ
  pub skipped : List Text
  pub error : Option Error

abbrev pub is_draft : Text → Bool
is_draft status = text_eq (to_upper (trim status)) (codes "DRAFT")

-- `application.status || '(empty)'`
abbrev skipped_key : Text → Text
skipped_key [] = codes "(empty)"
skipped_key (c ∷ s) = c ∷ s

-- After `ensureReview`: a unique column that another instance filled is passed over.
unfoldable pub ensured : Import → State × Ensured → Import
ensured p (t, existing id r) = record p { state = t; created = suc p.created }
ensured p (t, created id r) = record p { state = t; created = suc p.created }
ensured p (t, no_review) = record p { state = t }
ensured p (t, thrown unique_violation) = record p { state = t }
ensured p (t, thrown e) = record p { state = t; error = some e }

-- One round of the loop; none follows an exception.
unfoldable pub import_one : Env → Bool → String → Application → Import → Import
import_one env loud id app p =
    if is_some p.error
    then p
    else if is_draft app.status
    then p
    else if is_some (to_review_status app.status)
    then ensured p (ensure_review env id loud p.state)
    else record p { skipped = skipped_key app.status ∷ p.skipped }

unfoldable pub import_each : Env → Bool → Table Application → Import → Import
import_each env loud [] p = p
import_each env loud ((id, app) ∷ t) p = import_each env loud t (import_one env loud id app p)

-- The applications without a review.
unfoldable pub missing_of : Table Review → Table Application → Table Application
missing_of reviews [] = []
missing_of reviews ((id, app) ∷ t) =
    let rest = missing_of reviews t in
    if is_some (by_application id reviews) then rest else (id, app) ∷ rest

-- The one summary of a large import; its link opens no review.
summarise : Bool → Import → Import
summarise loud p =
    if not (is_some p.error) && not loud && ltb 0 p.created
    then record p {
      state = record p.state {
        alerts =
            map (λ m. record { kind = imported; staff_id = m; review_id = "" }) p.state.reviewers
            ++ p.state.alerts;
      };
    }
    else p

-- The loop and the summary, and how many reviews were refreshed.
pub sync_from_product : Env → State → Import × ℕ
unfolding summarise
sync_from_product env s =
    let refreshed = refresh_drifted env s.applications s.reviews in
    let missing = missing_of s.reviews s.applications in
    let loud = leb (length missing) 5 in
    let start : Import = record {
      state = record s { reviews = refreshed.0 };
      created = 0;
      skipped = [];
      error = none;
    } in
    (summarise loud (import_each env loud missing start), refreshed.1)

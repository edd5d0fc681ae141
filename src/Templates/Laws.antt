-- ===== src/Templates/Laws.antt =====
-- Which actions each status allows, and what a refusal says.
use zapiack_console_backend.Common.{
  String, Bool, not, ◌&&◌, ◌||◌, ◌≡◌, refl, str_eq, arith, is_some,
}
use zapiack_console_backend.Common.Table.{str_other}
use zapiack_console_backend.Templates.{
  Action, approve, reject, revoke, allowed_actions, assert_allowed,
}

abbrev pub is_waiting : String → Bool
is_waiting status = str_eq status "DRAFT" || str_eq status "SUBMITTED" || str_eq status "IN_REVIEW"

abbrev pub is_allowed : Action → String → Bool → Bool
is_allowed action status has_content = not (is_some (assert_allowed action status has_content))

-- A template can be approved exactly when it has content and is waiting (a draft included) or
-- rejected, rejected exactly when it is waiting, and revoked exactly when it is approved: nothing is
-- allowed in a status that is none of the five.
pub assert_allowed_lem :
    (status : String) (has_content : Bool)
    → (is_allowed approve status has_content
        ≡ (has_content && (is_waiting status || str_eq status "REJECTED")))
      × (is_allowed reject status has_content ≡ is_waiting status)
      × (is_allowed revoke status has_content ≡ str_eq status "APPROVED")
unfolding assert_allowed allowed_actions
assert_allowed_lem status has_content =
    let rejected_approved = str_other status "REJECTED" "APPROVED" refl in
    let draft_approved = str_other status "DRAFT" "APPROVED" refl in
    let submitted_approved = str_other status "SUBMITTED" "APPROVED" refl in
    let review_approved = str_other status "IN_REVIEW" "APPROVED" refl in
    (
      ground (arith, rejected_approved),
      ground arith,
      ground (arith, draft_approved, submitted_approved, review_approved),
    )

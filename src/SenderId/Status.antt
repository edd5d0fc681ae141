-- ===== src/SenderId/Status.antt =====
-- The statuses of a sender ID review and what may be decided: src/modules/sender-ids/sender-id-state.ts.
pub mod Laws
use zapiack_console_backend.Common.{
  ℕ, String, Bool, true, false, ◌≡◌, ◌≢◌, ◌↔◌, refl, Option, none, some, List, [], ◌∷◌, ◌++◌, Memᴰ,
  str_eq, if◌then◌else◌, any, arith,
}
use zapiack_console_backend.Common.Text.{Text, codes, text_eq, trim, to_upper}

pub data ReviewStatus : Type 0 where
  submitted in_review changes_requested rejected approved : ReviewStatus
  submitted_to_operators active operator_rejected suspended : ReviewStatus

pub data ProductStatus : Type 0 where
  draft pending_review approved rejected : ProductStatus

pub data Decision : Type 0 where
  approved rejected : Decision

-- The keys of `AS_PRODUCT`, in their order.
abbrev pub all_review_statuses : List ReviewStatus
all_review_statuses =
    submitted ∷ in_review ∷ ReviewStatus.approved ∷ ReviewStatus.rejected ∷ changes_requested
    ∷ submitted_to_operators ∷ active ∷ operator_rejected ∷ suspended ∷ []

abbrev pub as_product : ReviewStatus → ProductStatus
as_product submitted = pending_review
as_product in_review = pending_review
as_product ReviewStatus.approved = ProductStatus.approved
as_product ReviewStatus.rejected = ProductStatus.rejected
as_product changes_requested = ProductStatus.rejected
as_product submitted_to_operators = ProductStatus.approved
as_product active = ProductStatus.approved
as_product operator_rejected = ProductStatus.rejected
as_product suspended = ProductStatus.rejected

abbrev pub status_name : ReviewStatus → String
status_name submitted = "SUBMITTED"
status_name in_review = "IN_REVIEW"
status_name changes_requested = "CHANGES_REQUESTED"
status_name ReviewStatus.rejected = "REJECTED"
status_name ReviewStatus.approved = "APPROVED"
status_name submitted_to_operators = "SUBMITTED_TO_OPERATORS"
status_name active = "ACTIVE"
status_name operator_rejected = "OPERATOR_REJECTED"
status_name suspended = "SUSPENDED"

-- `AS_PRODUCT[status]`, where an unknown key gives `undefined`
find_status : List ReviewStatus → String → Option ProductStatus
find_status [] name = none
find_status (r ∷ rs) name =
    if str_eq (status_name r) name then some (as_product r) else find_status rs name

abbrev or_pending : Option ProductStatus → ProductStatus
or_pending none = pending_review
or_pending (some p) = p

unfoldable pub present_status : String → ProductStatus
unfolding find_status
present_status status = or_pending (find_status all_review_statuses status)

abbrev pub product_name : ProductStatus → String
product_name draft = "DRAFT"
product_name pending_review = "PENDING_REVIEW"
product_name ProductStatus.approved = "APPROVED"
product_name ProductStatus.rejected = "REJECTED"

unfoldable pub to_review_status : Text → Option ReviewStatus
to_review_status product_status =
    let name = to_upper (trim product_status) in
    if text_eq name (codes "PENDING_REVIEW")
    then some submitted
    else if text_eq name (codes "APPROVED")
    then some ReviewStatus.approved
    else if text_eq name (codes "REJECTED")
    then some ReviewStatus.rejected
    else none

abbrev pub product_eq : ProductStatus → ProductStatus → Bool
product_eq draft draft = true
product_eq pending_review pending_review = true
product_eq ProductStatus.approved ProductStatus.approved = true
product_eq ProductStatus.rejected ProductStatus.rejected = true
product_eq _ _ = false

presenting : ProductStatus → List ReviewStatus → List ReviewStatus
presenting p [] = []
presenting p (r ∷ rs) =
    let rest = presenting p rs in if product_eq (as_product r) p then r ∷ rest else rest

unfoldable pub review_statuses_for : ProductStatus → List ReviewStatus
unfolding presenting
review_statuses_for p = presenting p all_review_statuses

unfoldable pub allowed_decisions : String → List Decision
allowed_decisions status = elim (present_status status) [
  | pending_review ↦ Decision.approved ∷ Decision.rejected ∷ []
  | ProductStatus.approved ↦ Decision.rejected ∷ []
  | ProductStatus.rejected ↦ Decision.approved ∷ []
  | draft ↦ []
]

abbrev pub decided_as : Decision → ProductStatus
decided_as Decision.approved = ProductStatus.approved
decided_as Decision.rejected = ProductStatus.rejected

abbrev decision_eq : Decision → Decision → Bool
decision_eq Decision.approved Decision.approved = true
decision_eq Decision.rejected Decision.rejected = true
decision_eq _ _ = false

-- The two messages of the exception.
pub data Refusal : Type 0 where
  already : Decision → Refusal
  cannot : ProductStatus → Decision → Refusal

-- `none` where the method returns.
unfoldable pub assert_decision : String → Decision → Option Refusal
unfolding allowed_decisions
assert_decision current decision =
    if any (decision_eq decision) (allowed_decisions current)
    then none
    else if product_eq (present_status current) (decided_as decision)
    then some (already decision)
    else some (cannot (present_status current) decision)

-- `REASON_REQUIRED.includes(decision)`
abbrev pub reason_required : Decision → Bool
reason_required d = any (decision_eq d) (Decision.rejected ∷ [])

pub data Severity : Type 0 where
  success error : Severity

pub record Notice : Type 0 where
  pub severity : Severity
  pub title : Text
  pub body : Text

abbrev said : Option Text → Text
said none = codes "Your application was not approved."
said (some reason) = trim reason

unfoldable pub customer_notice : Decision → Text → Option Text → Notice
customer_notice Decision.approved sender_id reason = record {
  severity = success;
  title = codes "Sender ID " ++ sender_id ++ codes " approved";
  body =
      codes "Your sender ID "
      ++ sender_id
      ++ codes " has been approved. Messages from your project now go out under it.";
}
customer_notice Decision.rejected sender_id reason = record {
  severity = error;
  title = codes "Sender ID " ++ sender_id ++ codes " was not approved";
  body = said reason ++ codes " You can edit your application and submit it again.";
}

abbrev pub checklist : List String
checklist =
    "business_registration_matches" ∷ "loa_signed" ∷ "matches_brand" ∷ "sample_content_ok" ∷ []

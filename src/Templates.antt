-- ===== src/Templates.antt =====
-- What a reviewer may do to a template, and how the console reads what api-core stores:
-- src/modules/templates/template-rules.ts.
pub mod Laws
pub mod Review
mod Tests
use zapiack_console_backend.Common.{
  ℕ, String, Bool, true, false, not, ◌&&◌, ◌||◌, Option, none, some, List, [], ◌∷◌, ◌++◌, map, any,
  str_eq, if◌then◌else◌, ◌==◌,
}
use zapiack_console_backend.Common.Text.{Text, codes, trim}

pub data Action : Type 0 where
  approve reject revoke : Action

abbrev pub action_eq : Action → Action → Bool
action_eq approve approve = true
action_eq reject reject = true
action_eq revoke revoke = true
action_eq _ _ = false

abbrev pub statuses : List String
statuses = "DRAFT" ∷ "SUBMITTED" ∷ "IN_REVIEW" ∷ "APPROVED" ∷ "REJECTED" ∷ []

unfoldable pub allowed_actions : String → Bool → List Action
allowed_actions status has_content =
    if str_eq status "DRAFT"
    then (if has_content then approve ∷ reject ∷ [] else reject ∷ [])
    else if str_eq status "SUBMITTED" || str_eq status "IN_REVIEW"
    then (if has_content then approve ∷ reject ∷ [] else reject ∷ [])
    else if str_eq status "APPROVED"
    then revoke ∷ []
    else if str_eq status "REJECTED"
    then (if has_content then approve ∷ [] else [])
    else []

-- The exceptions of `assertAllowed`, in the order of the code.
pub data Refusal : Type 0 where
  already_approved no_content use_revoke already_rejected : Refusal
  only_approved : String → Refusal
  cannot : Action → String → Refusal

-- After the first test; a later branch is reached where no earlier one throws.
abbrev refusal_of : Action → String → Bool → Refusal
refusal_of approve status has_content =
    if str_eq status "APPROVED"
    then already_approved
    else if not has_content
    then no_content
    else cannot approve status
refusal_of reject status has_content =
    if str_eq status "APPROVED"
    then use_revoke
    else if str_eq status "REJECTED"
    then already_rejected
    else cannot reject status
refusal_of revoke status has_content = only_approved status

-- `none` where the function returns.
unfoldable pub assert_allowed : Action → String → Bool → Option Refusal
assert_allowed action status has_content =
    if any (action_eq action) (allowed_actions status has_content)
    then none
    else some (refusal_of action status has_content)

-- `split('\n')`
unfoldable pub split_lines : Text → List Text
split_lines s = cut s [] []
  where
    cut : Text → Text → List Text → List Text
    cut [] line lines = lines ++ line ∷ []
    cut (c ∷ s) line lines =
        if c == 10 then cut s [] (lines ++ line ∷ []) else cut s (line ++ c ∷ []) lines

abbrev pub is_filled : Text → Bool
is_filled [] = false
is_filled (_ ∷ _) = true

unfoldable pub filled : List Text → List Text
filled [] = []
filled (l ∷ ls) = let rest = filled ls in if is_filled l then l ∷ rest else rest

-- `reviewNotes ?? ''`
abbrev notes_text : Option Text → Text
notes_text none = []
notes_text (some s) = s

unfoldable pub flags_of : Option Text → List Text
flags_of notes = filled (map trim (split_lines (notes_text notes)))

abbrev pub audit_action : Action → String
audit_action approve = "templates.approved"
audit_action revoke = "templates.revoked"
audit_action reject = "templates.rejected"

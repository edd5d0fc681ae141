-- ===== src/SenderId/Status/Laws.antt =====
-- Which decisions are allowed, and how the console's statuses and the product's correspond.
use zapiack_console_backend.Common.{
  mem_cons, String, true, ◌≡◌, ◌≢◌, ◌↔◌, refl, sym, ◌∙◌, none, some, List, [], ◌∷◌, Memᴰ,
  if◌then◌else◌, ap, Bool-cases, Option-cases, inl, inr, arith,
}
use zapiack_console_backend.Common.Text.{Text, codes, trim, to_upper}
use zapiack_console_backend.SenderId.Status.{
  ReviewStatus, submitted, ProductStatus, draft, pending_review, Decision, all_review_statuses,
  as_product, status_name, find_status, present_status, product_name, to_review_status, product_eq,
  presenting, review_statuses_for, decided_as, already, assert_decision,
}

pub present_status_name : (r : ReviewStatus) → present_status (status_name r) ≡ as_product r
unfolding present_status
present_status_name submitted = refl
present_status_name _ = refl

pub product_eq_iff : (p q : ProductStatus) → (product_eq p q ≡ true) ↔ (p ≡ q)
product_eq_iff p q = ground arith

all_mem : (r : ReviewStatus) → Memᴰ r all_review_statuses
all_mem submitted = Memᴰ.head refl
all_mem _ = search (Memᴰ.head, Memᴰ.tail) depth 12

mem_presenting :
    (p : ProductStatus) (rs : List ReviewStatus) {r : ReviewStatus}
    → Memᴰ r (presenting p rs)
    → as_product r ≡ p
unfolding presenting
mem_presenting p [] m = elim m [ ]
mem_presenting p (x ∷ rs) {r} m = elim (Bool-cases (product_eq (as_product x) p)) [
  | inl yes' ↦ elim (mem_cons (rw yes' at m)) [
    | inl e ↦ rw e ((product_eq_iff (as_product x) p).0 yes')
    | inr later ↦ mem_presenting p rs later
  ]
  | inr no' ↦ mem_presenting p rs (rw no' at m)
]

presenting_mem :
    (p : ProductStatus) (rs : List ReviewStatus) {r : ReviewStatus}
    → Memᴰ r rs
    → as_product r ≡ p
    → Memᴰ r (presenting p rs)
unfolding presenting
presenting_mem p [] m e = elim m [ ]
presenting_mem p (x ∷ rs) (Memᴰ.head same) e =
    rw ((product_eq_iff (as_product x) p).1 (ap as_product (sym same) ∙ e)) (Memᴰ.head same)
presenting_mem p (x ∷ rs) (Memᴰ.tail m) e = elim (Bool-cases (product_eq (as_product x) p)) [
  | inl yes' ↦ rw yes' (Memᴰ.tail (presenting_mem p rs m e))
  | inr no' ↦ rw no' (presenting_mem p rs m e)
]

as_product-ne-draft : (r : ReviewStatus) → as_product r ≢ draft
as_product-ne-draft submitted e = cc
as_product-ne-draft _ e = cc

find_status-ne-draft : (rs : List ReviewStatus) (name : String) → find_status rs name ≢ some draft
unfolding find_status
find_status-ne-draft [] name e = cc
find_status-ne-draft (r ∷ rs) name e =
    ground (arith, as_product-ne-draft r, find_status-ne-draft rs name)

-- Nothing that the console stores presents as a draft.
pub present_status-ne-draft : (name : String) → present_status name ≢ draft
unfolding present_status
present_status-ne-draft name e = elim (Option-cases (find_status all_review_statuses name)) [
  | inl unknown ↦ cc (rw unknown at e)
  | inr (p, known) ↦ find_status-ne-draft all_review_statuses name (ground arith)
]

by_presented :
    (current : String) (p : ProductStatus) (d : Decision)
    → present_status current ≡ p
    → p ≢ draft
    → assert_decision current d
      ≡ (if product_eq (present_status current) (decided_as d) then some (already d) else none)
unfolding assert_decision
by_presented current p d e n = ground arith

-- A product status other than DRAFT, however it is written in the product's column, is stored as a
-- review status that presents as it; a DRAFT has no review.
pub to_review_status_present :
    (p : ProductStatus) (written : Text)
    → to_upper (trim written) ≡ codes (product_name p)
    → (p ≡ draft → to_review_status written ≡ none)
      × (p ≢ draft
          → (r : ReviewStatus) × (to_review_status written ≡ some r)
            × (present_status (status_name r) ≡ p))
unfolding to_review_status present_status
to_review_status_present draft written e = (λ _. rw e refl, λ n. absurd (n refl))
to_review_status_present pending_review written e = (λ q. cc, λ _. (submitted, rw e refl, refl))
to_review_status_present ProductStatus.approved written e =
    (λ q. cc, λ _. (ReviewStatus.approved, rw e refl, refl))
to_review_status_present ProductStatus.rejected written e =
    (λ q. cc, λ _. (ReviewStatus.rejected, rw e refl, refl))

-- The statuses by which the queue is filtered for a product status are those that present as it.
pub review_statuses_for_iff :
    (p : ProductStatus) (r : ReviewStatus)
    → Memᴰ r (review_statuses_for p) ↔ (present_status (status_name r) ≡ p)
unfolding review_statuses_for
review_statuses_for_iff p r = (
  λ m. present_status_name r ∙ mem_presenting p all_review_statuses m,
  λ e. presenting_mem p all_review_statuses (all_mem r) (sym (present_status_name r) ∙ e),
)

-- A decision is let through exactly when the application does not already present as decided so;
-- every refusal says that it is.
pub assert_decision_lem :
    (current : String) (d : Decision)
    → assert_decision current d
      ≡ (if product_eq (present_status current) (decided_as d) then some (already d) else none)
assert_decision_lem current d =
    by_presented current (present_status current) d refl (present_status-ne-draft current)

-- ===== src/SenderId/Import/Laws.antt =====
-- Nothing that the queue knows is left without a review by an import.
use zapiack_console_backend.Common.{
  String, Bool, true, false, ◌≡◌, refl, ◌∙◌, ap, subst, none, some, [], ◌∷◌, arith, eq_iff, str_eq,
  is_some, Option-cases, Bool-cases, inl, inr, ◌⊎◌, All, leb, length,
}
use zapiack_console_backend.Common.Text.{Text, codes, text_eq, trim, to_upper}
use zapiack_console_backend.Common.Table.{Table, find}
use zapiack_console_backend.SenderId.Status.{ReviewStatus, to_review_status}
use zapiack_console_backend.SenderId.Types.{Application, Review, State, Env, unique_violation}
use zapiack_console_backend.SenderId.Sync.{
  by_application, Ensured, existing, created, thrown, ensure_review, refresh_drifted,
}
use zapiack_console_backend.SenderId.Sync.Coverage.{
  IsCovered, ensure_review-IsCovered, by_application-refresh_drifted,
}
use zapiack_console_backend.SenderId.Import.{
  Import, is_draft, ensured, import_one, import_each, missing_of, summarise, sync_from_product,
}

text_eq_sound : (s t : Text) → text_eq s t ≡ true → s ≡ t
text_eq_sound [] [] h = refl
text_eq_sound [] (d ∷ t) h = cc
text_eq_sound (c ∷ s) [] h = cc
text_eq_sound (c ∷ s) (d ∷ t) h = ground (arith, text_eq_sound s t)

unmapped_draft : (status : Text) → is_draft status ≡ true → to_review_status status ≡ none
unfolding to_review_status
unmapped_draft status h = rw (text_eq_sound (to_upper (trim status)) (codes "DRAFT") h) refl

-- How a call of `ensureReview` that does not fail ends.
abbrev IsFine : Ensured → Type 0
IsFine e =
    (((j : String) × (r : Review) × (e ≡ existing j r))
      ⊎ ((j : String) × (r : Review) × (e ≡ created j r)))
    ⊎ (e ≡ thrown unique_violation)

ensured_fine :
    (p : Import) (out : State × Ensured)
    → IsFine out.1
    → ((ensured p out).state ≡ out.0) × ((ensured p out).error ≡ p.error)
unfolding ensured
ensured_fine p (t, e) (inl (inl (j, r, h))) = rw h (refl, refl)
ensured_fine p (t, e) (inl (inr (j, r, h))) = rw h (refl, refl)
ensured_fine p (t, e) (inr h) = rw h (refl, refl)

-- Every row of the table is the one under its id.
abbrev pub IsKeyed : Table Application → Table Application → Type 0
IsKeyed apps rows = All (λ row. find row.0 apps ≡ some row.1) rows

module _ (env : Env) (loud : Bool) where
  -- What a round of the loop leaves for the next.
  abbrev Goes : Import → Import → Type 0
  Goes p q =
      (q.error ≡ none)
      × (q.state.applications ≡ p.state.applications)
      × ((a : String) → IsCovered env a p.state.reviews → IsCovered env a q.state.reviews)

  import_draft :
      (id : String) (app : Application) (p : Import)
      → is_draft app.status ≡ true
      → import_one env loud id app p ≡ p
  unfolding import_one
  import_draft id app p draft = ground arith

  import_unknown :
      (id : String) (app : Application) (p : Import)
      → to_review_status app.status ≡ none
      → let q = import_one env loud id app p in (q.error ≡ p.error) × (q.state ≡ p.state)
  unfolding import_one
  import_unknown id app p unknown = (ground arith, ground arith)

  import_known :
      (id : String) (app : Application) (p : Import) (m : ReviewStatus)
      → p.error ≡ none
      → is_draft app.status ≡ false
      → to_review_status app.status ≡ some m
      → import_one env loud id app p ≡ ensured p (ensure_review env id loud p.state)
  unfolding import_one
  import_known id app p m fine filed mapped = ground arith

  import_one-Goes :
      (id : String) (app : Application) (p : Import)
      → p.error ≡ none
      → find id p.state.applications ≡ some app
      → Goes p (import_one env loud id app p)
        × ((m : ReviewStatus)
            → to_review_status app.status ≡ some m
            → IsCovered env id (import_one env loud id app p).state.reviews)
  import_one-Goes id app p fine found = elim (Bool-cases (is_draft app.status)) [
    | inl draft ↦
        rw (import_draft id app p draft)
          ((fine, refl, λ a h. h), λ m mapped. cc (unmapped_draft app.status draft))
    | inr filed ↦ elim (Option-cases (to_review_status app.status)) [
      | inl unknown ↦
          let (error, same) = import_unknown id app p unknown in
          ((error ∙ fine, ap (λ s. s.applications) same, λ a h. rw same h), λ m mapped. cc)
      | inr (m, mapped) ↦
          let (covered, kept, apps, ends) =
            ensure_review-IsCovered env id loud p.state app m found mapped in
          let (same, error) = ensured_fine p (ensure_review env id loud p.state) ends in
          rw (import_known id app p m fine filed mapped) (
            (error ∙ fine, ap (λ s. s.applications) same ∙ apps, λ a h. rw same (kept a h)),
            λ _ _. rw same covered,
          )
    ]
  ]

  import_each-Goes :
      (rows : Table Application) (p : Import)
      → p.error ≡ none
      → IsKeyed p.state.applications rows
      → Goes p (import_each env loud rows p)
        × All
            (λ row.
              (m : ReviewStatus)
              → to_review_status row.1.status ≡ some m
              → IsCovered env row.0 (import_each env loud rows p).state.reviews)
            rows
  unfolding import_each
  import_each-Goes [] p fine keyed = ((fine, refl, λ a h. h), tt)
  import_each-Goes ((id, app) ∷ rows) p fine (found, keyed) =
      let q = import_one env loud id app p in
      let ((error, apps, kept), now) = import_one-Goes id app p fine found in
      let keyed' : IsKeyed q.state.applications rows = rw apps keyed in
      let ((error', apps', kept'), later) = import_each-Goes rows q error keyed' in
      (
        (error', apps' ∙ apps, λ a h. kept' a (kept a h)),
        (λ m mapped. kept' id (now m mapped), later),
      )

missing_row :
    (P : String × Application → Type 0) (reviews : Table Review) (id : String) (app : Application)
    (t : Table Application)
    → find id t ≡ some app
    → by_application id reviews ≡ none
    → All P (missing_of reviews t)
    → P (id, app)
unfolding find missing_of
missing_row P reviews id app [] found none_yet h = cc
missing_row P reviews id app ((i, x) ∷ t) found none_yet h = elim (Bool-cases (str_eq i id)) [
  | inl here ↦
      let same : x ≡ app = ground arith in
      let first : (i, x) ≡ (id, app) = cc ((eq_iff i id).0 here, same) in
      let free : is_some (by_application i reviews) ≡ false =
        rw ((eq_iff i id).0 here, none_yet) refl in
      subst P first (rw free at h).0
  | inr other ↦ elim (Bool-cases (is_some (by_application i reviews))) [
    | inl there ↦ missing_row P reviews id app t (rw other at found) none_yet (rw there at h)
    | inr absent ↦ missing_row P reviews id app t (rw other at found) none_yet (rw absent at h).1
  ]
]

missing_all :
    (P : String × Application → Type 0) (reviews : Table Review) (t : Table Application)
    → All P t
    → All P (missing_of reviews t)
unfolding missing_of
missing_all P reviews [] h = tt
missing_all P reviews ((i, x) ∷ t) (p, h) = elim (Bool-cases (is_some (by_application i reviews))) [
  | inl there ↦ rw there (missing_all P reviews t h)
  | inr absent ↦ rw absent (p, missing_all P reviews t h)
]

summarise_reviews :
    (loud : Bool) (p : Import)
    → ((summarise loud p).state.reviews ≡ p.state.reviews) × ((summarise loud p).error ≡ p.error)
unfolding summarise
summarise_reviews loud p = (ground arith, ground arith)

-- An import ends without an exception, and after it every application of the product whose status the
-- queue knows has a review, but where the id drawn for its review is that of another's. The ids of
-- the applications must be unique.
pub sync_from_product-IsCovered :
    (env : Env) (s : State)
    → IsKeyed s.applications s.applications
    → let out = (sync_from_product env s).0 in
      (out.error ≡ none)
      × ((id : String) (app : Application) (m : ReviewStatus)
          → find id s.applications ≡ some app
          → to_review_status app.status ≡ some m
          → IsCovered env id out.state.reviews)
unfolding sync_from_product
sync_from_product-IsCovered env s keyed =
    let refreshed = refresh_drifted env s.applications s.reviews in
    let rows = missing_of s.reviews s.applications in
    let loud = leb (length rows) 5 in
    let start : Import = record {
      state = record s { reviews = refreshed.0 };
      created = 0;
      skipped = [];
      error = none;
    } in
    let end = import_each env loud rows start in
    let ((fine, _, kept), each) = import_each-Goes env loud rows start refl (
      missing_all (λ row. find row.0 s.applications ≡ some row.1) s.reviews s.applications keyed) in
    let (same, error) = summarise_reviews loud end in
    (
      error ∙ fine,
      λ id app m found mapped. rw same (elim (Option-cases (by_application id s.reviews)) [
        | inr (q, before) ↦ kept id (
            inl
              (by_application-refresh_drifted env s.applications id s.reviews ∙ ap is_some before))
        | inl none_yet ↦
            missing_row
              (λ row.
                (m : ReviewStatus)
                → to_review_status row.1.status ≡ some m
                → IsCovered env row.0 end.state.reviews)
              s.reviews id app s.applications found none_yet each m mapped
      ]),
    )

-- ===== src/SenderId/Sync/Coverage.antt =====
-- Which applications have a review, and that neither a refresh nor a new review loses one.
use zapiack_console_backend.Common.{
  String, Bool, true, false, ◌≡◌, ◌≢◌, refl, ◌∙◌, ap, none, some, [], ◌∷◌, arith, str_eq, is_some,
  Option-cases, Bool-cases, inl, inr, ◌⊎◌,
}
use zapiack_console_backend.Common.Table.{Table, find, put, find-put_ne}
use zapiack_console_backend.SenderId.Status.{ReviewStatus, to_review_status}
use zapiack_console_backend.SenderId.Types.{Application, Review, State, Env, unique_violation}
use zapiack_console_backend.SenderId.Sync.{
  or_else, by_application, new_review, existing, created, thrown, create_review, ensure_missing,
  ensure_found, announce, ensure_review, refreshed, refresh_row, refresh_drifted,
}
use zapiack_console_backend.SenderId.Sync.Laws.{announce_reviews, by_application-put}

-- The application has a review, or the id drawn for its review is that of another's.
abbrev pub IsCovered : Env → String → Table Review → Type 0
IsCovered env a t =
    (is_some (by_application a t) ≡ true)
    ⊎ ((r : Review) × (find (env.fresh_id a) t ≡ some r) × (str_eq r.application_id a ≡ false))

by_application-put_keeps :
    (id a : String) (r : Review) (t : Table Review)
    → find id t ≡ none
    → is_some (by_application a t) ≡ true
    → is_some (by_application a (put id r t)) ≡ true
unfolding by_application find put
by_application-put_keeps id a r [] free h = ground arith
by_application-put_keeps id a r ((i, x) ∷ t) free h =
    ground (arith, by_application-put_keeps id a r t)

other_application :
    (a j : String) (q : Review) (t : Table Review)
    → by_application a t ≡ none
    → find j t ≡ some q
    → str_eq q.application_id a ≡ false
unfolding by_application find
other_application a j q [] none_yet h = cc
other_application a j q ((i, x) ∷ t) none_yet h = ground (arith, other_application a j q t)

put-IsCovered :
    (env : Env) (id a : String) (r : Review) (t : Table Review)
    → find id t ≡ none
    → IsCovered env a t
    → IsCovered env a (put id r t)
put-IsCovered env id a r t free (inl h) = inl (by_application-put_keeps id a r t free h)
put-IsCovered env id a r t free (inr (q, found, other)) =
    let apart : id ≢ env.fresh_id a = λ e. cc (ap (λ x. find x t) e) in
    inr (q, find-put_ne id (env.fresh_id a) r t apart ∙ found, other)

announce_applications :
    (loud : Bool) (id : String) (s : State) → (announce loud id s).applications ≡ s.applications
unfolding announce
announce_applications true id s = refl
announce_applications false id s = refl

-- What `ensureReview` does to the applications that are covered, for a stored application whose
-- status the queue knows.
pub ensure_review-IsCovered :
    (env : Env) (id : String) (loud : Bool) (s : State) (app : Application) (m : ReviewStatus)
    → find id s.applications ≡ some app
    → to_review_status app.status ≡ some m
    → let out = ensure_review env id loud s in
      IsCovered env id out.0.reviews
      × ((a : String) → IsCovered env a s.reviews → IsCovered env a out.0.reviews)
      × (out.0.applications ≡ s.applications)
      × ((((j : String) × (r : Review) × (out.1 ≡ existing j r))
            ⊎ ((j : String) × (r : Review) × (out.1 ≡ created j r)))
          ⊎ (out.1 ≡ thrown unique_violation))
unfolding ensure_review announce
ensure_review-IsCovered env id loud s app m found mapped =
    elim (Option-cases (by_application id s.reviews)) [
      | inr ((j, r), there) ↦
          rw (there, ensure_found) (inl (ap is_some there), λ a h. h, refl, inl (inl (j, r, refl)))
      | inl missing ↦ elim (Option-cases (find (env.fresh_id id) s.reviews)) [
        | inr (q, taken) ↦
            rw (missing, ensure_found)
              (rw (found, ensure_missing)
                (rw (mapped, create_review)
                  (rw taken (
                    inr (
                      q,
                      taken,
                      other_application id (env.fresh_id id) q s.reviews missing taken,
                    ),
                    λ a h. h,
                    refl,
                    inr refl,
                  ))))
        | inl free ↦
            let j = env.fresh_id id in
            let r = new_review env id app m in
            let kept = announce_reviews loud j (record s { reviews = put j r s.reviews }) in
            rw (missing, ensure_found)
              (rw (found, ensure_missing)
                (rw (mapped, create_review)
                  (rw free (
                    rw kept
                        (inl (ap is_some (by_application-put j id r s.reviews refl free missing))),
                    λ a h. rw kept (put-IsCovered env j a r s.reviews free h),
                    announce_applications loud j (record s { reviews = put j r s.reviews }),
                    inl (inr (j, r, refl)),
                  ))))
      ]
    ]

same_application :
    (env : Env) (apps : Table Application) (r : Review)
    → (or_else (refresh_row env apps r) r).application_id ≡ r.application_id
unfolding refresh_row refreshed
same_application env apps r = elim (Option-cases (find r.application_id apps)) [
  | inl gone ↦ ground arith
  | inr (app, found) ↦ elim (Option-cases (to_review_status app.status)) [
    | inl unmapped ↦ ground arith
    | inr (m, mapped) ↦ ground arith
  ]
]

pub by_application-refresh_drifted :
    (env : Env) (apps : Table Application) (a : String) (t : Table Review)
    → is_some (by_application a (refresh_drifted env apps t).0) ≡ is_some (by_application a t)
unfolding by_application refresh_drifted
by_application-refresh_drifted env apps a [] = refl
by_application-refresh_drifted env apps a ((id, r) ∷ t) =
    rw (same_application env apps r) (elim (Bool-cases (str_eq r.application_id a)) [
      | inl here ↦ rw here refl
      | inr other ↦ rw other (by_application-refresh_drifted env apps a t)
    ])

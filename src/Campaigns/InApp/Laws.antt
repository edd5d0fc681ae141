-- ===== src/Campaigns/InApp/Laws.antt =====
-- A batch of notices that is delivered again writes none.
use mathlib.Core.List.{append-nil}
use zapiack_console_backend.Common.{
  none, some, String, Bool, true, false, ◌≡◌, ◌≢◌, refl, List, [], ◌∷◌, ◌++◌, map, arith, any, ◌||◌,
  Bool-cases, inl, inr, eq_iff, str_eq, ◌&&◌, sym,
}
use zapiack_console_backend.Segments.{Resolved}
use zapiack_console_backend.Campaigns.{Notice, Env, Option, Text}
use zapiack_console_backend.Campaigns.InApp.{
  has_notice, fresh, notice_of, deliver, written, Delivered, success, some, length,
}

pub any-append {ℓ} :
    {A : Type ℓ} (p : A → Bool) (l m : List A) → any p (l ++ m) ≡ (any p l || any p m)
any-append p [] m = refl
any-append p (x ∷ l) m = ground (arith, any-append p l m)

has_notice-map :
    (campaign user : String) (l : List Resolved)
    → has_notice campaign user (map (notice_of campaign) l) ≡ any (λ r. str_eq r.user_id user) l
has_notice-map campaign user [] = refl
has_notice-map campaign user (r ∷ l) =
    ground (arith, has_notice-map campaign user l, eq_iff campaign campaign)

fresh-covers :
    (campaign user : String) (notices : List Notice) (l : List Resolved)
    → has_notice campaign user notices ≡ false
    → any (λ r. str_eq r.user_id user) (fresh campaign notices l)
      ≡ any (λ r. str_eq r.user_id user) l
unfolding fresh
fresh-covers campaign user notices [] h = refl
fresh-covers campaign user notices (r ∷ l) h = elim (Bool-cases (str_eq r.user_id user)) [
  | inl e ↦
      let absent : has_notice campaign r.user_id notices ≡ false =
        rw ((eq_iff r.user_id user).0 e) h in
      rw (absent, e) refl
  | inr e ↦ ground (arith, fresh-covers campaign user notices l h)
]

fresh-none :
    (campaign : String) (notices : List Notice) (l : List Resolved)
    → ((user : String)
        → any (λ r. str_eq r.user_id user) l ≡ true
        → has_notice campaign user notices ≡ true)
    → fresh campaign notices l ≡ []
unfolding fresh
fresh-none campaign notices [] h = refl
fresh-none campaign notices (r ∷ l) h =
    rw (h r.user_id (ground (arith, eq_iff r.user_id r.user_id)))
      (fresh-none campaign notices l (λ user m. h user (ground arith)))

other_campaign :
    (campaign other user : String) (l : List Resolved)
    → campaign ≢ other
    → has_notice other user (map (notice_of campaign) l) ≡ false
other_campaign campaign other user [] n = refl
other_campaign campaign other user (r ∷ l) n =
    ground (arith, other_campaign campaign other user l n, eq_iff campaign other)

has_notice-append :
    (campaign user : String) (notices : List Notice) (l : List Resolved)
    → any (λ r. str_eq r.user_id user) l ≡ true
    → has_notice campaign user (notices ++ map (notice_of campaign) (fresh campaign notices l))
      ≡ true
has_notice-append campaign user notices l h =
    let p : Notice → Bool = λ n. str_eq n.user_id user && str_eq n.campaign_id campaign in
    rw
      (
        any-append p notices (map (notice_of campaign) (fresh campaign notices l)),
        has_notice-map campaign user (fresh campaign notices l),
      )
      (elim (Bool-cases (has_notice campaign user notices)) [
        | inl e ↦ rw e refl
        | inr e ↦ rw (fresh-covers campaign user notices l e, h) (ground arith)
      ])

-- The notices where the statement was written, or was not needed.
written-success :
    (campaign : String) (notices : List Notice) (l new : List Resolved) (broken : Option Text)
    (d : Delivered)
    → (written campaign notices l new broken).1 ≡ success d
    → ((written campaign notices l new broken).0 ≡ notices ++ map (notice_of campaign) new)
unfolding written
written-success campaign notices l [] broken d h = sym (append-nil notices)
written-success campaign notices l (r ∷ new) none d h = refl
written-success campaign notices l (r ∷ new) (some message) d h = cc

-- A batch that was delivered and is delivered again, as a retry after a half-finished batch does,
-- writes no notice: every recipient is skipped, whether or not the statement could be written.
pub deliver_twice :
    (env again : Env) (campaign : String) (l : List Resolved) (notices : List Notice)
    (d : Delivered)
    → (deliver env campaign l notices).1 ≡ success d
    → let after = (deliver env campaign l notices).0 in
      deliver again campaign l after ≡ (after, success (record { created = 0; skipped = length l }))
unfolding deliver
deliver_twice env again campaign l notices d h =
    let e = written-success campaign notices l (fresh campaign notices l) env.in_app_rows d h in
    rw
      (
        e,
        fresh-none campaign (notices ++ map (notice_of campaign) (fresh campaign notices l)) l
            (λ user m. has_notice-append campaign user notices l m),
      )
      refl

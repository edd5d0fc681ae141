-- ===== src/Guards/Laws.antt =====
-- Who is let in, who is turned away for good, and what a member of staff may do.
use zapiack_console_backend.Common.{
  ℕ, String, true, false, ◌||◌, ◌≡◌, ◌≢◌, ◌↔◌, ◌<◌, refl, sym, ◌∙◌, Option, none, some, List, [],
  ◌∷◌, ◌++◌, str_eq, arith, eq_iff, inl, inr, ◌⊎◌, Option-cases, Bool-cases, All,
}
use zapiack_console_backend.Common.Table.{Table, find, find-remove}
use zapiack_console_backend.Cache.{Entry, get as cached, forget}
use zapiack_console_backend.Cache.Laws.{get-fresh}
use zapiack_console_backend.Sessions.{Session, Config, without, revoke, first_live, touch, read}
use zapiack_console_backend.Sessions.Keys.{has}
use zapiack_console_backend.Sessions.Laws.{IsWithin, first_live_stored, read_revoked}
use zapiack_console_backend.Guards.{
  Member, Principal, Request, Refusal, staff_inactive, epoch_changed, passed, refused, State,
  staff_ttl, staff_max, unique, principal, admit, check_staff, has_proof, check_session,
  can_activate, holds, missing_of, viewing_denial, missing_denial, denial,
}

has-without_self : (x : String) (l : List String) → has x (without x l) ≡ false
unfolding without
has-without_self x [] = refl
has-without_self x (y ∷ l) = ground (arith, has-without_self x l)

has-without_ne : (x y : String) (l : List String) → x ≢ y → has y (without x l) ≡ has y l
unfolding without
has-without_ne x y [] n = refl
has-without_ne x y (z ∷ l) n = ground (arith, has-without_ne x y l n, eq_iff z x, eq_iff z y)

has-unique : (y : String) (l : List String) → has y (unique l) ≡ has y l
unfolding unique
has-unique y [] = refl
has-unique y (x ∷ l) = elim (Bool-cases (str_eq x y)) [
  | inl e ↦ rw e refl
  | inr n ↦ rw (n, has-without_ne x y (unique l) (λ e. cc ((eq_iff x y).1 e))) (has-unique y l)
]

has-append : (y : String) (k l : List String) → has y (k ++ l) ≡ (has y k || has y l)
has-append y [] l = refl
has-append y (x ∷ k) l = ground (arith, has-append y k l)

-- The row that the guard works with: the database's, or a copy of it that has not expired.
abbrev pub IsKnown : Table Member → ℕ → String → Table (Entry (Option Member)) → Member → Type 0
IsKnown staff now id cache m =
    (find id staff ≡ some m)
    ⊎ ((e : Entry (Option Member)) × (find id cache ≡ some e)
        × (now < e.expires)
        × (e.value ≡ some m))

module _ (cfg : Config) (staff : Table Member) (now : ℕ) where
  cached-IsKnown :
      (id : String) (cache : Table (Entry (Option Member))) (m : Member)
      → (cached staff_ttl staff_max now id (find id staff) cache).1 ≡ some m
      → IsKnown staff now id cache m
  cached-IsKnown id cache m h =
      elim ((get-fresh staff_ttl staff_max now id (find id staff) cache).0) [
        | inl (e, found, live, hit) ↦ inr (e, found, live, rw hit at h)
        | inr loaded ↦ inl (sym loaded ∙ h)
      ]

  allowed :
      (req : Request) (r : Session) (m : Member) (p : Principal) (x : String)
      → p ≡ principal now req r m
      → holds p x ≡ (has x m.role_permissions || has x m.extra_permissions)
  allowed req r m p x e =
      rw (e, has-unique x (m.role_permissions ++ m.extra_permissions))
        (has-append x m.role_permissions m.extra_permissions)

  checked :
      (req : Request) (r : Session) (o : Option Member) (g : State) (p : Principal)
      → (check_staff cfg staff now req r o g).1 ≡ passed p
      → (m : Member) × (o ≡ some m)
        × (m.status ≡ "ACTIVE")
        × (m.session_epoch ≡ r.session_epoch)
        × (p.id ≡ m.id)
        × ((x : String) → holds p x ≡ (has x m.role_permissions || has x m.extra_permissions))
  unfolding check_staff admit
  checked req r none g p h = cc
  checked req r (some m) g p h = elim (Option-cases (touch cfg now r g.store)) [
    | inl failed ↦ absurd (ground arith)
    | inr (t, touched) ↦
        let e : p ≡ principal now req r m = ground arith in
        (
          m,
          refl,
          ground (arith, eq_iff m.status "ACTIVE"),
          ground arith,
          rw e refl,
          λ x. allowed req r m p x e,
        )
  ]

  -- A request to a route that is not public is let in only with a cookie that names a live session
  -- which has its second factor, for a safe method or with the session's own CSRF token, and for a
  -- member of staff who is active and whose epoch is the session's, by the database or by a copy of it
  -- that has not expired. It then has exactly the permissions of the role and the member's own.
  pub can_activate_passed :
      (req : Request) (g : State) (p : Principal)
      → (can_activate cfg staff now req g).1 ≡ passed p
      → (r : Session) × (m : Member) × (id : String) × (has id req.cookies ≡ true)
        × (read now id (first_live cfg now req.cookies g.store).0 ≡ some r)
        × IsWithin cfg now r
        × (r.mfa_verified ≡ true)
        × (has_proof req r ≡ true)
        × IsKnown staff now r.staff_id g.cache m
        × (m.status ≡ "ACTIVE")
        × (m.session_epoch ≡ r.session_epoch)
        × (p.id ≡ m.id)
        × ((x : String) → holds p x ≡ (has x m.role_permissions || has x m.extra_permissions))
  unfolding can_activate check_session
  can_activate_passed req g p h = elim (Option-cases (first_live cfg now req.cookies g.store).1) [
    | inl expired ↦ absurd (ground arith)
    | inr (r, live) ↦
        let (id, named, stored, within) = first_live_stored cfg now req.cookies g.store r live in
        let found = cached staff_ttl staff_max now r.staff_id (find r.staff_id staff) g.cache in
        let staff_ok : (check_staff cfg staff now req r found.1
              (record g { store = (first_live cfg now req.cookies g.store).0; cache = found.0 })).1
            ≡ passed p =
          ground arith in
        let (m, row, active, epoch, own, exactly) = checked req r found.1 _ p staff_ok in
        (
          r,
          m,
          id,
          named,
          stored,
          within,
          ground arith,
          ground arith,
          cached-IsKnown r.staff_id g.cache m row,
          active,
          epoch,
          own,
          exactly,
        )
  ]

  turned_away :
      (req : Request) (r : Session) (o : Option Member) (g : State) (e : Refusal)
      → (check_staff cfg staff now req r o g).1 ≡ refused e
      → (e ≡ staff_inactive) ⊎ (e ≡ epoch_changed)
      → (check_staff cfg staff now req r o g).0
        ≡ record { store = revoke now r.session_id g.store; cache = forget r.staff_id g.cache }
  unfolding check_staff admit
  turned_away req r none g e h which = refl
  turned_away req r (some m) g e h which = elim (Option-cases (touch cfg now r g.store)) [
    | inl failed ↦ ground arith
    | inr (t, touched) ↦ ground arith
  ]

  -- A request that is turned away because the member of staff is not active, or because the epoch has
  -- changed, ends its session at once: it is never found again. The cached row goes too, so that the
  -- next request reads the database.
  pub can_activate_ended :
      (req : Request) (g : State) (e : Refusal)
      → (can_activate cfg staff now req g).1 ≡ refused e
      → (e ≡ staff_inactive) ⊎ (e ≡ epoch_changed)
      → let t = (can_activate cfg staff now req g).0 in
        (r : Session) × ((first_live cfg now req.cookies g.store).1 ≡ some r)
        × ((later : ℕ) → read later r.session_id t.store ≡ none)
        × (find r.staff_id t.cache ≡ none)
  unfolding can_activate check_session
  can_activate_ended req g e h which =
      elim (Option-cases (first_live cfg now req.cookies g.store).1) [
        | inl expired ↦ absurd (ground arith)
        | inr (r, live) ↦
            let found = cached staff_ttl staff_max now r.staff_id (find r.staff_id staff) g.cache in
            let s = (first_live cfg now req.cookies g.store).0 in
            let g' : State = record { store = s; cache = found.0 } in
            let gone : (check_staff cfg staff now req r found.1 g').1 ≡ refused e = ground arith in
            let after : (can_activate cfg staff now req g).0
                ≡ record { store = revoke now r.session_id s; cache = forget r.staff_id found.0 } =
              ground (arith, turned_away req r found.1 g' e gone which) in
            (
              r,
              live,
              λ later. rw after (read_revoked now later r.session_id s),
              rw after (
                  rw
                    (
                      find-remove r.staff_id r.staff_id found.0,
                      (eq_iff r.staff_id r.staff_id).1 refl,
                    )
                    refl),
            )
      ]

missing_of_none :
    (p : Principal) (l : List String) → (missing_of p l ≡ []) ↔ All (λ x. holds p x ≡ true) l
unfolding missing_of
missing_of_none p [] = (λ h. tt, λ h. refl)
missing_of_none p (x ∷ l) = elim (Bool-cases (holds p x)) [
  | inl held ↦ rw held (λ h. (refl, (missing_of_none p l).0 h), λ (_, h). (missing_of_none p l).1 h)
  | inr lacking ↦ rw lacking (λ h. cc, λ (h, _). cc)
]

-- The permissions guard lets a member of staff through exactly when the route asks for no permission,
-- or they hold every permission that it asks for and, while they view as a customer, the method is GET.
pub denial_iff :
    (required : List String) (p : Principal) (method : String)
    → (denial required (some p) method ≡ none) ↔ (
        (required ≡ [])
        ⊎ (All (λ x. holds p x ≡ true) required × ((p.impersonating ≡ none) ⊎ (method ≡ "GET"))))
unfolding denial missing_denial viewing_denial
denial_iff [] p method = (λ h. inl refl, λ h. refl)
denial_iff (x ∷ l) p method = (
  λ h. elim (Option-cases p.impersonating) [
    | inl not_viewing ↦ inr ((missing_of_none p (x ∷ l)).0 (ground arith), inl not_viewing)
    | inr (i, viewing) ↦
        inr
          ((missing_of_none p (x ∷ l)).0 (ground arith), inr (ground (arith, eq_iff method "GET")))
  ],
  λ h. elim h [
    | inl none_asked ↦ cc
    | inr (held, inl not_viewing) ↦ rw ((missing_of_none p (x ∷ l)).1 held) (rw not_viewing refl)
    | inr (held, inr reading) ↦
        rw ((missing_of_none p (x ∷ l)).1 held) (ground (arith, eq_iff method "GET"))
  ],
)

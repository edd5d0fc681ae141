-- ===== src/Staffing/Admins.antt =====
-- An update leaves an active super admin where one was, and ends the sessions of who it concerns.
use zapiack_console_backend.Common.{
  String, Bool, true, false, not, ◌&&◌, ◌||◌, ◌≡◌, refl, Option, none, some, [], ◌∷◌, any, is_some,
  str_eq, arith, Bool-cases, Option-cases, inl, inr, ◌∙◌,
}
use zapiack_console_backend.Common.Table.{Table, find, put}
use zapiack_console_backend.Sessions
use zapiack_console_backend.Sessions.{Store}
use zapiack_console_backend.Staffing.{
  Role, Member, State, Env, Update, audit, is_admin, has_role, remaining, touches_role, known_role,
  changes_rights, updated, ended, update, update_found, or_kept, staff_updated, Status, is_active,
  key_of, super_admin,
}

-- Some active super admin is there.
abbrev pub some_admin : Table Role → Table Member → Bool
some_admin roles t = any (λ row. is_admin roles row.1) t

either : (b : Bool) → (b || true) ≡ true
either true = refl
either false = refl

some_inj {ℓ} : {A : Type ℓ} {x y : A} → some x ≡ some y → x ≡ y
some_inj h = cc

remaining-some_admin :
    (roles : Table Role) (id : String) (t : Table Member)
    → remaining roles id t ≡ true
    → some_admin roles t ≡ true
unfolding remaining
remaining-some_admin roles id [] h = cc
remaining-some_admin roles id ((j, m) ∷ t) h = elim (Bool-cases (is_admin roles m)) [
  | inl e ↦ rw e refl
  | inr e ↦ rw e (remaining-some_admin roles id t (rest (not (str_eq j id)) (rw e at h)))
]
  where
    rest : (b : Bool) → ((b && false) || remaining roles id t) ≡ true → remaining roles id t ≡ true
    rest b h = ground arith

some_admin-remaining :
    (roles : Table Role) (id : String) (d : Member) (t : Table Member)
    → remaining roles id t ≡ true
    → some_admin roles (put id d t) ≡ true
unfolding remaining put
some_admin-remaining roles id d [] h = cc
some_admin-remaining roles id d ((j, m) ∷ t) h = elim (Bool-cases (str_eq j id)) [
  | inl e ↦
      let others : some_admin roles t ≡ true = remaining-some_admin roles id t (rw e at h) in
      rw (e, others) (either (is_admin roles d))
  | inr e ↦ elim (Bool-cases (is_admin roles m)) [
    | inl f ↦ rw (e, f) refl
    | inr f ↦ rw (e, f) (some_admin-remaining roles id d t (rw (e, f) at h))
  ]
]

some_admin-put :
    (roles : Table Role) (id : String) (m d : Member) (t : Table Member)
    → find id t ≡ some m
    → (is_admin roles m ≡ true → is_admin roles d ≡ true)
    → some_admin roles t ≡ true
    → some_admin roles (put id d t) ≡ true
unfolding find put
some_admin-put roles id m d [] found keeps h = cc
some_admin-put roles id m d ((j, w) ∷ t) found keeps h = elim (Bool-cases (str_eq j id)) [
  | inl e ↦
      let same : w ≡ m = some_inj (rw e at found) in
      elim (Bool-cases (is_admin roles w)) [
        | inl f ↦ let g : is_admin roles d ≡ true = keeps (rw (← same) f) in rw (e, g) refl
        | inr f ↦
            let others : some_admin roles t ≡ true = rw f at h in
            rw (e, others) (either (is_admin roles d))
      ]
  | inr e ↦ elim (Bool-cases (is_admin roles w)) [
    | inl f ↦ rw (e, f) refl
    | inr f ↦ rw (e, f) (some_admin-put roles id m d t (rw e at found) keeps (rw f at h))
  ]
]

-- Whoever keeps their role and status is an active super admin as before.
kept_admin :
    (roles : Table Role) (dto : Update) (m : Member)
    → touches_role dto ≡ false
    → is_admin roles (updated dto m) ≡ is_admin roles m
unfolding updated
kept_admin roles dto m h = kept dto.role_id dto.status h
  where
    kept :
        (role : Option String) (status : Option Status)
        → (is_some role || is_some status) ≡ false
        → (is_active (or_kept status m.status)
            && str_eq (key_of (find (or_kept role m.role_id) roles)) super_admin)
          ≡ is_admin roles m
    kept none none h = refl
    kept none (some x) h = cc
    kept (some x) status h = cc

no_admin : (roles : Table Role) (m : Member) → has_role roles m ≡ false → is_admin roles m ≡ false
no_admin roles m h = rw h (ground arith)

audit-kept :
    (env : Env) (actor id : String) (s : State)
    → ((audit env staff_updated actor id s).0.staff ≡ s.staff)
      × ((audit env staff_updated actor id s).0.roles ≡ s.roles)
      × ((audit env staff_updated actor id s).0.sessions ≡ s.sessions)
audit-kept env actor id s = elim (Bool-cases env.audit_ok) [
  | inl e ↦ (rw e refl, rw e refl, rw e refl)
  | inr e ↦ (rw e refl, rw e refl, rw e refl)
]

guarded :
    (roles : Table Role) (id : String) (dto : Update) (m : Member) (t : Table Member)
    → find id t ≡ some m
    → (has_role roles m && touches_role dto && not (remaining roles id t)) ≡ false
    → some_admin roles t ≡ true
    → some_admin roles (put id (updated dto m) t) ≡ true
guarded roles id dto m t found f h = elim (Bool-cases (remaining roles id t)) [
  | inl e ↦ some_admin-remaining roles id (updated dto m) t e
  | inr e ↦ elim (Bool-cases (touches_role dto)) [
    | inr g ↦
        some_admin-put roles id m (updated dto m) t found (λ k. kept_admin roles dto m g ∙ k) h
    | inl g ↦ elim (Bool-cases (has_role roles m)) [
      | inl k ↦ cc (rw (e, g, k) at f)
      | inr k ↦
          some_admin-put roles id m (updated dto m) t found (λ a. let b = no_admin roles m k in cc)
            h
    ]
  ]
]

-- An update of anyone, by anyone and to anything leaves an active super admin where one was, whether
-- or not it is refused or its audit row can be written.
pub update-some_admin :
    (env : Env) (actor id : String) (dto : Update) (s : State)
    → some_admin s.roles s.staff ≡ true
    → some_admin s.roles (update env actor id dto s).0.staff ≡ true
unfolding update update_found
update-some_admin env actor id dto s h = elim (Option-cases (find id s.staff)) [
  | inl e ↦ rw e h
  | inr (m, e) ↦
      let d = updated dto m in
      let t = record s {
        staff = put id d s.staff;
        sessions = ended env id (changes_rights dto m) s.sessions;
      } in
      let (kept_staff, _, _) = audit-kept env actor id t in
      elim (Bool-cases
        (has_role s.roles m && touches_role dto && not (remaining s.roles id s.staff))) [
          | inl f ↦ rw (e, f) h
          | inr f ↦ elim (Bool-cases (known_role dto.role_id s.roles)) [
            | inl g ↦ rw (e, f, g, kept_staff) (guarded s.roles id dto m s.staff e f h)
            | inr g ↦ rw (e, f, g) h
          ]
        ]
]

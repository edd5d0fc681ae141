-- ===== src/Staffing/Roles/Laws.antt =====
-- The permissions of the system's roles.
use zapiack_console_backend.Common.{
  ◌==◌, String, true, false, not, ◌&&◌, ◌||◌, ◌≡◌, refl, sym, ◌∙◌, some, List, [], ◌∷◌, ◌++◌,
  length, str_eq, arith, Bool-cases, inl, inr, eq_iff, ap,
}
use zapiack_console_backend.Common.Table.{Table, find, find-put_self}
use zapiack_console_backend.Staffing.{Role, State, Env, super_admin}
use zapiack_console_backend.Staffing.Roles.{
  includes, insert, sort, list_eq, arrays_equal, Upsert, by_key, edited, upsert_found, upsert_role,
  missing, with_all, sync_found, sync_super_admin,
}

includes-insert :
    (s p : String) (l : List String) → includes (insert s l) p ≡ (str_eq s p || includes l p)
unfolding insert
includes-insert s p [] = refl
includes-insert s p (t ∷ l) = ground (arith, includes-insert s p l)

includes-sort : (p : String) (l : List String) → includes (sort l) p ≡ includes l p
unfolding sort
includes-sort p [] = refl
includes-sort p (s ∷ l) =
    includes-insert s p (sort l) ∙ ap (λ b. str_eq s p || b) (includes-sort p l)

includes-list_eq :
    (p : String) (a b : List String) → list_eq a b ≡ true → includes a p ≡ includes b p
includes-list_eq p [] [] h = refl
includes-list_eq p [] (t ∷ b) h = cc
includes-list_eq p (s ∷ a) [] h = cc
includes-list_eq p (s ∷ a) (t ∷ b) h = ground (arith, includes-list_eq p a b, eq_iff s t)

-- Lists that the test takes for equal have the same permissions.
arrays_equal-includes :
    (p : String) (a b : List String) → arrays_equal a b ≡ true → includes a p ≡ includes b p
unfolding arrays_equal
arrays_equal-includes p a b h =
    sym (includes-sort p a) ∙ includes-list_eq p (sort a) (sort b) (both h) ∙ includes-sort p b
  where
    both :
        (length a == length b && list_eq (sort a) (sort b)) ≡ true
        → list_eq (sort a) (sort b) ≡ true
    both h = ground arith

includes-append :
    (p : String) (a b : List String) → includes (a ++ b) p ≡ (includes a p || includes b p)
includes-append p [] b = refl
includes-append p (s ∷ a) b = ground (arith, includes-append p a b)

includes-missing :
    (p : String) (all have : List String)
    → includes have p ≡ false
    → includes (missing all have) p ≡ includes all p
unfolding missing
includes-missing p [] have n = refl
includes-missing p (q ∷ all) have n = elim (Bool-cases (str_eq q p)) [
  | inl e ↦ let absent : includes have q ≡ false = rw ((eq_iff q p).0 e) n in rw (absent, e) refl
  | inr e ↦ elim (Bool-cases (includes have q)) [
    | inl f ↦ rw (f, e) (includes-missing p all have n)
    | inr f ↦ rw (f, e) (includes-missing p all have n)
  ]
]

something_missing :
    (p : String) (all have more : List String)
    → missing all have ≡ more
    → (includes have p || includes more p) ≡ (includes have p || includes all p)
something_missing p all have more e = elim (Bool-cases (includes have p)) [
  | inl f ↦ rw f refl
  | inr f ↦ rw (f, ← e) (includes-missing p all have f)
]

nothing_missing :
    (p : String) (all have : List String)
    → missing all have ≡ []
    → includes have p ≡ (includes have p || includes all p)
nothing_missing p all have e = elim (Bool-cases (includes have p)) [
  | inl f ↦ rw f refl
  | inr f ↦ let none_left = includes-missing p all have f in rw (f, ← none_left, e) refl
]

with_all-includes :
    (p id : String) (more have all : List String) (r : Role) (t : Table Role)
    → missing all have ≡ more
    → have ≡ r.permissions
    → find id t ≡ some r
    → (d : Role) × (find id (with_all more have r id t) ≡ some d)
      × (includes d.permissions p ≡ (includes have p || includes all p))
unfolding with_all
with_all-includes p id [] have all r t e same found =
    (r, found, rw (← same) (nothing_missing p all have e))
with_all-includes p id (q ∷ more) have all r t e same found =
    let d = record r { permissions = have ++ q ∷ more } in
    (
      d,
      find-put_self id d t,
      includes-append p have (q ∷ more) ∙ something_missing p all have (q ∷ more) e,
    )

-- After a start, the super admin's role has every permission that there is and those that it had, and
-- no other; roles are found by their key, and where there is no such role nothing is written.
pub sync_super_admin-includes :
    (all : List String) (t : Table Role) (id p : String) (r : Role)
    → by_key super_admin t ≡ some (id, r)
    → find id t ≡ some r
    → (d : Role) × (find id (sync_super_admin all t) ≡ some d)
      × (includes d.permissions p ≡ (includes r.permissions p || includes all p))
unfolding sync_super_admin sync_found
sync_super_admin-includes all t id p r named found =
    rw named
      (with_all-includes p id (missing all r.permissions) r.permissions all r t refl refl found)

-- A role of the system keeps its permissions, each of them and no other, whatever is upserted under
-- its key.
pub upsert_role-system :
    (env : Env) (actor fresh id p : String) (dto : Upsert) (s : State) (r : Role)
    → by_key dto.key s.roles ≡ some (id, r)
    → find id s.roles ≡ some r
    → r.is_system ≡ true
    → (d : Role) × (find id (upsert_role env actor fresh dto s).0.roles ≡ some d)
      × (includes d.permissions p ≡ includes r.permissions p)
unfolding upsert_role upsert_found
upsert_role-system env actor fresh id p dto s r named found system =
    elim (Bool-cases (arrays_equal r.permissions dto.permissions)) [
      | inr e ↦ (r, rw (named, stopped system e) found, refl)
      | inl e ↦ elim (Bool-cases env.audit_ok) [
        | inl a ↦ (
          edited dto r,
          rw (named, passed e, a) (find-put_self id (edited dto r) s.roles),
          sym (arrays_equal-includes p r.permissions dto.permissions e),
        )
        | inr a ↦ (
          edited dto r,
          rw (named, passed e, a) (find-put_self id (edited dto r) s.roles),
          sym (arrays_equal-includes p r.permissions dto.permissions e),
        )
      ]
    ]
  where
    stopped :
        r.is_system ≡ true
        → arrays_equal r.permissions dto.permissions ≡ false
        → (r.is_system && not (arrays_equal r.permissions dto.permissions)) ≡ true
    stopped a b = ground arith

    passed :
        arrays_equal r.permissions dto.permissions ≡ true
        → (r.is_system && not (arrays_equal r.permissions dto.permissions)) ≡ false
    passed b = ground arith

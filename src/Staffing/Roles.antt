-- ===== src/Staffing/Roles.antt =====
-- The permissions of roles: `upsertRole` and `arraysEqual` of src/modules/staff/staff.service.ts, and
-- the start-up of src/modules/staff/super-admin-sync.service.ts.
pub mod Laws
use zapiack_console_backend.Common.{
  ℕ, suc, String, Bool, true, false, not, ◌&&◌, ◌||◌, Option, none, some, List, [], ◌∷◌, ◌++◌, any,
  length, is_some, str_eq, ◌==◌, if◌then◌else◌,
}
use Prim.Native.String.{compare}
use Prim.Native.Nat.{Ordering}
use zapiack_console_backend.Common.Table.{Table, find, put}
use zapiack_console_backend.Sessions.{Store, revoke_all_for_staff}
use zapiack_console_backend.Staffing
use zapiack_console_backend.Staffing.{
  Role, Member, State, Env, Error, audit, or_kept, super_admin, system_role, roles_updated,
  roles_created,
}

abbrev pub includes : List String → String → Bool
includes l s = any (λ x. str_eq x s) l

abbrev before : String → String → Bool
before s t = elim (compare s t) [ Ordering.gt ↦ false | _ ↦ true ]

unfoldable pub insert : String → List String → List String
insert s [] = s ∷ []
insert s (t ∷ l) = let rest = insert s l in if before s t then s ∷ t ∷ l else t ∷ rest

-- `sort`
unfoldable pub sort : List String → List String
unfolding insert
sort [] = []
sort (s ∷ l) = insert s (sort l)

abbrev pub list_eq : List String → List String → Bool
list_eq [] [] = true
list_eq (s ∷ l) (t ∷ m) = str_eq s t && list_eq l m
list_eq _ _ = false

unfoldable pub arrays_equal : List String → List String → Bool
unfolding sort
arrays_equal a b = length a == length b && list_eq (sort a) (sort b)

-- `UpsertRoleDto`
pub record Upsert : Type 0 where
  pub key : String
  pub name : String
  pub description : Option String
  pub permissions : List String
  pub ip_allowlist : Option (List String)

-- `findUnique` by the key
unfoldable pub by_key : String → Table Role → Option (String × Role)
by_key key [] = none
by_key key ((id, r) ∷ t) = if str_eq r.key key then some (id, r) else by_key key t

abbrev pub edited : Upsert → Role → Role
edited dto r = record r {
  name = dto.name;
  description = kept dto.description r.description;
  permissions = dto.permissions;
  ip_allowlist = or_kept dto.ip_allowlist [];
}
  where
    kept : Option String → Option String → Option String
    kept none old = old
    kept (some new) old = some new

abbrev pub new_role : Upsert → Role
new_role dto = record {
  key = dto.key;
  name = dto.name;
  description = dto.description;
  permissions = dto.permissions;
  ip_allowlist = or_kept dto.ip_allowlist [];
  is_system = false;
}

-- The ids of the staff who hold the role.
unfoldable pub holders : String → Table Member → List String
holders role [] = []
holders role ((id, m) ∷ t) =
    let rest = holders role t in if str_eq m.role_id role then id ∷ rest else rest

unfoldable pub bump_holders : String → Table Member → Table Member
bump_holders role [] = []
bump_holders role ((id, m) ∷ t) =
    let rest = bump_holders role t in
    if str_eq m.role_id role
    then (id, record m { session_epoch = suc m.session_epoch }) ∷ rest
    else (id, m) ∷ rest

unfoldable pub end_holders : ℕ → List String → Store → Store
end_holders now [] s = s
end_holders now (id ∷ ids) s = end_holders now ids (revoke_all_for_staff now id s).0

unfoldable pub upsert_found :
    Env → String → String → Upsert → Option (String × Role) → State → State × Option Error
unfolding arrays_equal holders bump_holders end_holders
upsert_found env actor fresh dto none s =
    audit env roles_created actor fresh (record s { roles = put fresh (new_role dto) s.roles })
upsert_found env actor fresh dto (some (id, r)) s =
    if r.is_system && not (arrays_equal r.permissions dto.permissions)
    then (s, some system_role)
    else audit env roles_updated actor id (record s {
      roles = put id (edited dto r) s.roles;
      staff = bump_holders id s.staff;
      sessions = end_holders env.now (holders id s.staff) s.sessions;
    })

-- `fresh` is the id that a new role draws.
unfoldable pub upsert_role : Env → String → String → Upsert → State → State × Option Error
unfolding upsert_found by_key
upsert_role env actor fresh dto s = upsert_found env actor fresh dto (by_key dto.key s.roles) s

-- The permissions of `all` that the role does not have.
unfoldable pub missing : List String → List String → List String
missing [] have = []
missing (p ∷ all) have = let rest = missing all have in if includes have p then rest else p ∷ rest

unfoldable pub with_all : List String → List String → Role → String → Table Role → Table Role
with_all [] have r id t = t
with_all (p ∷ more) have r id t = put id (record r { permissions = have ++ p ∷ more }) t

sync_found : List String → Option (String × Role) → Table Role → Table Role
unfolding with_all missing
sync_found all none t = t
sync_found all (some (id, r)) t = with_all (missing all r.permissions) r.permissions r id t

-- `onApplicationBootstrap`, with the list of all permissions; where a query fails nothing is written.
unfoldable pub sync_super_admin : List String → Table Role → Table Role
unfolding sync_found by_key
sync_super_admin all t = sync_found all (by_key super_admin t) t

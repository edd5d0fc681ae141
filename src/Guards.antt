-- ===== src/Guards.antt =====
-- What a request must pass before its handler runs: src/common/auth/session.guard.ts and
-- permissions.guard.ts. The metadata of a route (whether it is public, the permissions that it asks
-- for) and the values of the session cookie are given with the request; `staff` is the table of the
-- Admin DB, with each member's role.
pub mod Laws
mod Tests
use zapiack_console_backend.Common.{
  ℕ, String, Bool, true, false, not, ◌&&◌, ◌||◌, ◌≡◌, Option, none, some, List, [], ◌∷◌, ◌++◌, ltb,
  if◌then◌else◌, any, str_eq, ◌==◌,
}
use zapiack_console_backend.Common.Table.{Table, find}
use zapiack_console_backend.Cache.{Entry, get as cached, forget}
use zapiack_console_backend.Sessions.{
  Impersonation, Session, Store, Config, without, revoke, first_live, touch, verify_csrf,
}

-- A row of `staff` with the columns of its role.
pub record Member : Type 0 where
  pub id : String
  pub email : String
  pub name : String
  pub status : String
  pub session_epoch : ℕ
  pub role_id : String
  pub role_key : String
  pub role_permissions : List String
  pub extra_permissions : List String

-- `StaffPrincipal`
pub record Principal : Type 0 where
  pub id : String
  pub email : String
  pub name : String
  pub role_id : String
  pub role_key : String
  pub permissions : List String
  pub session_id : String
  pub session_epoch : ℕ
  pub ip : Option String
  pub user_agent : Option String
  pub impersonating : Option Impersonation

pub record Request : Type 0 where
  pub is_public : Bool
  pub method : String
  pub cookies : List String
  pub csrf_header : Option String
  pub ip : Option String
  pub user_agent : Option String

pub data Refusal : Type 0 where
  no_session session_expired mfa_required csrf_invalid : Refusal
  staff_inactive epoch_changed not_stored : Refusal

pub data Verdict : Type 0 where
  open_to_all : Verdict
  passed : Principal → Verdict
  refused : Refusal → Verdict

pub record State : Type 0 where
  pub store : Store
  pub cache : Table (Entry (Option Member))

abbrev pub is_safe : String → Bool
is_safe method = str_eq method "GET" || str_eq method "HEAD" || str_eq method "OPTIONS"

-- `STAFF_TTL_MS`
abbrev pub staff_ttl : ℕ
staff_ttl = 10000

abbrev pub staff_max : ℕ
staff_max = 500

-- `[...new Set(…)]`
unfoldable pub unique : List String → List String
unique [] = []
unique (x ∷ l) = x ∷ without x (unique l)

abbrev pub still_viewing : ℕ → Option Impersonation → Option Impersonation
still_viewing now none = none
still_viewing now (some i) = if ltb now i.expires_at then some i else none

abbrev pub principal : ℕ → Request → Session → Member → Principal
principal now req r m = record {
  id = m.id;
  email = m.email;
  name = m.name;
  role_id = m.role_id;
  role_key = m.role_key;
  permissions = unique (m.role_permissions ++ m.extra_permissions);
  session_id = r.session_id;
  session_epoch = r.session_epoch;
  ip = req.ip;
  user_agent = req.user_agent;
  impersonating = still_viewing now r.impersonation;
}

abbrev pub is_active : Member → Bool
is_active m = str_eq m.status "ACTIVE"

abbrev pub has_proof : Request → Session → Bool
has_proof req r = is_safe req.method || verify_csrf r req.csrf_header

abbrev is_empty : List String → Bool
is_empty [] = true
is_empty _ = false

module _ (cfg : Config) (staff : Table Member) (now : ℕ) where
  -- The cached copy goes, and so does the session.
  abbrev ended : Session → State → State
  ended r g = record { store = revoke now r.session_id g.store; cache = forget r.staff_id g.cache }

  admit : Request → Session → Member → Option Store → State → State × Verdict
  admit req r m none g = (g, refused not_stored)
  admit req r m (some t) g = (record g { store = t }, passed (principal now req r m))

  -- Once the staff row is looked up.
  check_staff : Request → Session → Option Member → State → State × Verdict
  unfolding admit
  check_staff req r none g = (ended r g, refused staff_inactive)
  check_staff req r (some m) g =
      if not (is_active m)
      then (ended r g, refused staff_inactive)
      else if not (m.session_epoch == r.session_epoch)
      then (ended r g, refused epoch_changed)
      else admit req r m (touch cfg now r g.store) g

  -- Once a live session is found.
  unfoldable check_session : Request → Option Session → State → State × Verdict
  unfolding check_staff
  check_session req none g = (g, refused session_expired)
  check_session req (some r) g =
      if not r.mfa_verified
      then (g, refused mfa_required)
      else if not (has_proof req r)
      then (g, refused csrf_invalid)
      else let found = cached staff_ttl staff_max now r.staff_id (find r.staff_id staff) g.cache in
        check_staff req r found.1 (record g { cache = found.0 })

  -- `canActivate` of the session guard.
  unfoldable pub can_activate : Request → State → State × Verdict
  unfolding check_session
  can_activate req g =
      if req.is_public
      then (g, open_to_all)
      else if is_empty req.cookies
      then (g, refused no_session)
      else let f = first_live cfg now req.cookies g.store in
        check_session req f.1 (record g { store = f.0 })

pub data Denial : Type 0 where
  no_principal : Denial
  missing : List String → Denial
  read_only : Denial

abbrev pub holds : Principal → String → Bool
holds p permission = any (λ x. str_eq x permission) p.permissions

unfoldable pub missing_of : Principal → List String → List String
missing_of p [] = []
missing_of p (x ∷ l) = let rest = missing_of p l in if holds p x then rest else x ∷ rest

viewing_denial : Option Impersonation → String → Option Denial
viewing_denial none method = none
viewing_denial (some i) method = if str_eq method "GET" then none else some read_only

missing_denial : Principal → String → List String → Option Denial
unfolding viewing_denial
missing_denial p method [] = viewing_denial p.impersonating method
missing_denial p method (x ∷ l) = some (missing (x ∷ l))

-- `canActivate` of the permissions guard: the exception that it throws, if it throws one.
unfoldable pub denial : List String → Option Principal → String → Option Denial
unfolding missing_denial
denial [] staff method = none
denial (x ∷ l) none method = some no_principal
denial (x ∷ l) (some p) method = missing_denial p method (missing_of p (x ∷ l))

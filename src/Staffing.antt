-- ===== src/Staffing.antt =====
-- Staff and their roles: src/modules/staff/staff.service.ts and super-admin-sync.service.ts. A role is
-- kept under its id; the rows of staff keep what these services read and write.
pub mod Admins
pub mod Roles
mod Tests
use zapiack_console_backend.Common.{
  ℕ, suc, String, Bool, true, false, not, ◌&&◌, ◌||◌, ◌+◌, ◌*◌, Option, none, some, List, [], ◌∷◌,
  ◌++◌, any, length, is_some, str_eq, ◌==◌, if◌then◌else◌,
}
use Prim.Native.String.{compare}
use zapiack_console_backend.Common.Table.{Table, find, put}
use zapiack_console_backend.Common.Text.{Text, trim, text_eq}
use zapiack_console_backend.Sessions.{Store, revoke_all_for_staff}
use zapiack_console_backend.Auth.{Status, active, Invite}
use zapiack_console_backend.Auth.SignIn.{is_active}

pub record Role : Type 0 where
  pub key : String
  pub name : String
  pub description : Option String
  pub permissions : List String
  pub ip_allowlist : List String
  pub is_system : Bool

pub record Member : Type 0 where
  pub email : Text
  pub name : String
  pub status : Status
  pub role_id : String
  pub extra_permissions : List String
  pub email_notification_prefs : List String
  pub totp_secret : Option Text
  pub totp_enabled : Bool
  pub session_epoch : ℕ

pub data Action : Type 0 where
  staff_invited invite_revoked staff_updated roles_updated roles_created : Action

pub record Audit : Type 0 where
  pub action : Action
  pub actor_id : String
  pub target_id : String

pub record State : Type 0 where
  pub staff : Table Member
  pub roles : Table Role
  pub invites : Table Invite  -- by id
  pub sessions : Store
  pub audits : List Audit  -- newest first

pub record Env : Type 0 where
  pub now : ℕ
  pub to_lower_case : Text → Text
  pub invite_ttl_hours : ℕ
  pub mail_ok : Text → Bool
  pub audit_ok : Bool

pub data Error : Type 0 where
  not_found bad_request system_role conflict mail_failed audit_failed unknown_role : Error

abbrev pub audit : Env → Action → String → String → State → State × Option Error
audit env action actor target s =
    if env.audit_ok
    then (
      record s {
        audits = record { action = action; actor_id = actor; target_id = target } ∷ s.audits;
      },
      none,
    )
    else (s, some audit_failed)

-- `UpdateStaffDto`, without the reason: a field that is left out is kept.
pub record Update : Type 0 where
  pub name : Option String
  pub role_id : Option String
  pub status : Option Status
  pub extra_permissions : Option (List String)
  pub email_notification_prefs : Option (List String)
  pub reset_totp : Bool

abbrev pub or_kept {ℓ} : {A : Type ℓ} → Option A → A → A
or_kept none old = old
or_kept (some new) old = new

abbrev pub key_of : Option Role → String
key_of none = ""
key_of (some r) = r.key

abbrev pub super_admin : String
super_admin = "super_admin"

abbrev pub has_role : Table Role → Member → Bool
has_role roles m = str_eq (key_of (find m.role_id roles)) super_admin

abbrev pub is_admin : Table Role → Member → Bool
is_admin roles m = is_active m.status && has_role roles m

-- Another active super admin than this one.
unfoldable pub remaining : Table Role → String → Table Member → Bool
remaining roles id [] = false
remaining roles id ((j, m) ∷ t) = (not (str_eq j id) && is_admin roles m) || remaining roles id t

abbrev pub touches_role : Update → Bool
touches_role dto = is_some dto.role_id || is_some dto.status

abbrev differs : Option String → String → Bool
differs none old = false
differs (some new) old = not (str_eq new old)

-- What ends the sessions: `permissionsChanged || dto.status`.
abbrev pub changes_rights : Update → Member → Bool
changes_rights dto m =
    differs dto.role_id m.role_id || is_some dto.extra_permissions || is_some dto.status

unfoldable pub updated : Update → Member → Member
updated dto m = record m {
  name = or_kept dto.name m.name;
  role_id = or_kept dto.role_id m.role_id;
  status = or_kept dto.status m.status;
  extra_permissions = or_kept dto.extra_permissions m.extra_permissions;
  email_notification_prefs = or_kept dto.email_notification_prefs m.email_notification_prefs;
  totp_secret = if dto.reset_totp then none else m.totp_secret;
  totp_enabled = if dto.reset_totp then false else m.totp_enabled;
  session_epoch = if changes_rights dto m then suc m.session_epoch else m.session_epoch;
}

-- The sessions after the update.
abbrev pub ended : Env → String → Bool → Store → Store
ended env id true sessions = (revoke_all_for_staff env.now id sessions).0
ended env id false sessions = sessions

-- A role that an update names is one that there is.
abbrev pub known_role : Option String → Table Role → Bool
known_role none roles = true
known_role (some id) roles = is_some (find id roles)

unfoldable pub update_found :
    Env → String → String → Update → Option Member → State → State × Option Error
unfolding updated
update_found env actor id dto none s = (s, some not_found)
update_found env actor id dto (some m) s =
    if has_role s.roles m && touches_role dto && not (remaining s.roles id s.staff)
    then (s, some bad_request)
    else if not (known_role dto.role_id s.roles)
    then (s, some unknown_role)
    else audit env staff_updated actor id (record s {
      staff = put id (updated dto m) s.staff;
      sessions = ended env id (changes_rights dto m) s.sessions;
    })

-- The write of an update that names a role that is not there is refused by the database.
unfoldable pub update : Env → String → String → Update → State → State × Option Error
unfolding update_found
update env actor id dto s = update_found env actor id dto (find id s.staff) s

abbrev revoked : ℕ → Invite → Invite
revoked now i = record i { revoked_at = some now }

revoke_found : Env → String → String → Option Invite → State → State × Option Error
revoke_found env actor id none s = (s, some not_found)
revoke_found env actor id (some i) s =
    audit env invite_revoked actor id (record s { invites = put id (revoked env.now i) s.invites })

pub revoke_invite : Env → String → String → State → State × Option Error
unfolding revoke_found
revoke_invite env actor id s = revoke_found env actor id (find id s.invites) s

-- A member of staff has this address.
abbrev has_email : Text → Table Member → Bool
has_email email t = any (λ row. text_eq row.1.email email) t

abbrev hour_ms : ℕ
hour_ms = 3600000

abbrev invited : Env → Text → String → Invite
invited env email role = record {
  email = email;
  role_id = role;
  expires_at = env.now + env.invite_ttl_hours * hour_ms;
  accepted_at = none;
  revoked_at = none;
}

invite_checked : Env → String → String → Text → String → State → State × Option Error
invite_checked env actor fresh email role s =
    if has_email email s.staff
    then (s, some conflict)
    else if not (is_some (find role s.roles))
    then (s, some not_found)
    else let t = record s { invites = put fresh (invited env email role) s.invites } in
      if env.mail_ok email then audit env staff_invited actor fresh t else (t, some mail_failed)

-- `fresh` is the id that the row draws; the token goes by mail only.
pub invite : Env → String → String → Text → String → State → State × Option Error
unfolding invite_checked
invite env actor fresh email role s =
    invite_checked env actor fresh (trim (env.to_lower_case email)) role s

-- ===== src/Staffing/Tests.antt =====
-- Two super admins, one of whom is demoted, and roles with too few permissions.
use zapiack_console_backend.Common.{ℕ, String, List, true, false, ◌≡◌, refl, none, some, [], ◌∷◌}
use zapiack_console_backend.Common.Text.{codes}
use zapiack_console_backend.Common.Table.{find}
use zapiack_console_backend.Sessions
use zapiack_console_backend.Sessions.Run.{Op, sign_in, change_it, second_factor, run, empty}
use zapiack_console_backend.Sessions.{SignIn, Session, Store, read}
use zapiack_console_backend.Auth.{active}
use zapiack_console_backend.Staffing.{Role, Member, State, Env, Update, update}
use zapiack_console_backend.Staffing.Admins.{some_admin, update-some_admin}
use zapiack_console_backend.Staffing.Roles.{Upsert, upsert_role, by_key, includes}
use zapiack_console_backend.Staffing.Roles.Laws.{upsert_role-system}

abbrev env : Env
env = record {
  now = 1000;
  to_lower_case = λ t. t;
  invite_ttl_hours = 48;
  mail_ok = λ t. true;
  audit_ok = true;
}

abbrev top : Role
top = record {
  key = "super_admin";
  name = "Super admin";
  description = none;
  permissions = "staff.manage" ∷ [];
  ip_allowlist = [];
  is_system = true;
}

abbrev clerk : Role
clerk = record top { key = "clerk"; is_system = false }

abbrev member : Member
member = record {
  email = codes "a@z.ng";
  name = "Ada";
  status = active;
  role_id = "r1";
  extra_permissions = [];
  email_notification_prefs = [];
  totp_secret = none;
  totp_enabled = true;
  session_epoch = 2;
}

abbrev usable : Session
usable = record {
  session_id = "s2";
  staff_id = "m2";
  session_epoch = 2;
  created_at = 1000;
  last_seen_at = 1000;
  absolute_expires_at = 28801000;
  ip = none;
  user_agent = none;
  mfa_verified = true;
  csrf_token = "csrf";
  impersonation = none;
}

abbrev cfg : Sessions.Config
cfg = record { idle_timeout = 900; absolute_lifetime = 28800 }

abbrev sign_in_of : String → String → SignIn
sign_in_of staff id = record {
  staff_id = staff;
  session_epoch = 2;
  ip = none;
  user_agent = none;
  mfa_verified = false;
  fresh_id = id;
  fresh_token = "csrf";
}

-- Both sign in, and give their second factors.
abbrev ops : List (ℕ × Op)
ops =
    (1000, sign_in (sign_in_of "m1" "s1"))
    ∷ (1000, sign_in (sign_in_of "m2" "s2"))
    ∷ (1000, change_it ("s1" ∷ []) second_factor)
    ∷ (1000, change_it ("s2" ∷ []) second_factor)
    ∷ []

abbrev state : State
state = record {
  staff = ("m1", member) ∷ ("m2", member) ∷ [];
  roles = ("r1", top) ∷ ("r2", clerk) ∷ [];
  invites = [];
  sessions = run cfg ops empty;
  audits = [];
}

abbrev demote : Update
demote = record {
  name = none;
  role_id = some "r2";
  status = none;
  extra_permissions = none;
  email_notification_prefs = none;
  reset_totp = false;
}

update-some_admin_example :
    some_admin state.roles (update env "m2" "m1" demote state).0.staff ≡ true
unfolding find
update-some_admin_example = update-some_admin env "m2" "m1" demote state refl

abbrev wider : Upsert
wider = record {
  key = "super_admin";
  name = "Everything";
  description = none;
  permissions = "staff.manage" ∷ "credits.approve" ∷ [];
  ip_allowlist = none;
}

upsert_role-system_example :
    (d : Role) × (find "r1" (upsert_role env "m1" "r9" wider state).0.roles ≡ some d)
    × (includes d.permissions "credits.approve" ≡ includes top.permissions "credits.approve")
unfolding by_key find
upsert_role-system_example =
    upsert_role-system env "m1" "r9" "r1" "credits.approve" wider state top refl refl refl

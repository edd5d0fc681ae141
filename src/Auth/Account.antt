-- ===== src/Auth/Account.antt =====
-- A password that is changed, an invite that is accepted, and a session that is left:
-- `changePassword`, `acceptInvite` and `logout` of src/modules/auth/auth.service.ts.
pub mod Laws
use zapiack_console_backend.Auth.SignIn.{by_email}
use zapiack_console_backend.Common.{
  ℕ, suc, String, Bool, true, false, not, Option, none, some, List, [], ◌∷◌, ◌++◌, ◌+◌, ◌*◌, ◌&&◌,
  map, ltb, leb, is_some, str_eq, if◌then◌else◌,
}
use zapiack_console_backend.Common.Text.{Text}
use zapiack_console_backend.Common.Table.{Table, find, put}
use zapiack_console_backend.Sessions
use zapiack_console_backend.Sessions.{Session, Store, get, update, revoke, revoke_all_for_staff}
use zapiack_console_backend.Auth
use zapiack_console_backend.Auth.{
  Staff, Invite, State, Env, Config, Outcome, Error, thrown, done, Action, Audit, SessionRow,
  Impersonation, minute_ms, active, session_expired, impersonate_end, no_session, audit_failed,
  invalid_invite, wrong_password, weak_password, impersonate, used_invite, password_changed,
  email_taken, expired_invite, invite_accepted,
}

abbrev pub audit : Env → Action → String → Option String → State → State × Bool
audit env action actor target s =
    if env.audit_ok
    then (
      record s {
        audits = record { action = action; actor_id = actor; target_id = target } ∷ s.audits;
      },
      true,
    )
    else (s, false)

abbrev pub conclude : {A : Type 0} → A → State × Bool → State × Outcome A
conclude a (s, true) = (s, done a)
conclude a (s, false) = (s, thrown audit_failed)

abbrev pub new_password : Env → Text → Staff → Staff
new_password env next m = record m {
  password_hash = env.hash next;
  session_epoch = suc m.session_epoch;
}

unfoldable pub change_found :
    Env → String → Text → Text → Option Staff → State → State × Outcome Unit
change_found env id current next none s = (s, thrown Error.not_found)
change_found env id current next (some m) s =
    if not (env.password_ok current m.password_hash)
    then (s, thrown wrong_password)
    else if not (env.is_strong next)
    then (s, thrown weak_password)
    else conclude tt (
        audit env password_changed id (some id) (record s {
          staff = put id (new_password env next m) s.staff;
          sessions = (revoke_all_for_staff env.now id s.sessions).0;
        }))

-- `id` is the member of staff who asks.
unfoldable pub change_password : Env → String → Text → Text → State → State × Outcome Unit
unfolding change_found
change_password env id current next s = change_found env id current next (find id s.staff) s

-- Whether a new account may be made from an invite, and if not, why.
unfoldable pub invite_refusal : ℕ → Option Invite → Option Error
invite_refusal now none = some invalid_invite
invite_refusal now (some i) =
    if is_some i.revoked_at
    then some invalid_invite
    else if is_some i.accepted_at
    then some used_invite
    else if ltb i.expires_at now
    then some expired_invite
    else none

abbrev pub new_staff : Env → Text → Invite → Staff
new_staff env password i = record {
  email = env.to_lower_case i.email;
  password_hash = env.hash password;
  totp_secret = none;
  totp_enabled = false;
  status = active;
  role_id = i.role_id;
  failed_login_count = 0;
  locked_until = none;
  last_login_at = none;
  last_login_ip = none;
  session_epoch = 0;
}

abbrev pub accepted : ℕ → Invite → Invite
accepted now i = record i { accepted_at = some now }

-- An audit row that cannot be written is lost.
abbrev pub audit_safe : Env → Action → String → Option String → State → State
audit_safe env action actor target s = (audit env action actor target s).0

-- The transaction; the address of a member of staff is unique, and a second row of it throws.
unfoldable pub accept_valid : Env → String → Text → Invite → State → State × Outcome String
accept_valid env token_hash password i s =
    if not (env.is_strong password)
    then (s, thrown weak_password)
    else if is_some (by_email (env.to_lower_case i.email) s.staff)
    then (s, thrown email_taken)
    else (
      audit_safe env invite_accepted env.fresh_id (some env.fresh_id) (record s {
        staff = put env.fresh_id (new_staff env password i) s.staff;
        invites = put token_hash (accepted env.now i) s.invites;
      }),
      done env.fresh_id,
    )

unfoldable pub accept_found :
    Env → String → Text → Option Invite → Option Error → State → State × Outcome String
accept_found env token_hash password o (some e) s = (s, thrown e)
accept_found env token_hash password (some i) none s = accept_valid env token_hash password i s
accept_found env token_hash password none none s = (s, thrown invalid_invite)

-- An invite is stored under the hash of its token; the answer is the id of the new member of staff.
unfoldable pub accept_invite : Env → String → Text → State → State × Outcome String
unfolding accept_found accept_valid invite_refusal
accept_invite env token_hash password s =
    let o = find token_hash s.invites in
    accept_found env token_hash password o (invite_refusal env.now o) s

abbrev pub revoked_row : ℕ → Option SessionRow → String → State → State
revoked_row now none id s = s
revoked_row now (some r) id s = record s {
  session_rows = put id (record r { revoked_at = some now }) s.session_rows;
}

unfoldable pub logout : Env → String → String → State → State
logout env staff_id session_id s =
    let t = record s { sessions = revoke env.now session_id s.sessions } in
    audit_safe env Action.logout staff_id (some staff_id)
      (revoked_row env.now (find session_id t.session_rows) session_id t)

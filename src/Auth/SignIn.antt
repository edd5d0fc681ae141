-- ===== src/Auth/SignIn.antt =====
-- The two steps of a sign-in: `login`, `verifyTotp`, `registerFailure` and `recordAttempt` of
-- src/modules/auth/auth.service.ts.
use zapiack_console_backend.Common.{
  ℕ, suc, String, Bool, true, false, not, Option, none, some, List, [], ◌∷◌, ◌+◌, ◌*◌, ltb, leb,
  if◌then◌else◌,
}
use zapiack_console_backend.Common.Text.{Text, text_eq, trim}
use zapiack_console_backend.Common.Table.{Table, find, put}
use zapiack_console_backend.Sessions
use zapiack_console_backend.Sessions.{Session, Store, create, first_live, update, new_session}
use zapiack_console_backend.Auth
use zapiack_console_backend.Auth.{
  Staff, Status, State, Env, Config, Context, Outcome, Error, Reason, Attempt, Audit, SessionRow,
  minute_ms, bad_totp, thrown, active, unknown_email, session_expired, invalid_code,
  invalid_credentials, no_session, no_factor, locked, done, locked_until, not_active,
  not_active_account, bad_password,
}

-- `findUnique` by the address
unfoldable pub by_email : Text → Table Staff → Option (String × Staff)
by_email email [] = none
by_email email ((id, m) ∷ t) = if text_eq m.email email then some (id, m) else by_email email t

abbrev pub record_attempt : Text → Context → Option Reason → State → State
record_attempt email ctx reason s = record s {
  attempts = record { email = email; ip = ctx.ip; reason = reason } ∷ s.attempts;
}

-- The row after one more failure.
unfoldable pub failed_once : Config → ℕ → Staff → Staff
failed_once cfg now m =
    let count = suc m.failed_login_count in
    if leb cfg.max_failed_logins count
    then record m {
      failed_login_count = 0;
      locked_until = some (now + cfg.lockout_minutes * minute_ms);
    }
    else record m { failed_login_count = count }

-- `m` is the row under `id`.
unfoldable pub register_failure :
    Config → Env → String → Staff → Text → Context → Reason → State → State
unfolding failed_once
register_failure cfg env id m email ctx reason s =
    record_attempt email ctx (some reason)
      (record s { staff = put id (failed_once cfg env.now m) s.staff })

abbrev pub locked_now : ℕ → Option ℕ → Bool
locked_now now none = false
locked_now now (some until) = ltb now until

abbrev pub until_of : Option ℕ → ℕ
until_of none = 0
until_of (some until) = until

abbrev pub is_active : Status → Bool
is_active active = true
is_active _ = false

abbrev pub cleared : Staff → Staff
cleared m = record m { failed_login_count = 0; locked_until = none }

-- A member of staff without a second factor is given a new secret to enrol.
abbrev pub enrolling : Env → Staff → Staff
enrolling env m = if m.totp_enabled then m else record m { totp_secret = some env.fresh_secret }

-- The session, and whether an enrolment comes with it.
pub record LoginResult : Type 0 where
  pub session : Session
  pub enrolment : Bool

abbrev pub input_of : Env → String → Staff → Context → Sessions.SignIn
input_of env id m ctx = record {
  staff_id = id;
  session_epoch = m.session_epoch;
  ip = ctx.ip;
  user_agent = ctx.user_agent;
  mfa_verified = false;
  fresh_id = env.fresh_id;
  fresh_token = env.fresh_token;
}

unfoldable pub signed_in :
    Config → Env → String → Staff → Context → Option Store → State → State × Outcome LoginResult
signed_in cfg env id m ctx none s = (s, thrown no_session)
signed_in cfg env id m ctx (some t) s = (
  record s { sessions = t; staff = put id (enrolling env m) s.staff },
  done (record {
    session = new_session cfg.session env.now (input_of env id m ctx);
    enrolment = not m.totp_enabled;
  }),
)

unfoldable pub login_found :
    Config
    → Env
    → Text
    → Text
    → Context
    → Option (String × Staff)
    → State
    → State × Outcome LoginResult
unfolding register_failure signed_in
login_found cfg env email password ctx none s =
    (record_attempt email ctx (some unknown_email) s, thrown invalid_credentials)
login_found cfg env email password ctx (some (id, m)) s =
    if locked_now env.now m.locked_until
    then (record_attempt email ctx (some locked) s, thrown (locked_until (until_of m.locked_until)))
    else if not (is_active m.status)
    then (record_attempt email ctx (some (not_active m.status)) s, thrown not_active_account)
    else if not (env.password_ok password m.password_hash)
    then (register_failure cfg env id m email ctx bad_password s, thrown invalid_credentials)
    else let t = record s { staff = put id (cleared m) s.staff } in
      signed_in cfg env id (cleared m) ctx
        (create cfg.session env.now (input_of env id m ctx) t.sessions) t

unfoldable pub login : Config → Env → Text → Text → Context → State → State × Outcome LoginResult
unfolding login_found
login cfg env email password ctx s =
    login_found cfg env email password ctx (by_email (trim (env.to_lower_case email)) s.staff) s

-- The row after a sign-in that is complete.
abbrev pub logged_in : ℕ → Context → Staff → Staff
logged_in now ctx m = record m {
  totp_enabled = true;
  last_login_at = some now;
  last_login_ip = ctx.ip;
}

abbrev pub verified : Session → Session
verified r = record r { mfa_verified = true }

-- The second factor was right: the session is stored as usable. Its row in the database is new.
unfoldable pub complete_totp :
    Env → Context → String → Staff → Session → Option Store → State → State × Outcome Session
complete_totp env ctx id m r none s = (s, thrown no_session)
complete_totp env ctx id m r (some t) s =
    let u = record s {
      sessions = t;
      staff = put id (logged_in env.now ctx m) s.staff;
      session_rows = put r.session_id (record { staff_id = id; revoked_at = none }) s.session_rows;
    } in
    let v = record_attempt m.email ctx none u in
    (
      if env.audit_ok
          then record v {
            audits = record { action = Auth.login; actor_id = id; target_id = some id } ∷ v.audits;
          }
          else v,
      done (verified r),
    )

unfoldable pub check_totp :
    Config → Env → Text → Context → Session → Staff → Text → State → State × Outcome Session
unfolding complete_totp register_failure
check_totp cfg env code ctx r m secret s =
    if env.totp_ok secret code
    then complete_totp env ctx r.staff_id m r (update cfg.session env.now (verified r) s.sessions) s
    else (register_failure cfg env r.staff_id m m.email ctx bad_totp s, thrown invalid_code)

abbrev pub with_secret : Staff → Option Text → Option (Staff × Text)
with_secret m none = none
with_secret m (some secret) = some (m, secret)

abbrev pub secret_of : Option Staff → Option (Staff × Text)
secret_of none = none
secret_of (some m) = with_secret m m.totp_secret

unfoldable pub check_factor :
    Config
    → Env
    → Text
    → Context
    → Session
    → Option (Staff × Text)
    → State
    → State × Outcome Session
unfolding check_totp
check_factor cfg env code ctx r none s = (s, thrown no_factor)
check_factor cfg env code ctx r (some (m, secret)) s = check_totp cfg env code ctx r m secret s

unfoldable pub verify_found :
    Config → Env → Text → Context → Option Session → State → State × Outcome Session
unfolding check_factor
verify_found cfg env code ctx none s = (s, thrown session_expired)
verify_found cfg env code ctx (some r) s =
    if r.mfa_verified
    then (s, done r)
    else check_factor cfg env code ctx r (secret_of (find r.staff_id s.staff)) s

unfoldable pub verify_totp :
    Config → Env → List String → Text → Context → State → State × Outcome Session
unfolding verify_found
verify_totp cfg env ids code ctx s =
    let here = first_live cfg.session env.now ids s.sessions in
    verify_found cfg env code ctx here.1 (record s { sessions = here.0 })

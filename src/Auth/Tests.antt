-- ===== src/Auth/Tests.antt =====
-- One member of staff: a sign-in in two steps, a lock after two wrong passwords, and an invite.
use zapiack_console_backend.Common.{
  ℕ, true, false, ◌≡◌, refl, none, some, List, [], ◌∷◌, ◌++◌, ◌+◌, ◌*◌, arith,
}
use zapiack_console_backend.Common.Text.{Text, codes, text_eq, trim}
use zapiack_console_backend.Common.Table.{find, put}
use zapiack_console_backend.Sessions.Run.{Op, sign_in, change_it, second_factor, run, empty}
use zapiack_console_backend.Sessions.{Session, create, first_live, persist, get}
use zapiack_console_backend.Auth
use zapiack_console_backend.Auth.{
  Staff, State, Env, Context, Invite, Error, active, thrown, done, used_invite, minute_ms,
}
use zapiack_console_backend.Auth.SignIn.{input_of, login, by_email, verify_totp, verified}
use zapiack_console_backend.Auth.Lockout.{logins, logins-locked, at_time, Known}
use zapiack_console_backend.Auth.Factor.{verify_totp-done, Proven}
use zapiack_console_backend.Auth.Account.{accept_invite}
use zapiack_console_backend.Auth.Account.Laws.{accept_invite_again}

abbrev cfg : Auth.Config
cfg = record {
  session = record { idle_timeout = 900; absolute_lifetime = 28800 };
  max_failed_logins = 2;
  lockout_minutes = 15;
  impersonation_minutes = 30;
}

abbrev env : Env
env = record {
  now = 1000;
  to_lower_case = λ t. t;
  password_ok = λ given stored. text_eq given stored;
  hash = λ t. t;
  is_strong = λ t. true;
  totp_ok = λ secret code. text_eq secret code;
  fresh_secret = codes "secret";
  fresh_id = "s1";
  fresh_token = "csrf";
  audit_ok = true;
}

abbrev ctx : Context
ctx = record { ip = none; user_agent = none }

abbrev address : Text
address = codes "a@z.ng"

abbrev right : Text
right = codes "right"

abbrev ada : Staff
ada = record {
  email = address;
  password_hash = right;
  totp_secret = some (codes "123");
  totp_enabled = true;
  status = active;
  role_id = "r1";
  failed_login_count = 0;
  locked_until = none;
  last_login_at = none;
  last_login_ip = none;
  session_epoch = 3;
}

abbrev invite : Invite
invite = record {
  email = codes "b@z.ng";
  role_id = "r1";
  expires_at = 5000;
  accepted_at = none;
  revoked_at = none;
}

abbrev before : State
before = record {
  staff = ("m1", ada) ∷ [];
  invites = ("t1", invite) ∷ [];
  sessions = record { sessions = []; index = [] };
  session_rows = [];
  attempts = [];
  audits = [];
  impersonations = [];
}

abbrev pending : Session
pending = record {
  session_id = "s1";
  staff_id = "m1";
  session_epoch = 3;
  created_at = 1000;
  last_seen_at = 1000;
  absolute_expires_at = 28801000;
  ip = none;
  user_agent = none;
  mfa_verified = false;
  csrf_token = "csrf";
  impersonation = none;
}

abbrev first_step : State
first_step = (login cfg env address right ctx before).0

verify_totp-done_example :
    let code = codes "123" in
    let here = first_live cfg.session env.now ("s1" ∷ []) first_step.sessions in
    (q : Session) × (here.1 ≡ some q)
    × Proven cfg env ctx code
        (record first_step { sessions = here.0 })
        (verify_totp cfg env ("s1" ∷ []) code ctx first_step).0
        q
        (verified pending)
    × ((verified pending).mfa_verified ≡ true)
unfolding verify_totp first_live get find login by_email trim create persist put
verify_totp-done_example =
    verify_totp-done cfg env ctx ("s1" ∷ []) (codes "123") first_step (verified pending) refl

abbrev guesses : List (ℕ × Text)
guesses = (1000, codes "wrong") ∷ []

-- A lock that is over.
abbrev unlocked : Staff
unlocked = record ada { locked_until = some 900 }

abbrev was_locked : State
was_locked = record before { staff = ("m1", unlocked) ∷ [] }

logins-locked_example :
    let t = logins cfg env address ctx (guesses ++ (2000, codes "guess") ∷ []) was_locked in
    let out = login cfg (at_time env 3000) address right ctx t in
    (out.1 ≡ thrown (Error.locked_until (2000 + cfg.lockout_minutes * minute_ms)))
    × (out.0.sessions ≡ t.sessions)
unfolding Known by_email find trim
logins-locked_example =
    logins-locked cfg env address ctx guesses 2000 3000 (codes "guess") right "m1" unlocked
      was_locked (refl, refl, refl) (refl, (refl, tt)) refl (refl, (refl, tt)) refl (omega arith)

-- A session of another member of staff, which stays.
abbrev usable : Session
usable = record pending { session_id = "s2"; staff_id = "m2"; mfa_verified = true }

-- She signs in with her second factor, and so does another.
abbrev ops : List (ℕ × Op)
ops =
    (1000, sign_in (input_of env "m1" ada ctx))
    ∷ (1000, sign_in (record (input_of env "m2" ada ctx) { fresh_id = "s2" }))
    ∷ (1000, change_it ("s1" ∷ []) second_factor)
    ∷ (1000, change_it ("s2" ∷ []) second_factor)
    ∷ []

abbrev both : State
both = record before { sessions = run cfg.session ops empty }

accept_invite_again_example :
    let t = (accept_invite env "t1" right before).0 in
    accept_invite env "t1" (codes "other") t ≡ (t, thrown used_invite)
unfolding accept_invite find by_email
accept_invite_again_example =
    accept_invite_again env env "t1" right (codes "other") before "s1" refl

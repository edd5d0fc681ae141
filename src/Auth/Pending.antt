-- ===== src/Auth/Pending.antt =====
-- The second step looks at neither the lock nor the status of an account.
use zapiack_console_backend.Common.{
  String, true, false, ◌≡◌, refl, some, List, Bool-cases, inl, inr,
}
use zapiack_console_backend.Common.Text.{Text}
use zapiack_console_backend.Common.Table.{find}
use zapiack_console_backend.Sessions.{Session, Store, first_live, update}
use zapiack_console_backend.Auth.{Staff, State, Env, Config, Context, done}
use zapiack_console_backend.Auth.SignIn.{
  verified, complete_totp, check_totp, secret_of, check_factor, verify_totp, with_secret,
}
use zapiack_console_backend.Auth.Factor.{verify_pending}

module _ (cfg : Config) (env : Env) (ctx : Context) where
  with_secret-some :
      (m : Staff) (secret : Text)
      → m.totp_secret ≡ some secret
      → with_secret m m.totp_secret ≡ some (m, secret)
  with_secret-some m secret e = rw e refl

  complete_right :
      (code secret : Text) (s : State) (q : Session) (m : Staff) (t : Store)
      → env.totp_ok secret code ≡ true
      → update cfg.session env.now (verified q) s.sessions ≡ some t
      → ((check_factor cfg env code ctx q (some (m, secret)) s).1 ≡ done (verified q))
        × ((check_factor cfg env code ctx q (some (m, secret)) s).0.sessions ≡ t)
  unfolding check_factor check_totp complete_totp
  complete_right code secret s q m t right stored = elim (Bool-cases env.audit_ok) [
    | inl a ↦ (rw (right, stored) refl, rw (right, stored, a) refl)
    | inr a ↦ (rw (right, stored) refl, rw (right, stored, a) refl)
  ]

  -- A right code completes the sign-in of a pending session, whatever the owner's status and whether
  -- or not the account is locked: neither is looked at in the second step.
  pub verify_totp_unguarded :
      (ids : List String) (code secret : Text) (s : State) (q : Session) (m : Staff) (t : Store)
      → (first_live cfg.session env.now ids s.sessions).1 ≡ some q
      → q.mfa_verified ≡ false
      → find q.staff_id s.staff ≡ some m
      → m.totp_secret ≡ some secret
      → env.totp_ok secret code ≡ true
      → update cfg.session env.now (verified q) (first_live cfg.session env.now ids s.sessions).0
        ≡ some t
      → ((verify_totp cfg env ids code ctx s).1 ≡ done (verified q))
        × ((verify_totp cfg env ids code ctx s).0.sessions ≡ t)
  unfolding verify_totp
  verify_totp_unguarded ids code secret s q m t live pending found enrolled right stored =
      let u = record s { sessions = (first_live cfg.session env.now ids s.sessions).0 } in
      let (answer, kept) = complete_right code secret u q m t right stored in
      let known : secret_of (find q.staff_id s.staff) ≡ some (m, secret) =
        rw found (with_secret-some m secret enrolled) in
      rw (live, verify_pending cfg env ctx code q u pending, known) (answer, kept)

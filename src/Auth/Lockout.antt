-- ===== src/Auth/Lockout.antt =====
-- Repeated wrong passwords lock an account, and a locked account cannot be signed in to.
use zapiack_console_backend.Common.{
  ℕ, suc, String, true, false, ◌≡◌, ◌<◌, refl, ◌+◌, ◌*◌, some, List, [], ◌∷◌, length, leb, arith,
  All, Bool-cases, inl, inr, str_eq, eq_iff, ◌++◌, ap, subst,
}
use zapiack_console_backend.Common.Text.{Text, text_eq, trim}
use zapiack_console_backend.Common.Table.{Table, find, put, find-put_self}
use zapiack_console_backend.Auth.{Staff, State, Env, Config, Context, Error, thrown, minute_ms}
use zapiack_console_backend.Auth.SignIn.{
  by_email, failed_once, register_failure, locked_now, is_active, login, login_found, until_of,
}

-- A call at this instant.
abbrev pub at_time : Env → ℕ → Env
at_time env now = record env { now = now }

-- One sign-in after the other, each at its instant and with its password.
unfoldable pub logins : Config → Env → Text → Context → List (ℕ × Text) → State → State
logins cfg env email ctx [] s = s
logins cfg env email ctx ((now, password) ∷ l) s =
    logins cfg env email ctx l (login cfg (at_time env now) email password ctx s).0

some_inj : {x y : String × Staff} → some x ≡ some y → x ≡ y
some_inj h = cc

by_email-put :
    (email : Text) (id : String) (m d : Staff) (t : Table Staff)
    → by_email email t ≡ some (id, m)
    → find id t ≡ some m
    → text_eq d.email email ≡ true
    → by_email email (put id d t) ≡ some (id, d)
unfolding by_email find put
by_email-put email id m d [] h f e = cc
by_email-put email id m d ((j, w) ∷ t) h f e = elim (Bool-cases (str_eq j id)) [
  | inl same ↦ rw (same, e) refl
  | inr other ↦ elim (Bool-cases (text_eq w.email email)) [
    | inl found ↦
        let both : (j, w) ≡ (id, m) = some_inj (rw found at h) in
        let key : j ≡ id = ap (λ x. x.0) both in
        let yes : str_eq j id ≡ true = (eq_iff j id).1 key in cc
    | inr missing ↦
        rw (other, missing) (by_email-put email id m d t (rw missing at h) (rw other at f) e)
  ]
]

module _ (cfg : Config) (env : Env) (email : Text) (ctx : Context) where
  -- The account is there, under the address.
  unfoldable pub Known : String → Staff → State → Type 0
  Known id m s =
      (by_email (trim (env.to_lower_case email)) s.staff ≡ some (id, m))
      × (find id s.staff ≡ some m)
      × (text_eq m.email (trim (env.to_lower_case email)) ≡ true)

  login-wrong :
      (now : ℕ) (password : Text) (id : String) (m : Staff) (s : State)
      → by_email (trim (env.to_lower_case email)) s.staff ≡ some (id, m)
      → locked_now now m.locked_until ≡ false
      → is_active m.status ≡ true
      → env.password_ok password m.password_hash ≡ false
      → ((login cfg (at_time env now) email password ctx s).0.staff
          ≡ put id (failed_once cfg now m) s.staff)
        × ((login cfg (at_time env now) email password ctx s).1 ≡ thrown Error.invalid_credentials)
  unfolding login login_found register_failure
  login-wrong now password id m s found free active wrong =
      (rw (found, free, active, wrong) refl, rw (found, free, active, wrong) refl)

  email-failed_once : (now : ℕ) (m : Staff) → (failed_once cfg now m).email ≡ m.email
  unfolding failed_once
  email-failed_once now m =
      elim (Bool-cases (leb cfg.max_failed_logins (suc m.failed_login_count))) [
        | inl e ↦ rw e refl
        | inr e ↦ rw e refl
      ]

  Known-failed :
      (now : ℕ) (password : Text) (id : String) (m : Staff) (s : State)
      → Known id m s
      → locked_now now m.locked_until ≡ false
      → is_active m.status ≡ true
      → env.password_ok password m.password_hash ≡ false
      → Known id (failed_once cfg now m) (login cfg (at_time env now) email password ctx s).0
  unfolding Known
  Known-failed now password id m s (found, stored, own) free active wrong =
      let (e, _) = login-wrong now password id m s found free active wrong in
      let own' : text_eq (failed_once cfg now m).email (trim (env.to_lower_case email)) ≡ true =
        rw (email-failed_once now m) own in
      rw e (
        by_email-put (trim (env.to_lower_case email)) id m (failed_once cfg now m) s.staff found
            stored own',
        find-put_self id (failed_once cfg now m) s.staff,
        own',
      )

  below_limit :
      (now : ℕ) (m : Staff)
      → suc m.failed_login_count < cfg.max_failed_logins
      → failed_once cfg now m ≡ record m { failed_login_count = suc m.failed_login_count }
  unfolding failed_once
  below_limit now m h = rw (at_most h) refl
    where
      at_most :
          suc m.failed_login_count < cfg.max_failed_logins
          → leb cfg.max_failed_logins (suc m.failed_login_count) ≡ false
      at_most h = ground arith

  at_limit :
      (now : ℕ) (m : Staff)
      → suc m.failed_login_count ≡ cfg.max_failed_logins
      → (failed_once cfg now m).locked_until ≡ some (now + cfg.lockout_minutes * minute_ms)
  unfolding failed_once
  at_limit now m h = ground arith

  -- While the account is locked, no password signs in.
  login-locked :
      (now until : ℕ) (password : Text) (id : String) (m : Staff) (s : State)
      → Known id m s
      → m.locked_until ≡ some until
      → now < until
      → ((login cfg (at_time env now) email password ctx s).1 ≡ thrown (Error.locked_until until))
        × ((login cfg (at_time env now) email password ctx s).0.sessions ≡ s.sessions)
  unfolding Known login login_found
  login-locked now until password id m s (found, stored, own) held h =
      let e : locked_now now m.locked_until ≡ true = rw held (ground arith) in
      let f : until_of m.locked_until ≡ until = rw held refl in
      (rw (found, e, f) refl, rw (found, e) refl)

  -- From an ACTIVE account under the address, as many wrong passwords in a row as the limit leaves, at
  -- instants at which it is not locked (an earlier lock may be over), lock it: until the lockout is
  -- over, counted from the last of them, no password signs in, the right one included, and no session
  -- is made.
  pub logins-locked :
      (l : List (ℕ × Text)) (last now : ℕ) (guess password : Text) (id : String) (m : Staff)
      (s : State)
      → Known id m s
      → All (λ x. locked_now x.0 m.locked_until ≡ false) (l ++ (last, guess) ∷ [])
      → is_active m.status ≡ true
      → All (λ x. env.password_ok x.1 m.password_hash ≡ false) (l ++ (last, guess) ∷ [])
      → m.failed_login_count + suc (length l) ≡ cfg.max_failed_logins
      → now < last + cfg.lockout_minutes * minute_ms
      → let t = logins cfg env email ctx (l ++ (last, guess) ∷ []) s in
        let out = login cfg (at_time env now) email password ctx t in
        (out.1 ≡ thrown (Error.locked_until (last + cfg.lockout_minutes * minute_ms)))
        × (out.0.sessions ≡ t.sessions)
  unfolding logins
  logins-locked [] last now guess password id m s known (e, _) active (wrong, _) count h =
      let t = (login cfg (at_time env last) email guess ctx s).0 in
      login-locked now (last + cfg.lockout_minutes * minute_ms) password id (failed_once cfg last m)
        t (Known-failed last guess id m s known e active wrong) (at_limit last m (omega arith)) h
  logins-locked ((first, tried) ∷ l) last now guess password id m s known (e, free) active
        (wrong, more) count h =
      let t = (login cfg (at_time env first) email tried ctx s).0 in
      let d = record m { failed_login_count = suc m.failed_login_count } in
      let known' : Known id d t =
        subst (λ x. Known id x t) (below_limit first m (omega arith))
          (Known-failed first tried id m s known e active wrong) in
      logins-locked l last now guess password id d t known' free active more (omega arith) h

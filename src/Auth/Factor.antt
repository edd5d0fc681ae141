-- ===== src/Auth/Factor.antt =====
-- What the two steps of a sign-in let through.
use zapiack_console_backend.Common.{
  String, true, false, ◌≡◌, ◌⊎◌, refl, Option, none, some, List, Bool-cases, inl, inr,
}
use zapiack_console_backend.Common.Text.{Text}
use zapiack_console_backend.Common.Table.{find}
use zapiack_console_backend.Sessions.{Session, Store, first_live, update, read}
use zapiack_console_backend.Sessions.Laws
use zapiack_console_backend.Auth.{Staff, State, Env, Config, Context, done}
use zapiack_console_backend.Auth.SignIn.{
  verified, complete_totp, check_totp, secret_of, check_factor, verify_found, verify_totp,
  with_secret,
}

module _ (cfg : Config) (env : Env) (ctx : Context) where
  -- What a session needs to be usable after a second step from `s` to `t`: it was, and nothing changed,
  -- or there was a right code, and it is stored as usable.
  unfoldable pub Proven : Text → State → State → Session → Session → Type 0
  Proven code s t q r =
      ((q.mfa_verified ≡ true) × (r ≡ q) × (t ≡ s))
      ⊎ ((m : Staff) × (secret : Text) × (find q.staff_id s.staff ≡ some m)
          × (m.totp_secret ≡ some secret)
          × (env.totp_ok secret code ≡ true)
          × (r ≡ verified q)
          × (read env.now r.session_id t.sessions ≡ some r))

  complete_totp-done :
      (id : String) (m : Staff) (q r : Session) (o : Option Store) (s : State)
      → (complete_totp env ctx id m q o s).1 ≡ done r
      → r ≡ verified q
  unfolding complete_totp
  complete_totp-done id m q r none s h = cc
  complete_totp-done id m q r (some t) s h = cc

  check_factor-secret :
      (code : Text) (q r : Session) (m : Staff) (o : Option Text) (s : State)
      → (check_factor cfg env code ctx q (with_secret m o) s).1 ≡ done r
      → (secret : Text) × (o ≡ some secret) × (env.totp_ok secret code ≡ true) × (r ≡ verified q)
  unfolding check_factor check_totp
  check_factor-secret code q r m none s h = cc
  check_factor-secret code q r m (some secret) s h = elim (Bool-cases (env.totp_ok secret code)) [
    | inr f ↦ cc (rw f at h)
    | inl f ↦ (secret, refl, f, complete_totp-done q.staff_id m q r _ s (rw f at h))
  ]

  check_factor-done :
      (code : Text) (q r : Session) (o : Option Staff) (s : State)
      → (check_factor cfg env code ctx q (secret_of o) s).1 ≡ done r
      → (m : Staff) × (secret : Text) × (o ≡ some m)
        × (m.totp_secret ≡ some secret)
        × (env.totp_ok secret code ≡ true)
        × (r ≡ verified q)
  unfolding check_factor
  check_factor-done code q r none s h = cc
  check_factor-done code q r (some m) s h =
      let (secret, e, f, same) = check_factor-secret code q r m m.totp_secret s h in
      (m, secret, refl, e, f, same)

  complete_totp-read :
      (id : String) (m : Staff) (q r : Session) (o : Option Store) (s : State)
      → ((t : Store) → o ≡ some t → read env.now q.session_id t ≡ some (verified q))
      → (complete_totp env ctx id m q o s).1 ≡ done r
      → read env.now q.session_id (complete_totp env ctx id m q o s).0.sessions ≡ some (verified q)
  unfolding complete_totp
  complete_totp-read id m q r none s stored h = cc
  complete_totp-read id m q r (some t) s stored h = elim (Bool-cases env.audit_ok) [
    | inl a ↦ rw a (stored t refl)
    | inr a ↦ rw a (stored t refl)
  ]

  check_factor-read :
      (code : Text) (q r : Session) (o : Option (Staff × Text)) (s : State)
      → (check_factor cfg env code ctx q o s).1 ≡ done r
      → read env.now q.session_id (check_factor cfg env code ctx q o s).0.sessions
        ≡ some (verified q)
  unfolding check_factor check_totp
  check_factor-read code q r none s h = cc
  check_factor-read code q r (some (m, secret)) s h = elim (Bool-cases (env.totp_ok secret code)) [
    | inr f ↦ cc (rw f at h)
    | inl f ↦ rw f (
        complete_totp-read q.staff_id m q r (update cfg.session env.now (verified q) s.sessions) s
          (λ t e. Laws.read-update cfg.session env.now (verified q) s.sessions t e) (rw f at h))
  ]

  verify_usable :
      (code : Text) (q : Session) (s : State)
      → q.mfa_verified ≡ true
      → verify_found cfg env code ctx (some q) s ≡ (s, done q)
  unfolding verify_found
  verify_usable code q s e = rw e refl

  pub verify_pending :
      (code : Text) (q : Session) (s : State)
      → q.mfa_verified ≡ false
      → verify_found cfg env code ctx (some q) s
        ≡ check_factor cfg env code ctx q (secret_of (find q.staff_id s.staff)) s
  unfolding verify_found
  verify_pending code q s e = rw e refl

  verify_live-done :
      (code : Text) (q r : Session) (s : State)
      → (verify_found cfg env code ctx (some q) s).1 ≡ done r
      → Proven code s (verify_found cfg env code ctx (some q) s).0 q r
  unfolding Proven
  verify_live-done code q r s h = elim (Bool-cases q.mfa_verified) [
    | inl e ↦
        let same = verify_usable code q s e in
        let h' : done q ≡ done r = rw same at h in rw same (inl (e, cc, refl))
    | inr e ↦
        let same = verify_pending code q s e in
        let o = find q.staff_id s.staff in
        let (m, secret, found, enrolled, right, is_verified) =
          check_factor-done code q r o s (rw same at h) in
        let stored = check_factor-read code q r (secret_of o) s (rw same at h) in
        rw same (inr (m, secret, found, enrolled, right, is_verified, rw is_verified stored))
  ]

  verify_found-done :
      (code : Text) (o : Option Session) (s : State) (r : Session)
      → (verify_found cfg env code ctx o s).1 ≡ done r
      → (q : Session) × (o ≡ some q) × Proven code s (verify_found cfg env code ctx o s).0 q r
  unfolding verify_found
  verify_found-done code none s r h = cc
  verify_found-done code (some q) s r h = (q, refl, verify_live-done code q r s h)

  -- A second step is answered only for a live session that was presented: one that was usable before,
  -- and then nothing changes after the look-up, or one whose owner has a second factor and gave a right
  -- code of it, which then becomes usable, changes in nothing else, and is stored so.
  pub verify_totp-done :
      (ids : List String) (code : Text) (s : State) (r : Session)
      → (verify_totp cfg env ids code ctx s).1 ≡ done r
      → let here = first_live cfg.session env.now ids s.sessions in
        (q : Session) × (here.1 ≡ some q)
        × Proven code (record s { sessions = here.0 }) (verify_totp cfg env ids code ctx s).0 q r
        × (r.mfa_verified ≡ true)
  unfolding verify_totp Proven
  verify_totp-done ids code s r h =
      let here = first_live cfg.session env.now ids s.sessions in
      let (q, live, proven) = verify_found-done code here.1 (record s { sessions = here.0 }) r h in
      (
        q,
        live,
        proven,
        elim proven [
          | inl (e, same, _) ↦ rw same e
          | inr (m, secret, _, _, _, same, _) ↦ rw same refl
        ],
      )

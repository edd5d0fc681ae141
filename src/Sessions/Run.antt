-- ===== src/Sessions/Run.antt =====
-- Sequences of sign-ins, requests, changes of a session and sign-outs, each of which runs to its end
-- before the next, and what holds after any of them. `Races` takes their awaits apart.
use zapiack_console_backend.Sessions.Keeps.{
  Inv-create, others_left, SameLife, Inv-persist, Inv-revoke_all,
}
use zapiack_console_backend.Common.{
  ℕ, String, ◌≡◌, ◌≢◌, refl, Option, none, some, List, [], ◌∷◌, Option-cases, inl, inr,
}
use zapiack_console_backend.Common.Table.{find}
use zapiack_console_backend.Sessions.{
  Session, Store, Config, read, revoke, first_live, seen, touch, SignIn, create,
  revoke_all_for_staff, update, persist,
}
use zapiack_console_backend.Auth.SignIn.{verified}
use zapiack_console_backend.Auth.ViewAs.{viewing}
use zapiack_console_backend.Sessions.Keys.{Inv, Inv-revoke}
use zapiack_console_backend.Sessions.Laws.{read_stored, first_live_stored, Inv-first_live}

-- What the second factor and the view of a customer change in a session.
pub data Change : Type 0 where
  second_factor stop_viewing : Change
  start_viewing : String → ℕ → Change

abbrev pub change : Change → Session → Session
change second_factor r = verified r
change stop_viewing r = record r { impersonation = none }
change (start_viewing account until) r = viewing account until r

pub change-SameLife : (c : Change) (r : Session) → SameLife r (change c r)
change-SameLife second_factor r = (refl, refl, refl, refl)
change-SameLife stop_viewing r = (refl, refl, refl, refl)
change-SameLife (start_viewing account until) r = (refl, refl, refl, refl)

-- What the console asks of its sessions: a sign-in, a look-up of the ids that a request presents, the
-- same where the request is let in, the same where the session is then changed, a sign-out, and a
-- sign-out of everything that a member of staff has.
pub data Op : Type 0 where
  sign_in : SignIn → Op
  look_up request : List String → Op
  change_it : List String → Change → Op
  sign_out : String → Op
  sign_out_all : String → Op

abbrev pub or_same : Option Store → Store → Store
or_same none s = s
or_same (some t) s = t

abbrev pub empty : Store
empty = record { sessions = []; index = [] }

module _ (cfg : Config) where
  unfoldable touch_found : ℕ → Option Session → Store → Store
  touch_found now none s = s
  touch_found now (some r) s = or_same (touch cfg now r s) s

  unfoldable update_found : ℕ → Change → Option Session → Store → Store
  update_found now c none s = s
  update_found now c (some r) s = or_same (update cfg now (change c r) s) s

  unfoldable pub step : ℕ → Op → Store → Store
  unfolding touch_found update_found
  step now (sign_in input) s = or_same (create cfg now input s) s
  step now (look_up ids) s = (first_live cfg now ids s).0
  step now (change_it ids c) s = let f = first_live cfg now ids s in update_found now c f.1 f.0
  step now (request ids) s = let f = first_live cfg now ids s in touch_found now f.1 f.0
  step now (sign_out id) s = revoke now id s
  step now (sign_out_all staff) s = (revoke_all_for_staff now staff s).0

  unfoldable pub run : List (ℕ × Op) → Store → Store
  unfolding step
  run [] s = s
  run ((now, op) ∷ ops) s = run ops (step now op s)

  Inv-or_same :
      (now : ℕ) (id : String) (r d : Session) (s : Store)
      → read now id s ≡ some r
      → SameLife r d
      → Inv cfg s
      → Inv cfg (or_same (persist cfg now d s) s)
  Inv-or_same now id r d s stored same inv = elim (Option-cases (persist cfg now d s)) [
    | inl refused ↦ rw refused inv
    | inr (t, done) ↦ rw done (Inv-persist cfg now id r d s t stored same done inv)
  ]

  Inv-step : (now : ℕ) (op : Op) (s : Store) → Inv cfg s → Inv cfg (step now op s)
  unfolding step
  Inv-step now (sign_in input) s inv = elim (Option-cases (create cfg now input s)) [
    | inl refused ↦ rw refused inv
    | inr (t, done) ↦ rw done (Inv-create cfg now input s t done inv)
  ]
  Inv-step now (look_up ids) s inv = Inv-first_live cfg now ids s inv
  Inv-step now (request ids) s inv = elim (Option-cases (first_live cfg now ids s).1) [
    | inl missing ↦ rw (missing, touch_found) (Inv-first_live cfg now ids s inv)
    | inr (r, live) ↦
        let t = (first_live cfg now ids s).0 in
        let (id, _, stored, _) = first_live_stored cfg now ids s r live in
        rw (live, touch_found)
          (Inv-or_same now id r (seen now r) t stored (refl, refl, refl, refl)
            (Inv-first_live cfg now ids s inv))
  ]
  Inv-step now (change_it ids c) s inv = elim (Option-cases (first_live cfg now ids s).1) [
    | inl missing ↦ rw (missing, update_found) (Inv-first_live cfg now ids s inv)
    | inr (r, live) ↦
        let t = (first_live cfg now ids s).0 in
        let (id, _, stored, _) = first_live_stored cfg now ids s r live in
        rw (live, update_found)
          (Inv-or_same now id r (change c r) t stored (change-SameLife c r)
            (Inv-first_live cfg now ids s inv))
  ]
  Inv-step now (sign_out id) s inv = Inv-revoke cfg now id s inv
  Inv-step now (sign_out_all staff) s inv = Inv-revoke_all cfg now staff s inv

  Inv-run : (ops : List (ℕ × Op)) (s : Store) → Inv cfg s → Inv cfg (run ops s)
  unfolding run
  Inv-run [] s inv = inv
  Inv-run ((now, op) ∷ ops) s inv = Inv-run ops (step now op s) (Inv-step now op s inv)

  Inv-empty : Inv cfg empty
  unfolding find
  Inv-empty id k h = cc

  pub Inv-run-empty : (ops : List (ℕ × Op)) → Inv cfg (run ops empty)
  Inv-run-empty ops = Inv-run ops empty Inv-empty

  -- No session of a member of staff is found any more after a sign-out of everything that they have,
  -- where the sign-ins, requests, changes of sessions and sign-outs before each ran to its end before
  -- the next began.
  pub run-revoke_all_for_staff :
      (ops : List (ℕ × Op)) (now later : ℕ) (staff id : String) (r : Session)
      → read later id (revoke_all_for_staff now staff (run ops empty)).0 ≡ some r
      → r.staff_id ≢ staff
  run-revoke_all_for_staff ops now later staff id r h =
      let (k, found, e, _) =
        read_stored later id (revoke_all_for_staff now staff (run ops empty)).0 r h in
      rw e at (others_left cfg now staff id (run ops empty) k (Inv-run ops empty Inv-empty) found)

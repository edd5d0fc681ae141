-- ===== src/Sessions/Races/Laws.antt =====
-- What overlapping requests cannot do to a session: outlive its lifetime.
use zapiack_console_backend.Common.{
  ℕ, suc, String, ◌+◌, ◌*◌, ◌≡◌, ◌<◌, ◌≤◌, refl, some, List, [], ◌∷◌, arith, Option-cases, inl, inr,
  All, zero,
}
use zapiack_console_backend.Common.Table.{find, find-put_cases}
use zapiack_console_backend.Sessions.{
  Session, Kept, Store, Config, SignIn, read, create, first_live, seen, revoke, get, get_found,
  revoke_all_for_staff, persist, new_session, members,
}
use zapiack_console_backend.Sessions.Keys.{IsBounded, find-revoke-some}
use zapiack_console_backend.Sessions.Keeps.{SameLife, find-revoke_each}
use zapiack_console_backend.Sessions.Laws.{read_stored, persisted, first_live_stored}
use zapiack_console_backend.Sessions.Run.{change, change-SameLife, or_same, empty}
use zapiack_console_backend.Sessions.Races.{
  World, Await, signs_in, looks_up, touches, updates, signs_out, signs_out_all, nth, hold,
  write_back, advance, interleaved,
}

module _ (cfg : Config) where
  abbrev Timed : Session → Type 0
  Timed r = r.absolute_expires_at ≡ r.created_at + cfg.absolute_lifetime * 1000

  -- Each key names its own session, and expires before the session's lifetime is over.
  Ends : Store → Type 0
  Ends s =
      (id : String) (k : Kept)
      → find id s.sessions ≡ some k
      → (k.value.session_id ≡ id) × IsBounded cfg k

  -- Nothing is stored that was not stored before.
  Shrinks : Store → Store → Type 0
  Shrinks s t = (id : String) (k : Kept) → find id t.sessions ≡ some k → find id s.sessions ≡ some k

  Ends-Shrinks : (s t : Store) → Shrinks s t → Ends s → Ends t
  unfolding Ends Shrinks
  Ends-Shrinks s t less ends id k h = ends id k (less id k h)

  revoke-Shrinks : (now : ℕ) (id : String) (s : Store) → Shrinks s (revoke now id s)
  unfolding Shrinks
  revoke-Shrinks now id s j k h = (find-revoke-some now id j s k h).1

  get-Shrinks : (now : ℕ) (id : String) (s : Store) → Shrinks s (get cfg now id s).0
  unfolding Shrinks get get_found
  get-Shrinks now id s j k h = elim (Option-cases (read now id s)) [
    | inl missing ↦ rw (missing, get_found) at h
    | inr (r, live) ↦ ground (arith, revoke-Shrinks now id s j k)
  ]

  first_live-Shrinks :
      (now : ℕ) (ids : List String) (s : Store) → Shrinks s (first_live cfg now ids s).0
  unfolding first_live Shrinks
  first_live-Shrinks now [] s j k h = h
  first_live-Shrinks now (id ∷ ids) s j k h = elim (Option-cases (get cfg now id s).1) [
    | inr (q, here) ↦ get-Shrinks now id s j k (rw here at h)
    | inl missing ↦
        get-Shrinks now id s j k
          (first_live-Shrinks now ids (get cfg now id s).0 j k (rw missing at h))
  ]

  Ends-persist :
      (now : ℕ) (d : Session) (s : Store)
      → Timed d
      → Ends s
      → Ends (or_same (persist cfg now d s) s)
  unfolding Ends
  Ends-persist now d s timed ends id k h = elim (Option-cases (persist cfg now d s)) [
    | inl refused ↦ ends id k (rw refused at h)
    | inr (t, done) ↦
        let (same, _, before_end) = persisted cfg now d s t done in
        elim (find-put_cases d.session_id id _ k s.sessions (rw (done, same) at h)) [
          | inl (e, stored) ↦ rw (← stored) (e, (timed, before_end))
          | inr (_, before) ↦ ends id k before
        ]
  ]

  Ends-create :
      (now : ℕ) (input : SignIn) (s : Store) → Ends s → Ends (or_same (create cfg now input s) s)
  unfolding create Ends
  Ends-create now input s ends id k h =
      let r = new_session cfg now input in
      let kept = Ends-persist now r s refl ends in
      elim (Option-cases (persist cfg now r s)) [
        | inl e ↦ ends id k (rw e at h)
        | inr (u, e) ↦ let stored : Ends u = rw e at kept in stored id k (rw e at h)
      ]

  revoke_each-Shrinks :
      (now : ℕ) (staff : String) (s : Store) → Shrinks s (revoke_all_for_staff now staff s).0
  unfolding Shrinks revoke_all_for_staff
  revoke_each-Shrinks now staff s j k h = (find-revoke_each now (members staff s) j s k h).1

  -- What holds of a world, however its requests overlapped.
  IsSound : World → Type 0
  IsSound w = Ends w.store × All Timed w.held

  nth-Timed : (n : ℕ) (rs : List Session) (r : Session) → nth n rs ≡ some r → All Timed rs → Timed r
  unfolding nth
  nth-Timed n [] r h all = cc
  nth-Timed zero (q ∷ rs) r h (timed, _) = let e : q ≡ r = cc in rw (← e) timed
  nth-Timed (suc n) (q ∷ rs) r h (_, all) = nth-Timed n rs r h all

  write_back-IsSound :
      (now : ℕ) (r d : Session) (w : World)
      → SameLife r d
      → Timed r
      → IsSound w
      → IsSound (write_back cfg now d w)
  unfolding IsSound
  write_back-IsSound now r d w (_, _, same_birth, same_end) timed (ends, all) =
      let timed' : Timed d = rw (same_end, same_birth) timed in
      (Ends-persist now d w.store timed' ends, (timed', all))

  hold-IsSound :
      (now : ℕ) (ids : List String) (w : World)
      → IsSound w
      → IsSound (hold (first_live cfg now ids w.store) w.held)
  unfolding IsSound Ends
  hold-IsSound now ids w (ends, all) =
      let t = (first_live cfg now ids w.store).0 in
      let ends' = Ends-Shrinks w.store t (first_live-Shrinks now ids w.store) ends in
      elim (Option-cases (first_live cfg now ids w.store).1) [
        | inl missing ↦ rw missing (ends', all)
        | inr (r, live) ↦
            let (id, _, stored, _) = first_live_stored cfg now ids w.store r live in
            let (k, found, e, _) = read_stored now id t r stored in
            let (_, (timed, _)) = ends' id k found in rw live (ends', (rw e at timed, all))
      ]

  advance-IsSound : (now : ℕ) (a : Await) (w : World) → IsSound w → IsSound (advance cfg now a w)
  unfolding advance IsSound
  advance-IsSound now (signs_in input) w (ends, all) = (Ends-create now input w.store ends, all)
  advance-IsSound now (looks_up ids) w sound = hold-IsSound now ids w sound
  advance-IsSound now (touches n) w (ends, all) = elim (Option-cases (nth n w.held)) [
    | inl e ↦ rw e (ends, all)
    | inr (r, e) ↦ rw e (
        write_back-IsSound now r (seen now r) w (refl, refl, refl, refl)
          (nth-Timed n w.held r e all) (ends, all))
  ]
  advance-IsSound now (updates n c) w (ends, all) = elim (Option-cases (nth n w.held)) [
    | inl e ↦ rw e (ends, all)
    | inr (r, e) ↦ rw e (
        write_back-IsSound now r (change c r) w (change-SameLife c r) (nth-Timed n w.held r e all)
          (ends, all))
  ]
  advance-IsSound now (signs_out id) w (ends, all) =
      (Ends-Shrinks w.store (revoke now id w.store) (revoke-Shrinks now id w.store) ends, all)
  advance-IsSound now (signs_out_all staff) w (ends, all) =
      let t = (revoke_all_for_staff now staff w.store).0 in
      (Ends-Shrinks w.store t (revoke_each-Shrinks now staff w.store) ends, all)

  interleaved-IsSound :
      (l : List (ℕ × Await)) (w : World) → IsSound w → IsSound (interleaved cfg l w)
  unfolding interleaved
  interleaved-IsSound [] w sound = sound
  interleaved-IsSound ((now, a) ∷ l) w sound =
      interleaved-IsSound l (advance cfg now a w) (advance-IsSound now a w sound)

  start-IsSound : IsSound (record { store = empty; held = [] })
  unfolding IsSound Ends find
  start-IsSound = (λ id k h. cc, tt)

  -- However sign-ins, look-ups, touches, second factors, views of customers and sign-outs came one
  -- after the other, and whichever record a request wrote back that was revoked or changed since, a
  -- stored session answers to its own id only, and only before its absolute lifetime is over, counted
  -- from its creation: nothing extends it.
  pub interleaved-read :
      (l : List (ℕ × Await)) (later : ℕ) (id : String) (r : Session)
      → read later id (interleaved cfg l (record { store = empty; held = [] })).store ≡ some r
      → (r.session_id ≡ id) × (later < r.created_at + cfg.absolute_lifetime * 1000)
  unfolding IsSound Ends
  interleaved-read l later id r h =
      let w = interleaved cfg l (record { store = empty; held = [] }) in
      let (k, found, e, live) = read_stored later id w.store r h in
      let (own, (timed, over)) = (interleaved-IsSound l _ start-IsSound).0 id k found in
      let timed' : r.absolute_expires_at ≡ r.created_at + cfg.absolute_lifetime * 1000 =
        rw e at timed in
      let over' : k.expires ≤ r.absolute_expires_at = rw e at over in (rw e at own, omega arith)

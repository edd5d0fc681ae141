-- ===== src/Sessions/Laws.antt =====
-- What a look-up, a revocation and a write of a session do.
use zapiack_console_backend.Common.{
  ℕ, String, true, false, ◌+◌, ◌-◌, ◌≡◌, ◌≤◌, ◌<◌, refl, none, some, List, [], ◌∷◌, arith, eq_iff,
  Option-cases, inl, inr, ◌==◌, ltb,
}
use zapiack_console_backend.Common.Table.{find, put, find-put_self}
use zapiack_console_backend.Sessions.{
  Session, Kept, Store, Config, read, idle_ms, min, revoke, persist, get_found, get, first_live,
  seen, touch, update,
}
use zapiack_console_backend.Sessions.Keys.{has, Inv, Inv-get, find-revoke}

pub read_stored :
    (now : ℕ) (id : String) (s : Store) (r : Session)
    → read now id s ≡ some r
    → (k : Kept) × (find id s.sessions ≡ some k) × (k.value ≡ r) × (now < k.expires)
read_stored now id s r h = elim (Option-cases (find id s.sessions)) [
  | inl missing ↦ absurd (ground arith)
  | inr (k, found) ↦ (k, found, ground arith, ground arith)
]

pub read_revoked :
    (now later : ℕ) (id : String) (s : Store) → read later id (revoke now id s) ≡ none
read_revoked now later id s = rw (find-revoke now id id s, (eq_iff id id).1 refl) refl

module _ (cfg : Config) where
  abbrev pub IsWithin : ℕ → Session → Type 0
  IsWithin now r = (now ≤ r.absolute_expires_at) × (now - r.last_seen_at ≤ idle_ms cfg r)

  get_miss :
      (now : ℕ) (id : String) (s : Store)
      → (get cfg now id s).1 ≡ none
      → (later : ℕ) → now ≤ later
      → read later id (get cfg now id s).0 ≡ none
  unfolding get get_found
  get_miss now id s h later order = elim (Option-cases (find id s.sessions)) [
    | inl missing ↦ ground arith
    | inr (k, found) ↦ ground (arith, read_revoked now later id s)
  ]

  -- A look-up answers exactly the stored sessions whose key has not expired, whose lifetime is not
  -- over and that have not been idle for too long, and then changes nothing; after a look-up that
  -- found nothing, no later one finds anything under this id.
  pub get_lem :
      (now : ℕ) (id : String) (s : Store)
      → ((r : Session)
          → (get cfg now id s).1 ≡ some r
          → (read now id s ≡ some r) × IsWithin now r × ((get cfg now id s).0 ≡ s))
        × ((r : Session) → read now id s ≡ some r → IsWithin now r → get cfg now id s ≡ (s, some r))
        × ((get cfg now id s).1 ≡ none
            → (later : ℕ) → now ≤ later
            → read later id (get cfg now id s).0 ≡ none)
  unfolding get get_found
  get_lem now id s = (
    λ r h. elim (Option-cases (read now id s)) [
      | inl missing ↦ absurd (ground arith)
      | inr (q, live) ↦ (ground arith, (ground arith, ground arith), ground arith)
    ],
    λ r live (fine, active). rw (live, get_found) (ground arith),
    get_miss now id s,
  )

  pub persisted :
      (now : ℕ) (r : Session) (s t : Store)
      → persist cfg now r s ≡ some t
      → let ttl = min (r.absolute_expires_at - now) (idle_ms cfg r) in
        (t ≡ record s {
          sessions = put r.session_id (record { value = r; expires = now + ttl }) s.sessions;
        })
        × (now < now + ttl)
        × (now + ttl ≤ r.absolute_expires_at)
  unfolding persist
  persisted now r s t h = (ground arith, ground arith, ground arith)

  pub read-update :
      (now : ℕ) (r : Session) (s t : Store)
      → update cfg now r s ≡ some t
      → read now r.session_id t ≡ some r
  read-update now r s t h =
      let ttl = min (r.absolute_expires_at - now) (idle_ms cfg r) in
      let k : Kept = record { value = r; expires = now + ttl } in
      let (same, fresh, _) = persisted now r s t h in
      let alive : ltb now (now + ttl) ≡ true = ground arith in
      rw (same, find-put_self r.session_id k s.sessions, alive) refl

  -- A `touch` of a session that was revoked in the meantime brings it back, as it was.
  pub touch-revoke :
      (now : ℕ) (r : Session) (s : Store)
      → now < r.absolute_expires_at
      → 0 < cfg.idle_timeout
      → (t : Store) × (touch cfg now r (revoke now r.session_id s) ≡ some t)
        × ((get cfg now r.session_id t).1 ≡ some (seen now r))
  unfolding persist
  touch-revoke now r s alive idle =
      let s' = revoke now r.session_id s in
      let ttl = min (r.absolute_expires_at - now) (idle_ms cfg r) in
      let k : Kept = record { value = seen now r; expires = now + ttl } in
      let t : Store = record s' { sessions = put r.session_id k s'.sessions } in
      let fresh : (ltb now (now + ttl)) ≡ true = ground arith in
      let found : read now r.session_id t ≡ some (seen now r) =
        rw (find-put_self r.session_id k s'.sessions, fresh) refl in
      let some_time : (ttl == 0) ≡ false = ground arith in
      let (_, answers, _) = get_lem now r.session_id t in
      let answer = answers (seen now r) found (omega arith, omega arith) in
      (t, rw some_time refl, rw answer refl)

  pub first_live_stored :
      (now : ℕ) (ids : List String) (s : Store) (r : Session)
      → (first_live cfg now ids s).1 ≡ some r
      → (id : String) × (has id ids ≡ true)
        × (read now id (first_live cfg now ids s).0 ≡ some r)
        × IsWithin now r
  unfolding first_live
  first_live_stored now [] s r h = cc
  first_live_stored now (id ∷ ids) s r h = elim (Option-cases (get cfg now id s).1) [
    | inr (q, here) ↦
        let (stored, within, same) = (get_lem now id s).0 q here in
        let e : q ≡ r = ground arith in
        (id, ground (arith, eq_iff id id), ground arith, rw (← e) within)
    | inl missing ↦
        let (j, named, stored, within) =
          first_live_stored now ids (get cfg now id s).0 r (ground arith) in
        (j, ground arith, ground arith, within)
  ]

  pub Inv-first_live :
      (now : ℕ) (ids : List String) (s : Store) → Inv cfg s → Inv cfg (first_live cfg now ids s).0
  unfolding first_live
  Inv-first_live now [] s inv = inv
  Inv-first_live now (id ∷ ids) s inv = elim (Option-cases (get cfg now id s).1) [
    | inr (q, here) ↦ ground (arith, Inv-get cfg now id s inv)
    | inl missing ↦
        ground (arith, Inv-first_live now ids (get cfg now id s).0 (Inv-get cfg now id s inv))
  ]

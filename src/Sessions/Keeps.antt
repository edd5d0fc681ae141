-- ===== src/Sessions/Keeps.antt =====
-- The methods of the session service keep what `Keys` states.
use zapiack_console_backend.Common.{
  ℕ, String, true, false, ◌+◌, ◌-◌, ◌*◌, ◌≡◌, subst, sym, ◌≢◌, refl, some, List, [], ◌∷◌, arith,
  eq_iff, inl, inr,
}
use mathlib.Core.Option
use zapiack_console_backend.Common.Table.{find, put, find-remove, str_ne, find-put_cases}
use zapiack_console_backend.Sessions.{
  Session, Kept, Store, Config, read, idle_ms, min, members, add, sadd, revoke, SignIn, new_session,
  create, revoke_each, revoke_all_for_staff, persist,
}
use zapiack_console_backend.Sessions.Keys.{
  has, has-add_self, has-sadd, members-put, Inv, Inv-revoke, IsBounded, find-revoke-some,
}
use zapiack_console_backend.Sessions.Laws.{read_stored, persisted}

pub find-revoke_each :
    (now : ℕ) (ids : List String) (j : String) (s : Store) (k : Kept)
    → find j (revoke_each now ids s).sessions ≡ some k
    → (has j ids ≡ false) × (find j s.sessions ≡ some k)
unfolding revoke_each
find-revoke_each now [] j s k h = (refl, h)
find-revoke_each now (id ∷ ids) j s k h =
    let (absent, stored) = find-revoke_each now ids j (revoke now id s) k h in
    let (other, before) = find-revoke-some now id j s k stored in
    (ground (arith, eq_iff id j), before)

-- The record is of the same session, and ends when it did.
abbrev pub SameLife : Session → Session → Type 0
SameLife r d =
    (d.session_id ≡ r.session_id)
    × (d.staff_id ≡ r.staff_id)
    × (d.created_at ≡ r.created_at)
    × (d.absolute_expires_at ≡ r.absolute_expires_at)

module _ (cfg : Config) where
  Inv-put :
      (s : Store) (k : Kept)
      → IsBounded cfg k
      → has k.value.session_id (members k.value.staff_id s) ≡ true
      → Inv cfg s
      → Inv cfg (record s { sessions = put k.value.session_id k s.sessions })
  Inv-put s k bounded listed inv j q h =
      elim (find-put_cases k.value.session_id j k q s.sessions h) [
        | inl (e, same) ↦ rw (← same) (e, bounded, rw (← e) listed)
        | inr (other, before) ↦ inv j q before
      ]

  pub Inv-sadd : (staff id : String) (s : Store) → Inv cfg s → Inv cfg (sadd staff id s)
  Inv-sadd staff id s inv j q h =
      let (own, bounded, listed) = inv j q h in
      (own, bounded, has-sadd staff id q.value.staff_id j s listed)

  -- A record that was changed in neither its id, its owner nor its times is stored again.
  pub Inv-persist :
      (now : ℕ) (id : String) (r d : Session) (s t : Store)
      → read now id s ≡ some r
      → SameLife r d
      → persist cfg now d s ≡ some t
      → Inv cfg s
      → Inv cfg t
  Inv-persist now id r d s t live (same_id, same_staff, same_birth, same_end) done inv =
      let (k, found, e, _) = read_stored now id s r live in
      let (own, (lifetime, _), listed) = inv id k found in
      let (same, _, before_end) = persisted cfg now d s t done in
      let listed' : has k.value.session_id (members k.value.staff_id s) ≡ true =
        subst (λ x. has x (members k.value.staff_id s) ≡ true) (sym own) listed in
      let owned : has r.session_id (members r.staff_id s) ≡ true =
        subst (λ q. has q.session_id (members q.staff_id s) ≡ true) e listed' in
      let lifetime' : r.absolute_expires_at ≡ r.created_at + cfg.absolute_lifetime * 1000 =
        rw e at lifetime in
      rw same (
        Inv-put s _ (rw (same_end, same_birth) lifetime', before_end)
          (rw (same_id, same_staff) owned) inv)

  pub Inv-create :
      (now : ℕ) (input : SignIn) (s t : Store)
      → create cfg now input s ≡ some t
      → Inv cfg s
      → Inv cfg t
  unfolding create
  Inv-create now input s t h inv =
      let (u, stored, e) = (Option.map-eq-some_iff _ _).0 h in
      let r = new_session cfg now input in
      let (same, _, before_end) = persisted cfg now r s u stored in
      let ttl = min (r.absolute_expires_at - now) (idle_ms cfg r) in
      let k : Kept = record { value = r; expires = now + ttl } in
      let added =
        Inv-put (sadd input.staff_id input.fresh_id s) k (refl, before_end)
          (rw
            (
              members-put input.staff_id input.staff_id
                  (add input.fresh_id (members input.staff_id s)) s.index,
              (eq_iff input.staff_id input.staff_id).1 refl,
            )
            (has-add_self input.fresh_id (members input.staff_id s)))
          (Inv-sadd input.staff_id input.fresh_id s inv) in
      rw (← e, same) added

  Inv-revoke_each :
      (now : ℕ) (ids : List String) (s : Store) → Inv cfg s → Inv cfg (revoke_each now ids s)
  unfolding revoke_each
  Inv-revoke_each now [] s inv = inv
  Inv-revoke_each now (id ∷ ids) s inv =
      Inv-revoke_each now ids (revoke now id s) (Inv-revoke cfg now id s inv)

  -- No key is left of a member whose sessions were all revoked.
  pub others_left :
      (now : ℕ) (staff id : String) (s : Store) (k : Kept)
      → Inv cfg s
      → find id (revoke_all_for_staff now staff s).0.sessions ≡ some k
      → k.value.staff_id ≢ staff
  unfolding revoke_all_for_staff
  others_left now staff id s k inv h e =
      let (absent, before) = find-revoke_each now (members staff s) id s k h in
      let (_, _, listed) = inv id k before in
      cc (absent, subst (λ x. has id (members x s) ≡ true) e listed)

  pub Inv-revoke_all :
      (now : ℕ) (staff : String) (s : Store)
      → Inv cfg s
      → Inv cfg (revoke_all_for_staff now staff s).0
  unfolding revoke_all_for_staff
  Inv-revoke_all now staff s inv id k h =
      let left = others_left now staff id s k inv h in
      let t = revoke_each now (members staff s) s in
      let (own, bounded, listed) = Inv-revoke_each now (members staff s) s inv id k h in
      (
        own,
        bounded,
        rw
            (
              find-remove staff k.value.staff_id t.index,
              str_ne staff k.value.staff_id (λ e. left (sym e)),
            )
            listed,
      )

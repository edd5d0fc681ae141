-- ===== src/Sessions/Keys.antt =====
-- The invariant of the session store where no operations overlap: each key names its own session,
-- which ends when it was created to end, and the index of its staff member names it.
use zapiack_console_backend.Common.{
  ℕ, String, Bool, true, ◌+◌, ◌*◌, ◌≡◌, ◌≢◌, ◌≤◌, none, some, List, [], ◌∷◌, arith, if◌then◌else◌,
  any, str_eq, eq_iff, Option-cases, inl, inr,
}
use zapiack_console_backend.Common.Table.{
  Table, find, put, find-put, find-remove, str_ne, str_cases,
}
use zapiack_console_backend.Sessions.{
  Kept, Store, Config, read, or_empty, members, add, without, sadd, srem, delete, revoke_found,
  revoke, get_found, get,
}

abbrev pub has : String → List String → Bool
has id l = any (λ x. str_eq x id) l

pub has-add_self : (id : String) (l : List String) → has id (add id l) ≡ true
has-add_self id l = ground (arith, eq_iff id id)

has-add : (id j : String) (l : List String) → has j l ≡ true → has j (add id l) ≡ true
has-add id j l h = ground arith

has-without :
    (id j : String) (l : List String) → id ≢ j → has j l ≡ true → has j (without id l) ≡ true
unfolding without
has-without id j [] n h = h
has-without id j (x ∷ l) n h = ground (arith, eq_iff x id, eq_iff x j, has-without id j l n)

pub members-put :
    (staff other : String) (l : List String) (t : Table (List String))
    → or_empty (find other (put staff l t))
      ≡ (if str_eq staff other then l else or_empty (find other t))
members-put staff other l t = ground (arith, find-put staff other l t)

-- Adding to the index keeps what is in it, and so does removing another id.
pub has-sadd :
    (staff id other j : String) (s : Store)
    → has j (members other s) ≡ true
    → has j (members other (sadd staff id s)) ≡ true
has-sadd staff id other j s h = elim (str_cases staff other) [
  | inl e ↦
      rw (members-put staff other (add id (members staff s)) s.index, (eq_iff staff other).1 e)
        (has-add id j (members staff s) (rw (← e) at h))
  | inr n ↦ rw (members-put staff other (add id (members staff s)) s.index, str_ne staff other n) h
]

has-srem :
    (staff id other j : String) (s : Store)
    → id ≢ j
    → has j (members other s) ≡ true
    → has j (members other (srem staff id s)) ≡ true
has-srem staff id other j s m h = elim (str_cases staff other) [
  | inl e ↦
      rw (members-put staff other (without id (members staff s)) s.index, (eq_iff staff other).1 e)
        (has-without id j (members staff s) m (rw (← e) at h))
  | inr n ↦
      rw (members-put staff other (without id (members staff s)) s.index, str_ne staff other n) h
]

pub find-revoke :
    (now : ℕ) (id j : String) (s : Store)
    → find j (revoke now id s).sessions ≡ (if str_eq id j then none else find j s.sessions)
unfolding revoke
find-revoke now id j s = elim (Option-cases (read now id s)) [
  | inl none_left ↦ rw (none_left, revoke_found) (find-remove id j s.sessions)
  | inr (r, live) ↦ rw (live, revoke_found) (find-remove id j s.sessions)
]

has-revoke :
    (now : ℕ) (id other j : String) (s : Store)
    → id ≢ j
    → has j (members other s) ≡ true
    → has j (members other (revoke now id s)) ≡ true
unfolding revoke
has-revoke now id other j s n h = elim (Option-cases (read now id s)) [
  | inl none_left ↦ rw (none_left, revoke_found) h
  | inr (r, live) ↦ rw (live, revoke_found) (has-srem r.staff_id id other j (delete id s) n h)
]

pub find-revoke-some :
    (now : ℕ) (id j : String) (s : Store) (k : Kept)
    → find j (revoke now id s).sessions ≡ some k
    → (id ≢ j) × (find j s.sessions ≡ some k)
find-revoke-some now id j s k h = ground (arith, find-revoke now id j s, eq_iff id j)

module _ (cfg : Config) where
  abbrev pub IsBounded : Kept → Type 0
  IsBounded k =
      (k.value.absolute_expires_at ≡ k.value.created_at + cfg.absolute_lifetime * 1000)
      × (k.expires ≤ k.value.absolute_expires_at)

  abbrev pub Inv : Store → Type 0
  Inv s =
      (id : String) (k : Kept)
      → find id s.sessions ≡ some k
      → (k.value.session_id ≡ id) × IsBounded k × (has id (members k.value.staff_id s) ≡ true)

  pub Inv-revoke : (now : ℕ) (id : String) (s : Store) → Inv s → Inv (revoke now id s)
  Inv-revoke now id s inv j k h =
      let (n, before) = find-revoke-some now id j s k h in
      let (own, bounded, listed) = inv j k before in
      (own, bounded, has-revoke now id k.value.staff_id j s n listed)

  pub Inv-get : (now : ℕ) (id : String) (s : Store) → Inv s → Inv (get cfg now id s).0
  unfolding get get_found
  Inv-get now id s inv = elim (Option-cases (read now id s)) [
    | inl missing ↦ rw (missing, get_found) inv
    | inr (r, live) ↦ ground (arith, Inv-revoke now id s inv)
  ]

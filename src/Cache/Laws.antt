-- ===== src/Cache/Laws.antt =====
-- The size of the cache, and how old its answers are.
use zapiack_console_backend.Common.{
  ℕ, String, Bool, true, false, ◌≡◌, ◌≤◌, ◌<◌, ◌+◌, refl, none, some, [], ◌∷◌, arith, ltb, length,
  Option-cases, Bool-cases, ◌⊎◌, inl, inr, suc, if◌then◌else◌,
}
use zapiack_console_backend.Common.Table.{Table, find, put, find-put_self}
use zapiack_console_backend.Cache.{
  Entry, drop_expired, drop_oldest, make_room, store_entry, fresh, get_hit, get,
}

module _ {ℓ} {T : Type ℓ} where
  length-drop_expired : (now : ℕ) (t : Table (Entry T)) → length (drop_expired now t) ≤ length t
  unfolding drop_expired
  length-drop_expired now [] = omega arith
  length-drop_expired now ((k, e) ∷ t) = ground (arith, length-drop_expired now t)

  length-put :
      (k : String) (e : Entry T) (t : Table (Entry T)) → length (put k e t) ≤ suc (length t)
  unfolding put
  length-put k e [] = omega arith
  length-put k e ((j, x) ∷ t) = ground (arith, length-put k e t)

  length-drop_oldest : (n : ℕ) (t : Table (Entry T)) → length t ≤ suc n → length (drop_oldest t) ≤ n
  length-drop_oldest n [] h = omega arith
  length-drop_oldest n (x ∷ t) h = omega arith

  length-make_room :
      (n now : ℕ) (t : Table (Entry T)) → length t ≤ suc n → length (make_room (suc n) now t) ≤ n
  unfolding make_room
  length-make_room n now t h =
      ground (arith, length-drop_expired now t, length-drop_oldest n (drop_expired now t))

  -- A cache for at least one entry that is within its bound stays within it, whatever is asked of it.
  pub length-get :
      (ttl n now : ℕ) (key : String) (loaded : T) (t : Table (Entry T))
      → length t ≤ suc n
      → length (get ttl (suc n) now key loaded t).0 ≤ suc n
  unfolding get store_entry
  length-get ttl n now key loaded t h = elim (Option-cases (fresh now (find key t))) [
    | inr (v, hit) ↦ rw (hit, get_hit) h
    | inl miss ↦
        rw (miss, get_hit)
          (omega (
            arith,
            length-put key (record { value = loaded; expires = now + ttl })
                (make_room (suc n) now t),
            length-make_room n now t h,
          ))
  ]

  get_hit_again :
      (ttl max later : ℕ) (key : String) (loaded other : T) (b : Bool) (t : Table (Entry T))
      → (get_hit ttl max later key other (if b then some loaded else none) t).1
        ≡ (if b then loaded else other)
  unfolding get_hit
  get_hit_again ttl max later key loaded other true t = refl
  get_hit_again ttl max later key loaded other false t = refl

  -- What `get` answers was loaded now, or is an entry that is not over; and an answer loaded now is
  -- given again, whatever a new load would say, until the time to live is over, and not afterwards.
  pub get-fresh :
      (ttl max now : ℕ) (key : String) (loaded : T) (t : Table (Entry T))
      → (((e : Entry T) × (find key t ≡ some e)
            × (now < e.expires)
            × (get ttl max now key loaded t ≡ (t, e.value)))
          ⊎ ((get ttl max now key loaded t).1 ≡ loaded))
        × (fresh now (find key t) ≡ none
            → (later : ℕ) (other : T)
            → (get ttl max later key other (get ttl max now key loaded t).0).1
              ≡ (if ltb later (now + ttl) then loaded else other))
  unfolding get store_entry
  get-fresh ttl max now key loaded t = (
    elim (Option-cases (find key t)) [
      | inl none_yet ↦ inr (rw (none_yet, get_hit) refl)
      | inr (e, found) ↦ elim (Bool-cases (ltb now e.expires)) [
        | inl live ↦ inl (e, found, ground arith, rw found (rw (live, get_hit) refl))
        | inr over ↦ inr (rw found (rw (over, get_hit) refl))
      ]
    ],
    λ miss later other.
        rw (miss, get_hit)
          (rw
            (find-put_self key (record { value = loaded; expires = now + ttl })
              (make_room max now t))
            (get_hit_again ttl max later key loaded other (ltb later (now + ttl)) _)),
  )

-- ===== src/Cache.antt =====
-- The in-process cache of src/common/cache/ttl-cache.ts, as its `Map` in the order of insertion. A
-- `get` is modelled from its call to the end of its load, without a second caller in between, so
-- that no load is ever pending when it starts.
pub mod Laws
mod Tests
use zapiack_console_backend.Common.{
  ℕ, String, Bool, true, false, ◌+◌, Option, none, some, List, [], ◌∷◌, ltb, leb, if◌then◌else◌,
  length,
}
use zapiack_console_backend.Common.Table.{Table, find, put, remove}

pub record Entry {ℓ} (T : Type ℓ) : Type ℓ where
  pub value : T
  pub expires : ℕ

module _ {ℓ} {T : Type ℓ} where
  -- The loop over the entries: those that are over go.
  unfoldable pub drop_expired : ℕ → Table (Entry T) → Table (Entry T)
  drop_expired now [] = []
  drop_expired now ((k, e) ∷ t) =
      let rest = drop_expired now t in if leb e.expires now then rest else (k, e) ∷ rest

  -- `entries.delete` of the first key
  abbrev pub drop_oldest : Table (Entry T) → Table (Entry T)
  drop_oldest [] = []
  drop_oldest (_ ∷ t) = t

  abbrev still_full : ℕ → Table (Entry T) → Table (Entry T)
  still_full max t = if leb max (length t) then drop_oldest t else t

  -- The entries before the new one is stored.
  unfoldable pub make_room : ℕ → ℕ → Table (Entry T) → Table (Entry T)
  make_room max now t = if leb max (length t) then still_full max (drop_expired now t) else t

  -- The private `set`.
  unfoldable pub store_entry : ℕ → ℕ → ℕ → String → T → Table (Entry T) → Table (Entry T)
  store_entry ttl max now key value t =
      put key (record { value = value; expires = now + ttl }) (make_room max now t)

  -- The hit that `get` looks for.
  abbrev pub fresh : ℕ → Option (Entry T) → Option T
  fresh now none = none
  fresh now (some e) = if ltb now e.expires then some e.value else none

  get_hit : ℕ → ℕ → ℕ → String → T → Option T → Table (Entry T) → Table (Entry T) × T
  get_hit ttl max now key loaded none t = (store_entry ttl max now key loaded t, loaded)
  get_hit ttl max now key loaded (some v) t = (t, v)

  -- `get`, with what `load` answers.
  unfoldable pub get : ℕ → ℕ → ℕ → String → T → Table (Entry T) → Table (Entry T) × T
  unfolding get_hit
  get ttl max now key loaded t = get_hit ttl max now key loaded (fresh now (find key t)) t

  -- `delete`
  abbrev pub forget : String → Table (Entry T) → Table (Entry T)
  forget key t = remove key t

  -- `clear`
  abbrev clear : Table (Entry T) → Table (Entry T)
  clear t = []

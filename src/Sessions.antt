-- ===== src/Sessions.antt =====
-- Staff sessions: src/common/auth/session.service.ts. Redis is a table of keys with the instant at
-- which each expires, and a table of sets; a method takes the store and the clock, which it reads
-- once, and returns the new store. A method that throws returns nothing, and leaves the store alone.
pub mod Keys
pub mod Keeps
pub mod Run
pub mod Races
pub mod Laws
mod Tests
use zapiack_console_backend.Common.{
  ℕ, String, Bool, true, false, not, ◌&&◌, ◌+◌, ◌-◌, ◌*◌, Option, none, some, List, [], ◌∷◌, ltb,
  leb, if◌then◌else◌, length, any, str_eq, ◌==◌,
}
use mathlib.Core.Option
use zapiack_console_backend.Common.Table.{Table, find, put, remove}

pub record Impersonation : Type 0 where
  pub account_id : String
  pub expires_at : ℕ

-- `SessionRecord`
pub record Session : Type 0 where
  pub session_id : String
  pub staff_id : String
  pub session_epoch : ℕ
  pub created_at : ℕ
  pub last_seen_at : ℕ
  pub absolute_expires_at : ℕ
  pub ip : Option String
  pub user_agent : Option String
  pub mfa_verified : Bool
  pub csrf_token : String
  pub impersonation : Option Impersonation

pub record Kept : Type 0 where
  pub value : Session
  pub expires : ℕ

pub record Store : Type 0 where
  pub sessions : Table Kept
  pub index : Table (List String)

-- `AdminConfig['session']`, in seconds
pub record Config : Type 0 where
  pub idle_timeout : ℕ
  pub absolute_lifetime : ℕ

abbrev pub max : ℕ → ℕ → ℕ
max a b = if ltb a b then b else a

abbrev pub min : ℕ → ℕ → ℕ
min a b = if ltb b a then b else a

-- 10 minutes
abbrev pub pending_min_ms : ℕ
pending_min_ms = 10 * 60000

abbrev pub idle_ms : Config → Session → ℕ
idle_ms cfg r =
    let idle = cfg.idle_timeout * 1000 in if r.mfa_verified then idle else max idle pending_min_ms

-- `client.get` and `JSON.parse`
abbrev pub unexpired : ℕ → Option Kept → Option Session
unexpired now none = none
unexpired now (some k) = if ltb now k.expires then some k.value else none

abbrev pub read : ℕ → String → Store → Option Session
read now id s = unexpired now (find id s.sessions)

abbrev pub or_empty : Option (List String) → List String
or_empty none = []
or_empty (some l) = l

-- `smembers`
abbrev pub members : String → Store → List String
members staff s = or_empty (find staff s.index)

abbrev pub add : String → List String → List String
add id l = if any (λ x. str_eq x id) l then l else id ∷ l

unfoldable pub without : String → List String → List String
without id [] = []
without id (x ∷ l) = let rest = without id l in if str_eq x id then rest else x ∷ rest

-- `sadd`
abbrev pub sadd : String → String → Store → Store
sadd staff id s = record s { index = put staff (add id (members staff s)) s.index }

-- `srem`
abbrev pub srem : String → String → Store → Store
srem staff id s = record s { index = put staff (without id (members staff s)) s.index }

abbrev pub delete : String → Store → Store
delete id s = record s { sessions = remove id s.sessions }

pub revoke_found : String → Option Session → Store → Store
revoke_found id none s = delete id s
revoke_found id (some r) s = srem r.staff_id id (delete id s)

unfoldable pub revoke : ℕ → String → Store → Store
unfolding revoke_found
revoke now id s = revoke_found id (read now id s) s

-- What `create` is given, and the two random values that it draws.
pub record SignIn : Type 0 where
  pub staff_id : String
  pub session_epoch : ℕ
  pub ip : Option String
  pub user_agent : Option String
  pub mfa_verified : Bool
  pub fresh_id : String
  pub fresh_token : String

-- The record as `touch` leaves it.
abbrev pub seen : ℕ → Session → Session
seen now r = record r { last_seen_at = now }

abbrev or_next : Store × Option Session → Store × Option Session → Store × Option Session
or_next (t, some r) next = (t, some r)
or_next (t, none) next = next

module _ (cfg : Config) where
  -- `persist`. A time to live that is not positive throws.
  unfoldable pub persist : ℕ → Session → Store → Option Store
  persist now r s =
      let ttl = min (r.absolute_expires_at - now) (idle_ms cfg r) in
      if ttl == 0
      then none
      else some (record s {
        sessions = put r.session_id (record { value = r; expires = now + ttl }) s.sessions;
      })

  get_found : ℕ → String → Option Session → Store → Store × Option Session
  get_found now id none s = (s, none)
  get_found now id (some r) s =
      if ltb r.absolute_expires_at now
      then (revoke now id s, none)
      else if ltb (idle_ms cfg r) (now - r.last_seen_at)
      then (revoke now id s, none)
      else (s, some r)

  unfoldable pub get : ℕ → String → Store → Store × Option Session
  unfolding get_found
  get now id s = get_found now id (read now id s) s

  unfoldable pub first_live : ℕ → List String → Store → Store × Option Session
  first_live now [] s = (s, none)
  first_live now (id ∷ ids) s = let here = get now id s in or_next here (first_live now ids here.0)

  abbrev pub touch : ℕ → Session → Store → Option Store
  touch now r s = persist now (seen now r) s

  abbrev pub update : ℕ → Session → Store → Option Store
  update now r s = persist now r s

  abbrev pub new_session : ℕ → SignIn → Session
  new_session now input = record {
    session_id = input.fresh_id;
    staff_id = input.staff_id;
    session_epoch = input.session_epoch;
    created_at = now;
    last_seen_at = now;
    absolute_expires_at = now + cfg.absolute_lifetime * 1000;
    ip = input.ip;
    user_agent = input.user_agent;
    mfa_verified = input.mfa_verified;
    csrf_token = input.fresh_token;
    impersonation = none;
  }

  unfoldable pub create : ℕ → SignIn → Store → Option Store
  create now input s =
      Option.map (λ t. sadd input.staff_id input.fresh_id t) (persist now (new_session now input) s)

  list_ids : ℕ → List String → Store → Store × List Session
  list_ids now [] s = (s, [])
  list_ids now (id ∷ ids) s =
      let here = get now id s in
      let rest = list_ids now ids here.0 in (rest.0, with_found here.1 rest.1)
    where
      with_found : Option Session → List Session → List Session
      with_found none rs = rs
      with_found (some r) rs = r ∷ rs

  pub list_for_staff : ℕ → String → Store → Store × List Session
  unfolding list_ids
  list_for_staff now staff s = list_ids now (members staff s) s

unfoldable pub revoke_each : ℕ → List String → Store → Store
revoke_each now [] s = s
revoke_each now (id ∷ ids) s = revoke_each now ids (revoke now id s)

-- The new store, and how many sessions were named.
unfoldable pub revoke_all_for_staff : ℕ → String → Store → Store × ℕ
revoke_all_for_staff now staff s =
    let ids = members staff s in
    let t = revoke_each now ids s in (record t { index = remove staff t.index }, length ids)

-- `presented` is tested for truth, so that an empty header is none.
abbrev pub verify_csrf : Session → Option String → Bool
verify_csrf r none = false
verify_csrf r (some presented) = not (str_eq presented "") && str_eq r.csrf_token presented

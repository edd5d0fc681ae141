-- ===== src/Sessions/Races.antt =====
-- Requests that overlap: a request holds the record that it read, and writes it back later, whatever
-- was done to the session in between. Each read, write and revocation is a step of its own.
pub mod Laws
use zapiack_console_backend.Common.{
  ℕ, suc, String, ◌+◌, ◌*◌, ◌≡◌, ◌<◌, ◌≤◌, refl, Option, none, some, List, [], ◌∷◌, arith,
  Option-cases, inl, inr, All, zero,
}
use zapiack_console_backend.Common.Table.{find, find-put_cases}
use zapiack_console_backend.Sessions.{
  Session, Kept, Store, Config, SignIn, read, create, first_live, seen, revoke, get, get_found,
  revoke_all_for_staff, persist, new_session, members,
}
use zapiack_console_backend.Sessions.Keys.{IsBounded, find-revoke-some}
use zapiack_console_backend.Sessions.Keeps.{SameLife, find-revoke_each}
use zapiack_console_backend.Sessions.Laws.{read_stored, persisted, first_live_stored}
use zapiack_console_backend.Sessions.Run.{Change, change, change-SameLife, or_same, empty}

-- The store, and the records that requests hold, the newest first.
pub record World : Type 0 where
  pub store : Store
  pub held : List Session

-- `n` counts the records that are held.
pub data Await : Type 0 where
  signs_in : SignIn → Await
  looks_up : List String → Await
  touches : (n : ℕ) → Await
  updates : (n : ℕ) → Change → Await
  signs_out : String → Await
  signs_out_all : String → Await

unfoldable pub nth : ℕ → List Session → Option Session
nth n [] = none
nth zero (r ∷ rs) = some r
nth (suc n) (r ∷ rs) = nth n rs

abbrev pub hold : Store × Option Session → List Session → World
hold (s, none) rs = record { store = s; held = rs }
hold (s, some r) rs = record { store = s; held = r ∷ rs }

module _ (cfg : Config) where
  -- The record that is held is changed, also where the write throws.
  abbrev pub write_back : ℕ → Session → World → World
  write_back now d w = record {
    store = or_same (persist cfg now d w.store) w.store;
    held = d ∷ w.held;
  }

  abbrev pub touch_held : ℕ → Option Session → World → World
  touch_held now none w = w
  touch_held now (some r) w = write_back now (seen now r) w

  abbrev pub update_held : ℕ → Change → Option Session → World → World
  update_held now c none w = w
  update_held now c (some r) w = write_back now (change c r) w

  unfoldable pub advance : ℕ → Await → World → World
  advance now (signs_in input) w = record w {
    store = or_same (create cfg now input w.store) w.store;
  }
  advance now (looks_up ids) w = hold (first_live cfg now ids w.store) w.held
  advance now (touches n) w = touch_held now (nth n w.held) w
  advance now (updates n c) w = update_held now c (nth n w.held) w
  advance now (signs_out id) w = record w { store = revoke now id w.store }
  advance now (signs_out_all staff) w = record w {
    store = (revoke_all_for_staff now staff w.store).0;
  }

  unfoldable pub interleaved : List (ℕ × Await) → World → World
  unfolding advance
  interleaved [] w = w
  interleaved ((now, a) ∷ l) w = interleaved l (advance now a w)

-- ===== src/Sessions/Tests.antt =====
-- A session of half an hour idle and twelve hours in all, from sign-in to sign-out.
use zapiack_console_backend.Common.{
  ℕ, true, ◌≡◌, ◌≢◌, ◌<◌, ◌*◌, ◌+◌, refl, arith, none, some, List, [], ◌∷◌, false,
}
use zapiack_console_backend.Common.Table.{find, put, remove}
use zapiack_console_backend.Sessions.{
  Session, Store, Config, SignIn, new_session, get, seen, touch, revoke, revoke_all_for_staff,
  create, persist, first_live, revoke_each,
}
use zapiack_console_backend.Sessions.Laws.{touch-revoke}
use zapiack_console_backend.Auth.SignIn.{verified}
use zapiack_console_backend.Auth.ViewAs.{viewing}
use zapiack_console_backend.Sessions.Races.{
  Await, signs_in, looks_up, updates, signs_out_all, touches, interleaved, advance, nth,
}
use zapiack_console_backend.Sessions.Races.Laws.{interleaved-read}
use zapiack_console_backend.Sessions.Run.{
  second_factor, change_it, start_viewing, Op, sign_in, request, step, run, empty,
  run-revoke_all_for_staff,
}

abbrev cfg : Config
cfg = record { idle_timeout = 1800; absolute_lifetime = 43200 }

abbrev ada : SignIn
ada = record {
  staff_id = "ada";
  session_epoch = 1;
  ip = none;
  user_agent = none;
  mfa_verified = true;
  fresh_id = "sid-1";
  fresh_token = "token";
}

abbrev pending : SignIn
pending = record ada { mfa_verified = false }

abbrev obi : SignIn
obi = record ada { staff_id = "obi"; fresh_id = "sid-2" }

abbrev day : List (ℕ × Op)
day =
    (100, sign_in ada)
    ∷ (150, sign_in obi)
    ∷ (200, request ("gone" ∷ "sid-1" ∷ []))
    ∷ (250, change_it ("sid-2" ∷ []) (start_viewing "c1" 400))
    ∷ []

abbrev ada_now : Session
ada_now = seen 200 (new_session cfg 100 ada)

touch-revoke_example :
    (t : Store) × (touch cfg 300 ada_now (revoke 300 "sid-1" (run cfg day empty)) ≡ some t)
    × ((get cfg 300 "sid-1" t).1 ≡ some (seen 300 ada_now))
touch-revoke_example = touch-revoke cfg 300 ada_now (run cfg day empty) (omega arith) (omega arith)

-- A second factor and a touch of a record that was read before the sign-out of everything.
abbrev overlap : List (ℕ × Await)
overlap =
    (100, signs_in pending)
    ∷ (150, looks_up ("sid-1" ∷ []))
    ∷ (160, updates 0 second_factor)
    ∷ (200, signs_out_all "ada")
    ∷ (210, touches 0)
    ∷ []

abbrev brought_back : Session
brought_back = seen 210 (verified (new_session cfg 100 pending))

interleaved-read_example :
    (brought_back.session_id ≡ "sid-1")
    × (300 < brought_back.created_at + cfg.absolute_lifetime * 1000)
unfolding interleaved advance nth create persist first_live get find put revoke_all_for_staff
    revoke_each revoke remove
interleaved-read_example = interleaved-read cfg overlap 300 "sid-1" brought_back refl

run-revoke_all_for_staff_example :
    (viewing "c1" 400 (new_session cfg 150 obi)).staff_id ≢ ada.staff_id
unfolding run step create persist first_live get find put revoke_all_for_staff revoke_each revoke
    remove
run-revoke_all_for_staff_example =
    run-revoke_all_for_staff cfg day 300 400 "ada" "sid-2"
      (viewing "c1" 400 (new_session cfg 150 obi)) refl

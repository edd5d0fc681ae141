-- ===== src/Guards/Tests.antt =====
-- One member of staff, let in and turned away.
use zapiack_console_backend.Common.{
  ℕ, String, true, false, ◌≡◌, ◌||◌, refl, none, some, List, [], ◌∷◌, inl, ◌⊎◌, ◌↔◌, All,
}
use zapiack_console_backend.Common.Table.{Table, find}
use zapiack_console_backend.Cache
use zapiack_console_backend.Cache.{store_entry, make_room}
use zapiack_console_backend.Sessions.{Session, Config, new_session, read, get, persist, first_live}
use zapiack_console_backend.Sessions.Keys.{has}
use zapiack_console_backend.Sessions.Laws.{IsWithin}
use zapiack_console_backend.Guards.{
  Member, Principal, Request, State, staff_inactive, principal, has_proof, can_activate,
  check_session, check_staff, admit, holds, denial,
}
use zapiack_console_backend.Guards.Laws.{
  IsKnown, can_activate_passed, can_activate_ended, denial_iff,
}

abbrev cfg : Config
cfg = record { idle_timeout = 1800; absolute_lifetime = 43200 }

abbrev session : Session
session = new_session cfg 100 (record {
  staff_id = "ada";
  session_epoch = 1;
  ip = none;
  user_agent = none;
  mfa_verified = true;
  fresh_id = "sid-1";
  fresh_token = "token";
})

abbrev ada : Member
ada = record {
  id = "ada";
  email = "ada@zapiack.com";
  name = "Ada";
  status = "ACTIVE";
  session_epoch = 1;
  role_id = "r";
  role_key = "finance";
  role_permissions = "credits.approve" ∷ [];
  extra_permissions = "credits.adjust" ∷ [];
}

abbrev staff : Table Member
staff = ("ada", ada) ∷ []

abbrev left : Table Member
left = ("ada", record ada { status = "DISABLED" }) ∷ []

abbrev state : State
state = record {
  store = record {
    sessions = ("sid-1", record { value = session; expires = 1000 }) ∷ [];
    index = [];
  };
  cache = [];
}

abbrev post : Request
post = record {
  is_public = false;
  method = "POST";
  cookies = "sid-1" ∷ [];
  csrf_header = some "token";
  ip = none;
  user_agent = none;
}

abbrev let_in : Principal
let_in = principal 300 post session ada

can_activate_passed_example :
    (r : Session) × (m : Member) × (id : String) × (has id post.cookies ≡ true)
    × (read 300 id (first_live cfg 300 post.cookies state.store).0 ≡ some r)
    × IsWithin cfg 300 r
    × (r.mfa_verified ≡ true)
    × (has_proof post r ≡ true)
    × IsKnown staff 300 r.staff_id state.cache m
    × (m.status ≡ "ACTIVE")
    × (m.session_epoch ≡ r.session_epoch)
    × (let_in.id ≡ m.id)
    × ((x : String) → holds let_in x ≡ (has x m.role_permissions || has x m.extra_permissions))
unfolding can_activate check_session check_staff admit first_live get find persist Cache.get
    store_entry make_room
can_activate_passed_example = can_activate_passed cfg staff 300 post state let_in refl

can_activate_ended_example :
    let t = (can_activate cfg left 300 post state).0 in
    (r : Session) × ((first_live cfg 300 post.cookies state.store).1 ≡ some r)
    × ((later : ℕ) → read later r.session_id t.store ≡ none)
    × (find r.staff_id t.cache ≡ none)
unfolding can_activate check_session check_staff admit first_live get find persist Cache.get
    store_entry make_room
can_activate_ended_example =
    can_activate_ended cfg left 300 post state staff_inactive refl (inl refl)

abbrev asked : List String
asked = "credits.adjust" ∷ []

abbrev method : String
method = "POST"

denial_iff_example : (denial asked (some let_in) method ≡ none) ↔ (
    (asked ≡ [])
    ⊎ (All (λ x. holds let_in x ≡ true) asked × ((let_in.impersonating ≡ none) ⊎ (method ≡ "GET"))))
denial_iff_example = denial_iff asked let_in method

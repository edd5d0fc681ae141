-- ===== src/Auth/ViewAs.antt =====
-- The read-only view of a customer: `startImpersonation` and `endImpersonation` of
-- src/modules/auth/auth.service.ts.
use zapiack_console_backend.Auth.Account.{conclude, audit_safe, audit}
use zapiack_console_backend.Common.{
  ℕ, String, not, Option, none, some, ◌∷◌, ◌+◌, ◌*◌, ◌&&◌, map, is_some, str_eq, if◌then◌else◌,
}
use zapiack_console_backend.Sessions.{Session, Store, get, update}
use zapiack_console_backend.Auth.{
  State, Env, Config, Outcome, thrown, done, Impersonation, minute_ms, session_expired,
  impersonate_end, no_session, impersonate,
}

abbrev pub viewing : String → ℕ → Session → Session
viewing account_id expires_at r = record r {
  impersonation = some (record { account_id = account_id; expires_at = expires_at });
}

abbrev pub ends_at : Config → Env → ℕ
ends_at cfg env = env.now + cfg.impersonation_minutes * minute_ms

unfoldable pub start_stored :
    Config → Env → String → String → Option Store → State → State × Outcome ℕ
start_stored cfg env staff_id account_id none s = (s, thrown no_session)
start_stored cfg env staff_id account_id (some t) s = conclude (ends_at cfg env) (
    audit env impersonate staff_id (some account_id) (record s {
      sessions = t;
      impersonations =
          record {
            staff_id = staff_id;
            account_id = account_id;
            expires_at = ends_at cfg env;
            ended_at = none;
          }
          ∷ s.impersonations;
    }))

unfoldable pub start_found :
    Config → Env → String → String → Option Session → State → State × Outcome ℕ
unfolding start_stored
start_found cfg env staff_id account_id none s = (s, thrown session_expired)
start_found cfg env staff_id account_id (some r) s =
    start_stored cfg env staff_id account_id
      (update cfg.session env.now (viewing account_id (ends_at cfg env) r) s.sessions) s

-- The answer is the instant at which the view ends.
unfoldable pub start_impersonation :
    Config → Env → String → String → String → State → State × Outcome ℕ
unfolding start_found
start_impersonation cfg env staff_id session_id account_id s =
    let here = get cfg.session env.now session_id s.sessions in
    start_found cfg env staff_id account_id here.1 (record s { sessions = here.0 })

abbrev pub ended : ℕ → String → Impersonation → Impersonation
ended now staff_id i =
    if str_eq i.staff_id staff_id && not (is_some i.ended_at)
    then record i { ended_at = some now }
    else i

unfoldable pub end_rows : Env → String → State → State × Outcome Unit
end_rows env staff_id s = (
  audit_safe env impersonate_end staff_id none
      (record s { impersonations = map (ended env.now staff_id) s.impersonations }),
  done tt,
)

abbrev pub end_stored : Env → String → Option Store → State → State × Outcome Unit
end_stored env staff_id none s = (s, thrown no_session)
end_stored env staff_id (some t) s = end_rows env staff_id (record s { sessions = t })

unfoldable pub end_found : Config → Env → String → Option Session → State → State × Outcome Unit
unfolding end_rows
end_found cfg env staff_id none s = end_rows env staff_id s
end_found cfg env staff_id (some r) s =
    if is_some r.impersonation
    then end_stored env staff_id
        (update cfg.session env.now (record r { impersonation = none }) s.sessions) s
    else end_rows env staff_id s

unfoldable pub end_impersonation : Config → Env → String → String → State → State × Outcome Unit
unfolding end_found
end_impersonation cfg env staff_id session_id s =
    let here = get cfg.session env.now session_id s.sessions in
    end_found cfg env staff_id here.1 (record s { sessions = here.0 })

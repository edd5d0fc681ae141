-- ===== src/Segments/Tests.antt =====
-- Two accounts, one of which owes credits.
use zapiack_console_backend.Common.{
  String, Bool, true, ◌≡◌, refl, Option, none, some, List, [], ◌∷◌, length, All, str_eq,
}
use zapiack_console_backend.Common.Text.{codes}
use zapiack_console_backend.Segments.{
  Account, Credits, pos, negsuc, Filter, no_filter, Segment, Env, count, resolve, resolve_by_id,
  by_id, find_first, system, on_application_bootstrap, upsert, build_where,
}

abbrev account : String → Credits → Account
account id balance = record {
  id = id;
  user_id = id;
  account_status = "ACTIVE";
  country_code = codes "NG";
  credit_balance = balance;
  email = codes "a@x.ng";
  display_name = none;
  email_verified = true;
  subscriptions = [];
  log_events = [];
}

abbrev accounts : List Account
accounts = account "a1" (pos 50000) ∷ account "a2" (negsuc 4) ∷ []

abbrev poor : Filter
poor = record no_filter { credits_below = some (pos 0); countries = codes "ng" ∷ [] }

count-poor : count 0 accounts poor ≡ 1
unfolding count zapiack_console_backend.Segments.count_many build_where
    zapiack_console_backend.Common.Text.to_upper
count-poor = refl

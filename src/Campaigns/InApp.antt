-- ===== src/Campaigns/InApp.antt =====
-- The bell of the customer app: `deliver` of src/modules/notifications/in-app-delivery.service.ts. The
-- live update over Redis is best effort and changes nothing here.
pub mod Laws
use zapiack_console_backend.Common.{
  ℕ, String, Bool, true, false, not, ◌&&◌, ◌-◌, Option, none, some, List, [], ◌∷◌, ◌++◌, any,
  length, str_eq, if◌then◌else◌, map,
}
use zapiack_console_backend.Common.Text.{Text}
use zapiack_console_backend.Segments.{Resolved}
use zapiack_console_backend.Campaigns.{Notice, Env}

-- Whether the user has this campaign's notice.
abbrev pub has_notice : String → String → List Notice → Bool
has_notice campaign user notices =
    any (λ n. str_eq n.user_id user && str_eq n.campaign_id campaign) notices

unfoldable pub fresh : String → List Notice → List Resolved → List Resolved
fresh campaign notices [] = []
fresh campaign notices (r ∷ l) =
    let rest = fresh campaign notices l in
    if has_notice campaign r.user_id notices then rest else r ∷ rest

abbrev pub notice_of : String → Resolved → Notice
notice_of campaign r = record {
  user_id = r.user_id;
  account_id = r.account_id;
  campaign_id = campaign;
}

pub record Delivered : Type 0 where
  pub created : ℕ
  pub skipped : ℕ

pub data Result : Type 0 where
  failure : Text → Result
  success : Delivered → Result

unfoldable pub written :
    String → List Notice → List Resolved → List Resolved → Option Text → List Notice × Result
written campaign notices l [] broken =
    (notices, success (record { created = 0; skipped = length l }))
written campaign notices l (r ∷ new) (some message) = (notices, failure message)
written campaign notices l (r ∷ new) none = (
  notices ++ map (notice_of campaign) (r ∷ new),
  success (record { created = length (r ∷ new); skipped = length l - length (r ∷ new) }),
)

unfoldable pub deliver : Env → String → List Resolved → List Notice → List Notice × Result
unfolding fresh written
deliver env campaign l notices =
    written campaign notices l (fresh campaign notices l) env.in_app_rows

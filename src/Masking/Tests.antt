-- ===== src/Masking/Tests.antt =====
-- Two addresses that are masked alike, and one of each other kind.
use zapiack_console_backend.Common.{◌≡◌, refl, some, ◌∷◌, ◌++◌}
use zapiack_console_backend.Common.Text.{Text, codes, split}
use zapiack_console_backend.Masking.{mask_destination, mask_ip, mask_phone}
use zapiack_console_backend.Masking.Laws.{mask_destination_blind}

abbrev ada : Text
ada = codes "adaeze"

abbrev adamu : Text
adamu = codes "adamu1"

mask_destination_blind_example :
    mask_destination (some (ada ++ b'@' ∷ codes "mail.ng"))
    ≡ mask_destination (some (adamu ++ b'@' ∷ codes "mail.ng"))
mask_destination_blind_example =
    mask_destination_blind ada adamu (codes "mail.ng") refl refl refl refl

mask_ip-mapped : mask_ip (some (codes "::ffff:41.2.3.4")) ≡ some (codes "41.2.x.x")
unfolding mask_ip split
mask_ip-mapped = refl

mask_phone-eleven : mask_phone (some (codes "08031234567")) ≡ some (codes "********567")
unfolding mask_phone
mask_phone-eleven = refl

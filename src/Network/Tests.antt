-- ===== src/Network/Tests.antt =====
-- An entry with nothing after its slash, and numbers that are read digit by digit.
use zapiack_console_backend.Common.{
  ℕ, ◌+◌, ◌*◌, ◌-◌, ◌&&◌, Option, none, some, [], ◌∷◌, leb, if◌then◌else◌,
}
use zapiack_console_backend.Common.Text.{Text, codes}

abbrev digits_from : ℕ → Text → Option ℕ
digits_from n [] = some n
digits_from n (c ∷ s) =
    let rest = digits_from (n * 10 + (c - 48)) s in if leb 48 c && leb c 57 then rest else none

abbrev number : Text → Option ℕ
number s = digits_from 0 s

abbrev office : Text
office = codes "10.0.0.0"

abbrev elsewhere : Text
elsewhere = codes "8.8.8.8"

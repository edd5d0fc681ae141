-- ===== src/Masking.antt =====
-- What leaves the console of an address: src/common/http/masking.ts. A value that is missing
-- (`null`, `undefined`) is `none`; the code answers `null` for it and for the empty text.
pub mod Laws
mod Tests
use zapiack_console_backend.Common.{
  ℕ, zero, suc, Bool, ◌+◌, ◌-◌, Option, none, some, List, [], ◌∷◌, ◌++◌, any, ltb, ◌==◌,
  if◌then◌else◌, length, take, drop,
}
use zapiack_console_backend.Common.Text.{Text, codes, split, starts_with}

abbrev pub repeat : ℕ → ℕ → Text
repeat c zero = []
repeat c (suc n) = c ∷ repeat c n

-- `includes` of one code unit
abbrev pub includes : Text → ℕ → Bool
includes s c = any (λ x. x == c) s

abbrev at_least_one : ℕ → ℕ
at_least_one n = if ltb n 1 then 1 else n

abbrev pub stars : ℕ → Text
stars n = repeat b'*' n

-- What is left of an address once it is split: the part before the first `@`, and the next part.
unfoldable pub mask_parts : List Text → Text
mask_parts (local ∷ (c ∷ domain) ∷ more) =
    take 2 local ++ stars (at_least_one (length local - 2)) ++ b'@' ∷ c ∷ domain
mask_parts _ = codes "***"

unfoldable pub mask_email : Option Text → Option Text
mask_email none = none
mask_email (some []) = none
mask_email (some (c ∷ s)) = some (mask_parts (split b'@' (c ∷ s)))

abbrev pub tail : Text → Text
tail phone = drop (length phone - 3) phone

unfoldable pub mask_phone : Option Text → Option Text
mask_phone none = none
mask_phone (some []) = none
mask_phone (some (c ∷ s)) = let phone = c ∷ s in some (stars (length phone - 3) ++ tail phone)

-- `join`
abbrev join : ℕ → List Text → Text
join sep [] = []
join sep (part ∷ []) = part
join sep (part ∷ next ∷ parts) = part ++ sep ∷ join sep (next ∷ parts)

unfoldable two_octets : List Text → Text
two_octets (a ∷ b ∷ c ∷ d ∷ []) = a ++ b'.' ∷ b ++ codes ".x.x"
two_octets _ = codes "x.x.x.x"

abbrev pub normalised : Text → Text
normalised ip = if starts_with ip (codes "::ffff:") then drop 7 ip else ip

unfoldable pub mask_ip : Option Text → Option Text
unfolding two_octets
mask_ip none = none
mask_ip (some []) = none
mask_ip (some (c ∷ s)) =
    let ip = normalised (c ∷ s) in
    some (
      if includes ip b':'
      then join b':' (take 3 (split b':' ip)) ++ codes "::/48"
      else two_octets (split b'.' ip))

-- The ellipsis is the one character.
pub mask_api_key_prefix : Option Text → Option Text
mask_api_key_prefix none = none
mask_api_key_prefix (some []) = none
mask_api_key_prefix (some (c ∷ s)) = some (take 8 (c ∷ s) ++ 0x2026 ∷ [])

unfoldable pub mask_destination : Option Text → Option Text
mask_destination none = none
mask_destination (some []) = none
mask_destination (some (c ∷ s)) =
    let value = c ∷ s in
    if includes value b'@' then mask_email (some value) else mask_phone (some value)

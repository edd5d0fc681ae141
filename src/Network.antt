-- ===== src/Network.antt =====
-- The network allowlist of a role: src/common/auth/cidr.ts and ip-allowlist.guard.ts. JavaScript's
-- `Number` enters as a function that answers the number where the text is one of an integer that is
-- not negative; the code turns every other text away.
pub mod Laws
mod Tests
use Prim.Native.Nat.{bit_and}
use zapiack_console_backend.Common.{
  ℕ, zero, suc, Bool, true, false, not, ◌&&◌, ◌+◌, ◌-◌, ◌*◌, Option, none, some, List, [], ◌∷◌, any,
  leb, ◌==◌, if◌then◌else◌, drop,
}
use zapiack_console_backend.Common.Text.{Text, codes, text_eq, split, starts_with}

abbrev pub power_of_2 : ℕ → ℕ
power_of_2 zero = 1
power_of_2 (suc n) = 2 * power_of_2 n

-- `(0xffffffff << (32 - bits)) >>> 0`, for 1 to 32 bits
abbrev pub mask : ℕ → ℕ
mask bits = power_of_2 32 - power_of_2 (32 - bits)

module _ (number : Text → Option ℕ) where
  abbrev octet : Text → Option ℕ
  octet part = elim (number part) [ none ↦ none | some p ↦ if leb p 255 then some p else none ]

  -- The value of four octets stays below 2 ^ 32, so that the shifts of the code lose nothing.
  unfoldable pub to_int : Text → Option ℕ
  to_int addr = from_parts (split b'.' addr)
    where
      join : Option ℕ → Option ℕ → Option ℕ → Option ℕ → Option ℕ
      join (some a) (some b) (some c) (some d) = some (((a * 256 + b) * 256 + c) * 256 + d)
      join _ _ _ _ = none

      from_parts : List Text → Option ℕ
      from_parts (a ∷ b ∷ c ∷ d ∷ []) = join (octet a) (octet b) (octet c) (octet d)
      from_parts _ = none

  -- The bits, where the text after the slash is a number of at most 32.
  unfoldable pub bits_of : Option Text → Option ℕ
  bits_of none = some 32
  bits_of (some raw) = elim (number raw) [
    | none ↦ none
    | some n ↦ if leb n 32 then some n else none
  ]

  unfoldable pub matches : Option ℕ → Option ℕ → Option ℕ → Bool
  matches (some target) (some base) (some zero) = true
  matches (some target) (some base) (some (suc n)) =
      bit_and target (mask (suc n)) == bit_and base (mask (suc n))
  matches _ _ _ = false

  unfoldable pub in_parts : Text → List Text → Bool
  in_parts ip [] = false
  in_parts ip (range ∷ []) = matches (to_int ip) (to_int range) (bits_of none)
  in_parts ip (range ∷ raw ∷ more) = matches (to_int ip) (to_int range) (bits_of (some raw))

  -- `split` never answers an empty list.
  unfoldable pub ip_in_cidr : Text → Text → Bool
  ip_in_cidr ip cidr = in_parts ip (split b'/' cidr)

unfoldable pub normalise_ip : Option Text → Option Text
normalise_ip none = none
normalise_ip (some []) = none
normalise_ip (some (c ∷ s)) =
    some (if starts_with (c ∷ s) (codes "::ffff:") then drop 7 (c ∷ s) else c ∷ s)

module _ (number : Text → Option ℕ) where
  unfoldable pub is_listed : List Text → Option Text → Bool
  is_listed allowlist none = false
  is_listed allowlist (some ip) = any (λ cidr. ip_in_cidr number ip cidr) allowlist

  -- `canActivate` of the guard: whether it lets the request through. The first argument is the
  -- allowlist of the role of the member of staff, empty where there is no member, or no role.
  unfoldable pub from_network : Option (List Text) → Option Text → Bool
  from_network none ip = true
  from_network (some []) ip = true
  from_network (some (cidr ∷ more)) ip = is_listed (cidr ∷ more) (normalise_ip ip)

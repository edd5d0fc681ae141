-- ===== src/Network/Laws.antt =====
-- An allowlist lets through four octets only, and an entry that lets every address through.
use zapiack_console_backend.Common.{
  ℕ, true, false, ◌≡◌, refl, Option, none, some, List, [], ◌∷◌, ◌++◌, any, ◌==◌, arith,
  Option-cases, Bool-cases, inl, inr,
}
use zapiack_console_backend.Common.Text.{Text, split}
use zapiack_console_backend.Network.{
  to_int, bits_of, matches, in_parts, ip_in_cidr, normalise_ip, is_listed, from_network,
}

module _ (number : Text → Option ℕ) where
  matches-some :
      (o p q : Option ℕ)
      → matches number o p q ≡ true
      → ((a : ℕ) × (o ≡ some a)) × ((b : ℕ) × (p ≡ some b))
  unfolding matches
  matches-some none p q h = cc
  matches-some (some a) none q h = cc
  matches-some (some a) (some b) q h = ((a, refl), (b, refl))

  in_parts-some :
      (ip : Text) (parts : List Text)
      → in_parts number ip parts ≡ true
      → (a : ℕ) × (to_int number ip ≡ some a)
  unfolding in_parts
  in_parts-some ip [] h = cc
  in_parts-some ip (range ∷ []) h = (matches-some (to_int number ip) (to_int number range) _ h).0
  in_parts-some ip (range ∷ raw ∷ more) h =
      (matches-some (to_int number ip) (to_int number range) _ h).0

  listed_some :
      (ip : Text) (allowlist : List Text)
      → any (λ cidr. ip_in_cidr number ip cidr) allowlist ≡ true
      → (a : ℕ) × (to_int number ip ≡ some a)
  unfolding ip_in_cidr
  listed_some ip [] h = cc
  listed_some ip (cidr ∷ more) h = elim (Bool-cases (ip_in_cidr number ip cidr)) [
    | inl here ↦ in_parts-some ip (split b'/' cidr) here
    | inr other ↦ listed_some ip more (ground arith)
  ]

  -- With an allowlist that is not empty, a request is let through only from an address, and only from
  -- one that is four octets.
  pub from_network-some :
      (cidr : Text) (more : List Text) (ip : Option Text)
      → from_network number (some (cidr ∷ more)) ip ≡ true
      → (addr : Text) × (a : ℕ) × (normalise_ip ip ≡ some addr) × (to_int number addr ≡ some a)
  unfolding from_network is_listed
  from_network-some cidr more ip h = elim (Option-cases (normalise_ip ip)) [
    | inl missing ↦ cc (rw (missing, is_listed) at h)
    | inr (addr, present) ↦
        let (a, known) = listed_some addr (cidr ∷ more) (rw (present, is_listed) at h) in
        (addr, a, present, known)
  ]

split_last :
    (sep : ℕ) (s : Text) → any (λ c. c == sep) s ≡ false → split sep (s ++ sep ∷ []) ≡ s ∷ [] ∷ []
unfolding split
split_last sep [] h = ground arith
split_last sep (c ∷ s) h =
    let other : (c == sep) ≡ false = ground arith in
    rw other (rw (split_last sep s (ground arith)) refl)

-- An entry that ends in a slash with nothing after it lets every well-formed address through, since
-- the empty text is the number zero.
pub ip_in_cidr_open :
    (number : Text → Option ℕ) (ip range : Text) (a b : ℕ)
    → number [] ≡ some 0
    → any (λ c. c == b'/') range ≡ false
    → to_int number ip ≡ some a
    → to_int number range ≡ some b
    → ip_in_cidr number ip (range ++ b'/' ∷ []) ≡ true
unfolding ip_in_cidr in_parts bits_of matches
ip_in_cidr_open number ip range a b empty plain address known =
    rw (split_last b'/' range plain) (rw (address, known) (rw (empty, bits_of) refl))

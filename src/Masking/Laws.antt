-- ===== src/Masking/Laws.antt =====
-- How little of an address its mask depends on.
use zapiack_console_backend.Common.{
  ℕ, true, false, ◌≡◌, refl, some, List, [], ◌∷◌, ◌++◌, length, take, arith,
}
use zapiack_console_backend.Common.Text.{Text, split}
use zapiack_console_backend.Masking.{mask_email, mask_destination, mask_parts, includes}

includes-append : (c : ℕ) (s t : Text) → includes (s ++ c ∷ t) c ≡ true
includes-append c [] t = ground arith
includes-append c (x ∷ s) t = ground (arith, includes-append c s t)

-- The text before a separator is the first part, what follows is split on its own.
split-append :
    (sep : ℕ) (s t : Text) → includes s sep ≡ false → split sep (s ++ sep ∷ t) ≡ s ∷ split sep t
unfolding split
split-append sep [] t h = ground arith
split-append sep (c ∷ s) t h = ground (arith, split-append sep s t)

mask_parts_blind :
    (name other : Text) (parts : List Text)
    → length name ≡ length other
    → take 2 name ≡ take 2 other
    → mask_parts (name ∷ parts) ≡ mask_parts (other ∷ parts)
unfolding mask_parts
mask_parts_blind name other [] n t = refl
mask_parts_blind name other ([] ∷ more) n t = refl
mask_parts_blind name other ((c ∷ domain) ∷ more) n t = rw (n, t) refl

mask_destination-parts :
    (name domain : Text)
    → includes name b'@' ≡ false
    → mask_destination (some (name ++ b'@' ∷ domain)) ≡ some (mask_parts (name ∷ split b'@' domain))
unfolding mask_destination mask_email
mask_destination-parts [] domain h = rw (split-append b'@' [] domain h) refl
mask_destination-parts (c ∷ name) domain h =
    rw (includes-append b'@' (c ∷ name) domain, split-append b'@' (c ∷ name) domain h) refl

-- What a campaign keeps of an e-mail address depends on the first two characters of the name, on how
-- long the name is, and on the domain, and on nothing else: two addresses that agree in these, with
-- no `@` in either name, are kept as the same text.
pub mask_destination_blind :
    (name other domain : Text)
    → includes name b'@' ≡ false
    → includes other b'@' ≡ false
    → length name ≡ length other
    → take 2 name ≡ take 2 other
    → mask_destination (some (name ++ b'@' ∷ domain))
      ≡ mask_destination (some (other ++ b'@' ∷ domain))
mask_destination_blind name other domain h h' n t =
    rw
      (
        mask_destination-parts name domain h,
        mask_destination-parts other domain h',
        mask_parts_blind name other (split b'@' domain) n t,
      )
      refl

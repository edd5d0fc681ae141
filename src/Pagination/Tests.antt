-- ===== src/Pagination/Tests.antt =====
-- Three rows in pages of two, under a unary cursor.
use Prim.Native.Char.{code}
use zapiack_console_backend.Common.{
  ℕ, zero, suc, String, ◌≡◌, refl, Bool, true, false, none, some, Option, List, [], ◌∷◌, arith, ltb,
  length, ◌==◌, ap,
}
use zapiack_console_backend.Common.Text.{codes}
use zapiack_console_backend.Pagination.{CursorKey, Codec, IdOrder}
use zapiack_console_backend.Pagination.Walk.{walk, walk-eq-table}

abbrev encode_from : ℕ → String → String
encode_from zero id = String.◌∷◌ "b" id
encode_from (suc n) id = String.◌∷◌ "a" (encode_from n id)

abbrev later : Option CursorKey → Option CursorKey
later none = none
later (some k) = some (record k { created_at = suc k.created_at })

abbrev decode_next : Bool → String → Option CursorKey → Option CursorKey
decode_next true s rest = some (record { created_at = 0; id = s })
decode_next false s rest = later rest

abbrev decode : String → Option CursorKey
decode String.[] = none
decode (String.◌∷◌ c s) = decode_next (code c == b'b') s (decode s)

decode-encode_from :
    (n : ℕ) (id : String) → decode (encode_from n id) ≡ some (record { created_at = n; id = id })
decode-encode_from zero id = refl
decode-encode_from (suc n) id = ap later (decode-encode_from n id)

abbrev codec : Codec
codec = record {
  encode = λ k. encode_from k.created_at k.id;
  decode = decode;
  decode-encode = λ k. decode-encode_from k.created_at k.id;
}

abbrev shorter : String → String → Bool
shorter a b = ltb (length (codes a)) (length (codes b))

shorter_irrefl : (a : String) → shorter a a ≡ false
shorter_irrefl a = ground arith

shorter_asym : (a b : String) → shorter a b ≡ true → shorter b a ≡ false
shorter_asym a b h = ground arith

abbrev by_length : IdOrder
by_length = record { lt = shorter; lt_irrefl = shorter_irrefl; lt_asym = shorter_asym }

abbrev table : List CursorKey
table =
    record { created_at = 3; id = "a" }
    ∷ record { created_at = 1; id = "bb" }
    ∷ record { created_at = 1; id = "c" }
    ∷ []

walk-eq-table_example : walk codec (λ k. k) by_length 4 table 2 none ≡ table
walk-eq-table_example =
    walk-eq-table codec (λ k. k) by_length table 1 4 ((refl, (refl, tt)), ((refl, tt), (tt, tt)))
      (omega arith)

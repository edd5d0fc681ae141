-- ===== src/Pagination.antt =====
-- Cursor pages: src/common/http/pagination.ts, with the query that its callers make of the database
-- (CreditsService.list and the other lists: newest first, `limit + 1` rows, strictly older than the
-- cursor). The encoding of a cursor is JSON in base64url, which the platform does, and enters as a
-- `Codec`; how the database orders two ids enters as an order.
mod Tests
pub mod Walk
use zapiack_console_backend.Common.{
  ℕ, suc, String, Bool, true, false, ◌&&◌, ◌||◌, ◌≡◌, ◌+◌, Option, none, some, List, [], ◌∷◌, ltb,
  ◌==◌, if◌then◌else◌, length, take,
}

-- What a cursor encodes: the instant in milliseconds, and the id.
pub record CursorKey : Type 0 where
  pub created_at : ℕ
  pub id : String

-- `encodeCursor` and `decodeCursor`; a mangled cursor decodes to nothing.
pub record Codec : Type 0 where
  pub encode : CursorKey → String
  pub decode : String → Option CursorKey
  pub decode-encode : (k : CursorKey) → decode (encode k) ≡ some k

-- How the database compares two ids.
pub record IdOrder : Type 0 where
  pub lt : String → String → Bool
  pub lt_irrefl : (a : String) → lt a a ≡ false
  pub lt_asym : (a b : String) → lt a b ≡ true → lt b a ≡ false

pub record Page {ℓ} (R : Type ℓ) : Type ℓ where
  pub rows : List R
  pub has_more : Bool
  pub next_cursor : Option String

module _ {ℓ} {R : Type ℓ} (codec : Codec) (key_of : R → CursorKey) where
  -- `data.at(-1)`
  abbrev pub last : List R → Option R
  last [] = none
  last (r ∷ []) = some r
  last (r ∷ q ∷ rs) = last (q ∷ rs)

  abbrev cursor_after : Bool → Option R → Option String
  cursor_after true (some r) = some (codec.encode (key_of r))
  cursor_after _ _ = none

  unfoldable pub build_page : List R → ℕ → Page R
  build_page rows limit =
      let has_more = ltb limit (length rows) in
      let page = if has_more then take limit rows else rows in
      record { rows = page; has_more = has_more; next_cursor = cursor_after has_more (last page) }

  -- `decodeCursor` of a cursor that may be missing.
  abbrev pub decode_cursor : Option String → Option CursorKey
  decode_cursor none = none
  decode_cursor (some c) = codec.decode c

  module _ (order : IdOrder) where
    -- `cursorWhere`: strictly older than the cursor.
    abbrev pub cursor_where : Option CursorKey → R → Bool
    cursor_where none r = true
    cursor_where (some c) r =
        let k = key_of r in
        ltb k.created_at c.created_at || (k.created_at == c.created_at && order.lt k.id c.id)

    unfoldable pub matching : Option CursorKey → List R → List R
    matching c [] = []
    matching c (r ∷ rs) = let rest = matching c rs in if cursor_where c r then r ∷ rest else rest

    -- One request for a page, over the table in the order of the query.
    unfoldable pub list_page : List R → Option String → ℕ → Page R
    list_page table cursor limit =
        build_page (take (suc limit) (matching (decode_cursor cursor) table)) limit

-- ===== src/Campaigns/Rows/Laws.antt =====
-- The chunks of an audience are the audience, and every account of it has its row.
use mathlib.Core.List.{append-nil, append_assoc}
use zapiack_console_backend.Common.{
  ℕ, zero, suc, String, false, ◌||◌, ◌≡◌, ◌≤◌, ◌<◌, ◌-◌, refl, sym, ap, ◌∙◌, List, [], ◌∷◌, ◌++◌,
  map, arith, length, take, drop, any, Bool-cases, inl, inr, str_eq, All, eq_iff,
}
use zapiack_console_backend.Segments.{Resolved}
use zapiack_console_backend.Campaigns.{Campaign, Recipient, Channel, Env}
use zapiack_console_backend.Campaigns.Rows.{
  chunks, chunked, create_many, create_chunks, filled_rows, has_account, new_row, chunk_size,
}

-- All the chunks in one list.
abbrev pub concat {ℓ} : {A : Type ℓ} → List (List A) → List A
concat [] = []
concat (l ∷ ls) = l ++ concat ls

take-drop {ℓ} : {A : Type ℓ} (n : ℕ) (l : List A) → (take n l ++ drop n l) ≡ l
take-drop zero l = refl
take-drop (suc n) [] = refl
take-drop (suc n) (x ∷ l) = ap (λ m. x ∷ m) (take-drop n l)

length-drop {ℓ} : {A : Type ℓ} (n : ℕ) (l : List A) → length (drop n l) ≡ length l - n
length-drop zero l = omega arith
length-drop (suc n) [] = omega arith
length-drop (suc n) (x ∷ l) = let h = length-drop n l in omega arith

length-take {ℓ} : {A : Type ℓ} (n : ℕ) (l : List A) → length (take n l) ≤ n
length-take zero l = omega arith
length-take (suc n) [] = omega arith
length-take (suc n) (x ∷ l) = let h = length-take n l in omega arith

concat-chunks {ℓ} :
    {A : Type ℓ} (n size : ℕ) (l : List A) → length l ≤ n → concat (chunks n (suc size) l) ≡ l
unfolding chunks
concat-chunks zero size [] h = refl
concat-chunks zero size (x ∷ l) h = absurd (omega arith)
concat-chunks (suc n) size [] h = refl
concat-chunks (suc n) size (x ∷ l) h =
    let shorter = length-drop size l in
    ap (λ m. x ∷ (take size l ++ m)) (concat-chunks n size (drop size l) (omega arith))
    ∙ ap (λ m. x ∷ m) (take-drop size l)

chunks-All {ℓ} :
    {A : Type ℓ} (n size : ℕ) (l : List A) → All (λ c. length c ≤ size) (chunks n size l)
unfolding chunks
chunks-All zero size l = tt
chunks-All (suc n) size [] = tt
chunks-All (suc n) size (x ∷ l) = (length-take size (x ∷ l), chunks-All n size (drop size (x ∷ l)))

-- Cut into chunks of a size that is not 0, a list is its chunks one after the other, none of them
-- longer than the size.
pub chunked_lem {ℓ} :
    {A : Type ℓ} (l : List A) (size : ℕ)
    → 0 < size
    → (concat (chunked l size) ≡ l) × All (λ c. length c ≤ size) (chunked l size)
unfolding chunked
chunked_lem l zero h = absurd (omega arith)
chunked_lem l (suc size) h =
    (concat-chunks (length l) size l (omega arith), chunks-All (length l) (suc size) l)

create_many-append :
    (a b rows : List Recipient) → create_many (a ++ b) rows ≡ create_many b (create_many a rows)
unfolding create_many
create_many-append [] b rows = refl
create_many-append (r ∷ a) b rows = create_many-append a b _

map-append {ℓ κ} :
    {A : Type ℓ} {B : Type κ} (f : A → B) (a b : List A) → map f (a ++ b) ≡ map f a ++ map f b
map-append f [] b = refl
map-append f (x ∷ a) b = ap (λ m. f x ∷ m) (map-append f a b)

create_chunks-concat :
    (row : Resolved → Recipient) (ls : List (List Resolved)) (rows : List Recipient)
    → create_chunks row ls rows ≡ create_many (map row (concat ls)) rows
unfolding create_chunks create_many
create_chunks-concat row [] rows = refl
create_chunks-concat row (l ∷ ls) rows =
    create_chunks-concat row ls (create_many (map row l) rows)
    ∙ sym (
        ap (λ m. create_many m rows) (map-append row l (concat ls))
        ∙ create_many-append (map row l) (map row (concat ls)) rows)

-- One account, one row.
abbrev pub Distinct : List Recipient → Type 0
Distinct [] = Unit
Distinct (r ∷ rows) = (has_account rows r.account_id ≡ false) × Distinct rows

has_account-append :
    (rows more : List Recipient) (account : String)
    → has_account (rows ++ more) account ≡ (has_account rows account || has_account more account)
has_account-append [] more account = refl
has_account-append (r ∷ rows) more account = ground (arith, has_account-append rows more account)

Distinct-append :
    (rows : List Recipient) (r : Recipient)
    → has_account rows r.account_id ≡ false
    → Distinct rows
    → Distinct (rows ++ r ∷ [])
Distinct-append [] r h d = (refl, tt)
Distinct-append (x ∷ rows) r h (own, d) = (
  rw (has_account-append rows (r ∷ []) x.account_id)
      (ground (arith, eq_iff x.account_id r.account_id, eq_iff r.account_id x.account_id)),
  Distinct-append rows r (ground arith) d,
)

create_many-Distinct : (l rows : List Recipient) → Distinct rows → Distinct (create_many l rows)
unfolding create_many
create_many-Distinct [] rows d = d
create_many-Distinct (r ∷ l) rows d = elim (Bool-cases (has_account rows r.account_id)) [
  | inl e ↦ rw e (create_many-Distinct l rows d)
  | inr e ↦ rw e (create_many-Distinct l (rows ++ r ∷ []) (Distinct-append rows r e d))
]

create_many-prefix :
    (l rows : List Recipient) → (more : List Recipient) × (create_many l rows ≡ rows ++ more)
unfolding create_many
create_many-prefix [] rows = ([], sym (append-nil rows))
create_many-prefix (r ∷ l) rows = elim (Bool-cases (has_account rows r.account_id)) [
  | inl e ↦ rw e (create_many-prefix l rows)
  | inr e ↦
      let (more, h) = create_many-prefix l (rows ++ r ∷ []) in
      (r ∷ more, rw e (h ∙ append_assoc rows (r ∷ []) more))
]

has_account-create_many :
    (l rows : List Recipient) (account : String)
    → has_account (create_many l rows) account ≡ (has_account rows account || has_account l account)
unfolding create_many
has_account-create_many [] rows account = ground arith
has_account-create_many (r ∷ l) rows account = elim (Bool-cases (has_account rows r.account_id)) [
  | inl e ↦
      rw e (has_account-create_many l rows account ∙ ground (arith, eq_iff r.account_id account))
  | inr e ↦ rw e (
      has_account-create_many l (rows ++ r ∷ []) account
      ∙ rw (has_account-append rows (r ∷ []) account) (ground arith))
]

has_account-map :
    (env : Env) (id : String) (channel : Channel) (l : List Resolved) (account : String)
    → has_account (map (new_row env id channel) l) account
      ≡ any (λ r. str_eq r.account_id account) l
has_account-map env id channel [] account = refl
has_account-map env id channel (r ∷ l) account =
    ground (arith, has_account-map env id channel l account)

-- The recipients of a campaign, once its audience is written: those that were there stay first and as
-- they were, an account has a row exactly where it had one or is of the audience, and it still has one
-- row only.
pub filled_rows_lem :
    (env : Env) (id : String) (c : Campaign) (l : List Resolved) (rows : List Recipient)
    (account : String)
    → Distinct rows
    → let filled = filled_rows env id c l rows in
      ((more : List Recipient) × (filled ≡ rows ++ more))
      × Distinct filled
      × (has_account filled account
          ≡ (has_account rows account || any (λ r. str_eq r.account_id account) l))
unfolding filled_rows
filled_rows_lem env id c l rows account distinct =
    let row = new_row env id c.channel in
    let whole = (chunked_lem l chunk_size (omega arith)).0 in
    rw (create_chunks-concat row (chunked l chunk_size) rows, whole)
      (
        create_many-prefix (map row l) rows,
        create_many-Distinct (map row l) rows distinct,
        has_account-create_many (map row l) rows account
            ∙ rw (has_account-map env id c.channel l account) refl,
      )

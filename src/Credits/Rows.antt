-- ===== src/Credits/Rows.antt =====
-- What a write of one adjustment keeps: the rows that may be sent are approved by the right person,
-- every request to api-core is backed by such a row, and no two rows share an idempotency key.
use zapiack_console_backend.Common.{
  ℕ, String, ◌≡◌, refl, ◌≢◌, Bool, true, false, none, some, List, [], ◌∷◌, arith, eq_iff, All,
  All-map, ◌∙◌, sym, ap, inl, inr,
}
use zapiack_console_backend.Common.Text.{Text}
use zapiack_console_backend.Common.Table.{
  Table, find, put, find-put_self, find-put_ne, find-put_cases, str_cases,
}
use zapiack_console_backend.Credits.{
  Adjustment, Amount, Call, Status, pending_approval, rejected, above, key_taken,
}

-- The statuses from which an adjustment is sent to api-core, or has been.
abbrev pub is_sendable : Status → Bool
is_sendable pending_approval = false
is_sendable rejected = false
is_sendable _ = true

-- The request carries the terms and the key of the row.
abbrev pub Carries : Call → Adjustment → Type 0
Carries c a =
    (c.idempotency_key ≡ a.idempotency_key)
    × (c.account_id ≡ a.account_id)
    × (c.direction ≡ a.direction)
    × (c.amount ≡ a.amount_ngn)
    × (c.reason ≡ a.reason)

-- The two rows agree on what nothing but `request` writes.
abbrev pub SameTerms : Adjustment → Adjustment → Type 0
SameTerms a b =
    (a.idempotency_key ≡ b.idempotency_key)
    × (a.account_id ≡ b.account_id)
    × (a.direction ≡ b.direction)
    × (a.amount_ngn ≡ b.amount_ngn)
    × (a.reason ≡ b.reason)
    × (a.requested_by_id ≡ b.requested_by_id)

-- A key that the table does not hold differs from that of every row.
unused_ne :
    (k : String) (t : Table Adjustment) (j : String) (a : Adjustment)
    → key_taken k t ≡ false
    → find j t ≡ some a
    → k ≢ a.idempotency_key
unfolding key_taken find
unused_ne k [] j a h at e = cc
unused_ne k ((i, b) ∷ t) j a h at e =
    ground (arith, eq_iff b.idempotency_key k, eq_iff i j, unused_ne k t j a)

module _ (threshold : ℕ) (number : Text → Amount) where
  -- Somebody approved it, and above the threshold it was not who asked for it.
  abbrev pub IsApproved : Adjustment → Type 0
  IsApproved a =
      (by : String) × (a.approved_by_id ≡ some by)
      × (above threshold (number a.amount_ngn) ≡ true → by ≢ a.requested_by_id)

  abbrev pub IsBacked : Table Adjustment → Call → Type 0
  IsBacked t c =
      (id : String) × (a : Adjustment) × (find id t ≡ some a) × Carries c a × IsApproved a

  pub record Inv (t : Table Adjustment) (calls : List Call) : Type 0 where
    pub rows :
        (id : String) (a : Adjustment)
        → find id t ≡ some a
        → is_sendable a.status ≡ true
        → IsApproved a
    pub sent : All (IsBacked t) calls
    pub keys :
        (i j : String) (a b : Adjustment)
        → find i t ≡ some a
        → find j t ≡ some b
        → a.idempotency_key ≡ b.idempotency_key
        → i ≡ j

  module _ (t : Table Adjustment) (id : String) (a b : Adjustment) (found : find id t ≡ some a)
      (same : SameTerms a b) (keep : IsApproved a → IsApproved b) where
    IsBacked-put : (c : Call) → IsBacked t c → IsBacked (put id b t) c
    IsBacked-put c (i, a', at, carries, ok) = elim (str_cases id i) [
      | inl e ↦
          let is_a : a ≡ a' = cc in
          (i, b, rw (← e) (find-put_self id b t), ground arith, keep (rw (← is_a) at ok))
      | inr n ↦ (i, a', find-put_ne id i b t n ∙ at, carries, ok)
    ]

    old_row :
        (i : String) (c : Adjustment)
        → find i (put id b t) ≡ some c
        → (o : Adjustment) × (find i t ≡ some o) × (o.idempotency_key ≡ c.idempotency_key)
    old_row i c at = elim (find-put_cases id i b c t at) [
      | inl (e, is_b) ↦ (a, rw (← e) found, rw (← is_b) same.0)
      | inr (n, old) ↦ (c, old, refl)
    ]

    -- A write that keeps the terms, and an approval once there is one.
    pub Inv-put :
        (calls : List Call)
        → (is_sendable b.status ≡ true → IsApproved b)
        → Inv t calls
        → Inv (put id b t) calls
    Inv-put calls good inv = record {
      rows = λ i c at s. elim (find-put_cases id i b c t at) [
        | inl (e, is_b) ↦ rw is_b at (good (rw (← is_b) at s))
        | inr (n, old) ↦ inv.rows i c old s
      ];
      sent = All-map IsBacked-put calls inv.sent;
      keys = λ i j c d at_i at_j e.
          let (o, o_at, o_key) = old_row i c at_i in
          let (p, p_at, p_key) = old_row j d at_j in
          inv.keys i j o p o_at p_at (o_key ∙ e ∙ sym p_key);
    }

  module _ (t : Table Adjustment) (id : String) (b : Adjustment) (free : find id t ≡ none)
      (unused : key_taken b.idempotency_key t ≡ false) where
    IsBacked-new : (c : Call) → IsBacked t c → IsBacked (put id b t) c
    IsBacked-new c (i, a, at, carries, ok) =
        let ne : id ≢ i = λ e. cc in (i, a, find-put_ne id i b t ne ∙ at, carries, ok)

    -- A new row under a free id, with a key of its own.
    pub Inv-new :
        (calls : List Call)
        → (is_sendable b.status ≡ true → IsApproved b)
        → Inv t calls
        → Inv (put id b t) calls
    Inv-new calls good inv = record {
      rows = λ i c at s. elim (find-put_cases id i b c t at) [
        | inl (e, is_b) ↦ rw is_b at (good (rw (← is_b) at s))
        | inr (n, old) ↦ inv.rows i c old s
      ];
      sent = All-map IsBacked-new calls inv.sent;
      keys = λ i j c d at_i at_j e. elim (find-put_cases id i b c t at_i) [
        | inl (here, is_b) ↦ elim (find-put_cases id j b d t at_j) [
          | inl (there, _) ↦ sym here ∙ there
          | inr (n, old) ↦
              absurd (
                unused_ne b.idempotency_key t j d unused old (ap (λ x. x.idempotency_key) is_b ∙ e))
        ]
        | inr (n, old) ↦ elim (find-put_cases id j b d t at_j) [
          | inl (there, is_b) ↦ absurd (
              unused_ne b.idempotency_key t i c unused old
                (ap (λ x. x.idempotency_key) is_b ∙ sym e))
          | inr (m, old') ↦ inv.keys i j c d old old' e
        ]
      ];
    }

  pub Inv-call :
      (t : Table Adjustment) (calls : List Call) (c : Call)
      → IsBacked t c
      → Inv t calls
      → Inv t (c ∷ calls)
  Inv-call t calls c h inv = record { rows = inv.rows; sent = (h, inv.sent); keys = inv.keys }

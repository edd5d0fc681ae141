-- ===== src/Campaigns/Worker/Loop.antt =====
-- The loop of a campaign's job ends: each turn settles the recipients of its batch, and none is left.
use zapiack_console_backend.Common.{
  ℕ, zero, suc, String, Bool, true, false, ◌≡◌, ◌≢◌, ◌≤◌, ◌<◌, refl, Option, none, some, List, [],
  ◌∷◌, take, arith, Bool-cases, Option-cases, inl, inr, eq_iff, str_eq, ◌⊎◌, ◌&&◌,
}
use zapiack_console_backend.Common.Table.{str_cases}
use zapiack_console_backend.Common.Text.{Text}
use zapiack_console_backend.Segments.{Resolved}
use zapiack_console_backend.Campaigns.{
  Recipient, RecipientStatus, Channel, Env, in_app, email, sms, Notice,
}
use zapiack_console_backend.Campaigns.Desk.{tally}
use zapiack_console_backend.Campaigns.InApp.{deliver, Result, success, failure}
use zapiack_console_backend.Campaigns.Worker.{
  Work, is_pending, pending_rows, mark, mark_all, to_sent, to_failed, settled, send_to, send_each,
  gone, reachable, contact_of, deliver_batch, delivered, settle_batch, rounds, batch_size, any,
  no_address, address_of, send, deliverable, gone_reason,
}

abbrev pub waiting : List Recipient → ℕ
waiting rows = tally RecipientStatus.pending rows

-- What is written to a row leaves it settled, under its id.
abbrev Settles : (Recipient → Recipient) → Type 0
Settles f = (r : Recipient) → (is_pending (f r) ≡ false) × ((f r).id ≡ r.id)

-- A row of this id is pending.
abbrev awaits : String → List Recipient → Bool
awaits id rows = any (λ r. str_eq r.id id && is_pending r) rows

module _ (f : Recipient → Recipient) (settles : Settles f) where
  waiting-mark : (id : String) (rows : List Recipient) → waiting (mark id f rows) ≤ waiting rows
  unfolding mark tally
  waiting-mark id [] = omega arith
  waiting-mark id (r ∷ rows) = ground (arith, waiting-mark id rows, (settles r).0)

  waiting-mark_less :
      (id : String) (rows : List Recipient)
      → awaits id rows ≡ true
      → waiting (mark id f rows) < waiting rows
  unfolding mark tally
  waiting-mark_less id [] h = cc
  waiting-mark_less id (r ∷ rows) h =
      ground (arith, waiting-mark_less id rows, waiting-mark id rows, (settles r).0)

  awaits-mark_ne :
      (id j : String) (rows : List Recipient)
      → j ≢ id
      → awaits id rows ≡ true
      → awaits id (mark j f rows) ≡ true
  unfolding mark
  awaits-mark_ne id j [] n h = cc
  awaits-mark_ne id j (r ∷ rows) n h =
      ground (arith, awaits-mark_ne id j rows n, (settles r).1, eq_iff r.id id, eq_iff r.id j)

  awaits-mark :
      (id j : String) (rows : List Recipient)
      → awaits id rows ≡ true
      → (awaits id (mark j f rows) ≡ true) ⊎ (waiting (mark j f rows) < waiting rows)
  awaits-mark id j rows h = elim (str_cases j id) [
    | inl e ↦ inr (waiting-mark_less j rows (rw e h))
    | inr n ↦ inl (awaits-mark_ne id j rows n h)
  ]

  waiting-mark_all : (batch rows : List Recipient) → waiting (mark_all batch f rows) ≤ waiting rows
  unfolding mark_all
  waiting-mark_all [] rows = omega arith
  waiting-mark_all (r ∷ batch) rows =
      let step = waiting-mark r.id rows in
      let more = waiting-mark_all batch (mark r.id f rows) in omega arith

  awaits-mark_all :
      (id : String) (batch rows : List Recipient)
      → awaits id rows ≡ true
      → (awaits id (mark_all batch f rows) ≡ true)
        ⊎ (waiting (mark_all batch f rows) < waiting rows)
  unfolding mark_all
  awaits-mark_all id [] rows h = inl h
  awaits-mark_all id (r ∷ batch) rows h = elim (awaits-mark id r.id rows h) [
    | inr less ↦ let more = waiting-mark_all batch (mark r.id f rows) in inr (omega arith)
    | inl still ↦ elim (awaits-mark_all id batch (mark r.id f rows) still) [
      | inl e ↦ inl e
      | inr less ↦ let step = waiting-mark r.id rows in inr (omega arith)
    ]
  ]

  waiting-mark_all_first :
      (r : Recipient) (batch rows : List Recipient)
      → awaits r.id rows ≡ true
      → waiting (mark_all (r ∷ batch) f rows) < waiting rows
  unfolding mark_all
  waiting-mark_all_first r batch rows h =
      let step = waiting-mark_less r.id rows h in
      let more = waiting-mark_all batch (mark r.id f rows) in omega arith

to_sent-Settles : (now : ℕ) → Settles (to_sent now)
to_sent-Settles now r = (refl, refl)

to_failed-Settles : (reason : Text) → Settles (to_failed reason)
to_failed-Settles reason r = (refl, refl)

settled-Settles : (now : ℕ) (o : Option Text) → Settles (settled now o)
settled-Settles now none r = (refl, refl)
settled-Settles now (some message) r = (refl, refl)

pending_rows-first :
    (rows more : List Recipient) (r : Recipient)
    → pending_rows rows ≡ r ∷ more
    → awaits r.id rows ≡ true
unfolding pending_rows
pending_rows-first [] more r h = cc
pending_rows-first (x ∷ rows) more r h = elim (Bool-cases (is_pending x)) [
  | inl e ↦
      let h' : x ∷ pending_rows rows ≡ r ∷ more = rw e at h in
      let same : x.id ≡ r.id = cc in ground (arith, eq_iff x.id r.id)
  | inr e ↦
      let h' : pending_rows rows ≡ r ∷ more = rw e at h in
      rw (e, pending_rows-first rows more r h') (ground arith)
]

module _ (env : Env) (id : String) (contacts : List Resolved) where
  waiting-send_to :
      (channel : Channel) (r : Recipient) (o : Option Text) (w : Work)
      → (waiting (send_to env id channel r o w).rows ≤ waiting w.rows)
        × (awaits r.id w.rows ≡ true → waiting (send_to env id channel r o w).rows < waiting w.rows)
  unfolding send_to
  waiting-send_to channel r none w =
      let f = to_failed (no_address channel) in
      let settles = to_failed-Settles (no_address channel) in
      (waiting-mark f settles r.id w.rows, waiting-mark_less f settles r.id w.rows)
  waiting-send_to channel r (some address) w =
      let f = settled env.now (send env channel address) in
      let settles = settled-Settles env.now (send env channel address) in
      (waiting-mark f settles r.id w.rows, waiting-mark_less f settles r.id w.rows)

  waiting-send_each :
      (channel : Channel) (batch : List Recipient) (w : Work)
      → waiting (send_each env id channel contacts batch w).rows ≤ waiting w.rows
  unfolding send_each
  waiting-send_each channel [] w = omega arith
  waiting-send_each channel (r ∷ batch) w =
      let o = address_of channel (contact_of contacts r.account_id) in
      let (step, _) = waiting-send_to channel r o w in
      let more = waiting-send_each channel batch (send_to env id channel r o w) in omega arith

  waiting-send_each_less :
      (channel : Channel) (r : Recipient) (batch : List Recipient) (w : Work)
      → awaits r.id w.rows ≡ true
      → waiting (send_each env id channel contacts (r ∷ batch) w).rows < waiting w.rows
  unfolding send_each
  waiting-send_each_less channel r batch w h =
      let o = address_of channel (contact_of contacts r.account_id) in
      let (_, step) = waiting-send_to channel r o w in
      let less = step h in
      let more = waiting-send_each channel batch (send_to env id channel r o w) in omega arith

  waiting-delivered :
      (batch : List Recipient) (w : Work) (out : List Notice × Result)
      → waiting (delivered env batch w out).rows ≤ waiting w.rows
  unfolding delivered
  waiting-delivered batch w (notices, failure message) =
      waiting-mark_all (to_failed (take 300 message)) (to_failed-Settles (take 300 message)) batch
        w.rows
  waiting-delivered batch w (notices, success d) =
      waiting-mark_all (to_sent env.now) (to_sent-Settles env.now) batch w.rows

  waiting-delivered_less :
      (r : Recipient) (batch : List Recipient) (w : Work) (out : List Notice × Result)
      → awaits r.id w.rows ≡ true
      → waiting (delivered env (r ∷ batch) w out).rows < waiting w.rows
  unfolding delivered
  waiting-delivered_less r batch w (notices, failure message) h =
      waiting-mark_all_first (to_failed (take 300 message)) (to_failed-Settles (take 300 message)) r
        batch w.rows h
  waiting-delivered_less r batch w (notices, success d) h =
      waiting-mark_all_first (to_sent env.now) (to_sent-Settles env.now) r batch w.rows h

  waiting-deliver_batch_less :
      (r : Recipient) (batch : List Recipient) (w : Work)
      → awaits r.id w.rows ≡ true
      → waiting (deliver_batch env id contacts (r ∷ batch) w).rows < waiting w.rows
  unfolding deliver_batch gone reachable deliverable
  waiting-deliver_batch_less r batch w h =
      let f = to_failed gone_reason in
      let settles = to_failed-Settles gone_reason in
      elim (Option-cases (contact_of contacts r.account_id)) [
        | inl lost ↦
            let left = r ∷ gone contacts batch in
            let u = record w { rows = mark_all left f w.rows } in
            let step = waiting-mark_all_first f settles r (gone contacts batch) w.rows h in
            let more =
              waiting-delivered (reachable contacts batch) u
                (deliver env id (deliverable contacts batch) w.notices) in
            rw lost (omega arith)
        | inr (c, there) ↦
            let u = record w { rows = mark_all (gone contacts batch) f w.rows } in
            let out = deliver env id (c ∷ deliverable contacts batch) w.notices in
            let step = waiting-mark_all f settles (gone contacts batch) w.rows in
            rw there (elim (awaits-mark_all f settles r.id (gone contacts batch) w.rows h) [
              | inl still ↦
                  let more = waiting-delivered_less r (reachable contacts batch) u out still in
                  omega arith
              | inr less ↦
                  let more = waiting-delivered (r ∷ reachable contacts batch) u out in omega arith
            ])
      ]

  waiting-settle_batch_less :
      (channel : Channel) (r : Recipient) (batch : List Recipient) (w : Work)
      → awaits r.id w.rows ≡ true
      → waiting (settle_batch env id channel contacts (r ∷ batch) w).rows < waiting w.rows
  waiting-settle_batch_less in_app r batch w h = waiting-deliver_batch_less r batch w h
  waiting-settle_batch_less email r batch w h = waiting-send_each_less email r batch w h
  waiting-settle_batch_less sms r batch w h = waiting-send_each_less sms r batch w h

  none_waiting : (rows : List Recipient) → pending_rows rows ≡ [] → waiting rows ≡ 0
  unfolding pending_rows tally
  none_waiting [] h = refl
  none_waiting (x ∷ rows) h = elim (Bool-cases (is_pending x)) [
    | inl e ↦ cc (rw e at h)
    | inr e ↦ rw (e, none_waiting rows (rw e at h)) refl
  ]

  -- What a turn does with its batch, which is a beginning of the pending rows.
  turn :
      (channel : Channel) (rows : List Recipient) (w : Work)
      → pending_rows w.rows ≡ rows
      → ((take batch_size rows ≡ []) × (waiting w.rows ≡ 0))
        ⊎ ((r : Recipient) × (batch : List Recipient) × (take batch_size rows ≡ r ∷ batch)
            × (waiting (settle_batch env id channel contacts (r ∷ batch) w).rows < waiting w.rows))
  turn channel [] w h = inl (refl, none_waiting w.rows h)
  turn channel (r ∷ rows) w h =
      let batch = take 199 rows in
      inr (
        r,
        batch,
        refl,
        waiting-settle_batch_less channel r batch w (pending_rows-first w.rows rows r h),
      )

  -- Given more turns than there are recipients waiting, the loop of the job ends of itself, whatever
  -- the channel answers and whichever accounts are gone, and then no recipient waits any more.
  pub rounds-end :
      (channel : Channel) (n : ℕ) (w : Work)
      → waiting w.rows < n
      → (v : Work) × (rounds env id channel contacts n w ≡ some v) × (waiting v.rows ≡ 0)
  unfolding rounds
  rounds-end channel zero w h = absurd (omega arith)
  rounds-end channel (suc n) w h = elim (turn channel (pending_rows w.rows) w refl) [
    | inl (none_left, settled_all) ↦ (w, rw none_left refl, settled_all)
    | inr (r, batch, first_rows, less) ↦
        let (v, ended, settled_all) =
          rounds-end channel n (settle_batch env id channel contacts (r ∷ batch) w) (omega arith) in
        (v, rw (first_rows, ended) refl, settled_all)
  ]

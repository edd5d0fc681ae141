-- ===== src/Campaigns/Reach.antt =====
-- The loop of a job reaches nobody in the name of another campaign.
use zapiack_console_backend.Common.{
  ℕ, zero, suc, String, Bool, false, ◌||◌, ◌≡◌, ◌≢◌, refl, Option, none, some, List, [], ◌∷◌, map,
  take, arith, any, str_eq, ◌∙◌,
}
use zapiack_console_backend.Common.Table.{str_ne}
use zapiack_console_backend.Segments.{Resolved}
use zapiack_console_backend.Campaigns.{
  Recipient, Channel, Env, in_app, email, sms, Notice, Message, Text,
}
use zapiack_console_backend.Campaigns.InApp.{
  deliver, written, fresh, notice_of, Result, success, failure,
}
use zapiack_console_backend.Campaigns.InApp.Laws.{any-append}
use zapiack_console_backend.Campaigns.Worker.{
  Work, rounds, round, send_to, send_each, address_of, contact_of, delivered, deliver_batch,
  settle_batch, mark_all, gone, reachable, deliverable, to_failed, gone_reason, pending_rows,
  batch_size,
}

-- Whether anybody was reached in the name of this campaign.
abbrev pub contacted : String → List Message → List Notice → Bool
contacted id messages notices =
    any (λ m. str_eq m.campaign_id id) messages || any (λ n. str_eq n.campaign_id id) notices

abbrev pub reached : String → Work → Bool
reached id w = contacted id w.messages w.notices

module _ (env : Env) (id j : String) (contacts : List Resolved) (other : id ≢ j) where
  reached-send_to :
      (channel : Channel) (r : Recipient) (o : Option Text) (w : Work)
      → reached j (send_to env id channel r o w) ≡ reached j w
  unfolding send_to
  reached-send_to channel r none w = refl
  reached-send_to channel r (some address) w = rw (str_ne id j other) refl

  reached-send_each :
      (channel : Channel) (batch : List Recipient) (w : Work)
      → reached j (send_each env id channel contacts batch w) ≡ reached j w
  unfolding send_each
  reached-send_each channel [] w = refl
  reached-send_each channel (r ∷ batch) w =
      let o = address_of channel (contact_of contacts r.account_id) in
      reached-send_each channel batch (send_to env id channel r o w) ∙ reached-send_to channel r o w

  others_notices :
      (l : List Resolved) → any (λ n. str_eq n.campaign_id j) (map (notice_of id) l) ≡ false
  others_notices [] = refl
  others_notices (r ∷ l) = rw (str_ne id j other, others_notices l) refl

  others-written :
      (notices : List Notice) (l new : List Resolved) (broken : Option Text)
      → any (λ n. str_eq n.campaign_id j) (written id notices l new broken).0
        ≡ any (λ n. str_eq n.campaign_id j) notices
  unfolding written
  others-written notices l [] broken = refl
  others-written notices l (r ∷ new) none =
      rw
        (
          any-append (λ n. str_eq n.campaign_id j) notices (map (notice_of id) (r ∷ new)),
          others_notices (r ∷ new),
        )
        (ground arith)
  others-written notices l (r ∷ new) (some message) = refl

  reached-delivered :
      (batch : List Recipient) (w : Work) (out : List Notice × Result)
      → any (λ n. str_eq n.campaign_id j) out.0 ≡ any (λ n. str_eq n.campaign_id j) w.notices
      → reached j (delivered env batch w out) ≡ reached j w
  unfolding delivered
  reached-delivered batch w (notices, failure message) h = refl
  reached-delivered batch w (notices, success d) h = rw h refl

  reached-settle_batch :
      (channel : Channel) (batch : List Recipient) (w : Work)
      → reached j (settle_batch env id channel contacts batch w) ≡ reached j w
  unfolding deliver_batch deliver
  reached-settle_batch in_app batch w =
      let u = record w { rows = mark_all (gone contacts batch) (to_failed gone_reason) w.rows } in
      let l = deliverable contacts batch in
      reached-delivered (reachable contacts batch) u (deliver env id l w.notices)
        (others-written w.notices l (fresh id w.notices l) env.in_app_rows)
  reached-settle_batch email batch w = reached-send_each email batch w
  reached-settle_batch sms batch w = reached-send_each sms batch w

  reached-round :
      (w v : Work) (batch : List Recipient) (rest : Option Work)
      → (rest ≡ some v → reached j v ≡ reached j w)
      → round w batch rest ≡ some v
      → reached j v ≡ reached j w
  reached-round w v [] rest h e = cc
  reached-round w v (r ∷ batch) rest h e = h e

  pub reached-rounds :
      (channel : Channel) (n : ℕ) (w v : Work)
      → rounds env id channel contacts n w ≡ some v
      → reached j v ≡ reached j w
  unfolding rounds
  reached-rounds channel zero w v h = cc
  reached-rounds channel (suc n) w v h =
      let batch = take batch_size (pending_rows w.rows) in
      let u = settle_batch env id channel contacts batch w in
      reached-round w v batch (rounds env id channel contacts n u)
        (λ e. reached-rounds channel n u v e ∙ reached-settle_batch channel batch w) h

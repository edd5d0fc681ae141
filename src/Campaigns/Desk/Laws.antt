-- ===== src/Campaigns/Desk/Laws.antt =====
-- When the desk creates, approves and retries a campaign, and what it then writes.
use zapiack_console_backend.Common.{
  ℕ, String, true, false, not, ◌&&◌, ◌||◌, ◌≡◌, ◌+◌, ◌<◌, refl, some, List, [], ◌∷◌, map, arith,
  Bool-cases, Option-cases, inl, inr, ltb, str_eq, ◌==◌, ◌∙◌, ap,
}
use zapiack_console_backend.Common.Table.{find, put, find-put_self}
use zapiack_console_backend.Campaigns.{
  Campaign, Recipient, RecipientStatus, Env, State, Actor, Draft, Action, Outcome, thrown, done,
  approved, created, retried,
}
use zapiack_console_backend.Campaigns.Desk.{
  create, create_sized, estimate_size, validate_audience, approve, approve_found, retry,
  retry_found, finished, audit, conclude, tell, tally, rows_of, again_waiting, one_of, broadcast,
  super_admin, others, new_campaign, approved_campaign,
}

module _ (env : Env) where
  -- The state after an audit row that was written, or was not.
  audited-done {ℓ} :
      {A : Type ℓ} (a b : A) (actor : Actor) (action : Action) (id : String) (s : State)
      → (conclude a (audit env actor action id s)).1 ≡ done b
      → (a ≡ b) × (env.audit_ok action ≡ true)
  audited-done a b actor action id s h = elim (Bool-cases (env.audit_ok action)) [
    | inl e ↦ let h' : done a ≡ done b = rw e at h in (cc, e)
    | inr e ↦ cc (rw e at h)
  ]

  -- A campaign is created under the id that it draws only for an audience of the right shape, of the
  -- size that was counted; it wants an approval exactly where the size is above the threshold, and
  -- then its author may broadcast.
  pub create-done :
      (actor : Actor) (fresh : String) (dto : Draft) (s : State) (c : Campaign)
      → (create env actor fresh dto s).1 ≡ done c
      → (validate_audience dto ≡ true)
        × (estimate_size env dto ≡ some c.recipient_count)
        × (find fresh (create env actor fresh dto s).0.campaigns ≡ some c)
        × (c.requires_approval ≡ ltb env.approval_threshold c.recipient_count)
        × (not c.requires_approval || one_of actor.permissions broadcast ≡ true)
  unfolding create create_sized
  create-done actor fresh dto s c h = elim (Bool-cases (validate_audience dto)) [
    | inr e ↦ cc (rw e at h)
    | inl e ↦ elim (Option-cases (estimate_size env dto)) [
      | inl f ↦ cc (rw (e, f) at h)
      | inr (size, f) ↦
          let big = ltb env.approval_threshold size in
          let d = new_campaign dto actor size big in
          elim (Bool-cases (big && not (one_of actor.permissions broadcast))) [
            | inl g ↦ cc (rw (e, f, g) at h)
            | inr g ↦
                let (same, kept) = audited-done d c actor created fresh _ (rw (e, f, g) at h) in
                rw (← same, e, f, g, kept)
                  (refl, refl, find-put_self fresh d s.campaigns, refl, ground arith)
          ]
    ]
  ]

  tell-done :
      (id : String) (out : State × Outcome ℕ) (n : ℕ)
      → (tell id out).1 ≡ done n
      → (out.1 ≡ done n) × ((tell id out).0.campaigns ≡ out.0.campaigns)
  tell-done id (s, done t) n h = (h, refl)
  tell-done id (s, thrown e) n h = cc

  -- An approval is answered only to a super admin, for a campaign that is there, and not to its author
  -- while another active super admin could give it; the campaign then has the approver and the
  -- instant, and is otherwise as it was.
  pub approve-done :
      (actor : Actor) (id : String) (s : State) (n : ℕ)
      → (approve env actor id s).1 ≡ done n
      → (c : Campaign) × (find id s.campaigns ≡ some c)
        × (str_eq actor.role_key super_admin ≡ true)
        × (str_eq c.created_by_id actor.id && others actor.id env.approvers ≡ false)
        × (find id (approve env actor id s).0.campaigns
            ≡ some (record c { approved_by_id = some actor.id; approved_at = some env.now }))
  unfolding approve approve_found
  approve-done actor id s n h = elim (Bool-cases (str_eq actor.role_key super_admin)) [
    | inr e ↦ cc (rw e at h)
    | inl e ↦ elim (Option-cases (find id s.campaigns)) [
      | inl f ↦ cc (rw (e, f) at h)
      | inr (c, f) ↦
          elim (Bool-cases (str_eq c.created_by_id actor.id && others actor.id env.approvers)) [
            | inl g ↦ cc (rw (e, f, g) at h)
            | inr g ↦
                let d = approved_campaign env.now actor c in
                let t = record s { campaigns = put id d s.campaigns } in
                let (told, same) = tell-done c.created_by_id _ n (rw (e, f, g) at h) in
                let (_, kept) = audited-done env.now n actor approved id t told in
                (c, f, e, g, rw (e, f, g, kept) (find-put_self id d s.campaigns))
          ]
    ]
  ]

  -- The rows of one kind, once the failed ones wait again.
  tally-again_waiting :
      (rows : List Recipient)
      → (tally RecipientStatus.sent (map again_waiting rows) ≡ tally RecipientStatus.sent rows)
        × (tally RecipientStatus.failed (map again_waiting rows) ≡ 0)
        × (tally RecipientStatus.pending (map again_waiting rows)
            ≡ tally RecipientStatus.pending rows + tally RecipientStatus.failed rows)
  unfolding tally
  tally-again_waiting [] = (refl, refl, refl)
  tally-again_waiting (r ∷ rows) =
      let (a, b, c) = tally-again_waiting rows in (ground arith, ground arith, ground arith)

  -- A retry is answered only for a finished campaign with failed recipients, whose number is the
  -- answer: these wait again, and the sent ones are as many as before.
  pub retry-done :
      (actor : Actor) (id : String) (s : State) (n : ℕ)
      → (retry env actor id s).1 ≡ done n
      → let rows = rows_of id s in
        let after = rows_of id (retry env actor id s).0 in
        (0 < n)
        × (tally RecipientStatus.failed rows ≡ n)
        × (tally RecipientStatus.failed after ≡ 0)
        × (tally RecipientStatus.pending after ≡ tally RecipientStatus.pending rows + n)
        × (tally RecipientStatus.sent after ≡ tally RecipientStatus.sent rows)
  unfolding retry retry_found
  retry-done actor id s n h = elim (Option-cases (find id s.campaigns)) [
    | inl f ↦ cc (rw f at h)
    | inr (c, f) ↦ elim (Bool-cases (finished c.status)) [
      | inr e ↦ cc (rw (f, e) at h)
      | inl e ↦
          let rows = rows_of id s in
          let m = tally RecipientStatus.failed rows in
          elim (Bool-cases (m == 0)) [
            | inl g ↦ cc (rw (f, e, g) at h)
            | inr g ↦
                let (same, kept) = audited-done m n actor retried id _ (rw (f, e, g) at h) in
                let (x, y, z) = tally-again_waiting rows in
                let stored = find-put_self id (map again_waiting rows) s.recipients in
                rw (f, e, g, kept, stored)
                  (
                    ground arith,
                    same,
                    y,
                    z ∙ ap (λ k. tally RecipientStatus.pending rows + k) same,
                    x,
                  )
          ]
    ]
  ]

-- ===== src/Auth/Account/Laws.antt =====
-- What a new password ends, and that an invite serves once.
use zapiack_console_backend.Common.{
  ℕ, String, ◌≡◌, refl, Option, none, some, is_some, Bool-cases, inl, inr,
}
use zapiack_console_backend.Common.Text.{Text}
use zapiack_console_backend.Common.Table.{find, find-put_self}
use zapiack_console_backend.Sessions
use zapiack_console_backend.Sessions.{Store}
use zapiack_console_backend.Auth.{Invite, State, Env, Error, thrown, done, used_invite}
use zapiack_console_backend.Auth.Account.{
  accept_invite, accept_found, accept_valid, invite_refusal, accepted, by_email,
}

accept_valid-done :
    (env : Env) (token_hash : String) (password : Text) (i : Invite) (s : State) (new : String)
    → (accept_valid env token_hash password i s).1 ≡ done new
    → find token_hash (accept_valid env token_hash password i s).0.invites
      ≡ some (accepted env.now i)
unfolding accept_valid
accept_valid-done env token_hash password i s new h = elim (Bool-cases (env.is_strong password)) [
  | inr e ↦ cc (rw e at h)
  | inl e ↦ elim (Bool-cases (is_some (by_email (env.to_lower_case i.email) s.staff))) [
    | inl f ↦ cc (rw (e, f) at h)
    | inr f ↦ elim (Bool-cases env.audit_ok) [
      | inl a ↦ rw (e, f, a) (find-put_self token_hash (accepted env.now i) s.invites)
      | inr a ↦ rw (e, f, a) (find-put_self token_hash (accepted env.now i) s.invites)
    ]
  ]
]

accept_found-done :
    (env : Env) (token_hash : String) (password : Text) (o : Option Invite) (e : Option Error)
    (s : State) (new : String)
    → (accept_found env token_hash password o e s).1 ≡ done new
    → (i : Invite) × (o ≡ some i)
      × (e ≡ none)
      × (find token_hash (accept_found env token_hash password o e s).0.invites
          ≡ some (accepted env.now i))
unfolding accept_found
accept_found-done env token_hash password o (some e) s new h = cc
accept_found-done env token_hash password (some i) none s new h =
    (i, refl, refl, accept_valid-done env token_hash password i s new h)
accept_found-done env token_hash password none none s new h = cc

refusal-accepted :
    (now later : ℕ) (i : Invite)
    → invite_refusal now (some i) ≡ none
    → invite_refusal later (some (accepted now i)) ≡ some used_invite
unfolding invite_refusal
refusal-accepted now later i h = elim (Bool-cases (is_some i.revoked_at)) [
  | inl e ↦ cc (rw e at h)
  | inr e ↦ rw e refl
]

again_refused :
    (env : Env) (token_hash : String) (password : Text) (t : State) (i : Invite)
    → find token_hash t.invites ≡ some i
    → invite_refusal env.now (some i) ≡ some used_invite
    → accept_invite env token_hash password t ≡ (t, thrown used_invite)
unfolding accept_invite accept_found
again_refused env token_hash password t i found used = rw (found, used) refl

-- An invite that was accepted is refused from then on, at any time and with any password, and then
-- nothing changes.
pub accept_invite_again :
    (env again : Env) (token_hash : String) (password other : Text) (s : State) (new : String)
    → (accept_invite env token_hash password s).1 ≡ done new
    → let t = (accept_invite env token_hash password s).0 in
      accept_invite again token_hash other t ≡ (t, thrown used_invite)
unfolding accept_invite
accept_invite_again env again token_hash password other s new h =
    let o = find token_hash s.invites in
    let (i, found, fine, stored) =
      accept_found-done env token_hash password o (invite_refusal env.now o) s new h in
    let fine' : invite_refusal env.now (some i) ≡ none = rw found at fine in
    again_refused again token_hash other _ (accepted env.now i) stored
      (refusal-accepted env.now again.now i fine')

-- ===== src/Invites/Guarded.antt =====
-- What the operations of an admin refuse, and what they leave alone when they do.
use pipe_line_gpt_backend.Prelude.{
  ℕ, ◌+◌, ◌<◌, String, ◌≡◌, true, false, some, [], ◌∷◌, find, select, ◌==◌, str_eq, arith, ◌&&◌,
}
use pipe_line_gpt_backend.Exec.{ok, err, HttpError, http}
use pipe_line_gpt_backend.Models.{User, Invitation, UserStatus, Role, Request}
use pipe_line_gpt_backend.Access.{Crypto}
use pipe_line_gpt_backend.Accounts.{Accounts}
use pipe_line_gpt_backend.Invites.{
  create_invitation, accept_invite, update_user_status, reset_user_mfa, is_pending, email_taken,
}

module _ (c : Crypto) (Store : Type 0) where
  -- An admin cannot change the status of the own account or reset its authenticator app: both are
  -- refused with 400 and change nothing.
  pub self_service_refused :
      (q : Request) (actor : User) (status : UserStatus) (a : Accounts Store)
      → find (λ u. u.id == actor.id) a.users ≡ some actor
      → (update_user_status c Store q actor actor.id status a
          ≡ (err (http 400 "Cannot change your own account status."), a))
        × (reset_user_mfa c Store q actor actor.id a
            ≡ (err (http 400 "Ask another admin to reset your MFA."), a))
  unfolding update_user_status reset_user_mfa
  self_service_refused q actor status a row = (ground arith, ground arith)

  -- An invitation is made only for an email that no user has and that has no invitation pending,
  -- and then that email has one pending for two days.
  pub create_invitation-ok :
      (q : Request) (actor : User) (email : String) (role : Role) (token : String)
      (a a' : Accounts Store) (i : Invitation)
      → create_invitation c Store q actor email role token a ≡ (ok i, a')
      → (email_taken (c.lower email) a.users ≡ false)
        × (select (λ j. str_eq j.email (c.lower email) && is_pending q.now j) a.invitations ≡ [])
        × (a'.invitations ≡ i ∷ a.invitations)
        × (i.email ≡ c.lower email)
        × (i.role ≡ role)
        × ((now : ℕ) → now < q.now + 172800 → is_pending now i ≡ true)
  unfolding create_invitation
  create_invitation-ok q actor email role token a a' i h =
      (ground arith, ground arith, ground arith, ground arith, ground arith, λ now lt. ground arith)

  -- An operation on accounts that raises has changed nothing.
  pub refused_unchanged :
      (q : Request) (actor : User) (email token password : String) (role : Role) (id : ℕ)
      (status : UserStatus) (a : Accounts Store) (e : HttpError)
      → ((create_invitation c Store q actor email role token a).0 ≡ err e
          → (create_invitation c Store q actor email role token a).1 ≡ a)
        × ((accept_invite c Store q token password a).0 ≡ err e
            → (accept_invite c Store q token password a).1 ≡ a)
        × ((update_user_status c Store q actor id status a).0 ≡ err e
            → (update_user_status c Store q actor id status a).1 ≡ a)
        × ((reset_user_mfa c Store q actor id a).0 ≡ err e
            → (reset_user_mfa c Store q actor id a).1 ≡ a)
  unfolding create_invitation accept_invite update_user_status reset_user_mfa
  refused_unchanged q actor email token password role id status a e =
      (λ h. ground arith, λ h. ground arith, λ h. ground arith, λ h. ground arith)

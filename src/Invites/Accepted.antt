-- ===== src/Invites/Accepted.antt =====
-- Invitations: one account for each email, and one account for each invitation.
use pipe_line_gpt_backend.Prelude.{
  ℕ, ◌≤◌, String, ◌≡◌, refl, false, Option, none, some, List, [], ◌∷◌, find, find-update_where,
  ==_iff, update_where, ◌==◌, str_eq, arith, Option-cases, inl, inr, All,
}
use pipe_line_gpt_backend.Exec.{ok, err, http, Outcome-cases}
use pipe_line_gpt_backend.Models.{User, Invitation, UserStatus, Role, active, Request}
use pipe_line_gpt_backend.Access.{Crypto}
use pipe_line_gpt_backend.Accounts.{Accounts}
use pipe_line_gpt_backend.Invites.{
  create_invitation, accept_invite, update_user_status, reset_user_mfa, email_taken, usable,
}

-- No two rows have one email.
abbrev pub EmailsDistinct : List User → Type 0
EmailsDistinct [] = Unit
EmailsDistinct (u ∷ us) = (email_taken u.email us ≡ false) × EmailsDistinct us

module _ (c : Crypto) (Store : Type 0) where
  -- Emails of users are distinct, and those of the invitations are in lower case.
  pub record IsConsistent (a : Accounts Store) : Type 0 where
    pub distinct : EmailsDistinct a.users
    pub lowered : All (λ i. c.lower i.email ≡ i.email) a.invitations

  lowered_of_find :
      (is : List Invitation) (token : String) (i : Invitation)
      → find (λ j. str_eq j.token token) is ≡ some i
      → All (λ j. c.lower j.email ≡ j.email) is
      → c.lower i.email ≡ i.email
  lowered_of_find [] token i h k = cc
  lowered_of_find (j ∷ js) token i h k = ground (arith, lowered_of_find js token i)

  All-accepted :
      (is : List Invitation) (id now : ℕ)
      → All (λ j. c.lower j.email ≡ j.email) is
      → All
          (λ j. c.lower j.email ≡ j.email)
          (update_where (λ i. i.id == id) (λ i. record i { accepted_at = some now }) is)
  All-accepted [] id now k = tt
  All-accepted (j ∷ js) id now k = (ground arith, All-accepted js id now k.1)

  usable-ok :
      (q : Request) (o : Option Invitation) (i : Invitation)
      → usable c Store q o ≡ ok i
      → (o ≡ some i) × (i.accepted_at ≡ none) × (q.now ≤ i.expires_at)
  usable-ok q none i h = cc
  usable-ok q (some j) i h = ground arith

  EmailsDistinct-update :
      (us : List User) (id : ℕ) (f : User → User)
      → ((v : User) → (f v).email ≡ v.email)
      → (email : String)
      → email_taken email (update_where (λ v. v.id == id) f us) ≡ email_taken email us
  EmailsDistinct-update [] id f keep email = refl
  EmailsDistinct-update (u ∷ us) id f keep email =
      ground (arith, keep u, EmailsDistinct-update us id f keep email)

  update-EmailsDistinct :
      (us : List User) (id : ℕ) (f : User → User)
      → ((v : User) → (f v).email ≡ v.email)
      → EmailsDistinct us
      → EmailsDistinct (update_where (λ v. v.id == id) f us)
  update-EmailsDistinct [] id f keep h = tt
  update-EmailsDistinct (u ∷ us) id f keep h = (
    ground (arith, keep u, EmailsDistinct-update us id f keep u.email),
    update-EmailsDistinct us id f keep h.1,
  )

  accept_invite-IsConsistent :
      (q : Request) (token password : String) (a : Accounts Store)
      → IsConsistent a
      → IsConsistent (accept_invite c Store q token password a).1
  unfolding accept_invite
  accept_invite-IsConsistent q token password a h =
      elim (Outcome-cases (usable c Store q (find (λ i. str_eq i.token token) a.invitations))) [
        | inl (i, e) ↦
            let found = (usable-ok q (find (λ j. str_eq j.token token) a.invitations) i e).0 in
            let low = lowered_of_find a.invitations token i found h.lowered in
            record {
              distinct = ground arith;
              lowered = ground (arith, All-accepted a.invitations i.id q.now);
            }
        | inr (x, e) ↦ record { distinct = ground arith; lowered = ground arith }
      ]

  create_invitation-IsConsistent :
      (q : Request) (actor : User) (email : String) (role : Role) (token : String)
      (a : Accounts Store)
      → ((e : String) → c.lower (c.lower e) ≡ c.lower e)
      → IsConsistent a
      → IsConsistent (create_invitation c Store q actor email role token a).1
  unfolding create_invitation
  create_invitation-IsConsistent q actor email role token a idem h = record {
    distinct = ground arith;
    lowered = ground (arith, idem email);
  }

  update_user_status-IsConsistent :
      (q : Request) (actor : User) (id : ℕ) (status : UserStatus) (a : Accounts Store)
      → IsConsistent a
      → IsConsistent (update_user_status c Store q actor id status a).1
  unfolding update_user_status
  update_user_status-IsConsistent q actor id status a h =
      elim (Option-cases (find (λ u. u.id == id) a.users)) [
        | inl e ↦ record { distinct = ground arith; lowered = ground arith }
        | inr (u, e) ↦ record {
          distinct = ground (
            arith,
            update-EmailsDistinct a.users u.id (λ v. record v { status = status }) (λ v. refl),
          );
          lowered = ground arith;
        }
      ]

  reset_user_mfa-IsConsistent :
      (q : Request) (actor : User) (id : ℕ) (a : Accounts Store)
      → IsConsistent a
      → IsConsistent (reset_user_mfa c Store q actor id a).1
  unfolding reset_user_mfa
  reset_user_mfa-IsConsistent q actor id a h =
      elim (Option-cases (find (λ u. u.id == id) a.users)) [
        | inl e ↦ record { distinct = ground arith; lowered = ground arith }
        | inr (u, e) ↦ record {
          distinct = ground (
            arith,
            update-EmailsDistinct a.users u.id
                (λ v. record v { mfa_enabled = false; mfa_secret = none }) (λ v. refl),
          );
          lowered = ground arith;
        }
      ]

  -- the operations on accounts, as requests of one client or another
  pub data Operation : Type 0 where
    invite : (actor : User) (email : String) → Role → (token : String) → Operation
    accept : (token password : String) → Operation
    set_status : (actor : User) → ℕ → UserStatus → Operation
    reset_mfa : (actor : User) → ℕ → Operation

  unfoldable pub perform : Request → Operation → Accounts Store → Accounts Store
  perform q (invite actor email role token) a =
      (create_invitation c Store q actor email role token a).1
  perform q (accept token password) a = (accept_invite c Store q token password a).1
  perform q (set_status actor id status) a = (update_user_status c Store q actor id status a).1
  perform q (reset_mfa actor id) a = (reset_user_mfa c Store q actor id a).1

  unfoldable pub perform_all : List (Request × Operation) → Accounts Store → Accounts Store
  perform_all [] a = a
  perform_all ((q, op) ∷ rest) a = perform_all rest (perform q op a)

  perform-IsConsistent :
      (q : Request) (op : Operation) (a : Accounts Store)
      → ((e : String) → c.lower (c.lower e) ≡ c.lower e)
      → IsConsistent a
      → IsConsistent (perform q op a)
  unfolding perform
  perform-IsConsistent q (invite actor email role token) a idem h =
      create_invitation-IsConsistent q actor email role token a idem h
  perform-IsConsistent q (accept token password) a idem h =
      accept_invite-IsConsistent q token password a h
  perform-IsConsistent q (set_status actor id status) a idem h =
      update_user_status-IsConsistent q actor id status a h
  perform-IsConsistent q (reset_mfa actor id) a idem h = reset_user_mfa-IsConsistent q actor id a h

  -- Invitations, acceptances, changes of status and resets, in any order and failing or not, keep
  -- the emails of the users distinct and those of the invitations in lower case.
  pub perform_all-IsConsistent :
      (ops : List (Request × Operation)) (a : Accounts Store)
      → ((e : String) → c.lower (c.lower e) ≡ c.lower e)
      → IsConsistent a
      → IsConsistent (perform_all ops a)
  unfolding perform_all
  perform_all-IsConsistent [] a idem h = h
  perform_all-IsConsistent ((q, op) ∷ rest) a idem h =
      perform_all-IsConsistent rest (perform q op a) idem (perform-IsConsistent q op a idem h)

  -- An accepted invitation was there, unused and not expired; it made an active user without an
  -- authenticator app, of the invited role and email; and a second acceptance is refused with 409
  -- and changes nothing.
  pub accept_invite_once :
      (q q' : Request) (token password password' : String) (a a' : Accounts Store) (u : User)
      → accept_invite c Store q token password a ≡ (ok u, a')
      → ((i : Invitation) × (find (λ j. str_eq j.token token) a.invitations ≡ some i)
          × (i.accepted_at ≡ none)
          × (q.now ≤ i.expires_at)
          × (u.email ≡ c.lower i.email)
          × (u.role ≡ i.role)
          × (u.status ≡ active)
          × (u.mfa_enabled ≡ false)
          × (a'.users ≡ u ∷ a.users))
        × (accept_invite c Store q' token password' a'
            ≡ (err (http 409 "This invitation has already been accepted."), a'))
  unfolding accept_invite
  accept_invite_once q q' token password password' a a' u h =
      elim (Outcome-cases (usable c Store q (find (λ i. str_eq i.token token) a.invitations))) [
        | inl (i, e) ↦
            let (found, fresh, valid) =
              usable-ok q (find (λ j. str_eq j.token token) a.invitations) i e in
            let again =
              find-update_where (λ j. str_eq j.token token) (λ j. j.id == i.id)
                (λ j. record j { accepted_at = some q.now }) a.invitations i (λ v. refl) found
                ((==_iff i.id i.id).1 refl) in
            (
              (
                i,
                found,
                fresh,
                valid,
                ground arith,
                ground arith,
                ground arith,
                ground arith,
                ground arith,
              ),
              ground (arith, again),
            )
        | inr (x, e) ↦ absurd (ground arith)
      ]

-- ===== src/Tests/Accounts.antt =====
-- Runs of the operations on accounts.
use pipe_line_gpt_backend.Prelude.{◌≤◌, ◌≡◌, refl, false, none, some, List, [], ◌∷◌, find, str_eq}
use pipe_line_gpt_backend.Exec.{err, HttpError, http}
use pipe_line_gpt_backend.Models.{User, Invitation, suspended, operator, active, Request}
use pipe_line_gpt_backend.Accounts.{Accounts}
use pipe_line_gpt_backend.Invites.{accept_invite}
use pipe_line_gpt_backend.Invites.Accepted.{
  IsConsistent, Operation, invite, accept, set_status, perform_all, perform_all-IsConsistent,
  accept_invite_once,
}
use pipe_line_gpt_backend.Tests.Fixtures.{Memory, nothing_stored, ann, toy_crypto}

abbrev offer : Invitation
offer = record {
  id = 3;
  email = "bo@example.com";
  role = operator;
  token = "t3";
  invited_by_id = some 7;
  expires_at = 5000;
  accepted_at = none;
  created_at = 900;
}

abbrev accounts : Accounts Memory
accounts = record {
  users = ann ∷ [];
  invitations = offer ∷ [];
  audit_events = [];
  redis = nothing_stored;
}

abbrev request : Request
request = record { now = 1000; uuid = 11; event_uuid = 12; ip = none }

accounts-IsConsistent : IsConsistent toy_crypto Memory accounts
accounts-IsConsistent = record { distinct = (refl, tt); lowered = (refl, tt) }

abbrev operations : List (Request × Operation toy_crypto Memory)
operations =
    (request, accept "t3" "secret")
    ∷ (request, invite ann "cy@example.com" operator "t4")
    ∷ (request, set_status ann 11 suspended)
    ∷ (request, accept "t4" "secret")
    ∷ []

perform_all-IsConsistent_example :
    IsConsistent toy_crypto Memory (perform_all toy_crypto Memory operations accounts)
perform_all-IsConsistent_example =
    perform_all-IsConsistent toy_crypto Memory operations accounts (λ e. refl) accounts-IsConsistent

abbrev bo : User
bo = record {
  id = 11;
  email = "bo@example.com";
  hashed_password = "secret";
  role = operator;
  status = active;
  preferred_lang = "en";
  mfa_enabled = false;
  mfa_secret = none;
  created_at = 1000;
  last_login = none;
}

accept_invite_once_example :
    let a' = (accept_invite toy_crypto Memory request "t3" "secret" accounts).1 in
    ((i : Invitation) × (find (λ j. str_eq j.token "t3") (offer ∷ []) ≡ some i)
      × (i.accepted_at ≡ none)
      × (1000 ≤ i.expires_at)
      × (bo.email ≡ i.email)
      × (bo.role ≡ i.role)
      × (bo.status ≡ active)
      × (bo.mfa_enabled ≡ false)
      × (a'.users ≡ bo ∷ ann ∷ []))
    × (accept_invite toy_crypto Memory request "t3" "other" a'
        ≡ (err (http 409 "This invitation has already been accepted."), a'))
unfolding accept_invite
accept_invite_once_example =
    accept_invite_once toy_crypto Memory request request "t3" "secret" "other" accounts
      (accept_invite toy_crypto Memory request "t3" "secret" accounts).1 bo refl

abbrev offer_cy : Invitation
offer_cy = record {
  id = 11;
  email = "cy@example.com";
  role = operator;
  token = "t4";
  invited_by_id = some 7;
  expires_at = 173800;
  accepted_at = none;
  created_at = 1000;
}

abbrev not_found : HttpError
not_found = http 404 "User not found."

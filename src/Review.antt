-- ===== src/Review.antt =====
-- backend/app/routers/review.py, and what backend/app/routers/query.py shows of an answer. The
-- caller of the review routes has passed `RequireEngineer`.
pub mod Once
use pipe_line_gpt_backend.Prelude.{
  ℕ, ◌+◌, ◌-◌, ◌*◌, ◌≤◌, String, Bool, true, false, not, ◌&&◌, ◌||◌, Option, none, some, List, [],
  ◌∷◌, find, select, map, take, drop, str_eq, ◌==◌, leb, if◌then◌else◌,
}
use pipe_line_gpt_backend.Exec.{
  Exec, Outcome, ok, err, HttpError, http, pure, raise, raise_if, gets, modify, lift, ◌>>=◌, ◌>>◌,
}
use pipe_line_gpt_backend.Models.{
  Decision, approve, edit, reject, QueryStatus, under_review, rejected, Query, Response, Review,
  Json, text_or_null, Target, id_of, Request, User,
}
use pipe_line_gpt_backend.Accounts.{audit_event, log_event}
use pipe_line_gpt_backend.Hitl.{Desk, decided, save_decision}

pub record ReviewDecisionRequest : Type 0 where
  pub decision : String
  pub final_text : Option String
  pub reason : Option String

-- `body.decision in ("APPROVE", "EDIT", "REJECT")`, with the decision that it names
unfoldable pub decision_named : String → Option Decision
decision_named d =
    if str_eq d "APPROVE"
    then some approve
    else if str_eq d "EDIT"
    then some edit
    else if str_eq d "REJECT"
    then some reject
    else none

-- `not text`
abbrev pub is_missing : Option String → Bool
is_missing none = true
is_missing (some t) = str_eq t ""

-- HITL_EVENT_TYPES
abbrev pub event_type_of : Decision → String
event_type_of approve = "HITL_APPROVED"
event_type_of edit = "HITL_EDITED"
event_type_of reject = "HITL_REJECTED"

-- the checks of the body
abbrev check_body : ReviewDecisionRequest → Option Decision → Outcome HttpError Decision
check_body body none = err (http 422 "decision must be APPROVE, EDIT, or REJECT")
check_body body (some approve) = ok approve
check_body body (some edit) =
    if is_missing body.final_text
    then err (http 422 "final_text is required for EDIT decision")
    else ok edit
check_body body (some reject) =
    if is_missing body.reason
    then err (http 422 "reason is required for REJECT decision")
    else ok reject

unfoldable pub validated : ReviewDecisionRequest → Outcome HttpError Decision
unfolding decision_named
validated body = check_body body (decision_named body.decision)

-- the review of a question: the join over the unique columns `responses.query_id` and
-- `hitl_reviews.response_id`
abbrev review_of_response : Desk → Option Response → Option Review
review_of_response d none = none
review_of_response d (some r) = find (λ v. v.response_id == r.id) d.reviews

abbrev review_of_query : ℕ → Desk → Option Query → Option Review
review_of_query query_id d none = none
review_of_query query_id d (some q) =
    review_of_response d (find (λ r. r.query_id == query_id) d.responses)

unfoldable pub find_review : ℕ → Desk → Option Review
find_review query_id d = review_of_query query_id d (find (λ q. q.id == query_id) d.queries)

abbrev undecided : Option Review → Outcome HttpError Review
undecided none = err (http 404 "Review not found for this query")
undecided (some v) = elim v.decision [
  | none ↦ ok v
  | some x ↦ err (http 409 "Review already decided")
]

-- the ValueError of `submit_review_decision` is answered with 500
abbrev or_500 : {A : Type 0} → Outcome String A → Outcome HttpError A
or_500 (ok a) = ok a
or_500 (err e) = err (http 500 "Internal Server Error")

abbrev is_given : Option String → Bool
is_given none = false
is_given (some t) = true

abbrev pub Handler : Type 0 → Type 0
Handler A = Exec Desk HttpError A

-- `submit_decision`; the decision that was recorded
unfoldable pub submit_decision :
    Request → User → ℕ → ReviewDecisionRequest → Handler (Review × Decision)
submit_decision q user query_id body = do
  decision ← lift (validated body)
  row ← gets (find_review query_id)
  review ← lift (undecided row)
  (v, status) ← lift (or_500 (decided q.now user.id decision body.final_text body.reason review))
  modify (save_decision v query_id status)
  modify (λ d. record d {
    audit_events =
        log_event
          (audit_event q (event_type_of decision) (some user.id) (some (id_of v.id))
            (some "hitl_review")
            (("query_id", Json.number query_id)
              ∷ ("decision", Json.text body.decision)
              ∷ ("reason", text_or_null body.reason)
              ∷ ("has_edit", Json.flag (is_given body.final_text))
              ∷ [])
            q.ip)
          d.audit_events;
  })
  pure (v, decision)

abbrev pub held_message : String
held_message =
    "This answer contains operational recommendations or low-confidence findings and is being held for review by a qualified engineer. It will appear here once approved."

abbrev pub rejected_message : String
rejected_message = "This answer was rejected by the reviewing engineer and has been withheld."

-- `_operator_visible_answer`
unfoldable pub operator_visible_answer : QueryStatus → String → String
operator_visible_answer under_review answer = held_message
operator_visible_answer rejected answer = rejected_message
operator_visible_answer _ answer = answer

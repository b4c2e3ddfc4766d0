-- ===== src/Hitl.antt =====
-- backend/app/services/hitl.py: which answers wait for an engineer, and how a decision is recorded.
-- The regular expressions run in Python's `re`: `Patterns` holds the outcome of each on a text.
pub mod Risk
use pipe_line_gpt_backend.Prelude.{
  ℕ, String, Bool, true, false, not, ◌&&◌, ◌||◌, Option, none, some, List, [], ◌∷◌, ◌++◌, any,
  update_where, str_eq, ◌==◌, if◌then◌else◌,
}
use pipe_line_gpt_backend.Exec.{Outcome, ok, err}
use pipe_line_gpt_backend.Config.{Settings}
use pipe_line_gpt_backend.Models.{
  Decision, approve, edit, reject, QueryStatus, under_review, delivered, rejected, RiskLevel, high,
  medium, low, Ratio, ratio_lt, Query, Response, Review, AuditEvent,
}

-- `search` of each pattern; `imperative_start` is its `match` on the clause without leading markup;
-- `is_heading` is `line.lstrip().startswith("#")`.
pub record Patterns : Type 0 where
  pub splitlines : String → List String
  pub split_clauses : String → List String
  pub is_heading : String → Bool
  pub high_risk_verbs : String → Bool
  pub medium_risk_keywords : String → Bool
  pub recommendation_cues : String → Bool
  pub imperative_start : String → Bool
  pub recommendation_heading : String → Bool
  pub deferral : String → Bool
  pub advice_request : String → Bool

module _ (re : Patterns) where
  open re use {
    splitlines, split_clauses, is_heading, high_risk_verbs, medium_risk_keywords,
    recommendation_cues, imperative_start, recommendation_heading, deferral, advice_request,
  }

  -- the test on a clause, in a section about recommendations or not
  unfoldable pub recommends : Bool → String → Bool
  recommends in_section clause =
      imperative_start clause || not (deferral clause) && (in_section || recommendation_cues clause)

  -- the inner loop
  unfoldable pub clauses_of_line : Bool → List String → List String
  unfolding recommends
  clauses_of_line in_section [] = []
  clauses_of_line in_section (clause ∷ rest) =
      let tail = clauses_of_line in_section rest in
      if recommends in_section clause then clause ∷ tail else tail

  -- the outer loop, with its flag `in_recommendation_section`
  unfoldable pub clauses_of_lines : Bool → List String → List String
  unfolding clauses_of_line
  clauses_of_lines in_section [] = []
  clauses_of_lines in_section (line ∷ rest) = elim (is_heading line) [
    | true ↦
        (if recommendation_heading line then line ∷ [] else [])
        ++ clauses_of_lines (recommendation_heading line) rest
    | false ↦ clauses_of_line in_section (split_clauses line) ++ clauses_of_lines in_section rest
  ]

  unfoldable pub recommendation_clauses : String → List String
  unfolding clauses_of_lines
  recommendation_clauses answer = clauses_of_lines false (splitlines answer)

  unfoldable pub classify_risk :
      Settings → (question answer : String) → Ratio → Bool → RiskLevel × Bool
  classify_risk s question answer confidence recommends_action =
      let recommendations = recommendation_clauses answer in
      if recommends_action || (any high_risk_verbs recommendations || advice_request question)
      then (high, true)
      else if any medium_risk_keywords recommendations
          || ratio_lt confidence s.hitl_confidence_threshold
      then (medium, true)
      else (low, false)

-- The tables of questions, answers and reviews, and the audit trail.
pub record Desk : Type 0 where
  pub queries : List Query
  pub responses : List Response
  pub reviews : List Review
  pub audit_events : List AuditEvent

abbrev pub set_status : ℕ → QueryStatus → Desk → Desk
set_status query_id status d = record d {
  queries = update_where (λ q. q.id == query_id) (λ q. record q { status = status }) d.queries;
}

-- `queue_for_review`, where `review_id` is the uuid that it draws
unfoldable pub queue_for_review : ℕ → Response → ℕ → Desk → Desk
queue_for_review review_id response query_id d =
    let review : Review = record {
      id = review_id;
      response_id = response.id;
      reviewer_id = none;
      decision = none;
      original_text = response.answer_text;
      final_text = none;
      reason = none;
      reviewed_at = none;
    } in
    record d {
      reviews = review ∷ d.reviews;
      queries =
          update_where (λ q. q.id == query_id)
            (λ q. record q { hitl_required = true; status = under_review }) d.queries;
    }

-- the fields of the review and the status of the question after a decision; `ValueError` where an
-- edit comes without a text
unfoldable pub decided :
    (now reviewer_id : ℕ)
    → Decision
    → (final_text reason : Option String) → Review
    → Outcome String (Review × QueryStatus)
decided now reviewer_id approve final_text reason v = ok (
  record v {
    reviewer_id = some reviewer_id;
    decision = some approve;
    reason = reason;
    reviewed_at = some now;
    final_text = some v.original_text;
  },
  delivered,
)
decided now reviewer_id edit none reason v = err "final_text is required for EDIT decision"
decided now reviewer_id edit (some text) reason v =
    if str_eq text ""
    then err "final_text is required for EDIT decision"
    else ok (
      record v {
        reviewer_id = some reviewer_id;
        decision = some edit;
        reason = reason;
        reviewed_at = some now;
        final_text = some text;
      },
      delivered,
    )
decided now reviewer_id reject final_text reason v = ok (
  record v {
    reviewer_id = some reviewer_id;
    decision = some reject;
    reason = reason;
    reviewed_at = some now;
    final_text = none;
  },
  rejected,
)

-- a row with the fields that a decision sets
abbrev pub with_decision : Review → Review → Review
with_decision v w = record w {
  reviewer_id = v.reviewer_id;
  decision = v.decision;
  final_text = v.final_text;
  reason = v.reason;
  reviewed_at = v.reviewed_at;
}

-- `submit_review_decision` on the stored rows: the review and the status of its question
unfoldable pub save_decision : Review → ℕ → QueryStatus → Desk → Desk
save_decision v query_id status d =
    set_status query_id status
      (record d { reviews = update_where (λ w. w.id == v.id) (with_decision v) d.reviews })

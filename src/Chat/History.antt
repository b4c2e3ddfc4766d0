-- ===== src/Chat/History.antt =====
-- backend/app/routers/query.py: GET /query/history, what the asker sees of earlier questions. The
-- database's ordering by time, newest first, and its limit are the argument `newest`.
pub mod Exposure
use mathlib.Core.List.{reverse, filter_map}
use pipe_line_gpt_backend.Prelude.{
  ℕ, String, Bool, true, false, Option, none, some, List, [], ◌∷◌, find, select, ◌==◌,
}
use pipe_line_gpt_backend.Models.{QueryStatus, Decision, Ratio, Query, Response, Review, Citation}
use pipe_line_gpt_backend.Hitl.{Desk}
use pipe_line_gpt_backend.Review.{operator_visible_answer}

pub record QueryHistoryItem : Type 0 where
  pub query_id : ℕ
  pub question : String
  pub asked_at : ℕ
  pub status : QueryStatus
  pub hitl_required : Bool
  pub answer_text : String
  pub final_text : Option String
  pub decision : Option Decision
  pub reason : Option String
  pub reviewed_at : Option ℕ
  pub citations : List Citation
  pub confidence_score : Ratio

abbrev review_field : {A : Type 0} → (Review → Option A) → Option Review → Option A
review_field f none = none
review_field f (some v) = f v

abbrev item : Query → Response → Option Review → QueryHistoryItem
item q r v = record {
  query_id = q.id;
  question = q.question_raw;
  asked_at = q.query_ts;
  status = q.status;
  hitl_required = q.hitl_required;
  answer_text = operator_visible_answer q.status r.answer_text;
  final_text = review_field (λ w. w.final_text) v;
  decision = review_field (λ w. w.decision) v;
  reason = review_field (λ w. w.reason) v;
  reviewed_at = review_field (λ w. w.reviewed_at) v;
  citations = r.citations_json;
  confidence_score = r.confidence_score;
}

abbrev item_with_response : Desk → Query → Option Response → Option QueryHistoryItem
item_with_response d q none = none
item_with_response d q (some r) = some (item q r (find (λ v. v.response_id == r.id) d.reviews))

-- one row of the history; a question without an answer has none
unfoldable pub history_item : Desk → Query → Option QueryHistoryItem
history_item d q = item_with_response d q (find (λ r. r.query_id == q.id) d.responses)

abbrev is_asker : ℕ → Query → Bool
is_asker user_id q = elim q.user_id [ none ↦ false | some u ↦ u == user_id ]

abbrev rows_of : Desk → List Query → List QueryHistoryItem
rows_of d [] = []
rows_of d (q ∷ qs) =
    let rest = rows_of d qs in elim (history_item d q) [ none ↦ rest | some i ↦ i ∷ rest ]

-- `get_query_history`, oldest first
unfoldable pub get_query_history : (List Query → List Query) → ℕ → Desk → List QueryHistoryItem
get_query_history newest user_id d =
    rows_of d (reverse (newest (select (is_asker user_id) d.queries)))

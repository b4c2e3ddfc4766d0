-- ===== src/Tests/Answers.antt =====
-- Runs of the risk classification, of a review and of the stream of a question.
use mathlib.Core.List.{Memᴰ}
use pipe_line_gpt_backend.Prelude.{
  ℕ, ◌*◌, ◌≤◌, String, ◌≡◌, ◌↔◌, refl, true, false, none, some, [], ◌∷◌, str_eq, inl,
}
use pipe_line_gpt_backend.Exec.{Outcome, ok, err, http}
use pipe_line_gpt_backend.Config.{default_settings}
use pipe_line_gpt_backend.Models.{
  approve, edit, under_review, high, low, Ratio, Query, Response, Review, Request,
}
use pipe_line_gpt_backend.Hitl.{Patterns, Desk, recommendation_clauses, classify_risk, decided}
use pipe_line_gpt_backend.Hitl.Risk.{None, classify_risk-low_iff, high_risk_advice_held}
use pipe_line_gpt_backend.Review.{
  ReviewDecisionRequest, submit_decision, validated, decision_named, find_review, held_message,
}
use pipe_line_gpt_backend.Review.Once.{submit_decision_once}
use pipe_line_gpt_backend.Chat.Boundary.{Services}
use pipe_line_gpt_backend.Chat.{
  Chat, Answer, QueryRequest, ping, insert_query, event_stream, generate, deliver, store_answer,
  spend, retrieve_all, assess, new_query,
}
use pipe_line_gpt_backend.Chat.Allowed.{IsDiscreet}
use pipe_line_gpt_backend.Chat.Disclosure.{event_stream-IsDiscreet}
use pipe_line_gpt_backend.Chat.Ending.{IsEnded, event_stream-IsEnded}
use pipe_line_gpt_backend.Chat.History.Exposure.{shown_for, deliver_hidden, held_answer_exposed}
use pipe_line_gpt_backend.Tests.Fixtures.{ann}

-- Patterns that know one sentence of each kind.
abbrev patterns : Patterns
patterns = record {
  splitlines = λ t. t ∷ [];
  split_clauses = λ t. t ∷ [];
  is_heading = λ t. false;
  high_risk_verbs = λ t. str_eq t "Shut down the line.";
  medium_risk_keywords = λ t. str_eq t "Review the coating.";
  recommendation_cues = λ t. false;
  imperative_start = λ t. str_eq t "Shut down the line.";
  recommendation_heading = λ t. false;
  deferral = λ t. false;
  advice_request = λ t. false;
}

abbrev sure : Ratio
sure = record { num = 9; den = 10 }

classify_risk-low_iff_example :
    (classify_risk patterns default_settings "Which line?" "Line 4." sure false ≡ (low, false)) ↔ (
      (false ≡ false)
      × (patterns.advice_request "Which line?" ≡ false)
      × None patterns default_settings patterns.high_risk_verbs
          (recommendation_clauses patterns "Line 4.")
      × None patterns default_settings patterns.medium_risk_keywords
          (recommendation_clauses patterns "Line 4.")
      × (75 * 10 ≤ 9 * 100))
classify_risk-low_iff_example =
    classify_risk-low_iff patterns default_settings "Which line?" "Line 4." sure false

high_risk_advice_held_example :
    classify_risk patterns default_settings "Which line?" "Shut down the line." sure false
    ≡ (high, true)
high_risk_advice_held_example =
    high_risk_advice_held patterns default_settings "Which line?" "Shut down the line."
      "Shut down the line." "Shut down the line." sure false (inl refl) refl refl (Memᴰ.head refl)
      (Memᴰ.head refl)

abbrev request : Request
request = record { now = 1000; uuid = 5; event_uuid = 6; ip = none }

abbrev asked : Query
asked = record {
  id = 4;
  session_id = "s";
  user_id = some 7;
  question_raw = "What now?";
  question_lang = "en";
  query_ts = 900;
  hitl_required = true;
  status = under_review;
}

abbrev answered : Response
answered = record {
  id = 40;
  query_id = 4;
  answer_text = "Shut down the line.";
  citations_json = [];
  confidence_score = sure;
  risk_level = some high;
  model_version = "m";
  prompt_tokens = 1;
  completion_tokens = 1;
}

abbrev waiting : Review
waiting = record {
  id = 44;
  response_id = 40;
  reviewer_id = none;
  decision = none;
  original_text = "Shut down the line.";
  final_text = none;
  reason = none;
  reviewed_at = none;
}

abbrev desk : Desk
desk = record {
  queries = asked ∷ [];
  responses = answered ∷ [];
  reviews = waiting ∷ [];
  audit_events = [];
}

abbrev edited : ReviewDecisionRequest
edited = record { decision = "EDIT"; final_text = some "Inspect the line."; reason = none }

abbrev after_edit : Review
after_edit = record waiting {
  reviewer_id = some 7;
  decision = some edit;
  final_text = some "Inspect the line.";
  reviewed_at = some 1000;
}

abbrev approval : ReviewDecisionRequest
approval = record { decision = "APPROVE"; final_text = none; reason = none }

submit_decision_once_example :
    let d' = (submit_decision request ann 4 edited desk).1 in
    submit_decision request ann 4 approval d' ≡ (err (http 409 "Review already decided"), d')
unfolding submit_decision validated decision_named find_review decided
submit_decision_once_example =
    submit_decision_once request request ann ann 4 edited approval desk
      (submit_decision request ann 4 edited desk).1 after_edit edit approve refl refl

-- A model that answers every question with one text, and a store of the usage that fails or not.
abbrev services : String → Outcome String ℕ → Services ℕ ℕ ℕ
services reply budget = record {
  detect_language = λ t. "en";
  scrub_pii = λ t. t;
  embed_single = λ t. ok 0;
  expand_query = λ t. ok [];
  embed_texts = λ ts. ok [];
  retrieve_chunks = λ e f n. ok [];
  fuse_results = λ ls. [];
  rerank_chunks = λ t cs n. ok [];
  build_context_block = λ cs. "";
  generate = λ t c l. record { pings = 1; reply = ok reply; input_tokens = 10; output_tokens = 5 };
  remove_em_dashes = λ t. t;
  estimate_confidence = λ t cs. sure;
  extract_citations = λ t cs. [];
  check_recommends_action =
      λ t a. record { recommends_action = false; input_tokens = 1; output_tokens = 1 };
  cache_scope = λ l f. l;
  cache_lookup = λ c k e. none;
  cache_store = λ c k i e a. c;
  record_token_usage = λ b u n. budget;
  audit_outcome = λ t. ok tt;
  user_facing_llm_error = λ t. "Try again.";
}

abbrev working : Services ℕ ℕ ℕ
working = services "Line 4." (ok 1)

abbrev advising : Services ℕ ℕ ℕ
advising = services "Shut down the line." (err "ConnectionError")

abbrev chat : Chat ℕ ℕ
chat = record {
  desk = record { queries = []; responses = []; reviews = []; audit_events = [] };
  cache = 0;
  budget = 0;
  sent = [];
}

abbrev question : QueryRequest
question = record { question = "Which line?"; language = none; session_id = "s"; filters = none }

event_stream-IsDiscreet_example :
    IsDiscreet default_settings patterns ℕ ℕ ℕ working
      (working.scrub_pii question.question)
      (event_stream default_settings patterns ℕ ℕ ℕ working request ann question chat).1
event_stream-IsDiscreet_example =
    event_stream-IsDiscreet default_settings patterns ℕ ℕ ℕ working request ann question chat tt

event_stream-IsEnded_example :
    IsEnded default_settings patterns ℕ ℕ ℕ working
      (event_stream default_settings patterns ℕ ℕ ℕ working request ann question chat).1
event_stream-IsEnded_example =
    event_stream-IsEnded default_settings patterns ℕ ℕ ℕ working request ann question chat refl

-- what is generated for the question where the answer has to wait
abbrev held : Answer ℕ
held = record {
  text = "Shut down the line.";
  citations = [];
  confidence = sure;
  risk_level = high;
  hitl_required = true;
  input_tokens = 11;
  output_tokens = 6;
  embedding = 0;
  scope = "en";
}

abbrev inserted : Chat ℕ ℕ
inserted = record chat {
  desk = insert_query default_settings patterns ℕ ℕ ℕ advising request ann question "en" chat.desk;
}

abbrev generated : Chat ℕ ℕ
generated = record inserted { sent = ping ∷ [] }

abbrev asked_now : Query
asked_now = new_query default_settings patterns ℕ ℕ ℕ working request ann question "en"

deliver_hidden_example :
    let c' = (deliver default_settings patterns ℕ ℕ ℕ working request ann held inserted).1 in
    (shown_for 5 c'.desk ≡ some held_message) × (c'.cache ≡ 0)
unfolding deliver store_answer spend insert_query
deliver_hidden_example =
    deliver_hidden default_settings patterns ℕ ℕ ℕ working request ann held inserted asked_now
      (deliver default_settings patterns ℕ ℕ ℕ working request ann held inserted).1 refl refl refl

held_answer_exposed_example :
    shown_for 5
      (event_stream default_settings patterns ℕ ℕ ℕ advising request ann question chat).1.desk
    ≡ some "Shut down the line."
unfolding generate retrieve_all assess classify_risk recommendation_clauses
held_answer_exposed_example =
    held_answer_exposed default_settings patterns ℕ ℕ ℕ advising request ann question chat 0
      generated held "ConnectionError" refl refl refl refl refl

-- ===== src/Chat.antt =====
-- backend/app/routers/query.py: POST /query. The server-sent events of one question, as a handler
-- over the tables, the answer cache, the token budget and the events that were sent. The caller has
-- passed `RequireOperator` and `token_budget_dependency`. An exception is the name of its class.
pub mod Boundary
pub mod Replay
pub mod Allowed
pub mod Disclosure
pub mod Ending
pub mod History
use pipe_line_gpt_backend.Prelude.{
  ℕ, ◌+◌, String, Bool, true, false, Option, none, some, List, [], ◌∷◌, ◌++◌, map, str_eq,
  update_where, ◌==◌, zero, suc, if◌then◌else◌,
}
use pipe_line_gpt_backend.Exec.{
  Exec, Outcome, ok, err, pure, raise, gets, modify, lift, catch, ◌>>=◌, ◌>>◌,
}
use pipe_line_gpt_backend.Config.{Settings}
use pipe_line_gpt_backend.Models.{
  QueryStatus, processing, delivered, failed, RiskLevel, high, medium, low, Ratio, Query, Response,
  Chunk, Citation, Json, Target, id_of, AuditEvent, Request, User,
}
use pipe_line_gpt_backend.Accounts.{audit_event, log_event}
use pipe_line_gpt_backend.Hitl.{Patterns, classify_risk, Desk, set_status, queue_for_review}
use pipe_line_gpt_backend.Review.{held_message}
use Prim.Native.String.{◌++◌ as str_append}
use Boundary.{Services, Filters, CachedAnswer, Generation, AdviceCheck}
use Replay.{pieces}

pub record QueryRequest : Type 0 where
  pub question : String
  pub language : Option String
  pub session_id : String
  pub filters : Option Filters

-- one `data:` line
pub record Event : Type 0 where
  pub delta : String
  pub citations : List Citation
  pub hitl_required : Bool
  pub held : Bool
  pub cached : Bool
  pub error : Bool
  pub done : Bool

pub data Sse : Type 0 where
  ping : Sse
  event : Event → Sse

pub record Chat (Cache Budget : Type 0) : Type 0 where
  pub desk : Desk
  pub cache : Cache
  pub budget : Budget
  pub sent : List Sse

-- an event with the flags that `_sse` leaves out
abbrev pub plain : String → Event
plain delta = record {
  delta = delta;
  citations = [];
  hitl_required = false;
  held = false;
  cached = false;
  error = false;
  done = false;
}

abbrev pub risk_text : RiskLevel → String
risk_text high = "HIGH"
risk_text medium = "MEDIUM"
risk_text low = "LOW"

-- Python's `a or b` on an optional text
abbrev pub text_or : Option String → String → String
text_or none b = b
text_or (some a) b = if str_eq a "" then b else a

-- the heartbeats while an answer is generated
abbrev pub pings : ℕ → List Sse
pings zero = []
pings (suc n) = ping ∷ pings n

-- the events of an answer's pieces
abbrev pub replay : List String → List Sse
replay ps = map (λ p. event (plain p)) ps

-- What the answer to one question is made of, before it is sent.
pub record Answer (Emb : Type 0) : Type 0 where
  pub text : String
  pub citations : List Citation
  pub confidence : Ratio
  pub risk_level : RiskLevel
  pub hitl_required : Bool
  pub input_tokens : ℕ
  pub output_tokens : ℕ
  pub embedding : Emb
  pub scope : String

module _ (s : Settings) (re : Patterns) (Emb Cache Budget : Type 0)
    (svc : Services Emb Cache Budget) where
  abbrev pub Handler : Type 0 → Type 0
  Handler A = Exec (Chat Cache Budget) String A

  abbrev pub emit : Sse → Handler (Unit {0})
  emit e = modify (λ c. record c { sent = c.sent ++ e ∷ [] })

  abbrev pub on_desk : (Desk → Desk) → Handler (Unit {0})
  on_desk f = modify (λ c. record c { desk = f c.desk })

  -- `log_event`, which may fail
  abbrev log : AuditEvent → Handler (Unit {0})
  log e = do
    _ ← lift (svc.audit_outcome e.event_type)
    on_desk (λ d. record d { audit_events = log_event e d.audit_events })

  abbrev pub new_query : Request → User → QueryRequest → String → Query
  new_query q user body language = record {
    id = q.uuid;
    session_id = body.session_id;
    user_id = some user.id;
    question_raw = body.question;
    question_lang = language;
    query_ts = q.now;
    hitl_required = false;
    status = processing;
  }

  -- the row that is committed before anything is looked up
  unfoldable pub insert_query : Request → User → QueryRequest → String → Desk → Desk
  insert_query q user body language d = record d {
    queries = new_query q user body language ∷ d.queries;
  }

  abbrev response_of_cached : Request → CachedAnswer → Response
  response_of_cached q hit = record {
    id = q.event_uuid;
    query_id = q.uuid;
    answer_text = hit.answer;
    citations_json = hit.citations;
    confidence_score = hit.confidence;
    risk_level = some low;
    model_version = str_append "cache:" hit.model_version;
    prompt_tokens = 0;
    completion_tokens = 0;
  }

  abbrev add_response : Response → Desk → Desk
  add_response r d = record d { responses = r ∷ d.responses }

  -- the branch of a cache hit
  unfoldable pub answer_cached : Request → User → CachedAnswer → Handler (Unit {0})
  answer_cached q user hit = do
    on_desk (λ d. set_status q.uuid delivered (add_response (response_of_cached q hit) d))
    log (
        audit_event q "QUERY_COMPLETED" (some user.id) (some (id_of q.uuid)) (some "query")
          (("risk_level", Json.text "LOW")
            ∷ ("hitl_required", Json.flag false)
            ∷ ("cached", Json.flag true)
            ∷ [])
          q.ip)
    emit (event (record (plain hit.answer) { cached = true }))
    emit (event (record (plain "") { citations = hit.citations; cached = true; done = true }))

  -- the variants' embeddings; a failure leaves none
  abbrev or_no_variants : Outcome String (List Emb) → List Emb
  or_no_variants (ok es) = es
  or_no_variants (err e) = []

  abbrev embed_variants : Outcome String (List String) → List Emb
  embed_variants (err e) = []
  embed_variants (ok []) = []
  embed_variants (ok (v ∷ vs)) = or_no_variants (svc.embed_texts (v ∷ vs))

  -- one retrieval for each embedding
  unfoldable pub retrieve_all : Option Filters → List Emb → Outcome String (List (List Chunk))
  retrieve_all filters [] = ok []
  retrieve_all filters (e ∷ rest) =
      let later = retrieve_all filters rest in
      elim (svc.retrieve_chunks e filters s.top_k_retrieval) [
        | err x ↦ err x
        | ok cs ↦ elim later [ err x ↦ err x | ok ls ↦ ok (cs ∷ ls) ]
      ]

  -- the answer and its risk, from the reply of the model
  unfoldable pub assess : String → List Chunk → Emb → String → String → Generation → Answer Emb
  assess question reranked embedding scope reply g =
      let text = svc.remove_em_dashes reply in
      let confidence = svc.estimate_confidence text reranked in
      let check = svc.check_recommends_action question text in
      let (risk_level, hitl_required) =
        classify_risk re s question text confidence check.recommends_action in
      record {
        text = text;
        citations = svc.extract_citations text reranked;
        confidence = confidence;
        risk_level = risk_level;
        hitl_required = hitl_required;
        input_tokens = g.input_tokens + check.input_tokens;
        output_tokens = g.output_tokens + check.output_tokens;
        embedding = embedding;
        scope = scope;
      }

  -- retrieval, generation (with a ping for each heartbeat) and assessment
  unfoldable pub generate : QueryRequest → String → String → Emb → String → Handler (Answer Emb)
  generate body question language embedding scope = do
    lists ←
        lift (retrieve_all body.filters (embedding ∷ embed_variants (svc.expand_query question)))
    reranked ← lift (svc.rerank_chunks question (svc.fuse_results lists) s.top_k_rerank)
    let g = svc.generate question (svc.build_context_block reranked) language
    modify (λ c. record c { sent = c.sent ++ pings g.pings })
    reply ← lift g.reply
    pure (assess question reranked embedding scope reply g)

  abbrev response_of : Request → Answer Emb → Response
  response_of q a = record {
    id = q.event_uuid;
    query_id = q.uuid;
    answer_text = a.text;
    citations_json = a.citations;
    confidence_score = a.confidence;
    risk_level = some a.risk_level;
    model_version = s.llm_model;
    prompt_tokens = a.input_tokens;
    completion_tokens = a.output_tokens;
  }

  abbrev cacheable : Answer Emb → CachedAnswer
  cacheable a = record {
    answer = a.text;
    citations = a.citations;
    confidence = a.confidence;
    model_version = s.llm_model;
  }

  -- the rows of the answer: held for review, or delivered and cached
  unfoldable pub store_answer : Request → Answer Emb → Handler (Unit {0})
  store_answer q a =
      if a.hitl_required
      then on_desk
          (λ d. queue_for_review q.uuid (response_of q a) q.uuid (add_response (response_of q a) d))
      else (do
        on_desk (λ d. set_status q.uuid delivered (add_response (response_of q a) d))
        modify (λ c. record c {
          cache = svc.cache_store c.cache a.scope q.uuid a.embedding (cacheable a);
        }))

  -- `record_token_usage`, which may fail
  unfoldable pub spend : User → ℕ → Handler (Unit {0})
  spend user tokens c = elim (svc.record_token_usage c.budget user.id tokens) [
    | ok b ↦ (ok tt, record c { budget = b })
    | err e ↦ (err e, c)
  ]

  -- what the stream shows of the answer: its pieces, or the notice that it is held
  abbrev shown : Answer Emb → List Sse
  shown a =
      if a.hitl_required
      then event (record (plain held_message) { hitl_required = true; held = true }) ∷ []
      else replay (pieces a.text)

  abbrev closing : Answer Emb → Event
  closing a = record (plain "") {
    citations = a.citations;
    hitl_required = a.hitl_required;
    done = true;
  }

  abbrev answer_events : Answer Emb → List Sse
  answer_events a = shown a ++ event (closing a) ∷ []

  -- everything after the assessment
  unfoldable pub deliver : Request → User → Answer Emb → Handler (Unit {0})
  deliver q user a = do
    store_answer q a
    spend user (a.input_tokens + a.output_tokens)
    log (
        audit_event q "QUERY_COMPLETED" (some user.id) (some (id_of q.uuid)) (some "query")
          (("risk_level", Json.text (risk_text a.risk_level))
            ∷ ("hitl_required", Json.flag a.hitl_required)
            ∷ ("confidence", Json.share a.confidence.num a.confidence.den)
            ∷ [])
          q.ip)
    modify (λ c. record c { sent = c.sent ++ answer_events a })

  abbrev respond :
      Request
      → User
      → QueryRequest
      → String
      → String
      → Emb
      → String
      → Option CachedAnswer
      → Handler (Unit {0})
  respond q user body question language embedding scope (some hit) = answer_cached q user hit
  respond q user body question language embedding scope none = do
    a ← generate body question language embedding scope
    deliver q user a

  -- the `try` block
  unfoldable pub answer_question : Request → User → QueryRequest → Handler (Unit {0})
  answer_question q user body = do
    let language = text_or body.language (svc.detect_language body.question)
    let question = svc.scrub_pii body.question
    let scope = svc.cache_scope language body.filters
    embedding ← lift (svc.embed_single question)
    on_desk (insert_query q user body language)
    hit ← gets (λ c. svc.cache_lookup c.cache scope embedding)
    respond q user body question language embedding scope hit

  -- the `except` block; a question that was not inserted yet has no row to mark
  unfoldable pub report_failure : Request → User → String → Handler (Unit {0})
  report_failure q user exc = do
    on_desk (set_status q.uuid failed)
    log (
        audit_event q "QUERY_FAILED" (some user.id) (some (id_of q.uuid)) (some "query")
          (("error_type", Json.text exc) ∷ []) q.ip)
    emit (event (record (plain (svc.user_facing_llm_error exc)) { error = true }))
    emit (event (record (plain "") { done = true }))

  unfoldable pub event_stream : Request → User → QueryRequest → Handler (Unit {0})
  event_stream q user body = catch (answer_question q user body) (report_failure q user)

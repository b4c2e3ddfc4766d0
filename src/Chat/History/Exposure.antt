-- ===== src/Chat/History/Exposure.antt =====
-- What the history shows of an answer that was held for review.
use pipe_line_gpt_backend.Prelude.{
  ℕ, ◌+◌, String, ◌≡◌, refl, true, Option, none, some, ◌∷◌, find, find-holds, update_where,
  find-update_where, ◌==◌, ==_iff, arith, Bool-cases, inl, inr,
}
use pipe_line_gpt_backend.Exec.{ok, err}
use pipe_line_gpt_backend.Config.{Settings}
use pipe_line_gpt_backend.Models.{under_review, failed, Query, Response, Request, User}
use pipe_line_gpt_backend.Hitl.{Patterns, Desk, queue_for_review}
use pipe_line_gpt_backend.Review.{operator_visible_answer, held_message}
use pipe_line_gpt_backend.Chat.Boundary.{Services}
use pipe_line_gpt_backend.Chat.{
  Chat, Answer, QueryRequest, generate, deliver, store_answer, spend, response_of, answer_question,
  report_failure, event_stream, insert_query, new_query, text_or,
}
use pipe_line_gpt_backend.Chat.History.{history_item}

-- the text that the history shows for a question
unfoldable pub shown_for : ℕ → Desk → Option String
shown_for id d = elim (find (λ q. q.id == id) d.queries) [
  | none ↦ none
  | some q ↦ elim (history_item d q) [ none ↦ none | some i ↦ some i.answer_text ]
]

shown_for-rows :
    (id : ℕ) (d : Desk) (row : Query) (resp : Response)
    → find (λ q. q.id == id) d.queries ≡ some row
    → find (λ r. r.query_id == row.id) d.responses ≡ some resp
    → shown_for id d ≡ some (operator_visible_answer row.status resp.answer_text)
unfolding shown_for history_item
shown_for-rows id d row resp fq fr = ground arith

module _ (s : Settings) (re : Patterns) (Emb Cache Budget : Type 0)
    (svc : Services Emb Cache Budget) where
  module _ (q : Request) (user : User) (a : Answer Emb) (c : Chat Cache Budget) (row : Query) where
    hold : Query → Query
    hold r = record r { hitl_required = true; status = under_review }

    held_row :
        find (λ r. r.id == q.uuid) c.desk.queries ≡ some row
        → (find (λ r. r.id == q.uuid) (update_where (λ r. r.id == q.uuid) hold c.desk.queries)
            ≡ some (hold row))
          × (row.id ≡ q.uuid)
    unfolding hold
    held_row found =
        let here = find-holds (λ r. r.id == q.uuid) c.desk.queries row found in
        (
          find-update_where (λ r. r.id == q.uuid) (λ r. r.id == q.uuid) hold c.desk.queries row
              (λ v. refl) found here,
          (==_iff row.id q.uuid).0 here,
        )

    -- A held answer that is delivered is hidden: the history shows the notice in its place, and the
    -- answer cache is as it was.
    pub deliver_hidden :
        (c' : Chat Cache Budget)
        → a.hitl_required ≡ true
        → find (λ r. r.id == q.uuid) c.desk.queries ≡ some row
        → deliver s re Emb Cache Budget svc q user a c ≡ (ok tt, c')
        → (shown_for q.uuid c'.desk ≡ some held_message) × (c'.cache ≡ c.cache)
    unfolding deliver store_answer spend queue_for_review operator_visible_answer hold
    deliver_hidden c' held found h =
        let (stored, same) = held_row found in
        let resp = response_of s re Emb Cache Budget svc q a in
        let queries : c'.desk.queries ≡ update_where (λ r. r.id == q.uuid) hold c.desk.queries =
          ground arith in
        let responses : c'.desk.responses ≡ resp ∷ c.desk.responses = ground arith in
        (
          shown_for-rows q.uuid c'.desk (hold row) resp (rw queries stored)
              (rw responses (ground arith)),
          ground arith,
        )

    fail : Query → Query
    fail r = record r { status = failed }

    -- A failure to record the usage, after the answer was held, leaves the question marked as failed
    -- and the answer in the history.
    deliver_exposed :
        (exc : String) (c' d : Chat Cache Budget)
        → a.hitl_required ≡ true
        → find (λ r. r.id == q.uuid) c.desk.queries ≡ some row
        → svc.record_token_usage c.budget user.id (a.input_tokens + a.output_tokens) ≡ err exc
        → deliver s re Emb Cache Budget svc q user a c ≡ (err exc, d)
        → (report_failure s re Emb Cache Budget svc q user exc d).1 ≡ c'
        → shown_for q.uuid c'.desk ≡ some a.text
    unfolding deliver store_answer spend queue_for_review operator_visible_answer hold fail
        report_failure
    deliver_exposed exc c' d held found broken h k =
        let (stored, same) = held_row found in
        let resp = response_of s re Emb Cache Budget svc q a in
        let before : d.desk.queries ≡ update_where (λ r. r.id == q.uuid) hold c.desk.queries =
          ground arith in
        let queries : c'.desk.queries ≡ update_where (λ r. r.id == q.uuid) fail d.desk.queries =
          ground arith in
        let responses : c'.desk.responses ≡ resp ∷ c.desk.responses = ground arith in
        let failed_row =
          find-update_where (λ r. r.id == q.uuid) (λ r. r.id == q.uuid) fail
            (update_where (λ r. r.id == q.uuid) hold c.desk.queries) (hold row) (λ v. refl) stored
            ((==_iff row.id q.uuid).1 same) in
        shown_for-rows q.uuid c'.desk (fail (hold row)) resp (rw (queries, before) failed_row)
          (rw responses (ground arith))

    deliver-usage :
        (exc : String)
        → svc.record_token_usage c.budget user.id (a.input_tokens + a.output_tokens) ≡ err exc
        → (d : Chat Cache Budget) × (deliver s re Emb Cache Budget svc q user a c ≡ (err exc, d))
    unfolding deliver store_answer spend
    deliver-usage exc broken = elim (Bool-cases a.hitl_required) [
      | inl held ↦ ((deliver s re Emb Cache Budget svc q user a c).1, ground arith)
      | inr free ↦ ((deliver s re Emb Cache Budget svc q user a c).1, ground arith)
    ]

  module _ (q : Request) (user : User) (body : QueryRequest) (c : Chat Cache Budget) (e : Emb) where
    abbrev question : String
    question = svc.scrub_pii body.question

    abbrev language : String
    language = text_or body.language (svc.detect_language body.question)

    abbrev scope : String
    scope = svc.cache_scope language body.filters

    -- the state in which the answer is generated
    abbrev inserted : Chat Cache Budget
    inserted = record c {
      desk = insert_query s re Emb Cache Budget svc q user body language c.desk;
    }

    desk-generate :
        (d : Chat Cache Budget) (a : Answer Emb)
        → generate s re Emb Cache Budget svc body question language e scope inserted ≡ (ok a, d)
        → (d.desk ≡ inserted.desk) × (d.budget ≡ c.budget)
    unfolding generate
    desk-generate d a h = (ground arith, ground arith)

    -- If the answer to a question has to be held for review and then the token usage cannot be
    -- recorded, the asker's history shows the answer itself, although nobody has reviewed it.
    pub held_answer_exposed :
        (d : Chat Cache Budget) (a : Answer Emb) (exc : String)
        → svc.embed_single question ≡ ok e
        → svc.cache_lookup c.cache scope e ≡ none
        → generate s re Emb Cache Budget svc body question language e scope inserted ≡ (ok a, d)
        → a.hitl_required ≡ true
        → svc.record_token_usage c.budget user.id (a.input_tokens + a.output_tokens) ≡ err exc
        → shown_for q.uuid (event_stream s re Emb Cache Budget svc q user body c).1.desk
          ≡ some a.text
    unfolding event_stream answer_question
    held_answer_exposed d a exc embedded miss run held broken =
        let (same_desk, same_budget) = desk-generate d a run in
        let broken' : svc.record_token_usage d.budget user.id (a.input_tokens + a.output_tokens)
            ≡ err exc =
          rw same_budget broken in
        let row = new_query s re Emb Cache Budget svc q user body language in
        let (d', stop) = deliver-usage q user a d row exc broken' in
        let found : find (λ r. r.id == q.uuid) d.desk.queries ≡ some row =
          rw same_desk (unfold insert_query in ground arith) in
        let raised : answer_question s re Emb Cache Budget svc q user body c ≡ (err exc, d') =
          rw embedded (rw miss (rw run stop)) in
        rw raised (
          deliver_exposed q user a d row exc
            (report_failure s re Emb Cache Budget svc q user exc d').1 d' held found broken' stop
            refl)

-- ===== src/Chat/Disclosure.antt =====
-- Whatever happens to a question, its stream shows no answer that has to wait for a review.
use mathlib.Core.List.{append_assoc}
use pipe_line_gpt_backend.Prelude.{
  String, ◌≡◌, refl, true, Option, none, some, [], ◌∷◌, arith, inl, inr,
}
use pipe_line_gpt_backend.Exec.{ok, Outcome-cases}
use pipe_line_gpt_backend.Exec.Keeps.{Keeps, Keeps-bind, Keeps-bind-run, Keeps-catch}
use pipe_line_gpt_backend.Config.{Settings}
use pipe_line_gpt_backend.Models.{Request, User}
use pipe_line_gpt_backend.Hitl.{Patterns}
use pipe_line_gpt_backend.Chat.Boundary.{Services, CachedAnswer}
use pipe_line_gpt_backend.Chat.{
  Chat, event, Answer, QueryRequest, plain, assess, generate, deliver, store_answer, spend,
  answer_cached, answer_question, report_failure, event_stream, insert_query, respond, pings, log,
  retrieve_all, embed_variants, answer_events, text_or,
}
use pipe_line_gpt_backend.Chat.Allowed.{
  nothing, failure, from_cache, IsDiscreet, IsAssessed, Keeps-sending, Keeps-silent,
  assess-IsAssessed, pings-allowed, answer_events-allowed, store_answer-silent, spend-silent,
  log-silent,
}

module _ (s : Settings) (re : Patterns) (Emb Cache Budget : Type 0)
    (svc : Services Emb Cache Budget) where
  deliver-IsDiscreet :
      (question : String) (q : Request) (user : User) (a : Answer Emb)
      → IsAssessed s re Emb Cache Budget svc question a
      → Keeps
          (IsDiscreet s re Emb Cache Budget svc question)
          (deliver s re Emb Cache Budget svc q user a)
  unfolding deliver
  deliver-IsDiscreet question q user a h =
      Keeps-bind (store_answer s re Emb Cache Budget svc q a) _
        (store_answer-silent s re Emb Cache Budget svc question q a)
        λ _.
          Keeps-bind (spend s re Emb Cache Budget svc user _) _
            (spend-silent s re Emb Cache Budget svc question user _)
            λ _.
              Keeps-bind (log s re Emb Cache Budget svc _) _
                (log-silent s re Emb Cache Budget svc question _)
                λ _.
                  Keeps-sending s re Emb Cache Budget svc question _
                    (answer_events s re Emb Cache Budget svc a) (λ c. refl)
                    (answer_events-allowed s re Emb Cache Budget svc question a h)

  module _ (body : QueryRequest) (question language : String) (e : Emb) (scope : String) where
    generate-IsAssessed :
        (c c' : Chat Cache Budget) (a : Answer Emb)
        → generate s re Emb Cache Budget svc body question language e scope c ≡ (ok a, c')
        → IsAssessed s re Emb Cache Budget svc question a
    unfolding generate
    generate-IsAssessed c c' a h =
        let found =
          retrieve_all s re Emb Cache Budget svc body.filters
            (e ∷ embed_variants s re Emb Cache Budget svc (svc.expand_query question)) in
        elim (Outcome-cases found) [
          | inr (x, f) ↦ absurd (ground arith)
          | inl (lists, f) ↦
              (elim (Outcome-cases
                (svc.rerank_chunks question (svc.fuse_results lists) s.top_k_rerank)) [
                  | inr (x, k) ↦ absurd (ground arith)
                  | inl (reranked, k) ↦
                      let g = svc.generate question (svc.build_context_block reranked) language in
                      (elim (Outcome-cases g.reply) [
                        | inr (x, m) ↦ absurd (ground arith)
                        | inl (reply, m) ↦
                            let same : a
                                ≡ assess s re Emb Cache Budget svc question reranked e scope reply
                                    g =
                              ground arith in
                            rw same (
                              assess-IsAssessed s re Emb Cache Budget svc question language lists
                                reranked e scope reply k m)
                      ])
                ])
        ]

    generate-IsDiscreet :
        Keeps
          (IsDiscreet s re Emb Cache Budget svc question)
          (generate s re Emb Cache Budget svc body question language e scope)
    unfolding generate
    generate-IsDiscreet =
        let found =
          retrieve_all s re Emb Cache Budget svc body.filters
            (e ∷ embed_variants s re Emb Cache Budget svc (svc.expand_query question)) in
        let run = generate s re Emb Cache Budget svc body question language e scope in
        elim (Outcome-cases found) [
          | inr (x, f) ↦ Keeps-silent s re Emb Cache Budget svc question run (λ c. ground arith)
          | inl (lists, f) ↦
              (elim (Outcome-cases
                (svc.rerank_chunks question (svc.fuse_results lists) s.top_k_rerank)) [
                  | inr (x, k) ↦
                      Keeps-silent s re Emb Cache Budget svc question run (λ c. ground arith)
                  | inl (reranked, k) ↦
                      let g = svc.generate question (svc.build_context_block reranked) language in
                      Keeps-sending s re Emb Cache Budget svc question run (pings g.pings)
                        (λ c. ground arith)
                        (pings-allowed s re Emb Cache Budget svc question g.pings)
                ])
        ]

  answer_cached-IsDiscreet :
      (question : String) (q : Request) (user : User) (cache : Cache) (scope : String) (e : Emb)
      (hit : CachedAnswer)
      → svc.embed_single question ≡ ok e
      → svc.cache_lookup cache scope e ≡ some hit
      → Keeps
          (IsDiscreet s re Emb Cache Budget svc question)
          (answer_cached s re Emb Cache Budget svc q user hit)
  unfolding answer_cached
  answer_cached-IsDiscreet question q user cache scope e hit embeds found =
      let run = answer_cached s re Emb Cache Budget svc q user hit in
      let first = event (record (plain hit.answer) { cached = true }) in
      let last =
        event (record (plain "") { citations = hit.citations; cached = true; done = true }) in
      elim (Outcome-cases (svc.audit_outcome "QUERY_COMPLETED")) [
        | inr (x, f) ↦ Keeps-silent s re Emb Cache Budget svc question run (λ c. ground arith)
        | inl (u, f) ↦
            Keeps-sending s re Emb Cache Budget svc question run (first ∷ last ∷ [])
              (λ c. ground (arith, append_assoc c.sent (first ∷ []) (last ∷ [])))
              (
                (from_cache cache scope e hit embeds found refl, inl refl),
                ((nothing refl, inr (refl, refl)), tt),
              )
      ]

  respond-IsDiscreet :
      (q : Request) (user : User) (body : QueryRequest) (question language : String) (e : Emb)
      (scope : String) (cache : Cache) (hit : Option CachedAnswer)
      → svc.embed_single question ≡ ok e
      → svc.cache_lookup cache scope e ≡ hit
      → Keeps
          (IsDiscreet s re Emb Cache Budget svc question)
          (respond s re Emb Cache Budget svc q user body question language e scope hit)
  respond-IsDiscreet q user body question language e scope cache (some hit) embeds found =
      answer_cached-IsDiscreet question q user cache scope e hit embeds found
  respond-IsDiscreet q user body question language e scope cache none embeds found =
      Keeps-bind-run (generate s re Emb Cache Budget svc body question language e scope) _
        (generate-IsDiscreet body question language e scope)
        λ c c' a run.
          deliver-IsDiscreet question q user a
            (generate-IsAssessed body question language e scope c c' a run)

  answer_question-IsDiscreet :
      (q : Request) (user : User) (body : QueryRequest)
      → Keeps
          (IsDiscreet s re Emb Cache Budget svc (svc.scrub_pii body.question))
          (answer_question s re Emb Cache Budget svc q user body)
  unfolding answer_question
  answer_question-IsDiscreet q user body =
      let question = svc.scrub_pii body.question in
      let language = text_or body.language (svc.detect_language body.question) in
      let scope = svc.cache_scope language body.filters in
      elim (Outcome-cases (svc.embed_single question)) [
        | inr (x, f) ↦
            Keeps-silent s re Emb Cache Budget svc question
              (answer_question s re Emb Cache Budget svc q user body) (λ c. ground arith)
        | inl (e, f) ↦ record {
          at = λ c h.
              let c' : Chat Cache Budget = record c {
                desk = insert_query s re Emb Cache Budget svc q user body language c.desk;
              } in
              rw f (
                (respond-IsDiscreet q user body question language e scope c.cache
                    (svc.cache_lookup c.cache scope e) f refl).at
                  c' h);
        }
      ]

  report_failure-IsDiscreet :
      (question : String) (q : Request) (user : User) (exc : String)
      → Keeps
          (IsDiscreet s re Emb Cache Budget svc question)
          (report_failure s re Emb Cache Budget svc q user exc)
  unfolding report_failure
  report_failure-IsDiscreet question q user exc =
      let run = report_failure s re Emb Cache Budget svc q user exc in
      let first = event (record (plain (svc.user_facing_llm_error exc)) { error = true }) in
      let last = event (record (plain "") { done = true }) in
      elim (Outcome-cases (svc.audit_outcome "QUERY_FAILED")) [
        | inr (x, f) ↦ Keeps-silent s re Emb Cache Budget svc question run (λ c. ground arith)
        | inl (u, f) ↦
            Keeps-sending s re Emb Cache Budget svc question run (first ∷ last ∷ [])
              (λ c. ground (arith, append_assoc c.sent (first ∷ []) (last ∷ [])))
              ((failure exc refl, inl refl), ((nothing refl, inr (refl, refl)), tt))
      ]

  -- Whatever the models, the stores and the audit trail answer, and wherever they fail, the text of
  -- every event that the stream of a question sends is empty, the notice that the answer is held,
  -- the message for a failure, an answer that the cache had for the question's embedding, or a
  -- piece of the model's reply over chunks reranked for the question, which classify_risk let
  -- through as LOW risk with its confidence over these chunks and the finding of the model's own
  -- check, if the events sent before are so. Citations stand in closing events only, which have no
  -- text; the closing event of a held answer has them too.
  pub event_stream-IsDiscreet :
      (q : Request) (user : User) (body : QueryRequest) (c : Chat Cache Budget)
      → IsDiscreet s re Emb Cache Budget svc (svc.scrub_pii body.question) c
      → IsDiscreet s re Emb Cache Budget svc
          (svc.scrub_pii body.question)
          (event_stream s re Emb Cache Budget svc q user body c).1
  unfolding event_stream
  event_stream-IsDiscreet q user body c h =
      (Keeps-catch (answer_question s re Emb Cache Budget svc q user body)
          (report_failure s re Emb Cache Budget svc q user) (answer_question-IsDiscreet q user body)
          (report_failure-IsDiscreet (svc.scrub_pii body.question) q user)).at
        c h

-- ===== src/Chat/Ending.antt =====
-- A stream ends: its last event says so, and the question is left in a final status.
use mathlib.Core.List.{append_assoc}
use pipe_line_gpt_backend.Prelude.{
  String, ◌≡◌, refl, sym, ◌∙◌, true, Option, none, some, List, [], ◌∷◌, ◌++◌, arith, inl, inr,
}
use pipe_line_gpt_backend.Exec.{ok, Outcome-cases, Run-cases}
use pipe_line_gpt_backend.Config.{Settings}
use pipe_line_gpt_backend.Models.{Request, User}
use pipe_line_gpt_backend.Hitl.{Patterns}
use pipe_line_gpt_backend.Chat.Boundary.{Services, CachedAnswer}
use pipe_line_gpt_backend.Chat.{
  Chat, Sse, event, Event, Answer, QueryRequest, plain, generate, deliver, store_answer, spend,
  answer_cached, answer_question, report_failure, event_stream, insert_query, respond, text_or,
  answer_events, shown, closing,
}

module _ (s : Settings) (re : Patterns) (Emb Cache Budget : Type 0)
    (svc : Services Emb Cache Budget) where
  -- the last event that was sent says `done`
  pub record IsEnded (c : Chat Cache Budget) : Type 0 where
    pub earlier : List Sse
    pub last : Event
    pub ends : c.sent ≡ earlier ++ event last ∷ []
    pub says_done : last.done ≡ true

  report_failure-IsEnded :
      (q : Request) (user : User) (exc : String) (c : Chat Cache Budget)
      → svc.audit_outcome "QUERY_FAILED" ≡ ok tt
      → IsEnded (report_failure s re Emb Cache Budget svc q user exc c).1
  unfolding report_failure
  report_failure-IsEnded q user exc c noted = record {
    earlier =
        c.sent ++ event (record (plain (svc.user_facing_llm_error exc)) { error = true }) ∷ [];
    last = record (plain "") { done = true };
    ends = ground arith;
    says_done = refl;
  }

  answer_cached-IsEnded :
      (q : Request) (user : User) (hit : CachedAnswer) (c c' : Chat Cache Budget)
      → answer_cached s re Emb Cache Budget svc q user hit c ≡ (ok tt, c')
      → IsEnded c'
  unfolding answer_cached
  answer_cached-IsEnded q user hit c c' h = record {
    earlier = c.sent ++ event (record (plain hit.answer) { cached = true }) ∷ [];
    last = record (plain "") { citations = hit.citations; cached = true; done = true };
    ends = ground arith;
    says_done = refl;
  }

  module _ (q : Request) (user : User) (a : Answer Emb) where
    abbrev events : List Sse
    events = answer_events s re Emb Cache Budget svc a

    -- A delivery that succeeds sends exactly the events of the answer.
    sent-deliver :
        (c c' : Chat Cache Budget)
        → deliver s re Emb Cache Budget svc q user a c ≡ (ok tt, c')
        → c'.sent ≡ c.sent ++ events
    unfolding deliver store_answer spend
    sent-deliver c c' h = ground arith

    events-ends :
        (es : List Sse)
        → (xs : List Sse) × (e : Event) × (es ++ events ≡ xs ++ event e ∷ []) × (e.done ≡ true)
    events-ends es = (
      es ++ shown s re Emb Cache Budget svc a,
      closing s re Emb Cache Budget svc a,
      sym (
          append_assoc es (shown s re Emb Cache Budget svc a)
            (event (closing s re Emb Cache Budget svc a) ∷ [])),
      refl,
    )

    deliver-IsEnded :
        (c c' : Chat Cache Budget)
        → deliver s re Emb Cache Budget svc q user a c ≡ (ok tt, c')
        → IsEnded c'
    deliver-IsEnded c c' h =
        let (xs, e, is, fin) = events-ends c.sent in
        record { earlier = xs; last = e; ends = sent-deliver c c' h ∙ is; says_done = fin }

  respond-IsEnded :
      (q : Request) (user : User) (body : QueryRequest) (question language : String) (e : Emb)
      (scope : String) (hit : Option CachedAnswer) (c c' : Chat Cache Budget)
      → respond s re Emb Cache Budget svc q user body question language e scope hit c ≡ (ok tt, c')
      → IsEnded c'
  respond-IsEnded q user body question language e scope (some hit) c c' h =
      answer_cached-IsEnded q user hit c c' h
  respond-IsEnded q user body question language e scope none c c' h =
      elim (Run-cases (generate s re Emb Cache Budget svc body question language e scope c)) [
        | inl (a, d, f) ↦ deliver-IsEnded q user a d c' (ground arith)
        | inr (x, d, f) ↦ absurd (ground arith)
      ]

  answer_question-IsEnded :
      (q : Request) (user : User) (body : QueryRequest) (c c' : Chat Cache Budget)
      → answer_question s re Emb Cache Budget svc q user body c ≡ (ok tt, c')
      → IsEnded c'
  unfolding answer_question
  answer_question-IsEnded q user body c c' h =
      let question = svc.scrub_pii body.question in
      let language = text_or body.language (svc.detect_language body.question) in
      let scope = svc.cache_scope language body.filters in
      elim (Outcome-cases (svc.embed_single question)) [
        | inr (x, f) ↦ absurd (ground arith)
        | inl (e, f) ↦
            let d : Chat Cache Budget = record c {
              desk = insert_query s re Emb Cache Budget svc q user body language c.desk;
            } in
            respond-IsEnded q user body question language e scope (svc.cache_lookup c.cache scope e)
              d c' (ground arith)
      ]

  -- If the audit trail takes the event for a failure, every stream ends with an event that says
  -- `done`, whether the question was answered, held or failed.
  pub event_stream-IsEnded :
      (q : Request) (user : User) (body : QueryRequest) (c : Chat Cache Budget)
      → svc.audit_outcome "QUERY_FAILED" ≡ ok tt
      → IsEnded (event_stream s re Emb Cache Budget svc q user body c).1
  unfolding event_stream
  event_stream-IsEnded q user body c noted =
      elim (Run-cases (answer_question s re Emb Cache Budget svc q user body c)) [
        | inl (u, c', e) ↦ rw e (answer_question-IsEnded q user body c c' e)
        | inr (x, c', e) ↦ rw e (report_failure-IsEnded q user x c' noted)
      ]

-- ===== src/Chat/Allowed.antt =====
-- backend/app/routers/query.py: what the stream of a question may show, and which steps of it show
-- nothing or what they may.
use mathlib.Core.List.{Memᴰ}
use mathlib.Core.Path.{subst}
use pipe_line_gpt_backend.Prelude.{
  ℕ, zero, suc, String, ◌≡◌, refl, sym, Bool, true, false, some, List, [], ◌∷◌, ◌++◌, All,
  All-append, arith, Bool-cases, ◌⊎◌, inl, inr,
}
use pipe_line_gpt_backend.Exec.{Exec, ok}
use pipe_line_gpt_backend.Exec.Keeps.{Keeps}
use pipe_line_gpt_backend.Config.{Settings}
use pipe_line_gpt_backend.Models.{AuditEvent, low, Ratio, Chunk, Request, User}
use pipe_line_gpt_backend.Hitl.{Patterns, classify_risk}
use pipe_line_gpt_backend.Review.{held_message}
use pipe_line_gpt_backend.Chat.Boundary.{Services, CachedAnswer}
use pipe_line_gpt_backend.Chat.Replay.{pieces}
use pipe_line_gpt_backend.Chat.{
  Chat, Event, Sse, ping, event, Answer, assess, store_answer, spend, pings, replay, log,
  answer_events,
}

module _ (s : Settings) (re : Patterns) (Emb Cache Budget : Type 0)
    (svc : Services Emb Cache Budget) where
  -- An answer to a question that was let through as LOW risk: it is the reply of the model over chunks that
  -- were retrieved and reranked for the question, and `classify_risk` released it with the confidence over
  -- these chunks and the finding of the model's own check.
  pub record IsReleased (question answer : String) : Type 0 where
    pub lists : List (List Chunk)
    pub reranked : List Chunk
    pub language : String
    pub reply : String
    pub found : svc.rerank_chunks question (svc.fuse_results lists) s.top_k_rerank ≡ ok reranked
    pub replied :
        (svc.generate question (svc.build_context_block reranked) language).reply ≡ ok reply
    pub is_reply : answer ≡ svc.remove_em_dashes reply
    pub is_low :
        classify_risk re s question answer
          (svc.estimate_confidence answer reranked)
          (svc.check_recommends_action question answer).recommends_action
        ≡ (low, false)

  -- The texts that the stream of a question may carry: nothing, the notice that the answer is held, the
  -- message for a failure, an answer out of the cache, and a piece of an answer that was released.
  pub data MayShow (question : String) : String → Type 0 where
    nothing : {t : String} → t ≡ "" → MayShow question t
    notice : {t : String} → t ≡ held_message → MayShow question t
    failure : {t : String} (exc : String) → t ≡ svc.user_facing_llm_error exc → MayShow question t
    from_cache :
        {t : String} (cache : Cache) (scope : String) (e : Emb) (hit : CachedAnswer)
        → svc.embed_single question ≡ ok e
        → svc.cache_lookup cache scope e ≡ some hit
        → t ≡ hit.answer
        → MayShow question t
    low_risk :
        {t : String} (answer : String)
        → IsReleased question answer
        → Memᴰ t (pieces answer)
        → MayShow question t

  -- citations stand in a closing event only, which has no text
  abbrev pub CitesAtEnd : Event → Type 0
  CitesAtEnd e = (e.citations ≡ []) ⊎ ((e.done ≡ true) × (e.delta ≡ ""))

  abbrev pub ShowsAllowed : String → Sse → Type 0
  ShowsAllowed question ping = Unit
  ShowsAllowed question (event e) = MayShow question e.delta × CitesAtEnd e

  -- every event of the stream so far is allowed
  abbrev pub IsDiscreet : String → Chat Cache Budget → Type 0
  IsDiscreet question c = All (ShowsAllowed question) c.sent

  -- an answer that needs no review was released
  abbrev pub IsAssessed : String → Answer Emb → Type 0
  IsAssessed question a = a.hitl_required ≡ false → IsReleased question a.text

  -- A step that sends `es` at most.
  pub Keeps-sending :
      {A : Type 0} (question : String) (m : Exec (Chat Cache Budget) String A) (es : List Sse)
      → ((c : Chat Cache Budget) → (m c).1.sent ≡ c.sent ++ es)
      → All (ShowsAllowed question) es
      → Keeps (IsDiscreet question) m
  Keeps-sending question m es sends h = record {
    at = λ c k.
        subst (All (ShowsAllowed question)) (sym (sends c))
          (All-append (ShowsAllowed question) c.sent es k h);
  }

  pub Keeps-silent :
      {A : Type 0} (question : String) (m : Exec (Chat Cache Budget) String A)
      → ((c : Chat Cache Budget) → (m c).1.sent ≡ c.sent)
      → Keeps (IsDiscreet question) m
  Keeps-silent question m sends = record {
    at = λ c k. subst (All (ShowsAllowed question)) (sym (sends c)) k;
  }

  classify_risk-false :
      (question answer : String) (confidence : Ratio) (b : Bool)
      → (classify_risk re s question answer confidence b).1 ≡ false
      → classify_risk re s question answer confidence b ≡ (low, false)
  unfolding classify_risk
  classify_risk-false question answer confidence b h = ground arith

  pub assess-IsAssessed :
      (question language : String) (lists : List (List Chunk)) (reranked : List Chunk) (e : Emb)
      (scope reply : String)
      → svc.rerank_chunks question (svc.fuse_results lists) s.top_k_rerank ≡ ok reranked
      → (svc.generate question (svc.build_context_block reranked) language).reply ≡ ok reply
      → IsAssessed question (
          assess s re Emb Cache Budget svc question reranked e scope reply
            (svc.generate question (svc.build_context_block reranked) language))
  unfolding assess
  assess-IsAssessed question language lists reranked e scope reply found replied h = record {
    lists = lists;
    reranked = reranked;
    language = language;
    reply = reply;
    found = found;
    replied = replied;
    is_reply = refl;
    is_low = classify_risk-false question _ _ _ h;
  }

  pub pings-allowed : (question : String) (n : ℕ) → All (ShowsAllowed question) (pings n)
  pings-allowed question zero = tt
  pings-allowed question (suc n) = (tt, pings-allowed question n)

  -- The pieces of a released answer are allowed.
  replay-allowed :
      (question answer : String) (ps : List String)
      → IsReleased question answer
      → ((t : String) → Memᴰ t ps → Memᴰ t (pieces answer))
      → All (ShowsAllowed question) (replay ps)
  replay-allowed question answer [] low_ inside = tt
  replay-allowed question answer (t ∷ ts) low_ inside = (
    (low_risk answer low_ (inside t (Memᴰ.head refl)), inl refl),
    replay-allowed question answer ts low_ (λ u m. inside u (Memᴰ.tail m)),
  )

  pub answer_events-allowed :
      (question : String) (a : Answer Emb)
      → IsAssessed question a
      → All (ShowsAllowed question) (answer_events s re Emb Cache Budget svc a)
  answer_events-allowed question a h =
      let closing : MayShow question "" = nothing refl in
      elim (Bool-cases a.hitl_required) [
        | inl held ↦ rw held ((notice refl, inl refl), ((closing, inr (refl, refl)), tt))
        | inr free ↦ rw free (
            All-append (ShowsAllowed question) (replay (pieces a.text)) _
              (replay-allowed question a.text (pieces a.text) (h free) (λ t m. m))
              ((closing, inr (refl, refl)), tt))
      ]

  pub store_answer-silent :
      (question : String) (q : Request) (a : Answer Emb)
      → Keeps (IsDiscreet question) (store_answer s re Emb Cache Budget svc q a)
  store_answer-silent question q a =
      Keeps-silent question (store_answer s re Emb Cache Budget svc q a)
        (unfold store_answer in λ c. ground arith)

  pub spend-silent :
      (question : String) (user : User) (n : ℕ)
      → Keeps (IsDiscreet question) (spend s re Emb Cache Budget svc user n)
  spend-silent question user n =
      Keeps-silent question (spend s re Emb Cache Budget svc user n)
        (unfold spend in λ c. ground arith)

  pub log-silent :
      (question : String) (e : AuditEvent)
      → Keeps (IsDiscreet question) (log s re Emb Cache Budget svc e)
  log-silent question e =
      Keeps-silent question (log s re Emb Cache Budget svc e) (λ c. ground arith)

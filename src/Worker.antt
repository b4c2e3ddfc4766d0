-- ===== src/Worker.antt =====
-- backend/app/tasks/celery_app.py: the task of the worker that parses, embeds and stores one document,
-- with its retries. The session of the database is rolled back where the code between its commits
-- raises, so what such code changes is written by its commit.
pub mod Ends
pub mod Attempts
pub mod Complete
pub mod Stored
pub mod Uploaded
use Prim.Native.Nat.{◌^◌}
use Prim.Native.String.{◌++◌ as str_append}
use pipe_line_gpt_backend.Prelude.{
  ℕ, zero, suc, ◌+◌, ◌*◌, String, Bool, true, false, not, Option, none, some, List, [], ◌∷◌, ◌++◌,
  map, find, select, update_where, length, take, drop, ◌==◌, leb, if◌then◌else◌,
}
use pipe_line_gpt_backend.Exec.{
  Exec, Outcome, ok, err, pure, raise, gets, modify, lift, catch, and_then, ◌>>=◌, ◌>>◌,
}
use pipe_line_gpt_backend.Models.{
  Document, DocumentStatus, processing, completed, failed, Chunk, Json, Payload, id_of, Request,
}
use pipe_line_gpt_backend.Accounts.{audit_event, log_event}
use pipe_line_gpt_backend.FileTypes.{source_type_text}
use pipe_line_gpt_backend.Chunker.{Piece}
use pipe_line_gpt_backend.Loaders.{Readers, Ocr, Meta}
use pipe_line_gpt_backend.Loaders.Parse.{parse}
use pipe_line_gpt_backend.Documents.{Library, Task, unstage}

-- the exceptions that the task tells apart; any other by the name of its type
pub data Failure : Type 0 where
  parse_error : String → Failure
  time_limit : Failure
  other : String → Failure

-- `type(exc).__name__`
abbrev pub error_type : Failure → String
error_type (parse_error m) = "DocumentParseError"
error_type time_limit = "SoftTimeLimitExceeded"
error_type (other name) = name

-- What the task takes from outside: the readers of the loaders, the name of the exception that they
-- raise on a content, the embedder on a batch of texts, the language model's summary of a document
-- (none where it raises), and the invalidation of the semantic cache.
pub record Services (Cache : Type 0) : Type 0 where
  pub readers : Readers
  pub ocr : Ocr
  pub parse_exception : List ℕ → String
  pub embed_texts : List String → Outcome Failure (List (List ℕ))
  pub summary : String → List Piece → Option Payload
  pub invalidate : Cache → Cache

-- what `_ingest_async` and the task give back
pub data Result : Type 0 where
  not_found : Result
  done : ℕ → ℕ → Result
  gave_up : ℕ → String → Result

-- how a call of the task ends: with a result, with a request for another call after some seconds, or
-- with an exception
pub data Ended : Type 0 where
  returned : Result → Ended
  retry : ℕ → Ended
  raised : Failure → Ended

abbrev pub max_retries : ℕ
max_retries = 3

abbrev pub with_status : DocumentStatus → Document → Document
with_status s x = record x { status = s }

-- SKIPPED of backend/app/services/insights.py
abbrev pub skipped : Payload
skipped = ("skipped", Json.flag true) ∷ []

-- a field that the uploader left out, from the file
abbrev pub filled : {A : Type 0} → Option A → Option A → Option A → Option A
filled none (some value) now = some value
filled none none now = now
filled (some seen) read now = now

unfoldable pub chunk_of : ℕ → Piece → List ℕ → Chunk
chunk_of id p v = record {
  document_id = id;
  chunk_index = p.chunk_index;
  text_content = p.text_content;
  token_count = p.token_count;
  page_ref = p.page_ref;
  section_label = p.section_label;
  embedding = some v;
}

abbrev add_chunk : Chunk → Outcome Failure (List Chunk) → Outcome Failure (List Chunk)
add_chunk c (ok cs) = ok (c ∷ cs)
add_chunk c (err f) = err f

-- `zip(raw_chunks, embeddings, strict=True)`
unfoldable pub zip_chunks : ℕ → List Piece → List (List ℕ) → Outcome Failure (List Chunk)
zip_chunks id [] [] = ok []
zip_chunks id (p ∷ ps) (v ∷ vs) = add_chunk (chunk_of id p v) (zip_chunks id ps vs)
zip_chunks id [] (v ∷ vs) = err (other "ValueError")
zip_chunks id (p ∷ ps) [] = err (other "ValueError")

-- `upload_store.read`
abbrev pub staged_content : List (ℕ × List ℕ) → ℕ → Option (List ℕ)
staged_content [] id = none
staged_content ((i, content) ∷ fs) id = if i == id then some content else staged_content fs id

-- `_read_staged`
unfoldable pub read_staged : List (ℕ × List ℕ) → Task → Outcome Failure (List ℕ)
read_staged staged t = elim (staged_content staged t.document_id) [
  | some content ↦ ok content
  | none ↦ err (
      parse_error (
        str_append "The uploaded file for "
          (str_append t.filename " is missing from the staging directory")))
]

module _ (Cache : Type 0) (v : Services Cache) where
  abbrev nonempty : Task → List Piece → Meta → Outcome Failure (List Piece × Meta)
  nonempty t [] meta = err (parse_error (str_append "No text could be extracted from " t.filename))
  nonempty t (p ∷ ps) meta = ok (p ∷ ps, meta)

  -- the chunks of the content, at least one
  unfoldable pub parsed : Task → List ℕ → Outcome Failure (List Piece × Meta)
  unfolding parse
  parsed t content = elim (parse v.readers v.ocr t.source_type content) [
    | none ↦ err (
        parse_error (
          str_append "Could not parse "
            (str_append t.filename (str_append ": " (v.parse_exception content)))))
    | some (ps, meta) ↦ nonempty t ps meta
  ]

  abbrev extend :
      Outcome Failure (List (List ℕ))
      → Outcome Failure (List (List ℕ))
      → Outcome Failure (List (List ℕ))
  extend (err f) rest = err f
  extend (ok vs) (err f) = err f
  extend (ok vs) (ok ws) = ok (vs ++ ws)

  -- the embeddings, by batches of 100 texts; the number of texts is enough fuel
  unfoldable pub embed_all : ℕ → List String → Outcome Failure (List (List ℕ))
  embed_all fuel [] = ok []
  embed_all zero (t ∷ ts) = ok []
  embed_all (suc fuel) (t ∷ ts) =
      extend (v.embed_texts (take 100 (t ∷ ts))) (embed_all fuel (drop 100 (t ∷ ts)))

  abbrev or_none : Option Payload → Payload
  or_none none = []
  or_none (some p) = p

  -- the column insights_json: {} where the model gave nothing or failed
  abbrev insights_for : Task → List Piece → Payload
  insights_for t ps = if t.summarize then or_none (v.summary t.filename ps) else skipped

  abbrev pub Work : Type 0 → Type 0
  Work A = Exec (Library Cache) Failure A

  abbrev pub given_or_staged : Option (List ℕ) → Task → List (ℕ × List ℕ) → Outcome Failure (List ℕ)
  given_or_staged (some content) t staged = ok content
  given_or_staged none t staged = read_staged staged t

  -- what is read and computed before the rows are written: the pieces and the chunks made from them
  unfoldable pub prepared :
      Task
      → Option (List ℕ)
      → Document
      → List (ℕ × List ℕ)
      → Outcome Failure (List Piece × Meta × List Chunk)
  unfolding parsed embed_all zip_chunks read_staged
  prepared t given d staged = and_then (given_or_staged given t staged) λ content.
      and_then (parsed t content) λ (ps, meta).
        and_then (embed_all (length ps) (map (λ p. p.text_content) ps))
          λ vs. and_then (zip_chunks d.id ps vs) λ cs. ok (ps, meta, cs)

  -- the commit of a document that is stored
  abbrev pub completed_row : Document → Task → List Piece → Meta → Document → Document
  completed_row d t ps meta x = record x {
    year_from = filled d.year_from meta.year_from x.year_from;
    year_to = filled d.year_to meta.year_to x.year_to;
    commodity = filled d.commodity meta.commodity x.commodity;
    chunk_count = length ps;
    status = completed;
    insights_json = some (insights_for t ps);
  }

  -- the code that may raise, up to its commit
  unfoldable pub store_document : Task → Option (List ℕ) → Document → Work (List Piece × Meta)
  unfolding prepared
  store_document t given d = do
    staged ← gets (λ l. l.staged)
    (ps, meta, cs) ← lift (prepared t given d staged)
    modify (λ l. record l {
      documents = update_where (λ x. x.id == t.document_id) (completed_row d t ps meta) l.documents;
      chunks = l.chunks ++ cs;
    })
    pure (ps, meta)

  -- the document is marked, the failure is logged, and the exception is raised again
  unfoldable pub record_failure : Request → Task → Failure → Work (List Piece × Meta)
  record_failure q t f = do
    modify (λ l. record l {
      documents = update_where (λ x. x.id == t.document_id) (with_status failed) l.documents;
    })
    modify (λ l. record l {
      audit_events =
          log_event
            (audit_event q "INGEST_FAILED" none (some (id_of t.document_id)) (some "document")
              (("filename", Json.text t.filename) ∷ ("error_type", Json.text (error_type f)) ∷ [])
              none)
            l.audit_events;
    })
    raise f

  abbrev completed_event : Task → List Piece → Meta → Payload
  completed_event t ps meta =
      ("filename", Json.text t.filename)
      ∷ ("chunk_count", Json.number (length ps))
      ∷ ("source_type", Json.text (source_type_text t.source_type))
      ∷ ("ocr_pages", Json.number meta.ocr_pages)
      ∷ []

  -- the row is there: it starts clean
  unfoldable pub ingest_row : Request → Task → Option (List ℕ) → Document → Work Result
  unfolding store_document record_failure
  ingest_row q t given d = do
    modify (λ l. record l {
      documents = update_where (λ x. x.id == t.document_id) (with_status processing) l.documents;
      chunks = select (λ c. not (c.document_id == t.document_id)) l.chunks;
    })
    (ps, meta) ← catch (store_document t given d) (record_failure q t)
    modify (λ l. record l {
      audit_events =
          log_event
            (audit_event q "INGEST_COMPLETED" none (some (id_of t.document_id)) (some "document")
              (completed_event t ps meta) none)
            l.audit_events;
      cache = v.invalidate l.cache;
    })
    pure (done t.document_id (length ps))

  abbrev with_row : Request → Task → Option (List ℕ) → Option Document → Work Result
  with_row q t given none = pure not_found
  with_row q t given (some d) = ingest_row q t given d

  -- `_ingest_async`; the content is given by messages of old versions only
  unfoldable pub ingest_async : Request → Task → Option (List ℕ) → Work Result
  unfolding ingest_row
  ingest_async q t given l = with_row q t given (find (λ d. d.id == t.document_id) l.documents) l

  -- `upload_store.remove`
  abbrev remove_staged : Task → Library Cache → Library Cache
  remove_staged t l = record l { staged = unstage t.document_id l.staged }

  abbrev pub ended : Task → ℕ → Outcome Failure Result × Library Cache → Ended × Library Cache
  ended t retries (ok r, l) = (returned r, remove_staged t l)
  ended t retries (err (parse_error m), l) = (returned (gave_up t.document_id m), remove_staged t l)
  ended t retries (err time_limit, l) =
      (returned (gave_up t.document_id "Processing exceeded the time limit"), remove_staged t l)
  ended t retries (err (other name), l) =
      if leb max_retries retries
      then (raised (other name), remove_staged t l)
      else (retry (30 * 2 ^ retries), l)

  -- one call of the task, which knows how often it was retried
  unfoldable pub ingest_document_task :
      Request → Task → Option (List ℕ) → ℕ → Library Cache → Ended × Library Cache
  unfolding ingest_async
  ingest_document_task q t given retries l = ended t retries (ingest_async q t given l)

  -- What celery does with a call that asks for another one: it calls the task again, when the time has
  -- passed, with one retry more. `between` is what others do to the tables in that time, and a call may
  -- find other services. `none` means that the fuel ran out.
  abbrev continued :
      (ℕ → Library Cache → Library Cache)
      → ℕ
      → (Library Cache → Option (Ended × Library Cache))
      → Ended × Library Cache
      → Option (Ended × Library Cache)
  continued between n rest (retry seconds, l) = rest (between n l)
  continued between n rest (returned r, l) = some (returned r, l)
  continued between n rest (raised f, l) = some (raised f, l)

unfoldable pub run_task :
    {Cache : Type 0}
    → ℕ
    → (ℕ → Services Cache)
    → (ℕ → Request)
    → (ℕ → Library Cache → Library Cache)
    → Task
    → Option (List ℕ)
    → ℕ
    → Library Cache
    → Option (Ended × Library Cache)
unfolding ingest_document_task
run_task zero vs qs between t given n l = none
run_task {Cache} (suc fuel) vs qs between t given n l =
    continued Cache (vs n) between n (run_task fuel vs qs between t given (suc n))
      (ingest_document_task Cache (vs n) (qs n) t given n l)

-- ===== src/Worker/Complete.antt =====
-- What requests and runs of the worker keep together: a document that is COMPLETED has as many chunks
-- as its row says, and none of an earlier run.
use pipe_line_gpt_backend.Prelude.{
  ℕ, ◌≡◌, refl, ◌∙◌, Bool, true, false, not, ◌||◌, Option, some, List, [], ◌∷◌, select, length,
  ◌==◌, leb, arith, Option-cases, Bool-cases, ◌⊎◌, inl, inr, All, All-append, All-select,
  All-update_where, All-map,
}
use pipe_line_gpt_backend.Exec.{Outcome, ok, err, Outcome-cases}
use pipe_line_gpt_backend.Config.{Settings}
use pipe_line_gpt_backend.Models.{
  Document, DocumentStatus, pending, processing, completed, failed, Chunk, User, Request,
}
use pipe_line_gpt_backend.Chunker.{Piece}
use pipe_line_gpt_backend.Documents.{
  Library, Uploads, Upload, Task, checked_upload, submit_document, ingest_file, with_hash,
  new_document, unstage,
}
use pipe_line_gpt_backend.Documents.Rows.{
  has_document, ChunksOwned, update-HashesDistinct, has_document-update, All-owned,
}
use pipe_line_gpt_backend.Documents.Consistent.{
  IsConsistent, Operation, ingest, tag, remove, perform, perform-IsConsistent, tags-documents,
  deleted-documents,
}
use pipe_line_gpt_backend.Worker.{
  Failure, parse_error, time_limit, other, Services, Result, ended, max_retries, ingest_async,
  ingest_document_task,
}
use pipe_line_gpt_backend.Worker.Ends.{
  count_chunks, count_chunks-append, count_chunks-select, IsRowChange, IsFailedRun, IsStoredRun,
  ingest_async-ends,
}

abbrev is_completed : DocumentStatus → Bool
is_completed completed = true
is_completed pending = false
is_completed processing = false
is_completed failed = false

-- a COMPLETED document has the number of chunks that its row says
unfoldable pub counts_right : List Chunk → Document → Bool
unfolding count_chunks
counts_right cs d = not (is_completed d.status) || d.chunk_count == count_chunks d.id cs

abbrev pub AllCounted : List Chunk → List Document → Type 0
AllCounted cs ds = All (λ d. counts_right cs d ≡ true) ds

module _ (Cache : Type 0) (v : Services Cache) where
  row-IsConsistent :
      (svc : Uploads Cache) (t : Task) (s : DocumentStatus) (l l' : Library Cache)
      → IsRowChange Cache v t s l l'
      → ChunksOwned l'.documents l'.chunks
      → IsConsistent Cache svc l
      → IsConsistent Cache svc l'
  row-IsConsistent svc t s l l' c chunks h =
      let kept : (n : ℕ) → has_document l.documents n ≡ true → has_document l'.documents n ≡ true =
        λ n k.
          rw c.rows (has_document-update n t.document_id c.change l.documents c.keeps_id ∙ k) in
      record {
        distinct =
            rw c.rows
              (update-HashesDistinct t.document_id c.change l.documents c.keeps_hash h.distinct);
        chunks_owned = chunks;
        files_owned =
            rw c.staged (All-owned (λ f. f.0) l.documents l'.documents l.staged kept h.files_owned);
      }

  failed-AllCounted :
      (q : Request) (t : Task) (f : Failure) (l l' : Library Cache)
      → IsFailedRun Cache v q t f l l'
      → AllCounted l.chunks l.documents
      → AllCounted l'.chunks l'.documents
  unfolding counts_right
  failed-AllCounted q t f l l' run h =
      let c = run.row_change in
      rw (c.rows, run.chunks)
        (All-update_where (λ x. x.id == t.document_id) c.change l.documents
          (λ x e k. rw (c.sets_status x) refl)
          (λ x e k. ground (arith, count_chunks-select x.id t.document_id l.chunks)) h)

  stored-AllCounted :
      (t : Task) (given : Option (List ℕ)) (ps : List Piece) (l l' : Library Cache)
      → IsStoredRun Cache v t given ps l l'
      → AllCounted l.chunks l.documents
      → AllCounted l'.chunks l'.documents
  unfolding counts_right
  stored-AllCounted t given ps l l' run h =
      let c = run.row_change in
      let count : (n : ℕ)
          → count_chunks n l'.chunks
            ≡ elim (n == t.document_id) [ true ↦ length ps | false ↦ count_chunks n l.chunks ] =
        λ n. ground (
          arith,
          run.chunks,
          count_chunks-append n (select (λ x. not (x.document_id == t.document_id)) l.chunks)
              run.new_chunks,
          count_chunks-select n t.document_id l.chunks,
          run.counted n,
        ) in
      rw c.rows (
        All-update_where (λ x. x.id == t.document_id) c.change l.documents
          (λ x e k. ground (arith, c.keeps_id x, c.sets_status x, run.sets_count x, count x.id))
          (λ x e k. ground (arith, count x.id)) h)

  kept_row :
      (t : Task) (s : DocumentStatus) (l l' : Library Cache)
      → IsRowChange Cache v t s l l'
      → (n : ℕ) → has_document l.documents n ≡ true
      → has_document l'.documents n ≡ true
  kept_row t s l l' c n k =
      rw c.rows (has_document-update n t.document_id c.change l.documents c.keeps_id ∙ k)

  others-ChunksOwned :
      (t : Task) (s : DocumentStatus) (l l' : Library Cache)
      → IsRowChange Cache v t s l l'
      → ChunksOwned l.documents l.chunks
      → ChunksOwned l'.documents (select (λ c. not (c.document_id == t.document_id)) l.chunks)
  others-ChunksOwned t s l l' c h =
      All-select (λ x. not (x.document_id == t.document_id)) l.chunks
        (λ x e k. kept_row t s l l' c x.document_id k) h

  stored-ChunksOwned :
      (t : Task) (given : Option (List ℕ)) (ps : List Piece) (l l' : Library Cache)
      → IsStoredRun Cache v t given ps l l'
      → ChunksOwned l.documents l.chunks
      → ChunksOwned l'.documents l'.chunks
  stored-ChunksOwned t given ps l l' run h = rw run.chunks (
      All-append (λ x. has_document l'.documents x.document_id ≡ true)
        (select (λ x. not (x.document_id == t.document_id)) l.chunks) run.new_chunks
        (others-ChunksOwned t completed l l' run.row_change h)
        (All-map run.new_chunks
          (λ x own. rw own (kept_row t completed l l' run.row_change t.document_id run.row))
          run.owned))

-- One row for each content, no chunk and no staged file without its document, and each COMPLETED
-- document with the number of chunks that its row says.
pub record IsSound {Cache : Type 0} (svc : Uploads Cache) (l : Library Cache) : Type 0 where
  pub consistent : IsConsistent Cache svc l
  pub counted : AllCounted l.chunks l.documents

module _ {Cache : Type 0} (svc : Uploads Cache) where
  ingest_async-IsSound :
      (v : Services Cache) (q : Request) (t : Task) (given : Option (List ℕ)) (l : Library Cache)
      → IsSound svc l
      → IsSound svc (ingest_async Cache v q t given l).1
  ingest_async-IsSound v q t given l h =
      let l' = (ingest_async Cache v q t given l).1 in
      elim (ingest_async-ends Cache v q t given l) [
        | inl (e, same) ↦ rw same h
        | inr (inl (f, raises, run)) ↦ record {
          consistent =
              row-IsConsistent Cache v svc t failed l l' run.row_change
                (rw run.chunks (
                  others-ChunksOwned Cache v t failed l l' run.row_change
                    h.consistent.chunks_owned))
                h.consistent;
          counted = failed-AllCounted Cache v q t f l l' run h.counted;
        }
        | inr (inr (ps, returns, run)) ↦ record {
          consistent =
              row-IsConsistent Cache v svc t completed l l' run.row_change
                (stored-ChunksOwned Cache v t given ps l l' run h.consistent.chunks_owned)
                h.consistent;
          counted = stored-AllCounted Cache v t given ps l l' run h.counted;
        }
      ]

  unstaged-IsSound :
      (id : ℕ) (l : Library Cache)
      → IsSound svc l
      → IsSound svc (record l { staged = unstage id l.staged })
  unstaged-IsSound id l h = record {
    consistent = record {
      distinct = h.consistent.distinct;
      chunks_owned = h.consistent.chunks_owned;
      files_owned =
          All-select (λ f. not (f.0 == id)) l.staged (λ f e k. k) h.consistent.files_owned;
    };
    counted = h.counted;
  }

  ended-IsSound :
      (v : Services Cache) (t : Task) (n : ℕ) (r : Outcome Failure Result) (l : Library Cache)
      → IsSound svc l
      → IsSound svc (ended Cache v t n (r, l)).1
  ended-IsSound v t n (ok r) l h = unstaged-IsSound t.document_id l h
  ended-IsSound v t n (err (parse_error m)) l h = unstaged-IsSound t.document_id l h
  ended-IsSound v t n (err time_limit) l h = unstaged-IsSound t.document_id l h
  ended-IsSound v t n (err (other name)) l h = elim (Bool-cases (leb max_retries n)) [
    | inl e ↦ rw e (unstaged-IsSound t.document_id l h)
    | inr e ↦ rw e h
  ]

  -- a step of the service: a request, or a call of the worker's task
  pub data Step : Type 0 where
    request : Request → Operation Cache svc → Step
    work : Services Cache → Request → Task → Option (List ℕ) → ℕ → Step

  unfoldable pub step : Settings → Step → Library Cache → Library Cache
  unfolding ingest_document_task
  step s (request q op) l = perform Cache svc s q op l
  step s (work v q t given n) l = (ingest_document_task Cache v q t given n l).1

  unfoldable pub step_all : Settings → List Step → Library Cache → Library Cache
  unfolding step
  step_all s [] l = l
  step_all s (x ∷ xs) l = step_all s xs (step s x l)

  -- What an upload does to the tables: nothing, or one new document that is PENDING.
  ingest_file-documents :
      (s : Settings) (q : Request) (user : User) (up : Upload) (l : Library Cache)
      → let l' = (ingest_file Cache svc s q user up l).1 in
        (l' ≡ l)
        ⊎ ((d : Document) × (d.status ≡ pending)
            × (l'.documents ≡ d ∷ l.documents)
            × (l'.chunks ≡ l.chunks))
  unfolding ingest_file submit_document
  ingest_file-documents s q user up l = elim (Outcome-cases (checked_upload Cache svc s up)) [
    | inr (e, f) ↦ inl (ground arith)
    | inl ((t, name), f) ↦
        (elim (Option-cases (with_hash (svc.content_hash up.content) l.documents)) [
          | inr (d, known) ↦ inl (ground arith)
          | inl fresh ↦ inr (
            new_document q.uuid q.now name t (svc.content_hash up.content) (some user.email)
                up.segment_id up.commodity,
            refl,
            ground arith,
            ground arith,
          )
        ])
  ]

  perform-AllCounted :
      (s : Settings) (q : Request) (op : Operation Cache svc) (l : Library Cache)
      → AllCounted l.chunks l.documents
      → AllCounted (perform Cache svc s q op l).chunks (perform Cache svc s q op l).documents
  unfolding perform counts_right
  perform-AllCounted s q (ingest user up) l h = elim (ingest_file-documents s q user up l) [
    | inl same ↦ rw same h
    | inr (d, waits, rows, chunks) ↦ rw (chunks, rows) (rw waits refl, h)
  ]
  perform-AllCounted s q (tag user id body) l h = elim (tags-documents Cache svc q user id body l) [
    | inl (rows, chunks, staged) ↦ rw (rows, chunks) h
    | inr (n, f, keeps_hash, keeps_id, keeps_rest, rows, chunks, staged) ↦
        rw (rows, chunks)
          (All-update_where (λ x. x.id == n) f l.documents
            (λ x e k. ground (arith, keeps_id x, keeps_rest x)) (λ x e k. k) h)
  ]
  perform-AllCounted s q (remove user text) l h = elim (deleted-documents Cache svc q user text l) [
    | inl same ↦ rw same h
    | inr (id, rows, chunks, staged) ↦
        rw (rows, chunks)
          (All-select (λ x. not (x.id == id)) l.documents
            (λ x e k. ground (arith, count_chunks-select x.id id l.chunks)) h)
  ]

  step-IsSound :
      (s : Settings) (x : Step) (l : Library Cache) → IsSound svc l → IsSound svc (step s x l)
  unfolding step ingest_document_task
  step-IsSound s (request q op) l h = record {
    consistent = perform-IsConsistent Cache svc s q op l h.consistent;
    counted = perform-AllCounted s q op l h.counted;
  }
  step-IsSound s (work v q t given n) l h =
      let (r, l') = ingest_async Cache v q t given l in
      ended-IsSound v t n r l' (ingest_async-IsSound v q t given l h)

  -- Uploads, changes of tags, deletions and calls of the worker's task, in any order and failing or
  -- not, keep one document for each content, no chunk and no staged file without its document, and on
  -- each COMPLETED document exactly as many chunks as its row says.
  pub step_all-IsSound :
      (s : Settings) (xs : List Step) (l : Library Cache)
      → IsSound svc l
      → IsSound svc (step_all s xs l)
  unfolding step_all
  step_all-IsSound s [] l h = h
  step_all-IsSound s (x ∷ xs) l h = step_all-IsSound s xs (step s x l) (step-IsSound s x l h)

-- ===== src/Worker/Stored.antt =====
-- What a call of the task that succeeds leaves behind, and what a second delivery of it does.
use Prim.Native.String.{String, ◌++◌ as str_append}
use pipe_line_gpt_backend.Prelude.{
  ℕ, ◌≡◌, ◌≢◌, refl, ◌∙◌, true, false, not, Option, none, some, List, [], ◌∷◌, ◌++◌, map, find,
  find-holds, find-update_where, select, any, length, ◌==◌, arith, Option-cases, List-cases,
  Bool-cases, inl, inr, All,
}
use pipe_line_gpt_backend.Exec.{ok, err}
use pipe_line_gpt_backend.Models.{Document, completed, failed, Chunk, Request}
use pipe_line_gpt_backend.Chunker.{Piece}
use pipe_line_gpt_backend.Loaders.{Meta}
use pipe_line_gpt_backend.Loaders.Parse.{parse}
use pipe_line_gpt_backend.Loaders.Numbered.{IsIndexed, parse-IsIndexed}
use pipe_line_gpt_backend.Documents.{Library, Task, unstage}
use pipe_line_gpt_backend.Documents.Rows.{has_document, has_document-update}
use pipe_line_gpt_backend.Documents.Once.{no_file_left}
use pipe_line_gpt_backend.Worker.Attempts.{changed-RowHas, RowHas}
use pipe_line_gpt_backend.Worker.{
  Failure, parse_error, time_limit, other, Services, given_or_staged, done, gave_up, ended,
  returned, staged_content, read_staged, prepared, parsed, ingest_row, ingest_async,
  ingest_document_task,
}
use pipe_line_gpt_backend.Worker.Ends.{piece_of, IsStoredRun, ingest_row-failed, ingest_async-ends}

-- the chunks of one document
abbrev pub own_chunks : ℕ → List Chunk → List Chunk
own_chunks id cs = select (λ c. c.document_id == id) cs

pub own_chunks-others :
    (id : ℕ) (cs new : List Chunk)
    → All (λ c. c.document_id ≡ id) new
    → own_chunks id (select (λ c. not (c.document_id == id)) cs ++ new) ≡ new
own_chunks-others id [] [] h = refl
own_chunks-others id [] (n ∷ ns) h = ground (arith, own_chunks-others id [] ns h.1, h.0)
own_chunks-others id (c ∷ cs) new h = ground (arith, own_chunks-others id cs new h)

own_chunks-none :
    (id : ℕ) (cs : List Chunk) → own_chunks id (select (λ c. not (c.document_id == id)) cs) ≡ []
own_chunks-none id [] = refl
own_chunks-none id (c ∷ cs) = ground (arith, own_chunks-none id cs)

no_row_left :
    (id : ℕ) (ds : List Document) → has_document ds id ≡ true → find (λ x. x.id == id) ds ≢ none
no_row_left id [] h e = ground arith
no_row_left id (d ∷ ds) h e = elim (Bool-cases (d.id == id)) [
  | inl hit ↦ ground arith
  | inr miss ↦ no_row_left id ds (ground arith) (ground arith)
]

-- the row of a document is there, is COMPLETED and has a number of chunks
abbrev pub IsStoredRow : ℕ → ℕ → List Document → Type 0
IsStoredRow id k ds =
    (d : Document) × (find (λ x. x.id == id) ds ≡ some d)
    × (d.status ≡ completed)
    × (d.chunk_count ≡ k)

no_content_left : (id : ℕ) (fs : List (ℕ × List ℕ)) → staged_content (unstage id fs) id ≡ none
no_content_left id [] = refl
no_content_left id (f ∷ fs) = ground (arith, no_content_left id fs)

module _ {Cache : Type 0} where
  -- a run that stored the document left such a row
  pub stored_row :
      (v : Services Cache) (t : Task) (given : Option (List ℕ)) (ps : List Piece)
      (l l' : Library Cache)
      → IsStoredRun Cache v t given ps l l'
      → IsStoredRow t.document_id (length ps) l'.documents
  stored_row v t given ps l l' run =
      let c = run.row_change in
      elim (Option-cases (find (λ x. x.id == t.document_id) l.documents)) [
        | inl e ↦ absurd (no_row_left t.document_id l.documents run.row e)
        | inr (u, e) ↦
            let there =
              find-update_where (λ x. x.id == t.document_id) (λ x. x.id == t.document_id) c.change
                l.documents u (λ x. rw (c.keeps_id x) refl) e
                (find-holds (λ x. x.id == t.document_id) l.documents u e) in
            (c.change u, rw c.rows there, c.sets_status u, run.sets_count u)
      ]

  parsed-IsIndexed :
      (v : Services Cache) (t : Task) (content : List ℕ) (ps : List Piece) (meta : Meta)
      → parsed Cache v t content ≡ ok (ps, meta)
      → IsIndexed 0 ps
  unfolding parsed
  parsed-IsIndexed v t content ps meta h =
      elim (Option-cases (parse v.readers v.ocr t.source_type content)) [
        | inl e ↦ absurd (ground arith)
        | inr ((qs, m), e) ↦ (elim (List-cases qs) [
          | inl empty ↦ absurd (ground arith)
          | inr (q, rest, cons) ↦
              let same : parse v.readers v.ocr t.source_type content ≡ some (ps, meta) =
                ground arith in
              parse-IsIndexed v.readers v.ocr t.source_type content ps meta same
        ])
      ]

  -- a run that failed is not reported as done
  ended-failed :
      (v : Services Cache) (t : Task) (n : ℕ) (f : Failure) (l : Library Cache) (id k : ℕ)
      → (ended Cache v t n (err f, l)).0 ≢ returned (done id k)
  ended-failed v t n (parse_error m) l id k h = ground arith
  ended-failed v t n time_limit l id k h = ground arith
  ended-failed v t n (other name) l id k h = ground arith

  -- a call that reports a stored document stored it
  reported :
      (v : Services Cache) (q : Request) (t : Task) (given : Option (List ℕ)) (n id k : ℕ)
      (l l' : Library Cache)
      → ingest_document_task Cache v q t given n l ≡ (returned (done id k), l')
      → let r = ingest_async Cache v q t given l in
        (ps : List Piece) × (k ≡ length ps)
        × (l'.documents ≡ r.1.documents)
        × (l'.chunks ≡ r.1.chunks)
        × (l'.staged ≡ unstage t.document_id l.staged)
        × IsStoredRun Cache v t given ps l r.1
  unfolding ingest_document_task
  reported v q t given n id k l l' h =
      let r = ingest_async Cache v q t given l in
      elim (ingest_async-ends Cache v q t given l) [
        | inl (e, same) ↦ absurd (ground arith)
        | inr (inl (f, raises, run)) ↦
            let whole : r ≡ (err f, r.1) = ground arith in
            let same : (ended Cache v t n (err f, r.1)).0 ≡ returned (done id k) = ground arith in
            absurd (ended-failed v t n f r.1 id k same)
        | inr (inr (ps, returns, run)) ↦
            let whole : r ≡ (ok (done t.document_id (length ps)), r.1) = ground arith in
            (
              ps,
              ground arith,
              ground arith,
              ground arith,
              ground (arith, run.row_change.staged),
              run,
            )
      ]

  -- A call of the task that reports a stored document has read a content whose pieces are counted from
  -- 0. The chunks of the document are then exactly these pieces, in order, whatever chunks it had
  -- before; its row is there, is COMPLETED and has their number as its chunk_count, and the staged file
  -- is gone.
  pub ingest_document_task-ok :
      (v : Services Cache) (q : Request) (t : Task) (given : Option (List ℕ)) (n id k : ℕ)
      (l l' : Library Cache)
      → ingest_document_task Cache v q t given n l ≡ (returned (done id k), l')
      → (content : List ℕ) × (ps : List Piece) × (meta : Meta) × (given_or_staged Cache v given t
            l.staged
          ≡ ok content)
        × (parsed Cache v t content ≡ ok (ps, meta))
        × IsIndexed 0 ps
        × (map piece_of (own_chunks t.document_id l'.chunks) ≡ ps)
        × (k ≡ length ps)
        × IsStoredRow t.document_id k l'.documents
        × (any (λ f. f.0 == t.document_id) l'.staged ≡ false)
  ingest_document_task-ok v q t given n id k l l' h =
      let (ps, many, rows, chunks, staged, run) = reported v q t given n id k l l' h in
      (
        run.content,
        ps,
        run.meta,
        run.read,
        run.parsed_to,
        parsed-IsIndexed v t run.content ps run.meta run.parsed_to,
        rw (chunks, run.chunks, own_chunks-others t.document_id l.chunks run.new_chunks run.owned)
            run.pieces,
        many,
        rw (rows, many) (stored_row v t given ps l _ run),
        rw staged (no_file_left l.staged t.document_id),
      )

  -- A call for a row that is there, whose staged file is gone, marks it as failed with no chunks.
  stranded :
      (v : Services Cache) (q : Request) (t : Task) (n : ℕ) (l : Library Cache)
      → has_document l.documents t.document_id ≡ true
      → staged_content l.staged t.document_id ≡ none
      → let (e, l') = ingest_document_task Cache v q t none n l in
        ((message : String) × (e ≡ returned (gave_up t.document_id message)))
        × RowHas t.document_id failed l'.documents
        × (own_chunks t.document_id l'.chunks ≡ [])
  unfolding ingest_document_task ingest_async prepared read_staged
  stranded v q t n l there gone =
      elim (Option-cases (find (λ d. d.id == t.document_id) l.documents)) [
        | inl e ↦ absurd (no_row_left t.document_id l.documents there e)
        | inr (d, e) ↦
            let message =
              str_append "The uploaded file for "
                (str_append t.filename " is missing from the staging directory") in
            let fails : prepared Cache v t none d l.staged ≡ err (parse_error message) =
              ground arith in
            let (raises, run) =
              ingest_row-failed Cache v q t none d l (parse_error message) fails in
            let r = ingest_row Cache v q t none d l in
            let whole : r ≡ (err (parse_error message), r.1) = ground arith in
            rw (e, whole)
              (
                (message, refl),
                changed-RowHas v t failed l r.1 run.row_change,
                rw (run.chunks, own_chunks-none t.document_id l.chunks) refl,
              )
      ]

  -- Once a call has stored a document from its staged file, a second delivery of the same message
  -- before anything else happens finds no staged file: it drops the chunks of the document and marks
  -- it as FAILED.
  pub ingest_document_task_redelivered :
      (v w : Services Cache) (q r : Request) (t : Task) (n m id k : ℕ) (l l' : Library Cache)
      → ingest_document_task Cache v q t none n l ≡ (returned (done id k), l')
      → let (e, l'') = ingest_document_task Cache w r t none m l' in
        ((message : String) × (e ≡ returned (gave_up t.document_id message)))
        × RowHas t.document_id failed l''.documents
        × (own_chunks t.document_id l''.chunks ≡ [])
  ingest_document_task_redelivered v w q r t n m id k l l' h =
      let (ps, many, rows, chunks, staged, run) = reported v q t none n id k l l' h in
      let c = run.row_change in
      stranded w r t m l'
        (rw (rows, c.rows)
          (has_document-update t.document_id t.document_id c.change l.documents c.keeps_id
            ∙ run.row))
        (rw staged (no_content_left t.document_id l.staged))

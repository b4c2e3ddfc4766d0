-- ===== src/Worker/Uploaded.antt =====
-- An upload and the worker's call for it, one after the other.
use pipe_line_gpt_backend.Prelude.{
  ℕ, String, ◌≡◌, refl, true, false, Option, none, some, List, [], ◌∷◌, ◌++◌, map, find, any,
  length, ◌==◌, ==_iff, arith,
}
use pipe_line_gpt_backend.Exec.{ok}
use pipe_line_gpt_backend.Config.{Settings}
use pipe_line_gpt_backend.Models.{Document, Chunk, User, Request}
use pipe_line_gpt_backend.FileTypes.{SourceType}
use pipe_line_gpt_backend.Chunker.{Piece}
use pipe_line_gpt_backend.Loaders.{Meta}
use pipe_line_gpt_backend.Documents.{
  Library, Uploads, Upload, Task, checked_upload, submit_document, ingest_file, with_hash,
  new_document, stage,
}
use pipe_line_gpt_backend.Worker.{
  Services, done, returned, prepared, parsed, embed_all, zip_chunks, read_staged, staged_content,
  given_or_staged, ingest_row, ingest_async, ingest_document_task,
}
use pipe_line_gpt_backend.Worker.Ends.{piece_of, ingest_row-stored}
use pipe_line_gpt_backend.Worker.Stored.{own_chunks, own_chunks-others, IsStoredRow, stored_row}
use pipe_line_gpt_backend.Documents.Once.{no_file_left}

read_content :
    (staged : List (ℕ × List ℕ)) (t : Task) (content : List ℕ)
    → staged_content staged t.document_id ≡ some content
    → read_staged staged t ≡ ok content
unfolding read_staged
read_content staged t content h = ground arith

module _ {Cache : Type 0} (svc : Uploads Cache) (v : Services Cache) where
  -- the message that an upload queues
  abbrev pub queued_task : Request → SourceType → String → Task
  queued_task q t name = record {
    document_id = q.uuid;
    source_type = t;
    filename = name;
    summarize = true;
  }

  prepared-each :
      (t : Task) (given : Option (List ℕ)) (d : Document) (staged : List (ℕ × List ℕ))
      (content : List ℕ) (ps : List Piece) (meta : Meta) (vs : List (List ℕ)) (cs : List Chunk)
      → given_or_staged Cache v given t staged ≡ ok content
      → parsed Cache v t content ≡ ok (ps, meta)
      → embed_all Cache v (length ps) (map (λ p. p.text_content) ps) ≡ ok vs
      → zip_chunks d.id ps vs ≡ ok cs
      → prepared Cache v t given d staged ≡ ok (ps, meta, cs)
  unfolding prepared
  prepared-each t given d staged content ps meta vs cs read parses embeds zips =
      rw (read, parses, embeds, zips) refl

  -- An upload of new content that the queue takes, and then a call of the worker for its message
  -- whose services parse the content and embed its pieces, end with the document stored: the call
  -- reports as many chunks as there are pieces, the chunks of the document are these pieces in
  -- order, its row is COMPLETED with their number, and its staged file is gone.
  pub ingest_file-stored :
      (s : Settings) (q r : Request) (user : User) (up : Upload) (l : Library Cache) (n : ℕ)
      (t : SourceType) (name task_id : String) (ps : List Piece) (meta : Meta) (vs : List (List ℕ))
      (cs : List Chunk)
      → checked_upload Cache svc s up ≡ ok (t, name)
      → with_hash (svc.content_hash up.content) l.documents ≡ none
      → svc.delay (queued_task q t name) ≡ ok task_id
      → parsed Cache v (queued_task q t name) up.content ≡ ok (ps, meta)
      → embed_all Cache v (length ps) (map (λ p. p.text_content) ps) ≡ ok vs
      → zip_chunks q.uuid ps vs ≡ ok cs
      → let l' = (ingest_file Cache svc s q user up l).1 in
        let (e, l'') = ingest_document_task Cache v r (queued_task q t name) none n l' in
        (l'.queue ≡ l.queue ++ queued_task q t name ∷ [])
        × (e ≡ returned (done q.uuid (length ps)))
        × (map piece_of (own_chunks q.uuid l''.chunks) ≡ ps)
        × IsStoredRow q.uuid (length ps) l''.documents
        × (any (λ f. f.0 == q.uuid) l''.staged ≡ false)
  unfolding ingest_file submit_document ingest_document_task ingest_async
  ingest_file-stored s q r user up l n t name task_id ps meta vs cs checked fresh taken parses
        embeds zips =
      let own : (q.uuid == q.uuid) ≡ true = (==_iff q.uuid q.uuid).1 refl in
      let task = queued_task q t name in
      let l' = (ingest_file Cache svc s q user up l).1 in
      let d =
        new_document q.uuid q.now name t (svc.content_hash up.content) (some user.email)
          up.segment_id up.commodity in
      let rows : l'.documents ≡ d ∷ l.documents = ground arith in
      let files : l'.staged ≡ stage q.uuid up.content l.staged = ground arith in
      let found : find (λ x. x.id == q.uuid) l'.documents ≡ some d = rw (rows, own) refl in
      let there : any (λ x. x.id == q.uuid) l'.documents ≡ true = rw (rows, own) refl in
      let content : staged_content (stage q.uuid up.content l.staged) q.uuid ≡ some up.content =
        rw own refl in
      let read : given_or_staged Cache v none task l'.staged ≡ ok up.content =
        rw files (read_content (stage q.uuid up.content l.staged) task up.content content) in
      let ready : prepared Cache v task none d l'.staged ≡ ok (ps, meta, cs) =
        prepared-each task none d l'.staged up.content ps meta vs cs read parses embeds zips in
      let (stores, run) = ingest_row-stored Cache v r task none d l' ps meta cs refl there ready in
      let row = ingest_row Cache v r task none d l' in
      let whole : row ≡ (ok (done q.uuid (length ps)), row.1) = ground arith in
      rw (found, whole)
        (
          ground arith,
          refl,
          rw (run.chunks, own_chunks-others q.uuid l'.chunks run.new_chunks run.owned) run.pieces,
          stored_row v task none ps l' row.1 run,
          no_file_left row.1.staged q.uuid,
        )

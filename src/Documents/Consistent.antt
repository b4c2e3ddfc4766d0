-- ===== src/Documents/Consistent.antt =====
-- What every operation on documents keeps: one row for each content, and no chunk or staged file
-- without its document.
use pipe_line_gpt_backend.Prelude.{
  ℕ, String, ◌≡◌, refl, ◌∙◌, true, false, not, Option, none, some, List, [], ◌∷◌, find, find-holds,
  select, update_where, ◌==◌, ==_iff, arith, Option-cases, List-cases, ◌⊎◌, inl, inr,
}
use pipe_line_gpt_backend.Exec.{Outcome-cases}
use pipe_line_gpt_backend.Config.{Settings}
use pipe_line_gpt_backend.Models.{User, Document, Request}
use pipe_line_gpt_backend.FileTypes.{SourceType}
use pipe_line_gpt_backend.Documents.{
  Library, Uploads, Upload, DocumentTagsUpdate, checked_upload, submit_document, ingest_file,
  with_hash, update_document_tags, delete_document, found_document, stage, all_changes, tag_after,
}
use pipe_line_gpt_backend.Documents.Rows.{
  HashesDistinct, has_document, ChunksOwned, FilesOwned, select-HashesDistinct,
  update-HashesDistinct, has_document-update, has_document-select, All-owned, All-kept,
}

module _ (Cache : Type 0) (svc : Uploads Cache) where
  -- One row for each content, and each chunk and each staged file belongs to a row.
  pub record IsConsistent (l : Library Cache) : Type 0 where
    pub distinct : HashesDistinct l.documents
    pub chunks_owned : ChunksOwned l.documents l.chunks
    pub files_owned : FilesOwned l.documents l.staged

  submit_document-IsConsistent :
      (q : Request) (user : User) (up : Upload) (t : SourceType) (name sha : String)
      (l : Library Cache)
      → with_hash sha l.documents ≡ none
      → IsConsistent l
      → IsConsistent (submit_document Cache svc q user up t name sha l).1
  unfolding submit_document
  submit_document-IsConsistent q user up t name sha l fresh h =
      let l' = (submit_document Cache svc q user up t name sha l).1 in
      let kept : (n : ℕ) → has_document l.documents n ≡ true → has_document l'.documents n ≡ true =
        λ n k. ground arith in
      let chunks : l'.chunks ≡ l.chunks = ground arith in
      let staged : l'.staged ≡ stage q.uuid up.content l.staged = ground arith in
      record {
        distinct = ground arith;
        chunks_owned =
            rw chunks (
              All-owned (λ c. c.document_id) l.documents l'.documents l.chunks kept h.chunks_owned);
        files_owned = rw staged (
          ground (arith, (==_iff q.uuid q.uuid).1 refl),
          All-kept (λ f. f.0) l.documents l'.documents q.uuid l.staged (λ n other k. kept n k)
              h.files_owned,
        );
      }

  ingest_file-IsConsistent :
      (s : Settings) (q : Request) (user : User) (up : Upload) (l : Library Cache)
      → IsConsistent l
      → IsConsistent (ingest_file Cache svc s q user up l).1
  unfolding ingest_file
  ingest_file-IsConsistent s q user up l h = elim (Outcome-cases (checked_upload Cache svc s up)) [
    | inr (e, f) ↦ rw f h
    | inl ((t, name), f) ↦
        (elim (Option-cases (with_hash (svc.content_hash up.content) l.documents)) [
          | inl fresh ↦ rw f (
              rw fresh (
                submit_document-IsConsistent q user up t name (svc.content_hash up.content) l fresh
                  h))
          | inr (d, known) ↦ rw f (rw known h)
        ])
  ]

  -- What a change of tags does to the tables: nothing, or new tags on one row.
  pub tags-documents :
      (q : Request) (user : User) (id : ℕ) (body : DocumentTagsUpdate) (l : Library Cache)
      → let l' = (update_document_tags Cache svc q user id body l).1 in
        ((l'.documents ≡ l.documents) × (l'.chunks ≡ l.chunks) × (l'.staged ≡ l.staged))
        ⊎ ((n : ℕ) × (f : Document → Document) × ((x : Document)
              → (f x).sha256_hash ≡ x.sha256_hash)
            × ((x : Document) → (f x).id ≡ x.id)
            × ((x : Document) → ((f x).status ≡ x.status) × ((f x).chunk_count ≡ x.chunk_count))
            × (l'.documents ≡ update_where (λ x. x.id == n) f l.documents)
            × (l'.chunks ≡ l.chunks)
            × (l'.staged ≡ l.staged))
  unfolding update_document_tags found_document
  tags-documents q user id body l = elim (Option-cases (find (λ x. x.id == id) l.documents)) [
    | inl e ↦ inl (ground arith, ground arith, ground arith)
    | inr (d, e) ↦ (elim (List-cases (all_changes body d)) [
      | inl unchanged ↦ inl (ground arith, ground arith, ground arith)
      | inr (c, cs, made) ↦ inr (
        d.id,
        (λ x. record x {
          segment_id = tag_after body.segment_id d.segment_id;
          commodity = tag_after body.commodity d.commodity;
        }),
        (λ x. refl),
        (λ x. refl),
        (λ x. (refl, refl)),
        ground arith,
        ground arith,
        ground arith,
      )
    ])
  ]

  -- What a deletion does to the tables: nothing, or one document with all of its own goes.
  pub deleted-documents :
      (q : Request) (user : User) (text : Option ℕ) (l : Library Cache)
      → let l' = (delete_document Cache svc q user text l).1 in
        (l' ≡ l)
        ⊎ ((id : ℕ) × (l'.documents ≡ select (λ x. not (x.id == id)) l.documents)
            × (l'.chunks ≡ select (λ c. not (c.document_id == id)) l.chunks)
            × (l'.staged ≡ select (λ f. not (f.0 == id)) l.staged))
  unfolding delete_document found_document
  deleted-documents q user none l = inl refl
  deleted-documents q user (some id) l = elim (Option-cases (find (λ x. x.id == id) l.documents)) [
    | inl e ↦ inl (ground arith)
    | inr (d, e) ↦
        let same : d.id ≡ id = (==_iff d.id id).0 (find-holds (λ x. x.id == id) l.documents d e) in
        inr (id, ground arith, ground arith, ground arith)
  ]

  update_document_tags-IsConsistent :
      (q : Request) (user : User) (id : ℕ) (body : DocumentTagsUpdate) (l : Library Cache)
      → IsConsistent l
      → IsConsistent (update_document_tags Cache svc q user id body l).1
  update_document_tags-IsConsistent q user id body l h =
      let l' = (update_document_tags Cache svc q user id body l).1 in
      elim (tags-documents q user id body l) [
        | inl same ↦ record {
          distinct = rw same.0 h.distinct;
          chunks_owned = rw (same.0, same.1) h.chunks_owned;
          files_owned = rw (same.0, same.2) h.files_owned;
        }
        | inr (n, f, keeps_hash, keeps_id, keeps_rest, changed, chunks, staged) ↦
            let kept : (m : ℕ)
                → has_document l.documents m ≡ true
                → has_document l'.documents m ≡ true =
              λ m k. rw changed (has_document-update m n f l.documents keeps_id ∙ k) in
            record {
              distinct = rw changed (update-HashesDistinct n f l.documents keeps_hash h.distinct);
              chunks_owned = rw chunks (
                  All-owned (λ c. c.document_id) l.documents l'.documents l.chunks kept
                    h.chunks_owned);
              files_owned =
                  rw staged
                    (All-owned (λ x. x.0) l.documents l'.documents l.staged kept h.files_owned);
            }
      ]

  delete_document-IsConsistent :
      (q : Request) (user : User) (text : Option ℕ) (l : Library Cache)
      → IsConsistent l
      → IsConsistent (delete_document Cache svc q user text l).1
  delete_document-IsConsistent q user text l h =
      let l' = (delete_document Cache svc q user text l).1 in
      elim (deleted-documents q user text l) [
        | inl same ↦ rw same h
        | inr (id, documents, chunks, staged) ↦
            let kept : (n : ℕ)
                → (n == id) ≡ false
                → has_document l.documents n ≡ true
                → has_document l'.documents n ≡ true =
              λ n other k. rw documents (has_document-select n id l.documents other ∙ k) in
            record {
              distinct = rw documents (select-HashesDistinct id l.documents h.distinct);
              chunks_owned = rw chunks (
                  All-kept (λ c. c.document_id) l.documents l'.documents id l.chunks kept
                    h.chunks_owned);
              files_owned =
                  rw staged
                    (All-kept (λ f. f.0) l.documents l'.documents id l.staged kept h.files_owned);
            }
      ]

  -- the operations on documents, as requests of one client or another
  pub data Operation : Type 0 where
    ingest : User → Upload → Operation
    tag : User → ℕ → DocumentTagsUpdate → Operation
    remove : User → Option ℕ → Operation

  unfoldable pub perform : Settings → Request → Operation → Library Cache → Library Cache
  perform s q (ingest user up) l = (ingest_file Cache svc s q user up l).1
  perform s q (tag user id body) l = (update_document_tags Cache svc q user id body l).1
  perform s q (remove user text) l = (delete_document Cache svc q user text l).1

  unfoldable pub perform_all : Settings → List (Request × Operation) → Library Cache → Library Cache
  perform_all s [] l = l
  perform_all s ((q, op) ∷ rest) l = perform_all s rest (perform s q op l)

  pub perform-IsConsistent :
      (s : Settings) (q : Request) (op : Operation) (l : Library Cache)
      → IsConsistent l
      → IsConsistent (perform s q op l)
  unfolding perform
  perform-IsConsistent s q (ingest user up) l h = ingest_file-IsConsistent s q user up l h
  perform-IsConsistent s q (tag user id body) l h =
      update_document_tags-IsConsistent q user id body l h
  perform-IsConsistent s q (remove user text) l h = delete_document-IsConsistent q user text l h

  -- Uploads, changes of tags and deletions, in any order and failing or not, keep one document for
  -- each content, and leave no chunk and no staged file without its document.
  pub perform_documents-IsConsistent :
      (s : Settings) (ops : List (Request × Operation)) (l : Library Cache)
      → IsConsistent l
      → IsConsistent (perform_all s ops l)
  unfolding perform_all
  perform_documents-IsConsistent s [] l h = h
  perform_documents-IsConsistent s ((q, op) ∷ rest) l h =
      perform_documents-IsConsistent s rest (perform s q op l) (perform-IsConsistent s q op l h)

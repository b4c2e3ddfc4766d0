-- ===== src/Documents/Once.antt =====
-- One document for each content: what an upload, a second upload and a deletion leave behind.
use pipe_line_gpt_backend.Prelude.{
  true, ℕ, String, ◌≡◌, refl, false, not, Option, none, some, List, [], ◌∷◌, find, find-holds, any,
  select, update_where, find-update_where, eq_refl, ◌==◌, ==_iff, arith, Option-cases, List-cases,
  inl, inr,
}
use pipe_line_gpt_backend.Exec.{ok, err, HttpError, Outcome-cases}
use pipe_line_gpt_backend.Config.{Settings}
use pipe_line_gpt_backend.Models.{User, Document, Chunk, pending, Request}
use pipe_line_gpt_backend.FileTypes.{SourceType, clean_tag}
use pipe_line_gpt_backend.Documents.{
  Library, Uploads, Upload, IngestResponse, DocumentTagsUpdate, checked_upload, submit_document,
  ingest_file, with_hash, new_document, update_document_tags, delete_document, found_document,
  all_changes, change_of, tag_after, unstage,
}

module _ (Cache : Type 0) (svc : Uploads Cache) where
  -- After an upload was answered, every upload of the same content, by anyone and under any name
  -- that passes the checks, is answered with the same document, is not queued and changes nothing.
  pub ingest_file_once :
      (s : Settings) (q q' : Request) (user user' : User) (up up' : Upload) (l l' : Library Cache)
      (resp : IngestResponse) (t : SourceType) (name : String)
      → ingest_file Cache svc s q user up l ≡ (ok resp, l')
      → up'.content ≡ up.content
      → checked_upload Cache svc s up' ≡ ok (t, name)
      → ingest_file Cache svc s q' user' up' l' ≡ (
        ok (record { task_id = "dedup-skip"; document_id = resp.document_id; filename = name }),
        l',
      )
  unfolding ingest_file submit_document
  ingest_file_once s q q' user user' up up' l l' resp t name h same passed =
      elim (Outcome-cases (checked_upload Cache svc s up)) [
        | inr (e, f) ↦ absurd (ground arith)
        | inl ((t0, name0), f) ↦
            (elim (Option-cases (with_hash (svc.content_hash up.content) l.documents)) [
              | inr (d, known) ↦ ground arith
              | inl fresh ↦ ground (arith, eq_refl (svc.content_hash up.content))
            ])
      ]

  -- If the content is new and the queue does not take the message, the upload fails, but its document
  -- stays as PENDING with nothing queued; and every later upload of the content, while nothing else
  -- changes the library, is answered as ingested already, and queues nothing either.
  pub ingest_file_stranded :
      (s : Settings) (q q' : Request) (user user' : User) (up up' : Upload) (l : Library Cache)
      (e : HttpError) (t t' : SourceType) (name name' : String)
      → checked_upload Cache svc s up ≡ ok (t, name)
      → with_hash (svc.content_hash up.content) l.documents ≡ none
      → svc.delay
          (record { document_id = q.uuid; source_type = t; filename = name; summarize = true })
        ≡ err e
      → up'.content ≡ up.content
      → checked_upload Cache svc s up' ≡ ok (t', name')
      → let l' = (ingest_file Cache svc s q user up l).1 in
        ((ingest_file Cache svc s q user up l).0 ≡ err e)
        × ((d : Document) × (find (λ x. x.id == q.uuid) l'.documents ≡ some d)
            × (d.status ≡ pending))
        × (l'.queue ≡ l.queue)
        × (ingest_file Cache svc s q' user' up' l'
            ≡ (ok (record { task_id = "dedup-skip"; document_id = q.uuid; filename = name' }), l'))
  unfolding ingest_file submit_document
  ingest_file_stranded s q q' user user' up up' l e t t' name name' passed fresh broken same
        passed' =
      (
        ground arith,
        (
          new_document q.uuid q.now name t (svc.content_hash up.content) (some user.email)
              up.segment_id up.commodity,
          ground (arith, (==_iff q.uuid q.uuid).1 refl),
          refl,
        ),
        ground arith,
        ground (arith, eq_refl (svc.content_hash up.content)),
      )

  found_document-ok : (o : Option Document) (d : Document) → found_document o ≡ ok d → o ≡ some d
  unfolding found_document
  found_document-ok none d h = cc
  found_document-ok (some x) d h = ground arith

  change_of_twice :
      (field : String) (body : Option (Option String)) (old : Option String)
      → change_of field body (tag_after body old) ≡ []
  unfolding change_of
  change_of_twice field none old = refl
  change_of_twice field (some v) old = elim (Option-cases (clean_tag v)) [
    | inl e ↦ ground arith
    | inr (x, e) ↦ ground (arith, eq_refl x)
  ]

  tag_after_twice :
      (body : Option (Option String)) (old : Option String)
      → tag_after body (tag_after body old) ≡ tag_after body old
  tag_after_twice none old = refl
  tag_after_twice (some v) old = refl

  abbrev tagged : DocumentTagsUpdate → Document → Document
  tagged body d = record d {
    segment_id = tag_after body.segment_id d.segment_id;
    commodity = tag_after body.commodity d.commodity;
  }

  tags_again :
      (q q' : Request) (user user' : User) (id : ℕ) (body : DocumentTagsUpdate)
      (l l' : Library Cache) (d d' : Document)
      → find (λ x. x.id == id) l.documents ≡ some d
      → update_document_tags Cache svc q user id body l ≡ (ok d', l')
      → update_document_tags Cache svc q' user' id body l' ≡ (ok d', l')
  unfolding update_document_tags found_document
  tags_again q q' user user' id body l l' d d' row h = elim (List-cases (all_changes body d)) [
    | inl none_made ↦ ground arith
    | inr (c, cs, made) ↦
        let f : Document → Document = λ x. record x {
          segment_id = tag_after body.segment_id d.segment_id;
          commodity = tag_after body.commodity d.commodity;
        } in
        let same_id : d.id ≡ id =
          (==_iff d.id id).0 (find-holds (λ x. x.id == id) l.documents d row) in
        let stored : l'.documents ≡ update_where (λ x. x.id == d.id) f l.documents = ground arith in
        let found =
          find-update_where (λ x. x.id == id) (λ x. x.id == d.id) f l.documents d (λ x. refl) row
            ((==_iff d.id d.id).1 refl) in
        let is : d' ≡ tagged body d = ground arith in
        ground (
          arith,
          change_of_twice "commodity" body.commodity d.commodity,
          change_of_twice "segment_id" body.segment_id d.segment_id,
          tag_after_twice body.commodity d.commodity,
          tag_after_twice body.segment_id d.segment_id,
        )
  ]

  -- A change of tags that succeeds leaves the document with the tags of the body, trimmed, where the
  -- body has them and its own elsewhere; and the same change again changes nothing.
  pub update_document_tags_again :
      (q q' : Request) (user user' : User) (id : ℕ) (body : DocumentTagsUpdate)
      (l l' : Library Cache) (d' : Document)
      → update_document_tags Cache svc q user id body l ≡ (ok d', l')
      → ((d : Document) × (find (λ x. x.id == id) l.documents ≡ some d)
          × (d'.segment_id ≡ tag_after body.segment_id d.segment_id)
          × (d'.commodity ≡ tag_after body.commodity d.commodity))
        × (update_document_tags Cache svc q' user' id body l' ≡ (ok d', l'))
  unfolding update_document_tags found_document
  update_document_tags_again q q' user user' id body l l' d' h =
      elim (Option-cases (find (λ x. x.id == id) l.documents)) [
        | inl e ↦ absurd (ground arith)
        | inr (d, e) ↦
            ((d, e, ground arith, ground arith), tags_again q q' user user' id body l l' d d' e h)
      ]

none_left :
    (xs : List Document) (id : ℕ)
    → find (λ x. x.id == id) (select (λ x. not (x.id == id)) xs) ≡ none
none_left [] id = refl
none_left (x ∷ xs) id = ground (arith, none_left xs id)

no_chunk_left :
    (cs : List Chunk) (id : ℕ)
    → any (λ c. c.document_id == id) (select (λ c. not (c.document_id == id)) cs) ≡ false
no_chunk_left [] id = refl
no_chunk_left (c ∷ cs) id = ground (arith, no_chunk_left cs id)

pub no_file_left : (fs : List (ℕ × List ℕ)) (id : ℕ) → any (λ f. f.0 == id) (unstage id fs) ≡ false
no_file_left [] id = refl
no_file_left (f ∷ fs) id = ground (arith, no_file_left fs id)

module _ (Cache : Type 0) (svc : Uploads Cache) where
  -- A deletion that succeeds removes the document with its chunks and its staged file, drops the
  -- cached answers, and keeps every other document.
  pub delete_document-ok :
      (q : Request) (user : User) (id : ℕ) (l l' : Library Cache) (n : ℕ)
      → delete_document Cache svc q user (some id) l ≡ (ok n, l')
      → (find (λ x. x.id == id) l'.documents ≡ none)
        × (any (λ c. c.document_id == id) l'.chunks ≡ false)
        × (any (λ f. f.0 == id) l'.staged ≡ false)
        × (l'.cache ≡ svc.invalidate l.cache)
        × (l'.documents ≡ select (λ x. not (x.id == id)) l.documents)
  unfolding delete_document found_document
  delete_document-ok q user id l l' n h = elim (Option-cases (find (λ x. x.id == id) l.documents)) [
    | inl e ↦ absurd (ground arith)
    | inr (d, e) ↦
        let same_id : d.id ≡ id =
          (==_iff d.id id).0 (find-holds (λ x. x.id == id) l.documents d e) in
        let documents : l'.documents ≡ select (λ x. not (x.id == id)) l.documents = ground arith in
        let chunks : l'.chunks ≡ select (λ c. not (c.document_id == id)) l.chunks = ground arith in
        let staged : l'.staged ≡ unstage id l.staged = ground arith in
        (
          rw documents (none_left l.documents id),
          rw chunks (no_chunk_left l.chunks id),
          rw staged (no_file_left l.staged id),
          ground arith,
          documents,
        )
  ]

-- ===== src/Worker/Ends.antt =====
-- What one run of `_ingest_async` does to the tables.
use pipe_line_gpt_backend.Prelude.{
  ℕ, suc, ◌+◌, ◌≡◌, refl, Bool, true, false, not, Option, none, some, List, [], ◌∷◌, ◌++◌, map,
  find, any, All, select, update_where, length, find-holds, ◌==◌, arith, Option-cases, ◌⊎◌, inl,
  inr, ap, ==_iff,
}
use pipe_line_gpt_backend.Exec.{Outcome, ok, err, Outcome-cases, and_then-ok}
use pipe_line_gpt_backend.Models.{
  Document, DocumentStatus, processing, completed, failed, Chunk, Request, Json, id_of,
}
use pipe_line_gpt_backend.Accounts.{audit_event, log_event}
use pipe_line_gpt_backend.Chunker.{Piece}
use pipe_line_gpt_backend.Loaders.{Meta}
use pipe_line_gpt_backend.Documents.{Library, Task}
use pipe_line_gpt_backend.Worker.{
  Failure, error_type, completed_row, with_status, Services, given_or_staged, not_found, done,
  parsed, embed_all, zip_chunks, chunk_of, prepared, store_document, record_failure, ingest_row,
  ingest_async,
}

-- the row of a chunk as the dictionary that it was made from
unfoldable pub piece_of : Chunk → Piece
piece_of c = record {
  chunk_index = c.chunk_index;
  text_content = c.text_content;
  token_count = c.token_count;
  page_ref = c.page_ref;
  section_label = c.section_label;
}

-- how many chunks a document has
unfoldable pub count_chunks : ℕ → List Chunk → ℕ
count_chunks id [] = 0
count_chunks id (c ∷ cs) =
    let rest = count_chunks id cs in elim (c.document_id == id) [ true ↦ suc rest | false ↦ rest ]

pub count_chunks-append :
    (id : ℕ) (cs ds : List Chunk)
    → count_chunks id (cs ++ ds) ≡ count_chunks id cs + count_chunks id ds
unfolding count_chunks
count_chunks-append id [] ds = omega arith
count_chunks-append id (c ∷ cs) ds = ground (arith, count_chunks-append id cs ds)

pub count_chunks-select :
    (n id : ℕ) (cs : List Chunk)
    → count_chunks n (select (λ c. not (c.document_id == id)) cs)
      ≡ elim (n == id) [ true ↦ 0 | false ↦ count_chunks n cs ]
unfolding count_chunks
count_chunks-select n id [] = ground arith
count_chunks-select n id (c ∷ cs) = ground (arith, count_chunks-select n id cs)

-- The rows of chunks are the pieces, all of one document.
pub zip_chunks-ok :
    (id : ℕ) (ps : List Piece) (vs : List (List ℕ)) (cs : List Chunk)
    → zip_chunks id ps vs ≡ ok cs
    → (map piece_of cs ≡ ps)
      × ((n : ℕ) → count_chunks n cs ≡ elim (n == id) [ true ↦ length ps | false ↦ 0 ])
      × All (λ c. c.document_id ≡ id) cs
unfolding zip_chunks piece_of count_chunks chunk_of
zip_chunks-ok id [] [] cs h =
    let same : cs ≡ [] = ground arith in rw same (refl, (λ n. ground arith), tt)
zip_chunks-ok id (p ∷ ps) (v ∷ vs) cs h = elim (Outcome-cases (zip_chunks id ps vs)) [
  | inr (f, e) ↦ absurd (ground arith)
  | inl (ds, e) ↦
      let (same, counts, own) = zip_chunks-ok id ps vs ds e in
      let cons : cs ≡ chunk_of id p v ∷ ds = ground arith in
      rw cons (ap (λ qs. p ∷ qs) same, (λ n. ground (arith, counts n)), (refl, own))
]
zip_chunks-ok id [] (v ∷ vs) cs h = ground arith
zip_chunks-ok id (p ∷ ps) [] cs h = ground arith

-- Two changes of the same rows are one.
pub update_where-twice :
    {A : Type 0} (p : A → Bool) (f g : A → A) (xs : List A)
    → ((x : A) → p (f x) ≡ p x)
    → update_where p g (update_where p f xs) ≡ update_where p (λ x. g (f x)) xs
update_where-twice p f g [] keep = refl
update_where-twice p f g (x ∷ xs) keep = ground (arith, keep x, update_where-twice p f g xs keep)

-- A row that is found is there.
find-any : {A : Type 0} (p : A → Bool) (xs : List A) (x : A) → find p xs ≡ some x → any p xs ≡ true
find-any p [] x h = absurd (ground arith)
find-any p (y ∷ ys) x h = ground (arith, find-any p ys x)

module _ (Cache : Type 0) (v : Services Cache) where
  pub prepared-ok :
      (t : Task) (given : Option (List ℕ)) (d : Document) (staged : List (ℕ × List ℕ))
      (ps : List Piece) (meta : Meta) (cs : List Chunk)
      → prepared Cache v t given d staged ≡ ok (ps, meta, cs)
      → (content : List ℕ) × (vs : List (List ℕ)) × (given_or_staged Cache v given t staged
          ≡ ok content)
        × (parsed Cache v t content ≡ ok (ps, meta))
        × (zip_chunks d.id ps vs ≡ ok cs)
  unfolding prepared
  prepared-ok t given d staged ps meta cs h =
      let (content, read, h1) = and_then-ok (given_or_staged Cache v given t staged) _ _ h in
      let ((ps1, meta1), parsed_to, h2) = and_then-ok (parsed Cache v t content) _ _ h1 in
      let (vs, embedded, h3) =
        and_then-ok (embed_all Cache v (length ps1) (map (λ p. p.text_content) ps1)) _ _ h2 in
      let (cs1, zipped, h4) = and_then-ok (zip_chunks d.id ps1 vs) _ _ h3 in
      let parsed_pair : parsed Cache v t content ≡ ok (ps1, meta1) = parsed_to in
      let zipped_list : zip_chunks d.id ps1 vs ≡ ok cs1 = zipped in
      let same : ◌≡◌ {A = Outcome Failure (List Piece × Meta × List Chunk)} (ok (ps1, meta1, cs1))
          (ok (ps, meta, cs)) =
        h4 in
      let same_ps : ps1 ≡ ps = ground arith in
      let same_meta : meta1 ≡ meta = ground arith in
      let same_cs : cs1 ≡ cs = ground arith in (content, vs, read, cc, cc)

  -- What a run does to the rows of its document: one change, which gives them a status.
  pub record IsRowChange (t : Task) (s : DocumentStatus) (l l' : Library Cache) : Type 0 where
    pub change : Document → Document
    pub rows : l'.documents ≡ update_where (λ x. x.id == t.document_id) change l.documents
    pub keeps_id : (x : Document) → (change x).id ≡ x.id
    pub keeps_hash : (x : Document) → (change x).sha256_hash ≡ x.sha256_hash
    pub sets_status : (x : Document) → (change x).status ≡ s
    pub staged : l'.staged ≡ l.staged

  -- the chunks of the other documents
  abbrev pub others : Task → List Chunk → List Chunk
  others t cs = select (λ c. not (c.document_id == t.document_id)) cs

  -- A run that failed left the document with no chunks, and says so in the audit trail.
  pub record IsFailedRun (q : Request) (t : Task) (f : Failure) (l l' : Library Cache)
      : Type 0 where
    pub row_change : IsRowChange t failed l l'
    pub chunks : l'.chunks ≡ others t l.chunks
    pub logged :
        l'.audit_events
        ≡ log_event
            (audit_event q "INGEST_FAILED" none
              (some (id_of t.document_id))
              (some "document")
              (("filename", Json.text t.filename) ∷ ("error_type", Json.text (error_type f)) ∷ [])
              none)
            l.audit_events

  -- A run that stored the document wrote the pieces of its content, and nothing of earlier runs stays.
  pub record IsStoredRun (t : Task) (given : Option (List ℕ)) (ps : List Piece)
      (l l' : Library Cache) : Type 0 where
    pub row_change : IsRowChange t completed l l'
    pub sets_count : (x : Document) → (row_change.change x).chunk_count ≡ length ps
    pub content : List ℕ
    pub meta : Meta
    pub read : given_or_staged Cache v given t l.staged ≡ ok content
    pub parsed_to : parsed Cache v t content ≡ ok (ps, meta)
    pub new_chunks : List Chunk
    pub chunks : l'.chunks ≡ others t l.chunks ++ new_chunks
    pub pieces : map piece_of new_chunks ≡ ps
    pub counted :
        (n : ℕ)
        → count_chunks n new_chunks ≡ elim (n == t.document_id) [ true ↦ length ps | false ↦ 0 ]
    pub owned : All (λ c. c.document_id ≡ t.document_id) new_chunks
    pub row : any (λ x. x.id == t.document_id) l.documents ≡ true

  pub ingest_row-failed :
      (q : Request) (t : Task) (given : Option (List ℕ)) (d : Document) (l : Library Cache)
      (f : Failure)
      → prepared Cache v t given d l.staged ≡ err f
      → ((ingest_row Cache v q t given d l).0 ≡ err f)
        × IsFailedRun q t f l (ingest_row Cache v q t given d l).1
  unfolding ingest_row store_document record_failure
  ingest_row-failed q t given d l f h = (
    rw h refl,
    record {
      row_change = record {
        change = λ x. with_status failed (with_status processing x);
        rows = rw h (
            update_where-twice (λ x. x.id == t.document_id) (with_status processing)
              (with_status failed) l.documents (λ x. refl));
        keeps_id = λ x. refl;
        keeps_hash = λ x. refl;
        sets_status = λ x. refl;
        staged = rw h refl;
      };
      chunks = rw h refl;
      logged = rw h refl;
    },
  )

  pub ingest_row-stored :
      (q : Request) (t : Task) (given : Option (List ℕ)) (d : Document) (l : Library Cache)
      (ps : List Piece) (meta : Meta) (cs : List Chunk)
      → d.id ≡ t.document_id
      → any (λ x. x.id == t.document_id) l.documents ≡ true
      → prepared Cache v t given d l.staged ≡ ok (ps, meta, cs)
      → ((ingest_row Cache v q t given d l).0 ≡ ok (done t.document_id (length ps)))
        × IsStoredRun t given ps l (ingest_row Cache v q t given d l).1
  unfolding ingest_row store_document
  ingest_row-stored q t given d l ps meta cs own row h =
      let (content, vs, read, parsed_to, zipped) = prepared-ok t given d l.staged ps meta cs h in
      let (pieces, counts, owned) = zip_chunks-ok d.id ps vs cs zipped in
      (
        rw h refl,
        record {
          row_change = record {
            change = λ x. completed_row Cache v d t ps meta (with_status processing x);
            rows = rw h (
                update_where-twice (λ x. x.id == t.document_id) (with_status processing)
                  (completed_row Cache v d t ps meta) l.documents (λ x. refl));
            keeps_id = λ x. refl;
            keeps_hash = λ x. refl;
            sets_status = λ x. refl;
            staged = rw h refl;
          };
          sets_count = λ x. refl;
          content = content;
          meta = meta;
          read = read;
          parsed_to = parsed_to;
          new_chunks = cs;
          chunks = rw h refl;
          pieces = pieces;
          counted = λ n. rw own at (counts n);
          owned = rw own at owned;
          row = row;
        },
      )

  -- The ends of a run: no row, a failure, or a document that is stored.
  pub ingest_async-ends :
      (q : Request) (t : Task) (given : Option (List ℕ)) (l : Library Cache)
      → let r = ingest_async Cache v q t given l in
        ((find (λ d. d.id == t.document_id) l.documents ≡ none) × (r ≡ (ok not_found, l)))
        ⊎ ((f : Failure) × (r.0 ≡ err f) × IsFailedRun q t f l r.1)
        ⊎ ((ps : List Piece) × (r.0 ≡ ok (done t.document_id (length ps)))
            × IsStoredRun t given ps l r.1)
  unfolding ingest_async
  ingest_async-ends q t given l =
      elim (Option-cases (find (λ d. d.id == t.document_id) l.documents)) [
        | inl e ↦ inl (e, ground arith)
        | inr (d, e) ↦
            let own : d.id ≡ t.document_id =
              (==_iff d.id t.document_id).0
                (find-holds (λ x. x.id == t.document_id) l.documents d e) in
            let row = find-any (λ x. x.id == t.document_id) l.documents d e in
            let same : ingest_async Cache v q t given l ≡ ingest_row Cache v q t given d l =
              rw e refl in
            rw same (elim (Outcome-cases (prepared Cache v t given d l.staged)) [
              | inr (f, h) ↦
                  let (raises, run) = ingest_row-failed q t given d l f h in
                  inr (inl (f, raises, run))
              | inl ((ps, meta, cs), h) ↦
                  let (returns, run) = ingest_row-stored q t given d l ps meta cs own row h in
                  inr (inr (ps, returns, run))
            ])
      ]

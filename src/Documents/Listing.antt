-- ===== src/Documents/Listing.antt =====
-- backend/app/routers/ingest.py: the pages of the knowledge base and the text of one chunk. `ilike` is
-- the database's test for a text anywhere in a name.
use pipe_line_gpt_backend.Prelude.{
  ℕ, zero, suc, ◌+◌, String, Bool, true, false, ◌&&◌, ◌||◌, Option, none, some, List, [], ◌∷◌, ◌++◌,
  map, find, select, take, drop, length, ltb, leb, str_eq, ◌==◌, if◌then◌else◌, strip, sort_by,
}
use pipe_line_gpt_backend.Exec.{Outcome, ok, err, HttpError, http}
use pipe_line_gpt_backend.Models.{
  Document, DocumentStatus, pending, processing, completed, failed, Chunk,
}

-- DocumentItem
pub record DocumentItem : Type 0 where
  pub document_id : ℕ
  pub filename : String
  pub source_type : String
  pub status : DocumentStatus
  pub chunk_count : ℕ
  pub ingest_date : ℕ
  pub segment_id : Option String
  pub commodity : Option String
  pub uploaded_by : Option String

abbrev pub item_of : Document → DocumentItem
item_of d = record {
  document_id = d.id;
  filename = d.filename;
  source_type = d.source_type;
  status = d.status;
  chunk_count = d.chunk_count;
  ingest_date = d.ingest_date;
  segment_id = d.segment_id;
  commodity = d.commodity;
  uploaded_by = d.operator_id;
}

-- DocumentSummary, with the counts of `by_status` as fields
pub record DocumentSummary : Type 0 where
  pub documents : ℕ
  pub pending_count : ℕ
  pub processing_count : ℕ
  pub completed_count : ℕ
  pub failed_count : ℕ
  pub total_chunks : ℕ

-- DocumentPage
pub record DocumentPage : Type 0 where
  pub items : List DocumentItem
  pub total : ℕ
  pub limit : ℕ
  pub offset : ℕ
  pub summary : DocumentSummary

abbrev pub same_status : DocumentStatus → DocumentStatus → Bool
same_status pending pending = true
same_status processing processing = true
same_status completed completed = true
same_status failed failed = true
same_status _ _ = false

unfoldable pub count_status : DocumentStatus → List Document → ℕ
count_status s [] = 0
count_status s (d ∷ ds) = (if same_status d.status s then 1 else 0) + count_status s ds

unfoldable pub sum_chunks : List Document → ℕ
sum_chunks [] = 0
sum_chunks (d ∷ ds) = d.chunk_count + sum_chunks ds

-- newest first; of two with one date, the one with the higher id
abbrev pub newest_first : Document → Document → Bool
newest_first a b =
    ltb b.ingest_date a.ingest_date || (a.ingest_date == b.ingest_date && leb b.id a.id)

unfoldable pub summary_of : List Document → DocumentSummary
unfolding count_status sum_chunks
summary_of ds =
    let p = count_status pending ds in
    let r = count_status processing ds in
    let c = count_status completed ds in
    let f = count_status failed ds in
    record {
      documents = p + r + c + f;
      pending_count = p;
      processing_count = r;
      completed_count = c;
      failed_count = f;
      total_chunks = sum_chunks ds;
    }

module _ (ilike : String → String → Bool) where
  abbrev pub named_like : Option String → Document → Bool
  named_like none d = true
  named_like (some q) d = if str_eq (strip q) "" then true else ilike d.filename (strip q)

  abbrev pub has_status : Option DocumentStatus → Document → Bool
  has_status none d = true
  has_status (some s) d = same_status d.status s

  -- the documents that the conditions let through
  abbrev pub chosen : Option String → Option DocumentStatus → List Document → List Document
  chosen q status_filter ds = select (λ d. named_like q d && has_status status_filter d) ds

  -- these, newest first
  unfoldable pub matching : Option String → Option DocumentStatus → List Document → List Document
  unfolding sort_by strip
  matching q status_filter ds = sort_by newest_first (chosen q status_filter ds)

  unfoldable pub list_documents :
      (limit offset : ℕ) → Option String → Option DocumentStatus → List Document → DocumentPage
  unfolding matching summary_of
  list_documents limit offset q status_filter ds = record {
    items = map item_of (take limit (drop offset (matching q status_filter ds)));
    total = length (chosen q status_filter ds);
    limit = limit;
    offset = offset;
    summary = summary_of ds;
  }

  -- the items of pages that follow one another
  unfoldable pub items_of_pages :
      (pages limit offset : ℕ)
      → Option String
      → Option DocumentStatus
      → List Document
      → List DocumentItem
  unfolding list_documents
  items_of_pages zero limit offset q status_filter ds = []
  items_of_pages (suc n) limit offset q status_filter ds =
      (list_documents limit offset q status_filter ds).items
      ++ items_of_pages n limit (offset + limit) q status_filter ds

-- `get_chunk_text`; `scalar_one_or_none` finds one row at most
unfoldable pub get_chunk_text : ℕ → ℕ → List Chunk → Outcome HttpError Chunk
get_chunk_text document_id chunk_index cs =
    elim (find (λ c. c.document_id == document_id && c.chunk_index == chunk_index) cs) [
      | none ↦ err (http 404 "Chunk not found")
      | some c ↦ ok c
    ]

-- ===== src/Tests/Ingestion.antt =====
-- Runs of the loaders and of the worker.
use mathlib.Core.List.{Memᴰ}
use pipe_line_gpt_backend.Prelude.{
  All, DistinctKeys, take_chars, drop_chars, ◌++◌, ℕ, suc, ◌≤◌, String, ◌≡◌, refl, Bool, true,
  false, none, some, List, [], ◌∷◌, length, map, any, ltb, arith, if◌then◌else◌, ◌==◌, split_on,
  words, join_with,
}
use pipe_line_gpt_backend.Exec.{ok, err}
use pipe_line_gpt_backend.Config.{default_settings}
use pipe_line_gpt_backend.Models.{Document, failed}
use pipe_line_gpt_backend.FileTypes.{
  csv, has_valid_magic, display_name, path_pieces, path_parts, last_chars, source_type_for,
  source_type_of_suffix,
}
use pipe_line_gpt_backend.Chunker.{Piece, chunk_text, windows, numbered, approx_tokens}
use pipe_line_gpt_backend.Loaders.{Row, cell, Readers, Ocr, Meta, no_meta, pieces_of_text, reindex}
use pipe_line_gpt_backend.Loaders.Csv.{blocks, lines_from, line_of, part_of, block_pieces, load_csv}
use pipe_line_gpt_backend.Loaders.Parse.{parse}
use pipe_line_gpt_backend.Loaders.Numbered.{IsIndexed}
use pipe_line_gpt_backend.Documents.{
  Library, Task, Upload, checked_upload, ingest_file, bad_mime_type,
}
use pipe_line_gpt_backend.Documents.Listing.{items_of_pages, item_of, list_documents}
use pipe_line_gpt_backend.Documents.Pages.{
  document_id, NewestFirst, Passes, list_documents_complete,
}
use pipe_line_gpt_backend.Worker.Uploaded.{queued_task, ingest_file-stored}
use pipe_line_gpt_backend.Documents.Consistent.{ingest, tag, remove}
use pipe_line_gpt_backend.Worker.{
  other, Services, done, gave_up, Ended, returned, given_or_staged, parsed, ingest_document_task,
  ingest_async, ingest_row, store_document, prepared, embed_all, zip_chunks, chunk_of, read_staged,
  run_task,
}
use pipe_line_gpt_backend.Worker.Ends.{piece_of, count_chunks}
use pipe_line_gpt_backend.Worker.Attempts.{IsFinal, IsSettled, RowHas, run_task-ends}
use pipe_line_gpt_backend.Worker.Complete.{
  IsSound, Step, request as request_step, work, step_all, step_all-IsSound, counts_right,
}
use pipe_line_gpt_backend.Worker.Stored.{
  own_chunks, IsStoredRow, ingest_document_task-ok, ingest_document_task_redelivered,
}
use pipe_line_gpt_backend.Tests.Fixtures.{ann}
use pipe_line_gpt_backend.Tests.Uploads.{
  library, library-IsConsistent, working, request, file, tags,
}

abbrev first_row : Row
first_row = cell "depth" (some "40%") ∷ cell "note" none ∷ []

abbrev second_row : Row
second_row = cell "depth" (some "12%") ∷ cell "note" (some "new coating") ∷ []

-- A table of two rows, whatever the bytes.
abbrev readers : Readers
readers = record {
  decode = λ bytes. "";
  csv_rows = λ c t. some (first_row ∷ second_row ∷ []);
  pdf_pages = λ bytes. none;
  zip_files = λ bytes. none;
  path_name = λ t. t;
  str = λ n. if n == 1 then "1" else "2";
  show_list = λ ts. "[]";
  lower = λ t. t;
  upper = λ t. t;
  title = λ t. t;
  capitalize = λ t. t;
  isdigit = λ t. false;
  int = λ t. none;
  parse_date = λ f t. none;
}

abbrev ocr_off : Ocr
ocr_off = record { ocr_enabled = false; tesseract_available = false }

-- An embedder that gives every text the same vector, or raises.
abbrev services : Bool → Services ℕ
services answers = record {
  readers = readers;
  ocr = ocr_off;
  parse_exception = λ bytes. "ValueError";
  embed_texts = λ ts. elim answers [
    | true ↦ ok (map (λ t. 1 ∷ []) ts)
    | false ↦ err (other "ConnectionError")
  ];
  summary = λ name ps. none;
  invalidate = λ n. suc n;
}

abbrev task : Task
task = record { document_id = 3; source_type = csv; filename = "old.csv"; summarize = true }

-- the library with the file of its document staged
abbrev staged_library : Library ℕ
staged_library = record library { staged = (3, 100 ∷ []) ∷ [] }

abbrev piece : Piece
piece = record {
  chunk_index = 0;
  text_content = "[ROW 1] depth: 40% [ROW 2] depth: 12% | note: new coating";
  token_count = 14;
  page_ref = none;
  section_label = some "Rows 1-2";
}

two_rows :
    parse readers ocr_off csv (100 ∷ []) ≡ some (piece ∷ [], record no_meta { row_count = 2 })
unfolding parse load_csv blocks block_pieces lines_from line_of part_of pieces_of_text reindex
    chunk_text windows numbered approx_tokens split_on words join_with
two_rows = refl

-- The embedder fails in the first two calls.
abbrev services_of : ℕ → Services ℕ
services_of n = services (ltb 1 n)

run_task-ends_example :
    (e : Ended) × (l' : Library ℕ) × (run_task 4 services_of
        (λ n. request)
        (λ n l. l)
        task
        none
        0
        staged_library
      ≡ some (e, l'))
    × IsFinal e
    × IsSettled task l'
run_task-ends_example =
    run_task-ends 4 services_of (λ n. request) (λ n l. l) task none 0 staged_library (omega arith)
      (omega arith)

library-IsSound : IsSound working library
unfolding counts_right count_chunks
library-IsSound = record { consistent = library-IsConsistent; counted = (refl, tt) }

abbrev steps : List (Step working)
steps =
    request_step request (ingest ann file)
    ∷ work (services true) request task (some (100 ∷ [])) 0
    ∷ request_step request (tag ann 9 tags)
    ∷ work (services false) request task none 3
    ∷ request_step request (remove ann (some 3))
    ∷ []

step_all-IsSound_example : IsSound working (step_all working default_settings steps library)
step_all-IsSound_example = step_all-IsSound working default_settings steps library library-IsSound

abbrev first_call : Ended × Library ℕ
first_call = ingest_document_task ℕ (services true) request task none 0 staged_library

first_call_stores : first_call.0 ≡ returned (done 3 1)
unfolding ingest_document_task ingest_async ingest_row store_document prepared parsed embed_all
    zip_chunks chunk_of read_staged parse load_csv blocks block_pieces lines_from line_of part_of
    pieces_of_text reindex chunk_text windows numbered approx_tokens split_on words join_with
first_call_stores = refl

abbrev after_first : Library ℕ
after_first = first_call.1

first_call_whole : first_call ≡ (returned (done 3 1), after_first)
first_call_whole = rw first_call_stores refl

ingest_document_task-ok_example :
    (content : List ℕ) × (ps : List Piece) × (meta : Meta) × (given_or_staged ℕ
        (services true)
        none
        task
        staged_library.staged
      ≡ ok content)
    × (parsed ℕ (services true) task content ≡ ok (ps, meta))
    × IsIndexed 0 ps
    × (map piece_of (own_chunks 3 after_first.chunks) ≡ ps)
    × (1 ≡ length ps)
    × IsStoredRow 3 1 after_first.documents
    × (any (λ f. f.0 == 3) after_first.staged ≡ false)
ingest_document_task-ok_example =
    ingest_document_task-ok (services true) request task none 0 3 1 staged_library after_first
      first_call_whole

ingest_document_task_redelivered_example :
    let (e, l'') = ingest_document_task ℕ (services true) request task none 0 after_first in
    ((message : String) × (e ≡ returned (gave_up 3 message)))
    × RowHas 3 failed l''.documents
    × (own_chunks 3 l''.chunks ≡ [])
ingest_document_task_redelivered_example =
    ingest_document_task_redelivered (services true) (services true) request request task 0 0 3 1
      staged_library after_first first_call_whole

-- a table that is uploaded
abbrev table_file : Upload
table_file = record {
  content = 37 ∷ [];
  content_type = none;
  filename = some "t.csv";
  relative_path = none;
  segment_id = none;
  commodity = none;
}

table_passes : checked_upload ℕ working default_settings table_file ≡ ok (csv, "t.csv")
unfolding checked_upload bad_mime_type has_valid_magic display_name path_pieces path_parts
    last_chars take_chars drop_chars source_type_for source_type_of_suffix split_on words join_with
table_passes = refl

table_parses :
    parsed ℕ (services true) (queued_task working (services true) request csv "t.csv") (37 ∷ [])
    ≡ ok (piece ∷ [], record no_meta { row_count = 2 })
unfolding parsed parse load_csv blocks block_pieces lines_from line_of part_of pieces_of_text
    reindex chunk_text windows numbered approx_tokens split_on words join_with
table_parses = refl

ingest_file-stored_example :
    let t = queued_task working (services true) request csv "t.csv" in
    let l' = (ingest_file ℕ working default_settings request ann table_file library).1 in
    let (e, l'') = ingest_document_task ℕ (services true) request t none 0 l' in
    (l'.queue ≡ [] ++ t ∷ [])
    × (e ≡ returned (done 9 1))
    × (map piece_of (own_chunks 9 l''.chunks) ≡ piece ∷ [])
    × IsStoredRow 9 1 l''.documents
    × (any (λ f. f.0 == 9) l''.staged ≡ false)
unfolding embed_all zip_chunks chunk_of
ingest_file-stored_example =
    ingest_file-stored working (services true) default_settings request request ann table_file
      library 0 csv "t.csv" "task-1" (piece ∷ []) (record no_meta { row_count = 2 }) ((1 ∷ []) ∷ [])
      (chunk_of 9 piece (1 ∷ []) ∷ []) table_passes refl refl table_parses refl refl

abbrev no_name : String → String → Bool
no_name name text = false

one_page : (list_documents no_name 1 0 none none library.documents).total ≤ 2
unfolding list_documents
one_page = omega arith

list_documents_complete_example :
    let page = list_documents no_name 1 0 none none library.documents in
    (ms : List Document) × (items_of_pages no_name 2 1 0 none none library.documents
      ≡ map item_of ms)
    × All (λ d. Memᴰ d library.documents × Passes no_name none none d) ms
    × DistinctKeys document_id ms
    × NewestFirst ms
    × All (λ d. Passes no_name none none d → any (λ x. x.id == d.id) ms ≡ true) library.documents
    × (length ms ≡ page.total)
    × (page.summary.documents ≡ 1)
list_documents_complete_example =
    list_documents_complete no_name 2 1 0 none none library.documents (tt, tt) one_page

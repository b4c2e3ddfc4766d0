-- ===== src/Tests/Uploads.antt =====
-- Runs of the operations on documents.
use pipe_line_gpt_backend.Prelude.{
  map, length, All, arith, ◌≤◌, Bool, true, false, ℕ, suc, if◌then◌else◌, String, ◌≡◌, refl, false,
  none, some, List, [], ◌∷◌, find, any, ◌==◌, split_on, words, join_with, take_chars, drop_chars,
}
use pipe_line_gpt_backend.Exec.{Outcome, ok, err, HttpError, http}
use pipe_line_gpt_backend.Config.{default_settings}
use pipe_line_gpt_backend.Models.{Document, pending, completed, Chunk, Request}
use pipe_line_gpt_backend.FileTypes.{
  pdf, source_type_for, source_type_of_suffix, has_valid_magic, display_name, path_pieces,
  path_parts, last_chars, clean_tag,
}
use pipe_line_gpt_backend.Documents.{
  Library, Uploads, Upload, IngestResponse, DocumentTagsUpdate, checked_upload, submit_document,
  ingest_file, bad_mime_type, delete_document, found_document,
}
use pipe_line_gpt_backend.Documents.Once.{
  ingest_file_once, ingest_file_stranded, delete_document-ok,
}
use pipe_line_gpt_backend.Documents.Consistent.{IsConsistent, Operation, ingest, tag, remove}
use pipe_line_gpt_backend.BulkImport.{
  File, Options, counted, inspect, existing, queue_file, import_file, import_files, import_folder,
}
use pipe_line_gpt_backend.BulkImport.DryRun.{import_folder-dry, total}
use pipe_line_gpt_backend.BulkImport.Repeated.{import_folder_again}
use pipe_line_gpt_backend.Chunker.{Piece, chunk_text, windows}
use pipe_line_gpt_backend.Chunker.Covers.{IsNumbered, all_words, chunk_text_covers}
use pipe_line_gpt_backend.Tests.Fixtures.{ann}

-- A queue that takes every message or none, and a cache that counts its invalidations.
abbrev uploads : Outcome HttpError String → Uploads ℕ
uploads answer = record {
  lower = λ t. t;
  str = λ n. "50";
  content_hash = λ bytes. elim bytes [ [] ↦ "empty" | b ∷ bs ↦ (if b == 37 then "h37" else "h80") ];
  delay = λ t. answer;
  invalidate = λ n. suc n;
}

abbrev pub working : Uploads ℕ
working = uploads (ok "task-1")

abbrev broken : Uploads ℕ
broken = uploads (err (http 500 "Internal Server Error"))

abbrev pub report : Document
report = record {
  id = 3;
  filename = "old.csv";
  source_type = "csv";
  sha256_hash = "h80";
  ingest_date = 1;
  operator_id = none;
  segment_id = none;
  commodity = some "Gas";
  year_from = none;
  year_to = none;
  chunk_count = 1;
  status = completed;
  insights_json = none;
}

abbrev pub part : Chunk
part = record {
  document_id = 3;
  chunk_index = 0;
  text_content = "text";
  token_count = 1;
  page_ref = none;
  section_label = none;
  embedding = none;
}

abbrev pub library : Library ℕ
library = record {
  documents = report ∷ [];
  chunks = part ∷ [];
  staged = [];
  queue = [];
  cache = 0;
  audit_events = [];
}

abbrev pub request : Request
request = record { now = 1000; uuid = 9; event_uuid = 10; ip = none }

-- a file that starts with "%PDF-"
abbrev pub file : Upload
file = record {
  content = 37 ∷ 80 ∷ 68 ∷ 70 ∷ 45 ∷ 49 ∷ [];
  content_type = some "application/pdf";
  filename = some "C:\\scans\\report.pdf";
  relative_path = some "2009/./ILI/report.pdf";
  segment_id = some "  SEG-TX-4B ";
  commodity = none;
}

-- The names, kinds and tags of the file.
names :
    (display_name "C:\\scans\\report.pdf" (some "2009/./ILI/report.pdf") ≡ "2009/ILI/report.pdf")
    × (display_name "a/b.csv" (some "x/c.csv") ≡ "b.csv")
    × (source_type_for (λ t. t) "a.b.pdf" ≡ some pdf)
    × (source_type_for (λ t. t) "pdf" ≡ none)
    × (clean_tag (some " SEG  TX ") ≡ some "SEG TX")
    × (clean_tag (some "  ") ≡ none)
unfolding display_name path_pieces path_parts last_chars take_chars drop_chars source_type_for
    source_type_of_suffix split_on clean_tag words join_with
names = (refl, refl, refl, refl, refl, refl)

passes : checked_upload ℕ working default_settings file ≡ ok (pdf, "2009/ILI/report.pdf")
unfolding checked_upload bad_mime_type has_valid_magic display_name path_pieces path_parts
    last_chars take_chars drop_chars source_type_for source_type_of_suffix split_on words join_with
passes = refl

passes_broken : checked_upload ℕ broken default_settings file ≡ ok (pdf, "2009/ILI/report.pdf")
unfolding checked_upload bad_mime_type has_valid_magic display_name path_pieces path_parts
    last_chars take_chars drop_chars source_type_for source_type_of_suffix split_on words join_with
passes_broken = refl

abbrev queued : IngestResponse
queued = record { task_id = "task-1"; document_id = 9; filename = "2009/ILI/report.pdf" }

ingest_file_once_example :
    let l' = (ingest_file ℕ working default_settings request ann file library).1 in
    ingest_file ℕ working default_settings request ann file l' ≡ (
      ok (record { task_id = "dedup-skip"; document_id = 9; filename = "2009/ILI/report.pdf" }),
      l',
    )
unfolding ingest_file submit_document checked_upload bad_mime_type has_valid_magic display_name
    path_pieces path_parts last_chars take_chars drop_chars source_type_for source_type_of_suffix
    split_on words join_with
ingest_file_once_example =
    ingest_file_once ℕ working default_settings request request ann ann file file library
      (ingest_file ℕ working default_settings request ann file library).1 queued pdf
      "2009/ILI/report.pdf" refl refl passes

ingest_file_stranded_example :
    let l' = (ingest_file ℕ broken default_settings request ann file library).1 in
    ((ingest_file ℕ broken default_settings request ann file library).0
      ≡ err (http 500 "Internal Server Error"))
    × ((d : Document) × (find (λ x. x.id == 9) l'.documents ≡ some d) × (d.status ≡ pending))
    × (l'.queue ≡ [])
    × (ingest_file ℕ broken default_settings request ann file l' ≡ (
      ok (record { task_id = "dedup-skip"; document_id = 9; filename = "2009/ILI/report.pdf" }),
      l',
    ))
ingest_file_stranded_example =
    ingest_file_stranded ℕ broken default_settings request request ann ann file file library
      (http 500 "Internal Server Error") pdf pdf "2009/ILI/report.pdf" "2009/ILI/report.pdf"
      passes_broken refl refl refl passes_broken

abbrev pub tags : DocumentTagsUpdate
tags = record { segment_id = some (some " SEG-1 "); commodity = some none }

delete_document-ok_example :
    let l' = (delete_document ℕ working request ann (some 3) library).1 in
    (find (λ x. x.id == 3) l'.documents ≡ none)
    × (any (λ c. c.document_id == 3) l'.chunks ≡ false)
    × (any (λ f. f.0 == 3) l'.staged ≡ false)
    × (l'.cache ≡ 1)
    × (l'.documents ≡ [])
unfolding delete_document found_document
delete_document-ok_example =
    delete_document-ok ℕ working request ann 3 library
      (delete_document ℕ working request ann (some 3) library).1 1 refl

pub library-IsConsistent : IsConsistent ℕ working library
library-IsConsistent = record { distinct = (refl, tt); chunks_owned = (refl, tt); files_owned = tt }

abbrev operations : List (Request × Operation ℕ working)
operations =
    (request, ingest ann file) ∷ (request, tag ann 9 tags) ∷ (request, remove ann (some 3)) ∷ []

abbrev options : Bool → Options
options dry = record {
  operator_id = "acme";
  max_bytes = 1000;
  summarize = false;
  segment_id = none;
  commodity = none;
  dry_run = dry;
}

-- a PDF, its copy, and a file of another kind
abbrev folder : List File
folder =
    record { path = "2009/a.pdf"; name = "a.pdf"; content = some file.content; request = request }
    ∷ record { path = "2010/a.pdf"; name = "a.pdf"; content = some file.content; request = request }
    ∷ record { path = "notes.md"; name = "notes.md"; content = some (35 ∷ []); request = request }
    ∷ []

import_folder-dry_example :
    ((import_folder ℕ working (options true) folder library).0 ≡ ok tt)
    × ((import_folder ℕ working (options true) folder library).1.library ≡ library)
    × (total (import_folder ℕ working (options true) folder library).1.counts ≡ 3)
import_folder-dry_example = import_folder-dry ℕ working (options true) folder library refl

-- One file is queued, its copy is a duplicate, and the other one is skipped.
counts_of_folder :
    (import_folder ℕ working (options false) folder library).1.counts
    ≡ record { queued = 1; would_queue = 0; duplicate = 1; skipped = 1 }
unfolding import_folder import_files import_file inspect existing queue_file counted source_type_for
    source_type_of_suffix split_on has_valid_magic last_chars drop_chars
counts_of_folder = refl

import_folder_again_example :
    let r = (import_folder ℕ working (options false) folder library).1 in
    let again = import_folder ℕ working (options false) folder r.library in
    (again.0 ≡ ok tt) × (again.1.library ≡ r.library) × (again.1.counts.queued ≡ 0)
unfolding import_folder import_files import_file inspect existing queue_file counted source_type_for
    source_type_of_suffix split_on has_valid_magic last_chars drop_chars
import_folder_again_example =
    import_folder_again ℕ working (options false) folder library
      (import_folder ℕ working (options false) folder library).1 refl refl

-- Windows of three words that share one.
cut_text :
    windows 9 3 1 ("a" ∷ "b" ∷ "c" ∷ "d" ∷ "e" ∷ "f" ∷ []) 0
    ≡ some (("a" ∷ "b" ∷ "c" ∷ []) ∷ ("c" ∷ "d" ∷ "e" ∷ []) ∷ ("e" ∷ "f" ∷ []) ∷ [])
unfolding windows
cut_text = refl

chunk_text_covers_example :
    (ps : List Piece) × (cs : List (List String)) × (chunk_text "a b c d e f" 4 2
        (some "Page 1")
        none
      ≡ some ps)
    × IsNumbered (some "Page 1") none 0 ps
    × (map (λ p. p.text_content) ps ≡ map (join_with " ") cs)
    × (all_words 1 cs ≡ words "a b c d e f")
    × All (λ c. length c ≤ 3) cs
chunk_text_covers_example = chunk_text_covers "a b c d e f" 4 2 (some "Page 1") none (omega arith)

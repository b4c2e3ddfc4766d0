-- ===== src/BulkImport.antt =====
-- backend/app/services/bulk_import.py: the files of a folder are queued one after the other. `files` is
-- what `_list_files` finds there, sorted and without hidden files. An upload of the same content
-- between the look-up and the commit of a file (IntegrityError) is not modelled.
pub mod DryRun
pub mod Repeated
use pipe_line_gpt_backend.Prelude.{
  ℕ, ◌+◌, String, Bool, true, false, Option, none, some, List, [], ◌∷◌, ◌++◌, find, length, ltb,
  str_eq, ◌==◌, if◌then◌else◌,
}
use pipe_line_gpt_backend.Exec.{
  Exec, Outcome, ok, err, HttpError, pure, gets, modify, lift, ◌>>=◌, ◌>>◌,
}
use pipe_line_gpt_backend.Models.{Document, Json, text_or_null, id_of, Request}
use pipe_line_gpt_backend.Accounts.{audit_event, log_event}
use pipe_line_gpt_backend.FileTypes.{
  SourceType, source_type_text, source_type_for, has_valid_magic, last_chars, clean_tag,
}
use pipe_line_gpt_backend.Documents.{Library, Uploads, Task, new_document, stage, with_hash}

-- A file: its path below the folder, its own name, its bytes (`none` where reading raises OSError),
-- and the random ids that are drawn if it is queued.
pub record File : Type 0 where
  pub path : String
  pub name : String
  pub content : Option (List ℕ)
  pub request : Request

-- QUEUED, WOULD_QUEUE, DUPLICATE and SKIPPED
pub data Verdict : Type 0 where
  queued would_queue duplicate skipped : Verdict

-- the Counter
pub record Counts : Type 0 where
  pub queued : ℕ
  pub would_queue : ℕ
  pub duplicate : ℕ
  pub skipped : ℕ

abbrev pub no_counts : Counts
no_counts = record { queued = 0; would_queue = 0; duplicate = 0; skipped = 0 }

unfoldable pub counted : Verdict → Counts → Counts
counted Verdict.queued n = record n { queued = n.queued + 1 }
counted Verdict.would_queue n = record n { would_queue = n.would_queue + 1 }
counted Verdict.duplicate n = record n { duplicate = n.duplicate + 1 }
counted Verdict.skipped n = record n { skipped = n.skipped + 1 }

-- the keyword arguments of `import_folder`
pub record Options : Type 0 where
  pub operator_id : String
  pub max_bytes : ℕ
  pub summarize : Bool
  pub segment_id : Option String
  pub commodity : Option String
  pub dry_run : Bool

-- `seen_in_run` holds the contents that this run has met, with their names
pub record Run (Cache : Type 0) : Type 0 where
  pub library : Library Cache
  pub seen_in_run : List (String × String)
  pub counts : Counts
  pub report : List (String × Verdict)

abbrev name_in : Option (String × String) → Option String
name_in none = none
name_in (some p) = some p.1

abbrev filename_of : Option Document → Option String
filename_of none = none
filename_of (some d) = some d.filename

-- Python's `a or b`, where an empty text is no name
abbrev or_else : Option String → Option String → Option String
or_else none b = b
or_else (some a) b = if str_eq a "" then b else some a

module _ (Cache : Type 0) (svc : Uploads Cache) where
  abbrev pub Handler : Type 0 → Type 0
  Handler A = Exec (Run Cache) HttpError A

  -- a file that can be read
  abbrev inspect_content : Options → File → List ℕ → Option (SourceType × String)
  inspect_content o f content =
      if length content == 0
      then none
      else if ltb o.max_bytes (length content)
      then none
      else elim (source_type_for svc.lower f.name) [
        | none ↦ none
        | some t ↦ if has_valid_magic t content then some (t, svc.content_hash content) else none
      ]

  -- `_inspect`: the kind of the file and its hash, or `none` where it is skipped
  unfoldable pub inspect : Options → File → Option (SourceType × String)
  inspect o f = elim f.content [ none ↦ none | some content ↦ inspect_content o f content ]

  -- `seen_in_run.get(sha256) or (select(Document.filename) ...).scalar()`
  unfoldable pub existing : String → Run Cache → Option String
  existing sha256 r =
      or_else (name_in (find (λ p. str_eq p.0 sha256) r.seen_in_run))
        (filename_of (with_hash sha256 r.library.documents))

  abbrev count : File → Verdict → Handler (Unit {0})
  count f v = modify (λ r. record r {
    counts = counted v r.counts;
    report = r.report ++ (last_chars f.path, v) ∷ [];
  })

  abbrev bytes_of : File → List ℕ
  bytes_of f = elim f.content [ none ↦ [] | some c ↦ c ]

  -- the row, the staged file, the message to the worker and the audit event of a new file
  unfoldable pub queue_file : Options → File → SourceType → String → Handler (Unit {0})
  queue_file o f t sha256 = do
    let name = last_chars f.path
    let id = f.request.uuid
    modify (λ r. record r {
      library = record r.library {
        staged = stage id (bytes_of f) r.library.staged;
        documents =
            new_document id f.request.now name t sha256 (some o.operator_id) o.segment_id
              o.commodity
            ∷ r.library.documents;
      };
    })
    let task : Task = record {
      document_id = id;
      source_type = t;
      filename = name;
      summarize = o.summarize;
    }
    task_id ← lift (svc.delay task)
    modify (λ r. record r {
      library = record r.library {
        queue = r.library.queue ++ task ∷ [];
        audit_events =
            log_event
              (audit_event f.request "INGEST_SUBMITTED" none (some (id_of id)) (some "document")
                (("filename", Json.text name)
                  ∷ ("source_type", Json.text (source_type_text t))
                  ∷ ("task_id", Json.text task_id)
                  ∷ ("via", Json.text "bulk_import")
                  ∷ ("summarize", Json.flag o.summarize)
                  ∷ ("segment_id", text_or_null (clean_tag o.segment_id))
                  ∷ ("commodity", text_or_null (clean_tag o.commodity))
                  ∷ [])
                none)
              r.library.audit_events;
      };
    })
    count f Verdict.queued

  -- a content that was not met before
  abbrev new_content : Options → File → SourceType → String → Handler (Unit {0})
  new_content o f t sha256 = do
    modify (λ r. record r { seen_in_run = (sha256, last_chars f.path) ∷ r.seen_in_run })
    if o.dry_run then count f Verdict.would_queue else queue_file o f t sha256

  abbrev unless_existing : Options → File → SourceType → String → Option String → Handler (Unit {0})
  unless_existing o f t sha256 (some name) = count f Verdict.duplicate
  unless_existing o f t sha256 none = new_content o f t sha256

  abbrev with_inspected : Options → File → Option (SourceType × String) → Handler (Unit {0})
  with_inspected o f none = count f Verdict.skipped
  with_inspected o f (some (t, sha256)) = do
    known ← gets (existing sha256)
    unless_existing o f t sha256 known

  -- the body of the loop
  unfoldable pub import_file : Options → File → Handler (Unit {0})
  import_file o f = with_inspected o f (inspect o f)

  unfoldable pub import_files : Options → List File → Handler (Unit {0})
  import_files o [] = pure tt
  import_files o (f ∷ fs) = do import_file o f; import_files o fs

  -- `import_folder` on a library, from empty counts
  unfoldable pub import_folder :
      Options → List File → Library Cache → Outcome HttpError (Unit {0}) × Run Cache
  import_folder o files l =
      import_files o files
        (record { library = l; seen_in_run = []; counts = no_counts; report = [] })

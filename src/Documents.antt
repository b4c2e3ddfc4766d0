-- ===== src/Documents.antt =====
-- backend/app/routers/ingest.py: the upload of a document, the change of its tags, and its deletion,
-- over the tables, the staging directory of backend/app/services/upload_store.py and the worker's
-- queue. The callers have passed `RequireOperator` (upload) and `RequireEngineer` (tags, deletion).
pub mod Consistent
pub mod Once
pub mod Rows
pub mod Listing
pub mod Pages
use Prim.Native.String.{◌++◌ as str_append}
use pipe_line_gpt_backend.Prelude.{
  ◌/◌, ℕ, ◌+◌, String, ◌≡◌, Bool, true, false, not, ◌&&◌, ◌||◌, Option, none, some, List, [], ◌∷◌,
  ◌++◌, find, any, select, length, ltb, update_where, str_eq, ◌==◌, if◌then◌else◌,
}
use pipe_line_gpt_backend.Exec.{
  Exec, Outcome, ok, err, HttpError, http, pure, raise_if, gets, modify, lift, ◌>>=◌, ◌>>◌,
}
use pipe_line_gpt_backend.Config.{Settings}
use pipe_line_gpt_backend.Models.{
  User, Role, operator, engineer, admin, Document, DocumentStatus, pending, Chunk, Json,
  text_or_null, id_of, AuditEvent, Request,
}
use pipe_line_gpt_backend.Accounts.{audit_event, log_event}
use pipe_line_gpt_backend.FileTypes.{
  SourceType, pdf, csv, phmsa, phmsa_zip, source_type_text, source_type_for, has_valid_magic,
  display_name, clean_tag,
}

-- a message to the worker: `ingest_document_task.delay`, whose `summarize` defaults to true
pub record Task : Type 0 where
  pub document_id : ℕ
  pub source_type : SourceType
  pub filename : String
  pub summarize : Bool

pub record Library (Cache : Type 0) : Type 0 where
  pub documents : List Document
  pub chunks : List Chunk
  pub staged : List (ℕ × List ℕ)
  pub queue : List Task
  pub cache : Cache
  pub audit_events : List AuditEvent

-- What the endpoints take from outside: str.lower, the text of a number, hashlib's sha256 as hexadecimal text, the answer
-- of celery to a message (the id of the task, or its exception), and the invalidation of the
-- semantic cache.
pub record Uploads (Cache : Type 0) : Type 0 where
  pub lower : String → String
  pub str : ℕ → String
  pub content_hash : List ℕ → String
  pub delay : Task → Outcome HttpError String
  pub invalidate : Cache → Cache

pub record Upload : Type 0 where
  pub content : List ℕ
  pub content_type : Option String
  pub filename : Option String
  pub relative_path : Option String
  pub segment_id : Option String
  pub commodity : Option String

pub record IngestResponse : Type 0 where
  pub task_id : String
  pub document_id : ℕ
  pub filename : String

-- ALLOWED_MIME_TYPES
abbrev pub allowed_mime_types : List String
allowed_mime_types =
    "application/pdf" ∷ "text/csv" ∷ "text/plain" ∷ "application/zip"
    ∷ "application/x-zip-compressed" ∷ "application/octet-stream" ∷ "application/vnd.ms-excel"
    ∷ "text/tab-separated-values" ∷ []

-- a type that is given and not allowed
unfoldable pub bad_mime_type : Option String → Bool
bad_mime_type none = false
bad_mime_type (some t) = not (str_eq t "") && not (any (str_eq t) allowed_mime_types)

abbrev text_of : Option String → String
text_of none = ""
text_of (some t) = t

abbrev kind_of : SourceType → String
kind_of pdf = "PDF"
kind_of _ = "ZIP"

-- `file.filename or "upload"`
abbrev name_or_upload : Option String → String
name_or_upload none = "upload"
name_or_upload (some t) = if str_eq t "" then "upload" else t

-- `upload_store.remove`
abbrev pub unstage : ℕ → List (ℕ × List ℕ) → List (ℕ × List ℕ)
unstage id staged = select (λ f. not (f.0 == id)) staged

-- `upload_store.save`
abbrev pub stage : ℕ → List ℕ → List (ℕ × List ℕ) → List (ℕ × List ℕ)
stage id content staged = (id, content) ∷ unstage id staged

-- the columns that are not in the upload keep their defaults
abbrev pub new_document :
    ℕ → ℕ → String → SourceType → String → Option String → Option String → Option String → Document
new_document id now filename source_type sha256 operator_id segment_id commodity = record {
  id = id;
  filename = filename;
  source_type = source_type_text source_type;
  sha256_hash = sha256;
  ingest_date = now;
  operator_id = operator_id;
  segment_id = clean_tag segment_id;
  commodity = clean_tag commodity;
  year_from = none;
  year_to = none;
  chunk_count = 0;
  status = pending;
  insights_json = none;
}

abbrev pub with_hash : String → List Document → Option Document
with_hash sha256 documents = find (λ d. str_eq d.sha256_hash sha256) documents

-- the document of an id, or 404
unfoldable pub found_document : Option Document → Outcome HttpError Document
found_document none = err (http 404 "Document not found.")
found_document (some d) = ok d

abbrev pub role_text : Role → String
role_text operator = "OPERATOR"
role_text engineer = "ENGINEER"
role_text admin = "ADMIN"

-- a tag that the body may leave out; null clears it
pub record DocumentTagsUpdate : Type 0 where
  pub segment_id : Option (Option String)
  pub commodity : Option (Option String)

abbrev same_tag : Option String → Option String → Bool
same_tag none none = true
same_tag (some a) (some b) = str_eq a b
same_tag _ _ = false

-- one field of the loop of `update_document_tags`: its change, if it is one
unfoldable pub change_of :
    String → Option (Option String) → Option String → List (String × Option String × Option String)
unfolding clean_tag
change_of field none old = []
change_of field (some value) old =
    if same_tag (clean_tag value) old then [] else (field, old, clean_tag value) ∷ []

-- `changes`, in the order of `sorted(body.model_fields_set)`
abbrev pub all_changes :
    DocumentTagsUpdate → Document → List (String × Option String × Option String)
all_changes body d =
    change_of "commodity" body.commodity d.commodity
    ++ change_of "segment_id" body.segment_id d.segment_id

-- the value of a field afterwards
abbrev pub tag_after : Option (Option String) → Option String → Option String
tag_after none old = old
tag_after (some value) old = clean_tag value

module _ (Cache : Type 0) (svc : Uploads Cache) where
  abbrev pub Handler : Type 0 → Type 0
  Handler A = Exec (Library Cache) HttpError A

  abbrev log : AuditEvent → Handler (Unit {0})
  log e = modify (λ l. record l { audit_events = log_event e l.audit_events })

  -- the text of the error for a file that is too large, with the limit in MB
  abbrev too_large : Settings → String
  too_large s =
      str_append "File exceeds " (str_append (svc.str (s.upload_max_bytes / 1048576)) " MB limit.")

  -- the checks of the upload: the kind of the file and the name of the document
  unfoldable pub checked_upload : Settings → Upload → Outcome HttpError (SourceType × String)
  checked_upload s up =
      let filename = display_name (name_or_upload up.filename) up.relative_path in
      if ltb s.upload_max_bytes (length up.content)
      then err (http 413 (too_large s))
      else if length up.content == 0
      then err (http 400 "Uploaded file is empty.")
      else if bad_mime_type up.content_type
      then err (http 415 (str_append "Unsupported file type: " (text_of up.content_type)))
      else elim (source_type_for svc.lower filename) [
        | none ↦ err (http 415 "Unsupported file extension. Allowed: .csv, .pdf, .tsv, .txt, .zip")
        | some t ↦
            if has_valid_magic t up.content
            then ok (t, filename)
            else err (http 415 (str_append "File is not a valid " (str_append (kind_of t) ".")))
      ]

  -- the end of an upload whose content is new
  unfoldable pub submit_document :
      Request → User → Upload → SourceType → String → String → Handler IngestResponse
  submit_document q user up t filename sha256 = do
    modify (λ l. record l { staged = stage q.uuid up.content l.staged })
    modify (λ l. record l {
      documents =
          new_document q.uuid q.now filename t sha256 (some user.email) up.segment_id up.commodity
          ∷ l.documents;
    })
    let task : Task = record {
      document_id = q.uuid;
      source_type = t;
      filename = filename;
      summarize = true;
    }
    task_id ← lift (svc.delay task)
    modify (λ l. record l { queue = l.queue ++ task ∷ [] })
    log (
        audit_event q "INGEST_SUBMITTED" (some user.id) (some (id_of q.uuid)) (some "document")
          (("filename", Json.text filename)
            ∷ ("source_type", Json.text (source_type_text t))
            ∷ ("task_id", Json.text task_id)
            ∷ ("segment_id", text_or_null (clean_tag up.segment_id))
            ∷ ("commodity", text_or_null (clean_tag up.commodity))
            ∷ [])
          q.ip)
    pure (record { task_id = task_id; document_id = q.uuid; filename = filename })

  -- a content that is there already is not ingested again
  abbrev unless_known :
      Request
      → User
      → Upload
      → SourceType
      → String
      → String
      → Option Document
      → Handler IngestResponse
  unless_known q user up t filename sha256 (some d) =
      pure (record { task_id = "dedup-skip"; document_id = d.id; filename = filename })
  unless_known q user up t filename sha256 none = submit_document q user up t filename sha256

  unfoldable pub ingest_file : Settings → Request → User → Upload → Handler IngestResponse
  ingest_file s q user up = do
    (t, filename) ← lift (checked_upload s up)
    known ← gets (λ l. with_hash (svc.content_hash up.content) l.documents)
    unless_known q user up t filename (svc.content_hash up.content) known

  -- the commit, the cache and the audit trail, where something changed
  abbrev save_tags :
      Request
      → User
      → Document
      → List (String × Option String × Option String)
      → Document
      → Handler Document
  save_tags q user d [] d' = pure d'
  save_tags q user d (c ∷ cs) d' = do
    modify (λ l. record l {
      documents =
          update_where (λ x. x.id == d.id)
            (λ x. record x { segment_id = d'.segment_id; commodity = d'.commodity }) l.documents;
    })
    modify (λ l. record l { cache = svc.invalidate l.cache })
    log (
        audit_event q "DOCUMENT_TAGS_UPDATED" (some user.id) (some (id_of d.id)) (some "document")
          (("filename", Json.text d.filename) ∷ ("changes", Json.changes (c ∷ cs)) ∷ []) q.ip)
    pure d'

  unfoldable pub update_document_tags : Request → User → ℕ → DocumentTagsUpdate → Handler Document
  update_document_tags q user document_id body = do
    row ← gets (λ l. find (λ d. d.id == document_id) l.documents)
    d ← lift (found_document row)
    save_tags q user d (all_changes body d) (record d {
      segment_id = tag_after body.segment_id d.segment_id;
      commodity = tag_after body.commodity d.commodity;
    })

  -- `uuid.UUID(document_id)`
  abbrev parsed_id : Option ℕ → Outcome HttpError ℕ
  parsed_id none = err (http 400 "Invalid document ID.")
  parsed_id (some id) = ok id

  -- `delete_document`, where `none` is a text that is no uuid; the number of chunks that it reports
  unfoldable pub delete_document : Request → User → Option ℕ → Handler ℕ
  delete_document q user text = do
    id ← lift (parsed_id text)
    row ← gets (λ l. find (λ d. d.id == id) l.documents)
    d ← lift (found_document row)
    modify (λ l. record l {
      documents = select (λ x. not (x.id == d.id)) l.documents;
      chunks = select (λ c. not (c.document_id == d.id)) l.chunks;
    })
    modify (λ l. record l { staged = unstage id l.staged })
    modify (λ l. record l { cache = svc.invalidate l.cache })
    log (
        audit_event q "DOCUMENT_DELETED" (some user.id) (some (id_of id)) (some "document")
          (("filename", Json.text d.filename)
            ∷ ("chunk_count", Json.number d.chunk_count)
            ∷ ("deleted_by_role", Json.text (role_text user.role))
            ∷ [])
          q.ip)
    pure d.chunk_count

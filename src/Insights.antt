-- ===== src/Insights.antt =====
-- backend/app/services/insights_refresh.py, with extract_document_insights of
-- backend/app/services/insights.py: every summarised document is analysed again, in batches that
-- queue one another. Redis keeps the lock of the run and its progress.
pub mod Refresh
pub mod Pass
pub mod Chain
pub mod Single
use pipe_line_gpt_backend.Prelude.{
  ℕ, zero, suc, ◌+◌, ◌≤◌, ◌<◌, min, String, ◌≡◌, Bool, true, false, not, ◌&&◌, Option, none, some,
  List, [], ◌∷◌, ◌++◌, select, update_where, take, length, last, str_eq, ltb, leb, ◌==◌,
  if◌then◌else◌, sort_by, by_key,
}
use pipe_line_gpt_backend.Models.{
  Document, DocumentStatus, pending, processing, completed, failed, Chunk, Json, Payload, Request,
  AuditEvent, flag,
}
use pipe_line_gpt_backend.Accounts.{audit_event, log_event}

abbrev pub batch_size : ℕ
batch_size = 25

abbrev pub lock_ttl_s : ℕ
lock_ttl_s = 3600

abbrev pub progress_ttl_s : ℕ
progress_ttl_s = 86400

pub data RunState : Type 0 where
  idle running done interrupted : RunState

-- the hash under PROGRESS_KEY as `start` writes it; the id of a run is a number
pub record Progress : Type 0 where
  pub run_id : ℕ
  pub state : RunState
  pub total : ℕ
  pub refreshed : ℕ
  pub failures : ℕ
  pub started_at : ℕ
  pub finished_at : Option ℕ

abbrev pub count_done : Progress → Progress
count_done p = record p { refreshed = p.refreshed + 1 }

abbrev pub count_failed : Progress → Progress
count_failed p = record p { failures = p.failures + 1 }

abbrev pub finished : ℕ → Progress → Progress
finished now p = record p { state = done; finished_at = some now }

-- What is under PROGRESS_KEY: the hash of a start, or one without its run_id, which HINCRBY and HSET
-- make where that has expired.
pub data Hash : Type 0 where
  whole : Progress → Hash
  remnant : Hash

abbrev pub after_change : (Progress → Progress) → Option Hash → Option Hash
after_change f none = none
after_change f (some (whole p)) = some (whole (f p))
after_change f (some remnant) = some remnant

-- The two keys in Redis, with what its documentation says of the commands. A command takes the time
-- at which the server runs it; `lock s u` and `progress s u` are the values at a time. A change of a
-- hash that is there keeps its expiry; a change of one that is not there makes one that has none.
pub record RunStore : Type 1 where
  pub Store : Type 0
  pub lock : Store → ℕ → Option ℕ
  pub progress : Store → ℕ → Option Hash
  -- SET run NX EX ttl: the new store, and whether the key was set
  pub set_lock : Store → ℕ → ℕ → ℕ → Store × Bool
  pub expire_lock : Store → ℕ → ℕ → Store
  pub delete_lock : Store → ℕ → Store
  -- DELETE, HSET and EXPIRE of a new hash
  pub new_progress : Store → ℕ → Progress → ℕ → Store
  -- HINCRBY and HSET of fields of the hash
  pub change_progress : Store → ℕ → (Progress → Progress) → Store
  pub set_lock-free :
      (s : Store) (t run ttl : ℕ) → lock s t ≡ none → (set_lock s t run ttl).1 ≡ true
  pub set_lock-held :
      (s : Store) (t run ttl other : ℕ) → lock s t ≡ some other → set_lock s t run ttl ≡ (s, false)
  pub lock-set_lock :
      (s : Store) (t run ttl u : ℕ)
      → lock s t ≡ none
      → t ≤ u
      → u < t + ttl
      → lock (set_lock s t run ttl).0 u ≡ some run
  pub progress-set_lock :
      (s : Store) (t run ttl u : ℕ) → progress (set_lock s t run ttl).0 u ≡ progress s u
  pub lock-expire_lock :
      (s : Store) (t ttl u run : ℕ)
      → lock s t ≡ some run
      → t ≤ u
      → u < t + ttl
      → lock (expire_lock s t ttl) u ≡ some run
  pub progress-expire_lock :
      (s : Store) (t ttl u : ℕ) → progress (expire_lock s t ttl) u ≡ progress s u
  pub lock-delete_lock : (s : Store) (t u : ℕ) → t ≤ u → lock (delete_lock s t) u ≡ none
  pub progress-delete_lock : (s : Store) (t u : ℕ) → progress (delete_lock s t) u ≡ progress s u
  pub lock-new_progress :
      (s : Store) (t : ℕ) (p : Progress) (ttl u : ℕ) → lock (new_progress s t p ttl) u ≡ lock s u
  pub progress-new_progress :
      (s : Store) (t : ℕ) (p : Progress) (ttl u : ℕ)
      → t ≤ u
      → u < t + ttl
      → progress (new_progress s t p ttl) u ≡ some (whole p)
  pub lock-change_progress :
      (s : Store) (t : ℕ) (f : Progress → Progress) (u : ℕ)
      → lock (change_progress s t f) u ≡ lock s u
  pub progress-change_there :
      (s : Store) (t : ℕ) (f : Progress → Progress) (u : ℕ) (h : Hash)
      → progress s t ≡ some h
      → t ≤ u
      → progress (change_progress s t f) u ≡ after_change f (progress s u)
  pub progress-change_gone :
      (s : Store) (t : ℕ) (f : Progress → Progress) (u : ℕ)
      → progress s t ≡ none
      → t ≤ u
      → progress (change_progress s t f) u ≡ some remnant

-- the part of a chunk that goes into the prompt
pub record Sample : Type 0 where
  pub chunk_index : ℕ
  pub text_content : String
  pub section_label : Option String

abbrev pub sample_of : Chunk → Sample
sample_of c = record {
  chunk_index = c.chunk_index;
  text_content = c.text_content;
  section_label = c.section_label;
}

abbrev samples_of : List Chunk → List Sample
samples_of [] = []
samples_of (c ∷ cs) = sample_of c ∷ samples_of cs

-- `insights_json["skipped"]` is true
unfoldable pub is_skipped : Payload → Bool
is_skipped [] = false
is_skipped ((k, flag true) ∷ p) = if str_eq k "skipped" then true else is_skipped p
is_skipped ((k, v) ∷ p) = if str_eq k "skipped" then false else is_skipped p

-- `_eligible`
unfoldable pub eligible : Document → Bool
unfolding is_skipped
eligible d = is_done d.status && not_skipped d.insights_json
  where
    is_done : DocumentStatus → Bool
    is_done completed = true
    is_done pending = false
    is_done processing = false
    is_done failed = false

    not_skipped : Option Payload → Bool
    not_skipped none = true
    not_skipped (some p) = not (is_skipped p)

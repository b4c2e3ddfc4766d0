-- ===== src/Insights/Refresh.antt =====
-- backend/app/services/insights_refresh.py: the status, the start and the batches of a refresh, and the
-- task of backend/app/tasks/celery_app.py that runs a batch and queues the next one.
use pipe_line_gpt_backend.Prelude.{
  ℕ, ◌*◌, leb, min, String, Bool, true, false, ◌&&◌, Option, none, some, List, [], ◌∷◌, ◌++◌,
  select, update_where, take, length, last, ltb, ◌==◌, if◌then◌else◌, sort_by, by_key,
}
use Prim.Native.Nat.{◌^◌}
use pipe_line_gpt_backend.Exec.{Outcome, ok, err}
use pipe_line_gpt_backend.Models.{Document, Chunk, Json, Payload, Request, AuditEvent}
use pipe_line_gpt_backend.Accounts.{audit_event, log_event}
use pipe_line_gpt_backend.Worker.{max_retries}
use pipe_line_gpt_backend.Insights.{
  RunState, idle, running, done, interrupted, Progress, Hash, whole, remnant, RunStore, Sample,
  samples_of, eligible, batch_size, lock_ttl_s, progress_ttl_s, count_done, count_failed, finished,
}

-- what `status` returns
pub record Status : Type 0 where
  pub state : RunState
  pub total : ℕ
  pub done : ℕ
  pub failed : ℕ
  pub started_at : Option ℕ
  pub finished_at : Option ℕ

abbrev pub idle_status : Status
idle_status = record {
  state = idle;
  total = 0;
  done = 0;
  failed = 0;
  started_at = none;
  finished_at = none;
}

abbrev pub holds : Option ℕ → ℕ → Bool
holds none run = false
holds (some r) run = r == run

-- a run that says it is running and has lost its lock was interrupted
abbrev state_shown : RunState → Bool → RunState
state_shown running true = running
state_shown running false = interrupted
state_shown idle locked = idle
state_shown done locked = done
state_shown interrupted locked = interrupted

abbrev status_of : Option ℕ → Option Hash → Outcome String Status
status_of lock none = ok idle_status
status_of lock (some remnant) = err "KeyError"
status_of lock (some (whole p)) = ok (record {
  state = state_shown p.state (holds lock p.run_id);
  total = p.total;
  done = min p.refreshed p.total;
  failed = p.failures;
  started_at = some p.started_at;
  finished_at = p.finished_at;
})

-- `id > after_id`, where there is one
abbrev pub comes_after : Option ℕ → Document → Bool
comes_after none d = true
comes_after (some id) d = ltb id d.id

-- the eligible documents behind the cursor, by id
unfoldable pub eligible_after : Option ℕ → List Document → List Document
unfolding sort_by eligible
eligible_after after ds =
    sort_by (by_key (λ d. d.id)) (select (λ d. eligible d && comes_after after d) ds)

-- `extract` is the model's answer as JSON, and none where it fails; `{}` then
abbrev pub extract_document_insights :
    (String → List Sample → Option Payload) → String → List Sample → Payload
extract_document_insights extract filename samples = elim (extract filename samples) [
  | none ↦ []
  | some p ↦ p
]

-- the first eight chunks of a document
abbrev pub sample : Document → List Chunk → List Sample
sample d cs =
    samples_of
      (take 8 (sort_by (by_key (λ c. c.chunk_index)) (select (λ c. c.document_id == d.id) cs)))

-- how a call of the task ends
pub data BatchEnd : Type 0 where
  returned : Option ℕ → BatchEnd
  retry : ℕ → BatchEnd
  raised : String → BatchEnd

module _ (r : RunStore) where
  open r use {
    Store, lock, progress, set_lock, expire_lock, delete_lock, new_progress, change_progress,
  }

  -- the tables, Redis, the messages to the worker (a run and its cursor) and the audit trail
  pub record State : Type 0 where
    pub documents : List Document
    pub chunks : List Chunk
    pub store : Store
    pub queue : List (ℕ × Option ℕ)
    pub audit_events : List AuditEvent

  -- a hash without run_id raises a KeyError
  unfoldable pub status : ℕ → Store → Outcome String Status
  status now s = status_of (lock s now) (progress s now)

  abbrev pub started : Request → ℕ → ℕ → Progress
  started q run total = record {
    run_id = run;
    state = running;
    total = total;
    refreshed = 0;
    failures = 0;
    started_at = q.now;
    finished_at = none;
  }

  -- the status with the flag already_running
  abbrev pub with_flag : Bool → Outcome String Status → Outcome String (Status × Bool)
  with_flag b (err e) = err e
  with_flag b (ok s) = ok (s, b)

  -- the lock is won: the run starts
  abbrev start_run : Request → Option ℕ → ℕ → State → Outcome String (Status × Bool) × State
  start_run q actor total st =
      let s = new_progress st.store q.now (started q q.uuid total) progress_ttl_s in
      (
        with_flag false (status q.now s),
        record st {
          store = s;
          queue = st.queue ++ (q.uuid, none) ∷ [];
          audit_events =
              log_event
                (audit_event q "INSIGHTS_REFRESH_STARTED" actor none none
                  (("run_id", Json.number q.uuid) ∷ ("documents", Json.number total) ∷ []) none)
                st.audit_events;
        },
      )

  abbrev if_locked :
      Request → Option ℕ → State → Store × Bool → Outcome String (Status × Bool) × State
  if_locked q actor st (s, false) = (with_flag true (status q.now s), record st { store = s })
  if_locked q actor st (s, true) =
      start_run q actor (length (eligible_after none st.documents)) (record st { store = s })

  -- `start`: the status, and whether a run was there already
  unfoldable pub start : Request → Option ℕ → State → Outcome String (Status × Bool) × State
  unfolding status eligible_after
  start q actor st = if_locked q actor st (set_lock st.store q.now q.uuid lock_ttl_s)

  -- nothing usable keeps the insights that were there
  abbrev pub with_fresh : ℕ → Document → Payload → State → State
  with_fresh now d [] st = record st { store = change_progress st.store now count_failed }
  with_fresh now d (p ∷ ps) st = record st {
    documents =
        update_where (λ x. x.id == d.id) (λ x. record x { insights_json = some (p ∷ ps) })
          st.documents;
    store = change_progress st.store now count_done;
  }

  module _ (extract : String → List Sample → Option Payload) where
    -- the loop over the documents of a batch
    unfoldable pub refresh_docs : ℕ → List Document → State → State
    unfolding sort_by
    refresh_docs now [] st = st
    refresh_docs now (d ∷ ds) st =
        refresh_docs now ds
          (with_fresh now d (extract_document_insights extract d.filename (sample d st.chunks)) st)

    -- the audit event of a run that is done, where its status can be read
    abbrev log_done :
        Request → ℕ → Outcome String Status → State → Outcome String (Option ℕ) × State
    log_done q run (err e) st = (err e, st)
    log_done q run (ok final) st = (
      ok none,
      record st {
        audit_events =
            log_event
              (audit_event q "INSIGHTS_REFRESH_COMPLETED" none none none
                (("run_id", Json.number run)
                  ∷ ("refreshed", Json.number final.done)
                  ∷ ("failed", Json.number final.failed)
                  ∷ [])
                none)
              st.audit_events;
      },
    )

    -- the last batch: the run is done
    unfoldable pub finish : Request → ℕ → State → Outcome String (Option ℕ) × State
    unfolding status
    finish q run st =
        let s = change_progress st.store q.now (finished q.now) in
        let s' = if holds (lock s q.now) run then delete_lock s q.now else s in
        log_done q run (status q.now s') (record st { store = s' })

    abbrev id_of_last : Option Document → Option ℕ
    id_of_last none = none
    id_of_last (some d) = some d.id

    -- the batch of a run that holds the lock
    abbrev current_batch : Request → ℕ → List Document → State → Outcome String (Option ℕ) × State
    current_batch q run docs st =
        let st' = refresh_docs q.now docs st in
        if length docs == batch_size then (ok (id_of_last (last docs)), st') else finish q run st'

    -- `run_batch`: the cursor for the next batch, or none
    unfoldable pub run_batch : Request → ℕ → Option ℕ → State → Outcome String (Option ℕ) × State
    unfolding eligible_after refresh_docs finish last
    run_batch q run after st =
        if holds (lock st.store q.now) run
        then current_batch q run (take batch_size (eligible_after after st.documents))
            (record st { store = expire_lock st.store q.now lock_ttl_s })
        else (ok none, st)

    -- a call of the task returns, asks for another call after some seconds, or raises
    abbrev pub batch_end : ℕ → ℕ → Outcome String (Option ℕ) × State → BatchEnd × State
    batch_end run retries (ok none, st) = (returned none, st)
    batch_end run retries (ok (some id), st) =
        (returned (some id), record st { queue = st.queue ++ (run, some id) ∷ [] })
    batch_end run retries (err e, st) =
        if leb max_retries retries then (raised e, st) else (retry (30 * 2 ^ retries), st)

    -- `refresh_insights_batch_task` on a message of the queue, which knows how often it was retried
    unfoldable pub refresh_insights_batch : Request → ℕ → ℕ × Option ℕ → State → BatchEnd × State
    unfolding run_batch
    refresh_insights_batch q retries (run, after) st =
        batch_end run retries (run_batch q run after st)

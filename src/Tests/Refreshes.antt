-- ===== src/Tests/Refreshes.antt =====
-- Runs of the refresh of insights.
use pipe_line_gpt_backend.Prelude.{
  ℕ, ◌+◌, ◌*◌, ◌≤◌, ◌<◌, String, ◌≡◌, refl, Bool, true, false, Option, none, some, List, [], ◌∷◌,
  ◌++◌, length, sym, Bool-cases, inl, inr, ltb, if◌then◌else◌, arith, sort_by, insert_by,
}
use pipe_line_gpt_backend.Exec.{Outcome, ok, err}
use pipe_line_gpt_backend.Models.{Document, Payload, Request, Json}
use pipe_line_gpt_backend.Insights.{
  running, Progress, Hash, whole, remnant, after_change, RunStore, Sample, eligible, is_skipped,
}
use pipe_line_gpt_backend.Insights.Refresh.{
  Status, State, returned, eligible_after, status, start, refresh_insights_batch,
}
use pipe_line_gpt_backend.Insights.Pass.{pass}
use pipe_line_gpt_backend.Insights.Chain.{run_chain, run_chain-pass}
use pipe_line_gpt_backend.Insights.Single.{start_once}
use pipe_line_gpt_backend.Tests.Uploads.{report, request, part}

-- The two keys with their deadlines; the hash may have none.
record Keys : Type 0 where
  locked : Option (ℕ × ℕ)
  hash : Option (Hash × Option ℕ)

abbrev until : {A : Type 0} → ℕ → Option (A × ℕ) → Option A
until now none = none
until now (some (a, deadline)) = if ltb now deadline then some a else none

abbrev take_lock : ℕ → ℕ → Keys → Option ℕ → Keys × Bool
take_lock run deadline k none = (record k { locked = some (run, deadline) }, true)
take_lock run deadline k (some other) = (k, false)

abbrev moved : ℕ → ℕ → Option (ℕ × ℕ) → Option (ℕ × ℕ)
moved now deadline none = none
moved now deadline (some (run, d)) = some (run, if ltb now d then deadline else d)

abbrev hash_at : ℕ → Option (Hash × Option ℕ) → Option Hash
hash_at now none = none
hash_at now (some (h, none)) = some h
hash_at now (some (h, some deadline)) = if ltb now deadline then some h else none

abbrev changed : (Progress → Progress) → Hash → Hash
changed f (whole p) = whole (f p)
changed f remnant = remnant

abbrev change_hash :
    (Progress → Progress) → Option (Hash × Option ℕ) → Option Hash → Option (Hash × Option ℕ)
change_hash f h none = some (remnant, none)
change_hash f none (some now) = none
change_hash f (some (h, d)) (some now) = some (changed f h, d)

until-moved :
    (l : Option (ℕ × ℕ)) (t ttl u run : ℕ)
    → until t l ≡ some run
    → t ≤ u
    → u < t + ttl
    → until u (moved t (t + ttl) l) ≡ some run
until-moved none t ttl u run h le lt = absurd (ground arith)
until-moved (some (n, d)) t ttl u run h le lt = ground arith

after_change-changed :
    (f : Progress → Progress) (h : Hash) → after_change f (some h) ≡ some (changed f h)
after_change-changed f (whole p) = refl
after_change-changed f remnant = refl

hash_at-change_there :
    (k : Option (Hash × Option ℕ)) (f : Progress → Progress) (t u : ℕ) (h : Hash)
    → hash_at t k ≡ some h
    → hash_at u (change_hash f k (hash_at t k)) ≡ after_change f (hash_at u k)
hash_at-change_there none f t u h is = absurd (ground arith)
hash_at-change_there (some (g, none)) f t u h is = sym (after_change-changed f g)
hash_at-change_there (some (g, some d)) f t u h is = rw is (elim (Bool-cases (ltb u d)) [
  | inl live ↦ rw live (sym (after_change-changed f g))
  | inr gone ↦ rw gone refl
])

until-new : {A : Type 0} (a : A) (t ttl u : ℕ) → u < t + ttl → until u (some (a, t + ttl)) ≡ some a
until-new a t ttl u lt = ground arith

hash_at-new : (h : Hash) (t ttl u : ℕ) → u < t + ttl → hash_at u (some (h, some (t + ttl))) ≡ some h
hash_at-new h t ttl u lt = ground arith

take_lock-hash :
    (run d u : ℕ) (k : Keys) (o : Option ℕ)
    → hash_at u (take_lock run d k o).0.hash ≡ hash_at u k.hash
take_lock-hash run d u k none = refl
take_lock-hash run d u k (some other) = refl

abbrev keys : RunStore
keys = record {
  Store = Keys;
  lock = λ k now. until now k.locked;
  progress = λ k now. hash_at now k.hash;
  set_lock = λ k t run ttl. take_lock run (t + ttl) k (until t k.locked);
  expire_lock = λ k t ttl. record k { locked = moved t (t + ttl) k.locked };
  delete_lock = λ k t. record k { locked = none };
  new_progress = λ k t p ttl. record k { hash = some (whole p, some (t + ttl)) };
  change_progress = λ k t f. record k { hash = change_hash f k.hash (hash_at t k.hash) };
  set_lock-free = λ k t run ttl free. rw free refl;
  set_lock-held = λ k t run ttl other held. rw held refl;
  lock-set_lock = λ k t run ttl u free le lt. rw free (until-new run t ttl u lt);
  progress-set_lock = λ k t run ttl u. take_lock-hash run (t + ttl) u k (until t k.locked);
  lock-expire_lock = λ k t ttl u run held le lt. until-moved k.locked t ttl u run held le lt;
  progress-expire_lock = λ k t ttl u. refl;
  lock-delete_lock = λ k t u le. refl;
  progress-delete_lock = λ k t u. refl;
  lock-new_progress = λ k t p ttl u. refl;
  progress-new_progress = λ k t p ttl u le lt. hash_at-new (whole p) t ttl u lt;
  lock-change_progress = λ k t f u. refl;
  progress-change_there = λ k t f u h is le. hash_at-change_there k.hash f t u h is;
  progress-change_gone = λ k t f u gone le. rw gone refl;
}

abbrev no_keys : Keys
no_keys = record { locked = none; hash = none }

abbrev second : Document
second = record report { id = 2; insights_json = some (("summary", Json.text "old") ∷ []) }

abbrev third : Document
third = record report { id = 5; insights_json = some (("skipped", Json.flag true) ∷ []) }

abbrev tables : State keys
tables = record {
  documents = report ∷ second ∷ third ∷ [];
  chunks = part ∷ [];
  store = no_keys;
  queue = [];
  audit_events = [];
}

-- Only the document with a chunk has something to say.
abbrev extract : String → List Sample → Option Payload
extract name samples = elim samples [
  | [] ↦ none
  | s ∷ ss ↦ some (("summary", Json.text "new") ∷ [])
]

abbrev begun : Outcome String (Status × Bool) × State keys
begun = start keys request (some 7) tables

abbrev first_status : Status
first_status = record {
  state = running;
  total = 2;
  done = 0;
  failed = 0;
  started_at = some 1000;
  finished_at = none;
}

begun_new : begun.0 ≡ ok (first_status, false)
unfolding start status eligible_after eligible is_skipped sort_by insert_by
begun_new = refl

begun_whole : begun ≡ (ok (first_status, false), begun.1)
begun_whole = rw begun_new refl

start_once_example :
    (running ≡ running)
    × (2 ≡ length (eligible_after none tables.documents))
    × (first_status.done ≡ 0)
    × (begun.1.queue ≡ [] ++ (9, none) ∷ [])
    × ((s : Status) × (start keys (record request { now = 2000; uuid = 11 }) none begun.1
          ≡ (ok (s, true), begun.1))
        × (s.state ≡ running))
    × (refresh_insights_batch keys extract
          (record request { now = 2000; uuid = 11 })
          1
          (4, none)
          begun.1
        ≡ (returned none, begun.1))
start_once_example =
    start_once keys extract request (record request { now = 2000; uuid = 11 }) (some 7) none
      first_status tables begun.1 4 1 none begun_whole (omega arith) (omega arith) refl

-- A batch every minute.
abbrev batch_at : ℕ → Request
batch_at n = record request { now = 1000 + n * 60 }

begun_lock : keys.lock begun.1.store 1000 ≡ some 9
unfolding start
begun_lock = refl

begun_docs : begun.1.documents ≡ tables.documents
unfolding start
begun_docs = refl

begun_few : length (eligible_after none begun.1.documents) < 25
unfolding start eligible_after eligible is_skipped sort_by insert_by
begun_few = omega arith

run_chain-pass_example :
    (st' : State keys) × (m : ℕ) × (run_chain extract keys 2 batch_at 0 9 0 none begun.1 ≡ some st')
    × (st'.documents
        ≡ pass extract begun.1.chunks (eligible_after none begun.1.documents) begun.1.documents)
    × ((u : ℕ) → (batch_at m).now ≤ u → keys.lock st'.store u ≡ none)
run_chain-pass_example =
    run_chain-pass extract keys 1 batch_at 0 9 none begun.1
      (rw begun_docs ((refl, (refl, tt)), ((refl, tt), (tt, tt)))) begun_lock
      (λ k. (omega arith, omega arith)) begun_few

-- a remnant of the hash: a counter that is written after the hash has expired
late_status :
    status keys 100000 (keys.change_progress begun.1.store 90000 (λ p. p)) ≡ err "KeyError"
unfolding start status
late_status = refl

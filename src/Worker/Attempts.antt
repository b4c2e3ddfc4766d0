-- ===== src/Worker/Attempts.antt =====
-- The calls of the task for one document: they come to an end, and leave the document settled.
use pipe_line_gpt_backend.Prelude.{
  ℕ, zero, suc, ◌+◌, ◌≤◌, ◌<◌, ◌≡◌, refl, Bool, false, Option, none, some, List, [], ◌∷◌, find,
  find-holds, any, update_where, ◌==◌, leb, arith, Option-cases, Bool-cases, ◌⊎◌, inl, inr,
  find-update_where, length,
}
use pipe_line_gpt_backend.Exec.{ok, err}
use pipe_line_gpt_backend.Models.{Document, DocumentStatus, completed, failed, Request}
use pipe_line_gpt_backend.Documents.{Library, Task}
use pipe_line_gpt_backend.Documents.Once.{no_file_left}
use pipe_line_gpt_backend.Worker.{
  Failure, parse_error, time_limit, other, Services, Result, not_found, done, gave_up, Ended, ended,
  returned, retry, raised, max_retries, ingest_async, ingest_document_task, run_task,
}
use pipe_line_gpt_backend.Worker.Ends.{IsRowChange, ingest_async-ends}

find-update_where-none :
    {A : Type 0} (p : A → Bool) (f : A → A) (xs : List A)
    → ((x : A) → p (f x) ≡ p x)
    → find p xs ≡ none
    → find p (update_where p f xs) ≡ none
find-update_where-none p f [] keep h = refl
find-update_where-none p f (x ∷ xs) keep h =
    ground (arith, keep x, find-update_where-none p f xs keep)

-- the call asks for no other one
abbrev pub IsFinal : Ended → Type 0
IsFinal e = ((r : Result) × (e ≡ returned r)) ⊎ ((f : Failure) × (e ≡ raised f))

-- the row of a document, if it is there, has a status
abbrev pub RowHas : ℕ → DocumentStatus → List Document → Type 0
RowHas id s ds = (d : Document) → find (λ x. x.id == id) ds ≡ some d → d.status ≡ s

module _ {Cache : Type 0} where
  -- the row of a document, if it is there, is in one of the two final states
  abbrev pub RowSettled : ℕ → Library Cache → Type 0
  RowSettled id l =
      (d : Document)
      → find (λ x. x.id == id) l.documents ≡ some d
      → (d.status ≡ completed) ⊎ (d.status ≡ failed)

  -- after a change of the rows of a document they have its status
  pub changed-RowHas :
      (v : Services Cache) (t : Task) (s : DocumentStatus) (l l' : Library Cache)
      → IsRowChange Cache v t s l l'
      → RowHas t.document_id s l'.documents
  changed-RowHas v t s l l' c d found =
      let found_there : find (λ x. x.id == t.document_id)
            (update_where (λ x. x.id == t.document_id) c.change l.documents)
          ≡ some d =
        rw c.rows at found in
      elim (Option-cases (find (λ x. x.id == t.document_id) l.documents)) [
        | inl e ↦
            let gone =
              find-update_where-none (λ x. x.id == t.document_id) c.change l.documents
                (λ x. rw (c.keeps_id x) refl) e in
            absurd (ground arith)
        | inr (u, e) ↦
            let there =
              find-update_where (λ x. x.id == t.document_id) (λ x. x.id == t.document_id) c.change
                l.documents u (λ x. rw (c.keeps_id x) refl) e
                (find-holds (λ x. x.id == t.document_id) l.documents u e) in
            let same : d ≡ c.change u = ground arith in rw (same, c.sets_status u) refl
      ]

  -- a call that ends has removed the staged file, and the row is settled
  abbrev pub IsSettled : Task → Library Cache → Type 0
  IsSettled t l = (any (λ f. f.0 == t.document_id) l.staged ≡ false) × RowSettled t.document_id l

  abbrev EndsOrRetries : Task → ℕ → Ended × Library Cache → Type 0
  EndsOrRetries t n (e, l') =
      (IsFinal e × IsSettled t l') ⊎ ((n < max_retries) × (s : ℕ) × (e ≡ retry s))

  ended-ok :
      (v : Services Cache) (t : Task) (n : ℕ) (r : Result) (l : Library Cache)
      → RowSettled t.document_id l
      → EndsOrRetries t n (ended Cache v t n (ok r, l))
  ended-ok v t n r l h = inl (inl (r, refl), (no_file_left l.staged t.document_id, h))

  ended-err :
      (v : Services Cache) (t : Task) (n : ℕ) (f : Failure) (l : Library Cache)
      → RowSettled t.document_id l
      → EndsOrRetries t n (ended Cache v t n (err f, l))
  ended-err v t n (parse_error m) l h =
      inl (inl (gave_up t.document_id m, refl), (no_file_left l.staged t.document_id, h))
  ended-err v t n time_limit l h = inl (
    inl (gave_up t.document_id "Processing exceeded the time limit", refl),
    (no_file_left l.staged t.document_id, h),
  )
  ended-err v t n (other name) l h = elim (Bool-cases (leb max_retries n)) [
    | inl e ↦ rw e (inl (inr (other name, refl), (no_file_left l.staged t.document_id, h)))
    | inr e ↦ rw e (inr (ground arith, _, refl))
  ]

  ingest_document_task-ends :
      (v : Services Cache) (q : Request) (t : Task) (given : Option (List ℕ)) (n : ℕ)
      (l : Library Cache)
      → EndsOrRetries t n (ingest_document_task Cache v q t given n l)
  unfolding ingest_document_task
  ingest_document_task-ends v q t given n l =
      let r = ingest_async Cache v q t given l in
      elim (ingest_async-ends Cache v q t given l) [
        | inl (e, h) ↦ rw h (ended-ok v t n not_found l (λ d found. absurd (ground arith)))
        | inr (inl (f, h, run)) ↦
            let whole : r ≡ (err f, r.1) = ground arith in
            rw whole (
              ended-err v t n f r.1
                (λ d found. inr (changed-RowHas v t failed l r.1 run.row_change d found)))
        | inr (inr (ps, h, run)) ↦
            let whole : r ≡ (ok (done t.document_id (length ps)), r.1) = ground arith in
            rw whole (
              ended-ok v t n (done t.document_id (length ps)) r.1
                (λ d found. inl (changed-RowHas v t completed l r.1 run.row_change d found)))
      ]

  -- The task for a document comes to an end: with four calls of fuel, whatever the services answer in
  -- each call and whatever others do to the tables between the calls, the last call returns or raises
  -- and asks for no other one; then no staged file of the document is left, and its row, if it is
  -- there, is COMPLETED or FAILED.
  pub run_task-ends :
      (fuel : ℕ) (vs : ℕ → Services Cache) (qs : ℕ → Request)
      (between : ℕ → Library Cache → Library Cache) (t : Task) (given : Option (List ℕ)) (n : ℕ)
      (l : Library Cache)
      → n ≤ max_retries
      → max_retries < fuel + n
      → (e : Ended) × (l' : Library Cache) × (run_task fuel vs qs between t given n l
          ≡ some (e, l'))
        × IsFinal e
        × IsSettled t l'
  unfolding run_task
  run_task-ends zero vs qs between t given n l small enough = absurd (omega arith)
  run_task-ends (suc fuel) vs qs between t given n l small enough =
      let (e, l') = ingest_document_task Cache (vs n) (qs n) t given n l in
      elim (ingest_document_task-ends (vs n) (qs n) t given n l) [
        | inl (inl (r, final), settled) ↦
            let whole : ingest_document_task Cache (vs n) (qs n) t given n l ≡ (returned r, l') =
              ground arith in
            (returned r, l', rw whole refl, inl (r, refl), settled)
        | inl (inr (f, final), settled) ↦
            let whole : ingest_document_task Cache (vs n) (qs n) t given n l ≡ (raised f, l') =
              ground arith in
            (raised f, l', rw whole refl, inr (f, refl), settled)
        | inr (again, s, asks) ↦
            let whole : ingest_document_task Cache (vs n) (qs n) t given n l ≡ (retry s, l') =
              ground arith in
            rw whole (
              run_task-ends fuel vs qs between t given (suc n) (between n l') (omega arith)
                (omega arith))
      ]

-- ===== src/Insights/Single.antt =====
-- Only one refresh runs at a time.
use pipe_line_gpt_backend.Prelude.{
  ℕ, ◌+◌, ◌≤◌, ◌<◌, ◌≡◌, refl, ◌∙◌, String, Bool, true, false, Option, none, some, List, [], ◌∷◌,
  ◌++◌, length, ◌==◌, arith, Option-cases, inl, inr,
}
use pipe_line_gpt_backend.Exec.{Outcome, ok, err}
use pipe_line_gpt_backend.Models.{Payload, Request}
use pipe_line_gpt_backend.Insights.{
  running, Progress, whole, RunStore, Sample, lock_ttl_s, progress_ttl_s,
}
use pipe_line_gpt_backend.Insights.Refresh.{
  Status, State, returned, with_flag, started, eligible_after, status, start, run_batch,
  refresh_insights_batch,
}

module _ (r : RunStore) (extract : String → List Sample → Option Payload) where
  open r use {
    Store, lock, progress, set_lock, new_progress, set_lock-free, set_lock-held, lock-set_lock,
    lock-new_progress, progress-new_progress,
  }

  flagged :
      (b : Bool) (o : Outcome String Status) (s : Status) → with_flag r b o ≡ ok (s, b) → o ≡ ok s
  flagged b (ok x) s h = ground arith
  flagged b (err e) s h = absurd (ground arith)

  -- what a start leaves that did not find another run
  start-new :
      (q : Request) (actor : Option ℕ) (s : Status) (st st' : State r)
      → start r q actor st ≡ (ok (s, false), st')
      → (status r q.now st'.store ≡ ok s)
        × ((u : ℕ)
            → q.now ≤ u
            → u < q.now + progress_ttl_s
            → progress st'.store u
              ≡ some (whole (started r q q.uuid (length (eligible_after none st.documents)))))
        × (st'.documents ≡ st.documents)
        × (st'.queue ≡ st.queue ++ (q.uuid, none) ∷ [])
        × ((u : ℕ) → q.now ≤ u → u < q.now + lock_ttl_s → lock st'.store u ≡ some q.uuid)
  unfolding start
  start-new q actor s st st' h = elim (Option-cases (lock st.store q.now)) [
    | inr (other, e) ↦
        absurd (ground (arith, set_lock-held st.store q.now q.uuid lock_ttl_s other e))
    | inl free ↦
        let won = set_lock-free st.store q.now q.uuid lock_ttl_s free in
        let p = started r q q.uuid (length (eligible_after none st.documents)) in
        let s1 = (set_lock st.store q.now q.uuid lock_ttl_s).0 in
        let read : (x : Store)
            → with_flag r false (status r q.now x) ≡ ok (s, false)
            → status r q.now x ≡ ok s =
          λ x e. flagged false (status r q.now x) s e in
        let store : st'.store ≡ new_progress s1 q.now p progress_ttl_s = ground arith in
        (
          read st'.store (ground arith),
          (λ u le lt. rw store (progress-new_progress s1 q.now p progress_ttl_s u le lt)),
          ground arith,
          ground arith,
          (λ u le lt. rw store (
              lock-new_progress s1 q.now p progress_ttl_s u
              ∙ lock-set_lock st.store q.now q.uuid lock_ttl_s u free le lt)),
        )
  ]

  held-start :
      (q : Request) (actor : Option ℕ) (st : State r) (run : ℕ)
      → lock st.store q.now ≡ some run
      → start r q actor st ≡ (with_flag r true (status r q.now st.store), st)
  unfolding start
  held-start q actor st run held = rw (set_lock-held st.store q.now q.uuid lock_ttl_s run held) refl

  -- the status of a run that holds its lock and has just begun
  abbrev shown_for : Progress → Status
  shown_for p = record {
    state = running;
    total = p.total;
    done = 0;
    failed = 0;
    started_at = some p.started_at;
    finished_at = none;
  }

  -- A start that finds no other run counts the eligible documents, queues its first batch and reports
  -- that it runs with none of them done. In the hour after it, while nobody else touches Redis, every
  -- other start reports that a run is there already, and a batch of any other run stops; both change
  -- nothing.
  pub start_once :
      (q q' : Request) (actor actor' : Option ℕ) (s : Status) (st st' : State r) (other n : ℕ)
      (after : Option ℕ)
      → start r q actor st ≡ (ok (s, false), st')
      → q.now ≤ q'.now
      → q'.now < q.now + lock_ttl_s
      → (q.uuid == other) ≡ false
      → (s.state ≡ running)
        × (s.total ≡ length (eligible_after none st.documents))
        × (s.done ≡ 0)
        × (st'.queue ≡ st.queue ++ (q.uuid, none) ∷ [])
        × ((s' : Status) × (start r q' actor' st' ≡ (ok (s', true), st')) × (s'.state ≡ running))
        × (refresh_insights_batch r extract q' n (other, after) st' ≡ (returned none, st'))
  unfolding refresh_insights_batch run_batch status
  start_once q q' actor actor' s st st' other n after h le lt differs =
      let (shown, hash, docs, queued, locks) = start-new q actor s st st' h in
      let mine = locks q.now (omega arith) (omega arith) in
      let now = hash q.now (omega arith) (omega arith) in
      let held = locks q'.now le lt in
      let later = hash q'.now le (omega (arith, lt)) in
      let same : s ≡ shown_for (started r q q.uuid (length (eligible_after none st.documents))) =
        ground (arith, shown, now, mine) in
      (
        rw same refl,
        rw same refl,
        rw same refl,
        queued,
        (
          shown_for (started r q q.uuid (length (eligible_after none st.documents))),
          held-start q' actor' st' q.uuid held ∙ ground (arith, held, later),
          refl,
        ),
        rw held (rw differs refl),
      )

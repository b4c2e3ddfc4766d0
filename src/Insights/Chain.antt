-- ===== src/Insights/Chain.antt =====
-- The batches of a refresh, one after the other, do what a single pass over all the eligible documents
-- does.
use pipe_line_gpt_backend.Prelude.{
  ℕ, zero, suc, ◌+◌, ◌*◌, ◌≤◌, ◌<◌, ◌≡◌, refl, ap, ◌∙◌, String, true, Option, none, some, List, [],
  ◌∷◌, ◌++◌, take, drop, length, last, ◌==◌, ==_iff, arith, last-some, List-cases, Bool-cases, ◌⊎◌,
  inl, inr, DistinctKeys, length-take, length-drop,
}
use pipe_line_gpt_backend.Models.{Document, Payload, Request}
use pipe_line_gpt_backend.Chunker.Covers.{take-all}
use pipe_line_gpt_backend.Exec.{ok, err, Outcome-cases}
use pipe_line_gpt_backend.Insights.{RunStore, Sample, batch_size, lock_ttl_s, finished}
use pipe_line_gpt_backend.Insights.Refresh.{
  State, BatchEnd, returned, retry, raised, holds, status, refresh_insights_batch, eligible_after,
  with_fresh, refresh_docs, finish, run_batch,
}
use pipe_line_gpt_backend.Insights.Pass.{
  id_of, patched, fresh, pass, pass-DistinctKeys, behind-pass, pass-take-drop,
}

module _ (extract : String → List Sample → Option Payload) where
  module _ (r : RunStore) where
    open r use {
      Store, lock, expire_lock, delete_lock, change_progress, lock-expire_lock,
      lock-change_progress, lock-delete_lock,
    }

    with_fresh-patched :
        (now : ℕ) (d : Document) (p : Payload) (st : State r)
        → let st' = with_fresh r now d p st in
          (st'.documents ≡ patched extract p d st.documents)
          × (st'.chunks ≡ st.chunks)
          × ((u : ℕ) → lock st'.store u ≡ lock st.store u)
    with_fresh-patched now d [] st = (refl, refl, (λ u. lock-change_progress st.store now _ u))
    with_fresh-patched now d (p ∷ ps) st =
        (refl, refl, (λ u. lock-change_progress st.store now _ u))

    -- the loop of a batch is a pass, and leaves the lock alone
    refresh_docs-pass :
        (now : ℕ) (ds : List Document) (st : State r)
        → let st' = refresh_docs r extract now ds st in
          (st'.documents ≡ pass extract st.chunks ds st.documents)
          × (st'.chunks ≡ st.chunks)
          × ((u : ℕ) → lock st'.store u ≡ lock st.store u)
    unfolding refresh_docs pass
    refresh_docs-pass now [] st = (refl, refl, (λ u. refl))
    refresh_docs-pass now (d ∷ ds) st =
        let st1 = with_fresh r now d (fresh extract st.chunks d) st in
        let (docs, chunks, locks) = with_fresh-patched now d (fresh extract st.chunks d) st in
        let (docs', chunks', locks') = refresh_docs-pass now ds st1 in
        (
          docs'
              ∙ ap (λ cs. pass extract cs ds st1.documents) chunks
              ∙ ap (λ ts. pass extract st.chunks ds ts) docs,
          chunks' ∙ chunks,
          (λ u. locks' u ∙ locks u),
        )

    -- The calls of the task of a run, each on the message that the one before queued, or again on the
    -- same one where it asked for that; `none` means that the fuel ran out.
    abbrev next_call :
        (ℕ → Option ℕ → State r → Option (State r))
        → ℕ
        → Option ℕ
        → BatchEnd × State r
        → Option (State r)
    next_call rest retries after (returned none, st) = some st
    next_call rest retries after (returned (some id), st) = rest 0 (some id) st
    next_call rest retries after (retry seconds, st) = rest (suc retries) after st
    next_call rest retries after (raised e, st) = some st

    unfoldable pub run_chain : ℕ → (ℕ → Request) → ℕ → ℕ → ℕ → Option ℕ → State r → Option (State r)
    unfolding refresh_insights_batch
    run_chain zero qs n run retries after st = none
    run_chain (suc fuel) qs n run retries after st =
        next_call (run_chain fuel qs (suc n) run) retries after
          (refresh_insights_batch r extract (qs n) retries (run, after) st)

    abbrev FreeFrom : ℕ → State r → Type 0
    FreeFrom t st = (u : ℕ) → t ≤ u → lock st.store u ≡ none

    -- The end of a run writes no document and frees its lock, and returns no cursor or raises.
    finish-free :
        (q : Request) (run : ℕ) (st : State r)
        → lock st.store q.now ≡ some run
        → (st' : State r) × ((finish r extract q run st ≡ (ok none, st'))
            ⊎ ((e : String) × (finish r extract q run st ≡ (err e, st'))))
          × (st'.documents ≡ st.documents)
          × FreeFrom q.now st'
    unfolding finish
    finish-free q run st held =
        let s1 = change_progress st.store q.now (finished q.now) in
        let mine : lock s1 q.now ≡ some run =
          lock-change_progress st.store q.now (finished q.now) q.now ∙ held in
        let s2 = delete_lock s1 q.now in
        let holds_it : holds (lock s1 q.now) run ≡ true = rw mine ((==_iff run run).1 refl) in
        elim (Outcome-cases (status r q.now s2)) [
          | inl (final, reads) ↦
              rw (holds_it, reads) (_, inl refl, refl, (λ u le. lock-delete_lock s1 q.now u le))
          | inr (e, reads) ↦
              rw (holds_it, reads)
                (_, inr (e, refl), refl, (λ u le. lock-delete_lock s1 q.now u le))
        ]

    -- what a batch does that holds the lock: the last one, and one that has another behind it
    run_batch-holds :
        (q : Request) (run : ℕ) (after : Option ℕ) (st : State r)
        → DistinctKeys id_of st.documents
        → lock st.store q.now ≡ some run
        → let E = eligible_after after st.documents in
          ((st' : State r) × ((run_batch r extract q run after st ≡ (ok none, st'))
              ⊎ ((e : String) × (run_batch r extract q run after st ≡ (err e, st'))))
            × (st'.documents ≡ pass extract st.chunks E st.documents)
            × FreeFrom q.now st')
          ⊎ ((x : Document) × (st' : State r) × (run_batch r extract q run after st
                ≡ (ok (some x.id), st'))
              × (batch_size ≤ length E)
              × (last (take batch_size E) ≡ some x)
              × (st'.documents ≡ pass extract st.chunks (take batch_size E) st.documents)
              × (st'.chunks ≡ st.chunks)
              × ((u : ℕ) → q.now ≤ u → u < q.now + lock_ttl_s → lock st'.store u ≡ some run))
    unfolding run_batch
    run_batch-holds q run after st distinct held =
        let E = eligible_after after st.documents in
        let B = take batch_size E in
        let st1 : State r = record st { store = expire_lock st.store q.now lock_ttl_s } in
        let st2 = refresh_docs r extract q.now B st1 in
        let (docs, chunks, locks) = refresh_docs-pass q.now B st1 in
        let renewed : (u : ℕ) → q.now ≤ u → u < q.now + lock_ttl_s → lock st2.store u ≡ some run =
          λ u le lt. locks u ∙ lock-expire_lock st.store q.now lock_ttl_s u run held le lt in
        let own : (run == run) ≡ true = (==_iff run run).1 refl in
        elim (Bool-cases (length B == batch_size)) [
          | inr short ↦
              let all : B ≡ E = take-all batch_size E (ground (arith, length-take batch_size E)) in
              let (st', ends, same, free) =
                finish-free q run st2 (renewed q.now (omega arith) (omega arith)) in
              inl (
                st',
                rw (held, own, short) ends,
                same ∙ docs ∙ ap (λ ds. pass extract st.chunks ds st.documents) all,
                free,
              )
          | inl full ↦ (elim (List-cases B) [
            | inl empty ↦ absurd (ground arith)
            | inr (y, ys, cons) ↦
                let (x, is_last) = last-some y ys in
                let ends : last B ≡ some x = rw cons is_last in
                inr (
                  x,
                  st2,
                  rw (held, own, full, ends) refl,
                  ground (arith, length-take batch_size E),
                  ends,
                  docs,
                  chunks,
                  renewed,
                )
          ])
        ]

    -- a call that finds no lock returns at once
    unlocked-returns :
        (q : Request) (run retries : ℕ) (after : Option ℕ) (st : State r)
        → lock st.store q.now ≡ none
        → refresh_insights_batch r extract q retries (run, after) st ≡ (returned none, st)
    unfolding refresh_insights_batch run_batch
    unlocked-returns q run retries after st free = rw free refl

    -- A refresh that holds its lock, with every call of its task within the lock's hour after the
    -- one before, comes to an end: with a call of fuel for each 25 eligible documents and two more,
    -- the chain of batches leaves the table that one pass over all the eligible documents, in the
    -- order of their ids, leaves, and the lock is free from its last call on. This is so too where
    -- the progress hash has expired and the last batch raises a KeyError: the task is then called
    -- again, and finds no lock.
    pub run_chain-pass :
        (fuel : ℕ) (qs : ℕ → Request) (n run : ℕ) (after : Option ℕ) (st : State r)
        → DistinctKeys id_of st.documents
        → lock st.store (qs n).now ≡ some run
        → ((k : ℕ) → ((qs k).now ≤ (qs (suc k)).now) × ((qs (suc k)).now < (qs k).now + lock_ttl_s))
        → length (eligible_after after st.documents) < batch_size * fuel
        → (st' : State r) × (m : ℕ) × (run_chain (suc fuel) qs n run 0 after st ≡ some st')
          × (st'.documents
              ≡ pass extract st.chunks (eligible_after after st.documents) st.documents)
          × ((u : ℕ) → (qs m).now ≤ u → lock st'.store u ≡ none)
    unfolding run_chain refresh_insights_batch
    run_chain-pass zero qs n run after st distinct held times enough = absurd (omega arith)
    run_chain-pass (suc fuel) qs n run after st distinct held times enough =
        let E = eligible_after after st.documents in
        elim (run_batch-holds (qs n) run after st distinct held) [
          | inl (st', inl runs, docs, free) ↦ (st', n, rw runs refl, docs, free)
          | inl (st', inr (e, runs), docs, free) ↦
              let again =
                unlocked-returns (qs (suc n)) run 1 after st' (free (qs (suc n)).now (times n).0) in
              (st', n, rw (runs, again) refl, docs, free)
          | inr (x, st1, runs, long, ends, docs, chunks, locks) ↦
              let rest : eligible_after (some x.id) st1.documents ≡ drop batch_size E =
                ap (eligible_after (some x.id)) docs
                ∙ behind-pass extract st.chunks after batch_size x st.documents distinct ends in
              let st2 : State r = record st1 { queue = st1.queue ++ (run, some x.id) ∷ [] } in
              let (st', m, runs', docs', free) =
                run_chain-pass fuel qs (suc n) run (some x.id) st2
                  (rw docs
                    (pass-DistinctKeys extract st.chunks (take batch_size E) st.documents distinct))
                  (locks (qs (suc n)).now (times n).0 (times n).1) times
                  (rw rest (omega (arith, length-drop batch_size E, enough, long))) in
              (
                st',
                m,
                rw runs runs',
                docs'
                    ∙ ap
                        (λ cs.
                          pass extract cs (eligible_after (some x.id) st1.documents) st1.documents)
                        chunks
                    ∙ ap (λ es. pass extract st.chunks es st1.documents) rest
                    ∙ ap (pass extract st.chunks (drop batch_size E)) docs
                    ∙ pass-take-drop extract st.chunks batch_size E st.documents,
                free,
              )
        ]

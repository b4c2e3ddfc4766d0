-- ===== src/Retrieval/Selected.antt =====
-- The chunks that a question is answered from: a selection among the fused results.
use pipe_line_gpt_backend.Prelude.{
  ℕ, ◌≤◌, ◌≡◌, refl, sym, ap, ◌∙◌, String, true, false, Option, none, some, List, [], ◌∷◌, map, any,
  take, length, ◌==◌, ==_iff, arith, Option-cases, inl, inr, All, All-map, sort_by, All-sort_by,
  DistinctKeys, length-take, sort_by-DistinctKeys, take-DistinctKeys, All-take,
}
use pipe_line_gpt_backend.Exec.{Outcome, Outcome-cases}
use pipe_line_gpt_backend.Config.{Settings}
use pipe_line_gpt_backend.Models.{Ratio}
use pipe_line_gpt_backend.Retrieval.{
  Found, or_default, no_worse, fuse_results, zip_scores, rerank_chunks,
}
use pipe_line_gpt_backend.Retrieval.Fused.{
  entry_id, found_id, entries-DistinctKeys, fuse_results_lem,
}

-- the chunks of a list are among those of another one
abbrev pub IsFrom : List Found → List Found → Type 0
IsFrom ds cs = All (λ c. any (λ d. d.id == c.id) cs ≡ true) ds

zip_scores-chunks :
    (ss : List Ratio) (cs : List Found) (es : List (Found × Ratio))
    → zip_scores ss cs ≡ some es
    → map (λ e. e.0) es ≡ cs
unfolding zip_scores
zip_scores-chunks [] [] es h = let same : es ≡ [] = ground arith in rw same refl
zip_scores-chunks (s ∷ ss) (c ∷ cs) es h = elim (Option-cases (zip_scores ss cs)) [
  | inl e ↦ absurd (ground arith)
  | inr (ds, e) ↦
      let same : es ≡ (c, s) ∷ ds = ground arith in
      rw same (ap (λ xs. c ∷ xs) (zip_scores-chunks ss cs ds e))
]
zip_scores-chunks [] (c ∷ cs) es h = absurd (ground arith)
zip_scores-chunks (s ∷ ss) [] es h = absurd (ground arith)

-- a list of entries is sorted by sorting it, and its chunks stay what they are
IsFrom-own : (cs : List Found) → IsFrom cs cs
IsFrom-own [] = tt
IsFrom-own (c ∷ cs) = (
  (ground (arith, (==_iff c.id c.id).1 refl)),
  All-map cs (λ x there. ground (arith, there)) (IsFrom-own cs),
)

entry_ids :
    (es : List (Found × Ratio))
    → DistinctKeys found_id (map (λ e. e.0) es)
    → DistinctKeys entry_id es
entry_ids [] h = tt
entry_ids (e ∷ es) h = (back e es h.0, entry_ids es h.1)
  where
    back :
        (e : Found × Ratio) (es : List (Found × Ratio))
        → All (λ c. (e.0.id == c.id) ≡ false) (map (λ d. d.0) es)
        → All (λ d. (e.0.id == d.0.id) ≡ false) es
    back e [] h = tt
    back e (d ∷ es) h = (h.0, back e es h.1)

-- What the selection keeps: at most `k` of the chunks, each once.
abbrev pub IsSelection : ℕ → List Found → List Found → Type 0
IsSelection k cs ds = (length ds ≤ k) × DistinctKeys found_id ds × IsFrom ds cs

take-IsSelection :
    (k : ℕ) (cs ds : List Found)
    → DistinctKeys found_id ds
    → IsFrom ds cs
    → IsSelection k cs (take k ds)
take-IsSelection k cs ds h from = (
  omega (arith, length-take k ds),
  take-DistinctKeys found_id k ds h,
  All-take (λ c. any (λ d. d.id == c.id) cs ≡ true) k ds from,
)

map-IsFrom :
    (cs : List Found) (es : List (Found × Ratio))
    → All (λ e. any (λ d. d.id == e.0.id) cs ≡ true) es
    → IsFrom (map (λ e. e.0) es) cs
map-IsFrom cs [] h = tt
map-IsFrom cs (e ∷ es) h = (h.0, map-IsFrom cs es h.1)

entries-IsFrom :
    (cs : List Found) (es : List (Found × Ratio))
    → IsFrom (map (λ e. e.0) es) cs
    → All (λ e. any (λ d. d.id == e.0.id) cs ≡ true) es
entries-IsFrom cs [] h = tt
entries-IsFrom cs (e ∷ es) h = (h.0, entries-IsFrom cs es h.1)

-- Reranking distinct chunks selects among them.
rerank_chunks-IsSelection :
    (s : Settings) (encoder : Option (String → List String → Outcome String (List Ratio)))
    (query : String) (cs : List Found) (top_k : Option ℕ)
    → DistinctKeys found_id cs
    → IsSelection (or_default top_k s.top_k_rerank) cs (rerank_chunks s encoder query cs top_k)
unfolding rerank_chunks
rerank_chunks-IsSelection s encoder query [] top_k h = (omega arith, tt, tt)
rerank_chunks-IsSelection s none query (c ∷ cs) top_k h =
    take-IsSelection (or_default top_k s.top_k_rerank) (c ∷ cs) (c ∷ cs) h (IsFrom-own (c ∷ cs))
rerank_chunks-IsSelection s (some predict) query (c ∷ cs) top_k h =
    let k = or_default top_k s.top_k_rerank in
    let kept = take-IsSelection k (c ∷ cs) (c ∷ cs) h (IsFrom-own (c ∷ cs)) in
    elim (Outcome-cases (predict query (map (λ x. x.text_content) (c ∷ cs)))) [
      | inr (f, e) ↦ rw e kept
      | inl (scores, e) ↦ (elim (Option-cases (zip_scores scores (c ∷ cs))) [
        | inl e' ↦ rw (e, e') kept
        | inr (es, e') ↦
            let chunks = zip_scores-chunks scores (c ∷ cs) es e' in
            let distinct : DistinctKeys entry_id es = entry_ids es (rw chunks h) in
            let from : IsFrom (map (λ x. x.0) es) (c ∷ cs) = rw chunks (IsFrom-own (c ∷ cs)) in
            rw (e, e')
              (take-IsSelection k (c ∷ cs) (map (λ x. x.0) (sort_by no_worse es))
                (entries-DistinctKeys (sort_by no_worse es)
                  (sort_by-DistinctKeys no_worse entry_id es distinct))
                (map-IsFrom (c ∷ cs) (sort_by no_worse es)
                  (All-sort_by no_worse _ es (entries-IsFrom (c ∷ cs) es from))))
      ])
    ]

-- The chunks that a question is answered from, which are the fused results of its variants reranked:
-- at most as many as asked for, or as the settings say, each of them once, and each found by some
-- variant, whether the cross-encoder is missing, fails, scores too few texts or scores them all.
pub rerank_chunks-fuse_results :
    (s : Settings) (encoder : Option (String → List String → Outcome String (List Ratio)))
    (query : String) (lists : List (List Found)) (top_k : Option ℕ)
    → let cs = rerank_chunks s encoder query (fuse_results lists) top_k in
      (length cs ≤ or_default top_k s.top_k_rerank)
      × DistinctKeys found_id cs
      × All (λ c. any (λ list. any (λ d. d.id == c.id) list) lists ≡ true) cs
rerank_chunks-fuse_results s encoder query lists top_k =
    let (distinct, has, best) = fuse_results_lem lists in
    let (few, once, from) =
      rerank_chunks-IsSelection s encoder query (fuse_results lists) top_k distinct in
    (
      few,
      once,
      All-map (rerank_chunks s encoder query (fuse_results lists) top_k)
          (λ c there. sym (has c.id) ∙ there) from,
    )

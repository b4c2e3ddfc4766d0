-- ===== src/Retrieval/Fused.antt =====
-- The results of the variants of a question, fused: each chunk once, the best first.
use pipe_line_gpt_backend.Prelude.{
  ℕ, suc, ◌≡◌, refl, sym, ap, ◌∙◌, Bool, true, false, ◌||◌, List, [], ◌∷◌, map, any, ◌==◌, ==_iff,
  arith, Bool-cases, inl, inr, All, All-map, sort_by, All-sort_by, DistinctKeys, Adjacent,
  sort_by-Adjacent, any-sort_by, sort_by-DistinctKeys, if◌then◌else◌,
}
use pipe_line_gpt_backend.Models.{Ratio, ratio_lt}
use pipe_line_gpt_backend.Retrieval.{
  Found, ratio_add, ratio_zero, rank_share, add_result, add_results, add_lists, no_worse,
  fuse_results,
}

-- The score of a chunk by its definition: the shares of its ranks in the lists that hold it, added in
-- their order.
unfoldable pub score_in : ℕ → ℕ → List Found → Ratio → Ratio
score_in id rank [] acc = acc
score_in id rank (c ∷ cs) acc =
    score_in id (suc rank) cs (if c.id == id then ratio_add acc (rank_share rank) else acc)

unfoldable pub score_over : ℕ → List (List Found) → Ratio → Ratio
unfolding score_in
score_over id [] acc = acc
score_over id (cs ∷ rest) acc = score_over id rest (score_in id 0 cs acc)

abbrev pub score_of : List (List Found) → ℕ → Ratio
score_of lists id = score_over id lists ratio_zero

abbrev pub entry_id : Found × Ratio → ℕ
entry_id e = e.0.id

abbrev has_entry : ℕ → List (Found × Ratio) → Bool
has_entry id es = any (λ e. e.0.id == id) es

-- the entries have the scores that a function gives, and what has no entry scored nothing
abbrev Scored : (ℕ → Ratio) → List (Found × Ratio) → Type 0
Scored f es = All (λ e. e.1 ≡ f e.0.id) es × ((n : ℕ) → has_entry n es ≡ false → f n ≡ ratio_zero)

abbrev raised : ℕ → Found → (ℕ → Ratio) → ℕ → Ratio
raised rank c f n = if c.id == n then ratio_add (f n) (rank_share rank) else f n

add_result-other :
    (rank : ℕ) (c : Found) (f : ℕ → Ratio) (es : List (Found × Ratio))
    → All (λ e. (c.id == e.0.id) ≡ false) es
    → All (λ e. e.1 ≡ f e.0.id) es
    → All (λ e. e.1 ≡ raised rank c f e.0.id) es
add_result-other rank c f [] h k = tt
add_result-other rank c f (e ∷ es) h k = (rw (h.0) k.0, add_result-other rank c f es h.1 k.1)

has_entry-add_result :
    (n rank : ℕ) (c : Found) (es : List (Found × Ratio))
    → has_entry n (add_result rank c es) ≡ (c.id == n) || has_entry n es
unfolding add_result
has_entry-add_result n rank c [] = refl
has_entry-add_result n rank c (e ∷ es) = ground (arith, has_entry-add_result n rank c es)

add_result-DistinctKeys :
    (rank : ℕ) (c : Found) (es : List (Found × Ratio))
    → DistinctKeys entry_id es
    → DistinctKeys entry_id (add_result rank c es)
unfolding add_result
add_result-DistinctKeys rank c [] h = (tt, tt)
add_result-DistinctKeys rank c ((d, s) ∷ es) h = elim (Bool-cases (d.id == c.id)) [
  | inl e ↦ rw e h
  | inr e ↦ rw e (All-add_result d rank c es e h.0, add_result-DistinctKeys rank c es h.1)
]
  where
    All-add_result :
        (d : Found) (rank : ℕ) (c : Found) (es : List (Found × Ratio))
        → (d.id == c.id) ≡ false
        → All (λ e. (d.id == e.0.id) ≡ false) es
        → All (λ e. (d.id == e.0.id) ≡ false) (add_result rank c es)
    All-add_result d rank c [] e h = (e, tt)
    All-add_result d rank c ((d', s) ∷ es) e h = elim (Bool-cases (d'.id == c.id)) [
      | inl e' ↦ rw e' h
      | inr e' ↦ rw e' (h.0, All-add_result d rank c es e h.1)
    ]

add_result-scores :
    (rank : ℕ) (c : Found) (f : ℕ → Ratio) (es : List (Found × Ratio))
    → DistinctKeys entry_id es
    → All (λ e. e.1 ≡ f e.0.id) es
    → (has_entry c.id es ≡ false → f c.id ≡ ratio_zero)
    → All (λ e. e.1 ≡ raised rank c f e.0.id) (add_result rank c es)
unfolding add_result
add_result-scores rank c f [] h k zero_else =
    let own : (c.id == c.id) ≡ true = (==_iff c.id c.id).1 refl in
    (rw (own, zero_else refl) refl, tt)
add_result-scores rank c f ((d, s) ∷ es) h k zero_else = elim (Bool-cases (d.id == c.id)) [
  | inl e ↦
      let back : (c.id == d.id) ≡ true = ground arith in
      let differ : All (λ x. (c.id == x.0.id) ≡ false) es =
        All-map es (λ x other. ground (arith, other, e)) h.0 in
      rw e (
        rw back (ap (λ t. ratio_add t (rank_share rank)) k.0),
        add_result-other rank c f es differ k.1,
      )
  | inr e ↦
      let back : (c.id == d.id) ≡ false = ground arith in
      rw e (rw back k.0, add_result-scores rank c f es h.1 k.1 (λ no. zero_else (rw e no)))
]

add_result-Scored :
    (rank : ℕ) (c : Found) (f : ℕ → Ratio) (es : List (Found × Ratio))
    → DistinctKeys entry_id es
    → Scored f es
    → Scored (raised rank c f) (add_result rank c es)
add_result-Scored rank c f es h (k, zero_else) = (
  add_result-scores rank c f es h k (zero_else c.id),
  λ n no. ground (arith, has_entry-add_result n rank c es, zero_else n),
)

-- what the loops keep: distinct chunks, their scores, and which chunks came
add_results-keeps :
    (rank : ℕ) (cs : List Found) (f : ℕ → Ratio) (es : List (Found × Ratio))
    → DistinctKeys entry_id es
    → Scored f es
    → DistinctKeys entry_id (add_results rank cs es)
      × Scored (λ n. score_in n rank cs (f n)) (add_results rank cs es)
      × ((n : ℕ) → has_entry n (add_results rank cs es) ≡ any (λ c. c.id == n) cs || has_entry n es)
unfolding add_results score_in
add_results-keeps rank [] f es h k = (h, k, (λ n. refl))
add_results-keeps rank (c ∷ cs) f es h k =
    let (distinct, scored, has) =
      add_results-keeps (suc rank) cs (raised rank c f) (add_result rank c es)
        (add_result-DistinctKeys rank c es h) (add_result-Scored rank c f es h k) in
    (distinct, scored, (λ n. ground (arith, has n, has_entry-add_result n rank c es)))

add_lists-keeps :
    (lists : List (List Found)) (f : ℕ → Ratio) (es : List (Found × Ratio))
    → DistinctKeys entry_id es
    → Scored f es
    → DistinctKeys entry_id (add_lists lists es)
      × Scored (λ n. score_over n lists (f n)) (add_lists lists es)
      × ((n : ℕ)
          → has_entry n (add_lists lists es)
            ≡ any (λ cs. any (λ c. c.id == n) cs) lists || has_entry n es)
unfolding add_lists score_over
add_lists-keeps [] f es h k = (h, k, (λ n. refl))
add_lists-keeps (cs ∷ rest) f es h k =
    let (d1, s1, has1) = add_results-keeps 0 cs f es h k in
    let (d2, s2, has2) =
      add_lists-keeps rest (λ n. score_in n 0 cs (f n)) (add_results 0 cs es) d1 s1 in
    (d2, s2, (λ n. ground (arith, has2 n, has1 n)))

no_worse-total : (a b : Found × Ratio) → no_worse a b ≡ false → no_worse b a ≡ true
no_worse-total a b h = ground arith

-- no chunk stands right before one with a higher score
abbrev pub BestFirst : (ℕ → Ratio) → List Found → Type 0
BestFirst f [] = Unit
BestFirst f (x ∷ []) = Unit
BestFirst f (x ∷ y ∷ ys) = (ratio_lt (f x.id) (f y.id) ≡ false) × BestFirst f (y ∷ ys)

entries-BestFirst :
    (f : ℕ → Ratio) (es : List (Found × Ratio))
    → All (λ e. e.1 ≡ f e.0.id) es
    → Adjacent no_worse es
    → BestFirst f (map (λ e. e.0) es)
entries-BestFirst f [] h k = tt
entries-BestFirst f (e ∷ []) h k = tt
entries-BestFirst f (e ∷ d ∷ es) h k =
    let lt : ratio_lt e.1 d.1 ≡ false = ground arith in
    let same : ratio_lt e.1 d.1 ≡ ratio_lt (f e.0.id) (f d.0.id) =
      ap (λ t. ratio_lt t d.1) h.0 ∙ ap (ratio_lt (f e.0.id)) h.1.0 in
    (sym same ∙ lt, entries-BestFirst f (d ∷ es) h.1 k.1)

abbrev pub found_id : Found → ℕ
found_id c = c.id

pub entries-DistinctKeys :
    (es : List (Found × Ratio))
    → DistinctKeys entry_id es
    → DistinctKeys found_id (map (λ e. e.0) es)
entries-DistinctKeys [] h = tt
entries-DistinctKeys (e ∷ es) h = (All-entries e es h.0, entries-DistinctKeys es h.1)
  where
    All-entries :
        (e : Found × Ratio) (es : List (Found × Ratio))
        → All (λ d. (e.0.id == d.0.id) ≡ false) es
        → All (λ c. (e.0.id == c.id) ≡ false) (map (λ d. d.0) es)
    All-entries e [] h = tt
    All-entries e (d ∷ es) h = (h.0, All-entries e es h.1)

any-entries :
    (n : ℕ) (es : List (Found × Ratio)) → any (λ c. c.id == n) (map (λ e. e.0) es) ≡ has_entry n es
any-entries n [] = refl
any-entries n (e ∷ es) = ap (λ b. e.0.id == n || b) (any-entries n es)

-- The fused list holds each chunk that some variant of the question found, once, and nothing else. It
-- is in the order of the scores, where the score of a chunk adds 1 / (60 + rank) for each variant that
-- found it: no chunk stands right before one that scored more.
pub fuse_results_lem :
    (lists : List (List Found))
    → DistinctKeys found_id (fuse_results lists)
      × ((n : ℕ)
          → any (λ c. c.id == n) (fuse_results lists) ≡ any (λ cs. any (λ c. c.id == n) cs) lists)
      × BestFirst (score_of lists) (fuse_results lists)
unfolding fuse_results
fuse_results_lem lists =
    let es = add_lists lists [] in
    let (distinct, scored, has) =
      add_lists-keeps lists (λ n. ratio_zero) [] tt (tt, (λ n no. refl)) in
    (
      entries-DistinctKeys (sort_by no_worse es)
          (sort_by-DistinctKeys no_worse entry_id es distinct),
      (λ n.
          any-entries n (sort_by no_worse es)
          ∙ any-sort_by no_worse (λ e. e.0.id == n) es
          ∙ has n
          ∙ ground arith),
      entries-BestFirst (score_of lists) (sort_by no_worse es)
          (All-sort_by no_worse (λ e. e.1 ≡ score_of lists e.0.id) es scored.0)
          (sort_by-Adjacent no_worse es no_worse-total),
    )

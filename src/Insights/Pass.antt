-- ===== src/Insights/Pass.antt =====
-- backend/app/services/insights_refresh.py: one pass over documents, which analyses them in order, and
-- how it divides into batches behind a cursor.
use pipe_line_gpt_backend.Prelude.{
  ℕ, ◌≤◌, ◌≡◌, refl, sym, ap, ◌∙◌, String, true, ◌&&◌, Option, none, some, List, [], ◌∷◌, ◌++◌,
  select, update_where, take, drop, last, ltb, ◌==◌, arith, Bool-cases, inl, inr, All,
  All-update_where, sort_by, by_key, DistinctKeys, Ascending, sort_by-Ascending, select-sort_by,
  select-above, take-below, last-take-All, All-sort_by, select-DistinctKeys, take-append-drop,
}
use pipe_line_gpt_backend.Models.{Document, Chunk, Payload}
use pipe_line_gpt_backend.Insights.{Sample, eligible}
use pipe_line_gpt_backend.Insights.Refresh.{
  comes_after, eligible_after, extract_document_insights, sample,
}

abbrev pub id_of : Document → ℕ
id_of d = d.id

-- the rows behind a cursor are the rows behind an earlier one that are behind this one too
select-behind :
    (after : Option ℕ) (x : Document) (ds : List Document)
    → comes_after after x ≡ true
    → select (λ d. eligible d && comes_after (some x.id) d) ds
      ≡ select (λ d. ltb x.id d.id) (select (λ d. eligible d && comes_after after d) ds)
select-behind none x [] h = refl
select-behind none x (d ∷ ds) h = ground (arith, select-behind none x ds h)
select-behind (some n) x [] h = refl
select-behind (some n) x (d ∷ ds) h = ground (arith, select-behind (some n) x ds h)

chosen-behind :
    (after : Option ℕ) (ds : List Document)
    → All (λ d. comes_after after d ≡ true) (select (λ d. eligible d && comes_after after d) ds)
chosen-behind after [] = tt
chosen-behind after (d ∷ ds) =
    let rest = chosen-behind after ds in
    elim (Bool-cases (eligible d && comes_after after d)) [
      | inl e ↦ rw e (ground arith, rest)
      | inr e ↦ rw e rest
    ]

-- Behind the last document of a batch come the documents that the batch left.
eligible_after-batch :
    (after : Option ℕ) (n : ℕ) (x : Document) (ds : List Document)
    → DistinctKeys id_of ds
    → last (take n (eligible_after after ds)) ≡ some x
    → eligible_after (some x.id) ds ≡ drop n (eligible_after after ds)
unfolding eligible_after
eligible_after-batch after n x ds distinct e =
    let chosen = select (λ d. eligible d && comes_after after d) ds in
    let distinct' =
      select-DistinctKeys id_of (λ d. eligible d && comes_after after d) ds distinct in
    let behind : comes_after after x ≡ true =
      last-take-All id_of (λ d. comes_after after d ≡ true) n (sort_by (by_key id_of) chosen) x e
        (All-sort_by (by_key id_of) (λ d. comes_after after d ≡ true) chosen
          (chosen-behind after ds)) in
    rw (select-behind after x ds behind) (
      sym (select-sort_by id_of (λ d. ltb x.id d.id) chosen distinct')
      ∙ select-above id_of n (sort_by (by_key id_of) chosen) x
          (sort_by-Ascending id_of chosen distinct') e)

module _ (extract : String → List Sample → Option Payload) where
  -- the table after a document was analysed
  abbrev pub patched : Payload → Document → List Document → List Document
  patched [] d docs = docs
  patched (p ∷ ps) d docs =
      update_where (λ x. x.id == d.id) (λ x. record x { insights_json = some (p ∷ ps) }) docs

  abbrev pub fresh : List Chunk → Document → Payload
  fresh cs d = extract_document_insights extract d.filename (sample d cs)

  -- the table after one pass over documents, in order
  unfoldable pub pass : List Chunk → List Document → List Document → List Document
  pass cs [] docs = docs
  pass cs (d ∷ ds) docs = pass cs ds (patched (fresh cs d) d docs)

  pass-append :
      (cs : List Chunk) (xs ys docs : List Document)
      → pass cs (xs ++ ys) docs ≡ pass cs ys (pass cs xs docs)
  unfolding pass
  pass-append cs [] ys docs = refl
  pass-append cs (x ∷ xs) ys docs = pass-append cs xs ys (patched (fresh cs x) x docs)

  patched-behind :
      (m : ℕ) (p : Payload) (d : Document) (docs : List Document)
      → d.id ≤ m
      → select (λ x. eligible x && ltb m x.id) (patched p d docs)
        ≡ select (λ x. eligible x && ltb m x.id) docs
  patched-behind m [] d docs le = refl
  patched-behind m (p ∷ ps) d [] le = refl
  patched-behind m (p ∷ ps) d (x ∷ xs) le = ground (arith, patched-behind m (p ∷ ps) d xs le)

  patched-DistinctKeys :
      (p : Payload) (d : Document) (docs : List Document)
      → DistinctKeys id_of docs
      → DistinctKeys id_of (patched p d docs)
  patched-DistinctKeys [] d docs h = h
  patched-DistinctKeys (p ∷ ps) d [] h = tt
  patched-DistinctKeys (p ∷ ps) d (x ∷ xs) h = elim (Bool-cases (x.id == d.id)) [
    | inl e ↦ rw e (
      All-update_where (λ y. y.id == d.id) _ xs (λ y e k. k) (λ y e k. k) h.0,
      patched-DistinctKeys (p ∷ ps) d xs h.1,
    )
    | inr e ↦ rw e (
      All-update_where (λ y. y.id == d.id) _ xs (λ y e k. k) (λ y e k. k) h.0,
      patched-DistinctKeys (p ∷ ps) d xs h.1,
    )
  ]

  pass-behind :
      (cs : List Chunk) (m : ℕ) (ds docs : List Document)
      → All (λ d. d.id ≤ m) ds
      → select (λ x. eligible x && ltb m x.id) (pass cs ds docs)
        ≡ select (λ x. eligible x && ltb m x.id) docs
  unfolding pass
  pass-behind cs m [] docs h = refl
  pass-behind cs m (d ∷ ds) docs h =
      pass-behind cs m ds (patched (fresh cs d) d docs) h.1
      ∙ patched-behind m (fresh cs d) d docs h.0

  pub pass-DistinctKeys :
      (cs : List Chunk) (ds docs : List Document)
      → DistinctKeys id_of docs
      → DistinctKeys id_of (pass cs ds docs)
  unfolding pass
  pass-DistinctKeys cs [] docs h = h
  pass-DistinctKeys cs (d ∷ ds) docs h =
      pass-DistinctKeys cs ds (patched (fresh cs d) d docs)
        (patched-DistinctKeys (fresh cs d) d docs h)

  -- behind a batch that was analysed come the documents that the batch left
  pub behind-pass :
      (cs : List Chunk) (after : Option ℕ) (n : ℕ) (x : Document) (docs : List Document)
      → DistinctKeys id_of docs
      → last (take n (eligible_after after docs)) ≡ some x
      → eligible_after (some x.id) (pass cs (take n (eligible_after after docs)) docs)
        ≡ drop n (eligible_after after docs)
  unfolding eligible_after
  behind-pass cs after n x docs distinct ends =
      let E = eligible_after after docs in
      let chosen = select (λ d. eligible d && comes_after after d) docs in
      let ascends : Ascending id_of E =
        sort_by-Ascending id_of chosen
          (select-DistinctKeys id_of (λ d. eligible d && comes_after after d) docs distinct) in
      ap (sort_by (by_key id_of))
        (pass-behind cs x.id (take n E) docs (take-below id_of n E x ascends ends))
      ∙ eligible_after-batch after n x docs distinct ends

  -- a pass over the first elements and one over the others are one pass
  pub pass-take-drop :
      (cs : List Chunk) (n : ℕ) (ds docs : List Document)
      → pass cs (drop n ds) (pass cs (take n ds) docs) ≡ pass cs ds docs
  pass-take-drop cs n ds docs =
      sym (pass-append cs (take n ds) (drop n ds) docs)
      ∙ ap (λ es. pass cs es docs) (take-append-drop n ds)

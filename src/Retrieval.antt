-- ===== src/Retrieval.antt =====
-- backend/app/services/retriever.py: the search for the chunks that are closest to a question, the
-- fusion of the results of its variants, and their order by a cross-encoder. Scores are exact
-- fractions; where two are equal, the database's order is that of the table.
pub mod Fused
pub mod Selected
use pipe_line_gpt_backend.Prelude.{
  ℕ, zero, suc, ◌+◌, ◌*◌, String, Bool, true, false, not, ◌&&◌, Option, none, some, List, [], ◌∷◌,
  ◌++◌, map, find, select, take, length, str_eq, leb, ◌==◌, if◌then◌else◌, sort_by,
}
use pipe_line_gpt_backend.Exec.{Outcome, ok, err}
use pipe_line_gpt_backend.Config.{Settings}
use pipe_line_gpt_backend.Models.{Document, Chunk, Ratio, ratio_lt}
use pipe_line_gpt_backend.Chat.Boundary.{Filters}

-- the dictionary of a chunk that was found
pub record Found : Type 0 where
  pub id : ℕ
  pub document_id : ℕ
  pub chunk_index : ℕ
  pub text_content : String
  pub token_count : ℕ
  pub page_ref : Option String
  pub section_label : Option String
  pub filename : String
  pub source_type : String
  pub segment_id : Option String
  pub ingest_date : ℕ
  pub commodity : Option String
  pub year_from : Option ℕ
  pub year_to : Option ℕ
  pub similarity : Ratio

-- `top_k or default`
abbrev pub or_default : Option ℕ → ℕ → ℕ
or_default none k = k
or_default (some zero) k = k
or_default (some (suc n)) k = suc n

-- `column == value`, where there is a value that is not empty
abbrev matches : Option String → Option String → Bool
matches none column = true
matches (some value) column =
    if str_eq value "" then true else elim column [ none ↦ false | some c ↦ str_eq c value ]

-- `year_from >= from and year_to <= to`, which NULL is not
abbrev within : Option (ℕ × ℕ) → Option ℕ → Option ℕ → Bool
within none first stop = true
within (some (a, b)) (some first) (some stop) = leb a first && leb stop b
within (some (a, b)) none stop = false
within (some (a, b)) (some first) none = false

unfoldable pub passes_filters : Option Filters → Document → Bool
passes_filters none d = true
passes_filters (some f) d =
    matches f.pipeline_segment d.segment_id
    && (matches f.commodity d.commodity && within f.date_range d.year_from d.year_to)

unfoldable pub found_of : ℕ → Chunk → Document → Ratio → Found
found_of id c d similarity = record {
  id = id;
  document_id = c.document_id;
  chunk_index = c.chunk_index;
  text_content = c.text_content;
  token_count = c.token_count;
  page_ref = c.page_ref;
  section_label = c.section_label;
  filename = d.filename;
  source_type = d.source_type;
  segment_id = d.segment_id;
  ingest_date = d.ingest_date;
  commodity = d.commodity;
  year_from = d.year_from;
  year_to = d.year_to;
  similarity = similarity;
}

-- the row of a chunk with its document, where it has an embedding and passes the filters; `closeness`
-- is one minus pgvector's cosine distance to the question
unfoldable pub row_of : (List ℕ → Ratio) → Option Filters → List Document → ℕ × Chunk → List Found
unfolding passes_filters found_of
row_of closeness filters documents (id, c) = elim c.embedding [
  | none ↦ []
  | some v ↦ elim (find (λ d. d.id == c.document_id) documents) [
    | none ↦ []
    | some d ↦ if passes_filters filters d then found_of id c d (closeness v) ∷ [] else []
  ]
]

unfoldable pub rows :
    (List ℕ → Ratio) → Option Filters → List Document → List (ℕ × Chunk) → List Found
unfolding row_of
rows closeness filters documents [] = []
rows closeness filters documents (c ∷ cs) =
    row_of closeness filters documents c ++ rows closeness filters documents cs

-- `retrieve_chunks`, over the rows of chunks with their ids
unfoldable pub retrieve_chunks :
    Settings
    → (List ℕ → Ratio)
    → Option Filters
    → Option ℕ
    → List Document
    → List (ℕ × Chunk)
    → List Found
unfolding rows sort_by
retrieve_chunks s closeness filters top_k documents chunks =
    take (or_default top_k s.top_k_retrieval) (
      sort_by (λ a b. not (ratio_lt a.similarity b.similarity))
        (rows closeness filters documents chunks))

abbrev pub rrf_k : ℕ
rrf_k = 60

abbrev pub ratio_add : Ratio → Ratio → Ratio
ratio_add a b = record { num = a.num * b.den + b.num * a.den; den = a.den * b.den }

abbrev pub ratio_zero : Ratio
ratio_zero = record { num = 0; den = 1 }

-- `1 / (RRF_K + rank)`
abbrev pub rank_share : ℕ → Ratio
rank_share rank = record { num = 1; den = rrf_k + rank }

-- The two dictionaries, which have the same keys: the chunks in the order in which they came, each
-- with its score. One more result adds to the score of its chunk.
unfoldable pub add_result : ℕ → Found → List (Found × Ratio) → List (Found × Ratio)
add_result rank chunk [] = (chunk, ratio_add ratio_zero (rank_share rank)) ∷ []
add_result rank chunk ((c, s) ∷ es) =
    let rest = add_result rank chunk es in
    if c.id == chunk.id then (c, ratio_add s (rank_share rank)) ∷ es else (c, s) ∷ rest

unfoldable pub add_results : ℕ → List Found → List (Found × Ratio) → List (Found × Ratio)
unfolding add_result
add_results rank [] es = es
add_results rank (c ∷ cs) es = add_results (suc rank) cs (add_result rank c es)

unfoldable pub add_lists : List (List Found) → List (Found × Ratio) → List (Found × Ratio)
unfolding add_results
add_lists [] es = es
add_lists (cs ∷ rest) es = add_lists rest (add_results 0 cs es)

-- `sorted(..., reverse=True)` keeps the order of equal scores
abbrev pub no_worse : Found × Ratio → Found × Ratio → Bool
no_worse a b = not (ratio_lt a.1 b.1)

unfoldable pub fuse_results : List (List Found) → List Found
unfolding add_lists sort_by
fuse_results lists = map (λ e. e.0) (sort_by no_worse (add_lists lists []))

-- `zip(scores, chunks, strict=True)`
unfoldable pub zip_scores : List Ratio → List Found → Option (List (Found × Ratio))
zip_scores [] [] = some []
zip_scores (s ∷ ss) (c ∷ cs) = elim (zip_scores ss cs) [
  | none ↦ none
  | some es ↦ some ((c, s) ∷ es)
]
zip_scores [] (c ∷ cs) = none
zip_scores (s ∷ ss) [] = none

abbrev ranked : ℕ → List Found → Option (List (Found × Ratio)) → List Found
ranked k chunks none = take k chunks
ranked k chunks (some es) = take k (map (λ e. e.0) (sort_by no_worse es))

abbrev with_scores : ℕ → List Found → Outcome String (List Ratio) → List Found
with_scores k chunks (err e) = take k chunks
with_scores k chunks (ok scores) = ranked k chunks (zip_scores scores chunks)

-- `rerank_chunks`: the cross-encoder is `none` where it is not installed, and its prediction on the
-- texts may fail
unfoldable pub rerank_chunks :
    Settings
    → Option (String → List String → Outcome String (List Ratio))
    → String
    → List Found
    → Option ℕ
    → List Found
unfolding zip_scores sort_by
rerank_chunks s encoder query [] top_k = []
rerank_chunks s none query (c ∷ cs) top_k = take (or_default top_k s.top_k_rerank) (c ∷ cs)
rerank_chunks s (some predict) query (c ∷ cs) top_k =
    with_scores (or_default top_k s.top_k_rerank) (c ∷ cs)
      (predict query (map (λ x. x.text_content) (c ∷ cs)))

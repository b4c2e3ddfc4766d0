-- ===== src/Tests/Searches.antt =====
-- Runs of the search.
use pipe_line_gpt_backend.Prelude.{
  ℕ, ◌≤◌, String, ◌≡◌, refl, true, false, none, some, List, [], ◌∷◌, map, any, length, ◌==◌, All,
  str_eq, contains, if◌then◌else◌, strip, strip_end, DistinctKeys, sort_by, insert_by,
}
use pipe_line_gpt_backend.Exec.{Outcome, ok}
use pipe_line_gpt_backend.Config.{default_settings}
use pipe_line_gpt_backend.Models.{Ratio}
use pipe_line_gpt_backend.Retrieval.{
  Found, fuse_results, add_lists, add_results, add_result, rerank_chunks,
}
use pipe_line_gpt_backend.Retrieval.Fused.{found_id, BestFirst, score_of, fuse_results_lem}
use pipe_line_gpt_backend.Citing.{
  Patterns, build_context_block, with_ids, source_id, cited_ids, ids_of_tags, blocks, blocks_from,
  kind_of, count_blocks, count_lines, supported, cites_valid, figures, figures_of, only_punctuation,
  starts_with_space, estimate_confidence, extract_citations,
}
use pipe_line_gpt_backend.Citing.Confidence.{estimate_confidence-bounded}
use pipe_line_gpt_backend.Citing.Sourced.{DistinctIds, cites_chunk, extract_citations_lem}
use pipe_line_gpt_backend.Retrieval.Selected.{rerank_chunks-fuse_results}

abbrev pub chunk : ℕ → Found
chunk id = record {
  id = id;
  document_id = 3;
  chunk_index = 0;
  text_content = "text";
  token_count = 1;
  page_ref = none;
  section_label = none;
  filename = "old.csv";
  source_type = "csv";
  segment_id = none;
  ingest_date = 1;
  commodity = none;
  year_from = none;
  year_to = none;
  similarity = record { num = 1; den = 2 };
}

-- Two variants that share one chunk.
abbrev lists : List (List Found)
lists = (chunk 1 ∷ chunk 2 ∷ []) ∷ (chunk 3 ∷ chunk 2 ∷ []) ∷ []

-- The shared chunk comes first.
fused : map (λ c. c.id) (fuse_results lists) ≡ 2 ∷ 1 ∷ 3 ∷ []
unfolding fuse_results add_lists add_results add_result sort_by insert_by
fused = refl

fuse_results_lem_example :
    DistinctKeys found_id (fuse_results lists)
    × ((n : ℕ)
        → any (λ c. c.id == n) (fuse_results lists) ≡ any (λ cs. any (λ c. c.id == n) cs) lists)
    × BestFirst (score_of lists) (fuse_results lists)
fuse_results_lem_example = fuse_results_lem lists

-- An encoder that scores two texts only.
abbrev encoder : String → List String → Outcome String (List Ratio)
encoder query texts = ok (record { num = 1; den = 2 } ∷ record { num = 1; den = 3 } ∷ [])

rerank_chunks-fuse_results_example :
    let cs = rerank_chunks default_settings (some encoder) "q" (fuse_results lists) (some 2) in
    (length cs ≤ 2)
    × DistinctKeys found_id cs
    × All (λ c. any (λ list. any (λ d. d.id == c.id) list) lists ≡ true) cs
rerank_chunks-fuse_results_example =
    rerank_chunks-fuse_results default_settings (some encoder) "q" lists (some 2)

-- Patterns that read a text as one line and find the first source in it.
abbrev patterns : Patterns
patterns = record {
  citation_tags = λ t. if contains "SRC-001" t then t ∷ [] else [];
  source_ids = λ t. "SRC-001" ∷ [];
  without_tags = λ t. t;
  is_heading = λ t. false;
  is_table_row = λ t. false;
  is_list_item = λ t. false;
  without_marker = λ t. t;
  without_references = λ t. t;
  without_separators = λ t. t;
  numbers = λ t. if contains "40" t then "40" ∷ [] else [];
  split_lines = λ t. t ∷ [];
  str = λ n. if n == 1 then "1" else "2";
  isoformat = λ n. "2026-01-01T00:00:00";
}

abbrev answer : String
answer = "The depth is 40% [SRC-001]."

abbrev sources : List (String × Found)
sources = (build_context_block patterns (chunk 1 ∷ chunk 2 ∷ [])).1

-- The one claim of the answer cites its source, and the only tag is valid.
whole_confidence : estimate_confidence patterns answer sources ≡ record { num = 1; den = 1 }
unfolding estimate_confidence build_context_block with_ids source_id cited_ids ids_of_tags blocks
    blocks_from kind_of strip strip_end count_blocks count_lines supported cites_valid figures
    figures_of only_punctuation starts_with_space
whole_confidence = refl

estimate_confidence-bounded_example :
    let c = estimate_confidence patterns answer sources in
    (c.num ≤ c.den)
    × (1 ≤ c.den)
    × ((length sources == 0) ≡ false
        → any (λ sid. any (str_eq sid) (map (λ x. x.0) sources)) (cited_ids patterns answer) ≡ false
        → c.num ≡ 0)
estimate_confidence-bounded_example = estimate_confidence-bounded patterns answer sources

extract_citations_lem_example :
    let rs = extract_citations patterns answer sources in
    DistinctIds rs
    × All (λ r. (contains r.source_id answer ≡ true) × (any (cites_chunk r) sources ≡ true)) rs
    × All (λ e. contains e.0 answer ≡ true → any (λ r. str_eq e.0 r.source_id) rs ≡ true) sources
extract_citations_lem_example = extract_citations_lem patterns answer (chunk 1 ∷ chunk 2 ∷ [])

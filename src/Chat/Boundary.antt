-- ===== src/Chat/Boundary.antt =====
-- What a question needs from the models, the search and the stores. The answers of the language
-- model, of the embedder, of Presidio and of the database's vector search come from outside this
-- repository; the functions of services/llm.py and services/retriever.py around them, and those of
-- services/semantic_cache.py, are used by the endpoint through the same record.
use pipe_line_gpt_backend.Prelude.{ℕ, String, Bool, Option, List}
use pipe_line_gpt_backend.Exec.{Outcome}
use pipe_line_gpt_backend.Models.{Ratio, Chunk, Citation}

pub record Filters : Type 0 where
  pub pipeline_segment : Option String
  pub date_range : Option (ℕ × ℕ)
  pub commodity : Option String

pub record CachedAnswer : Type 0 where
  pub answer : String
  pub citations : List Citation
  pub confidence : Ratio
  pub model_version : String

-- `_generate_with_heartbeat` and the usage that it reports: the heartbeats that pass before the
-- reply is there, or before the call fails.
pub record Generation : Type 0 where
  pub pings : ℕ
  pub reply : Outcome String String
  pub input_tokens : ℕ
  pub output_tokens : ℕ

-- `check_recommends_action`, which answers True where its own call fails
pub record AdviceCheck : Type 0 where
  pub recommends_action : Bool
  pub input_tokens : ℕ
  pub output_tokens : ℕ

pub record Services (Emb Cache Budget : Type 0) : Type 0 where
  pub detect_language : String → String
  pub scrub_pii : String → String
  pub embed_single : String → Outcome String Emb
  pub expand_query : String → Outcome String (List String)
  pub embed_texts : List String → Outcome String (List Emb)
  pub retrieve_chunks : Emb → Option Filters → ℕ → Outcome String (List Chunk)
  pub fuse_results : List (List Chunk) → List Chunk
  pub rerank_chunks : String → List Chunk → ℕ → Outcome String (List Chunk)
  pub build_context_block : List Chunk → String
  pub generate : String → String → String → Generation
  pub remove_em_dashes : String → String
  pub estimate_confidence : String → List Chunk → Ratio
  pub extract_citations : String → List Chunk → List Citation
  pub check_recommends_action : String → String → AdviceCheck
  pub cache_scope : String → Option Filters → String
  pub cache_lookup : Cache → String → Emb → Option CachedAnswer
  pub cache_store : Cache → String → ℕ → Emb → CachedAnswer → Cache
  pub record_token_usage : Budget → ℕ → ℕ → Outcome String Budget
  -- whether the audit trail takes an event of a type
  pub audit_outcome : String → Outcome String (Unit {0})
  pub user_facing_llm_error : String → String

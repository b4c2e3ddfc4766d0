-- ===== src/Citing.antt =====
-- backend/app/services/llm.py: the context that the model reads, and what is computed from its answer:
-- the blocks of lines, the confidence and the citations.
pub mod Confidence
pub mod Sourced
use Prim.Native.Char.{Char}
use Prim.Native.String.{count, ◌++◌ as str_append}
use pipe_line_gpt_backend.Prelude.{
  ℕ, zero, suc, ◌+◌, ◌-◌, ◌*◌, String, Bool, true, false, not, ◌&&◌, ◌||◌, Option, none, some, List,
  [], ◌∷◌, ◌++◌, map, any, all, select, length, last, str_eq, ◌==◌, if◌then◌else◌, strip, strip_end,
  is_space, is_code, contains, ends_with, join_with, take_chars,
}
use pipe_line_gpt_backend.FileTypes.{or_text}
use pipe_line_gpt_backend.Models.{Ratio, Citation}
use pipe_line_gpt_backend.Retrieval.{Found}

-- Python's regular expressions of the module (what findall finds, what sub leaves, whether match
-- matches), str.splitlines, and the texts of a number and of a date.
pub record Patterns : Type 0 where
  pub citation_tags : String → List String
  pub source_ids : String → List String
  pub without_tags : String → String
  pub is_heading : String → Bool
  pub is_table_row : String → Bool
  pub is_list_item : String → Bool
  pub without_marker : String → String
  pub without_references : String → String
  pub without_separators : String → String
  pub numbers : String → List String
  pub split_lines : String → List String
  pub str : ℕ → String
  pub isoformat : ℕ → String

pub data Kind : Type 0 where
  heading table items cite prose blank : Kind

abbrev pub Block : Type 0
Block = Kind × List String

abbrev kind_eq : Kind → Kind → Bool
kind_eq heading heading = true
kind_eq table table = true
kind_eq items items = true
kind_eq cite cite = true
kind_eq prose prose = true
kind_eq blank blank = true
kind_eq _ _ = false

abbrev is_kind : Kind → Option Block → Bool
is_kind k none = false
is_kind k (some (j, lines)) = kind_eq j k

abbrev or_na : Option String → String
or_na none = "N/A"
or_na (some t) = or_text t "N/A"

abbrev pub zeros : ℕ → String
zeros zero = ""
zeros (suc n) = str_append "0" (zeros n)

-- the characters that may surround the tags of a line that only cites
abbrev is_punctuation : Char → Bool
is_punctuation c =
    is_code 32 c || (is_code 46 c || (is_code 44 c || (is_code 59 c || is_code 58 c)))

unfoldable pub only_punctuation : String → Bool
only_punctuation String.[] = true
only_punctuation (String.◌∷◌ c s) = is_punctuation c && only_punctuation s

unfoldable pub starts_with_space : String → Bool
starts_with_space String.[] = false
starts_with_space (String.◌∷◌ c s) = is_space c

module _ (p : Patterns) where
  -- `SRC-001`
  unfoldable pub source_id : ℕ → String
  source_id n = str_append "SRC-" (str_append (zeros (3 - count (p.str n))) (p.str n))

  -- the chunks with the ids that the context gives them
  unfoldable pub with_ids : ℕ → List Found → List (String × Found)
  unfolding source_id
  with_ids n [] = []
  with_ids n (c ∷ cs) = (source_id n, c) ∷ with_ids (suc n) cs

  abbrev section_header : Option String → List String
  section_header none = []
  section_header (some t) = if str_eq t "" then [] else " [SECTION=" ∷ t ∷ "]" ∷ []

  unfoldable pub context_part : String × Found → String
  unfolding join_with take_chars
  context_part (sid, c) = join_with "" (
      ("[SOURCE_ID="
        ∷ sid
        ∷ "] [DATE="
        ∷ take_chars 10 (p.isoformat c.ingest_date)
        ∷ "] [SEGMENT="
        ∷ or_na c.segment_id
        ∷ "]"
        ∷ [])
      ++ section_header c.section_label
      ++ ("\n" ∷ c.text_content ∷ []))

  -- `build_context_block`: the text, and the chunks with their ids
  unfoldable pub build_context_block : List Found → String × List (String × Found)
  unfolding with_ids context_part join_with
  build_context_block chunks =
      let tagged = with_ids 1 chunks in (join_with "\n\n---\n\n" (map context_part tagged), tagged)

  unfoldable pub ids_of_tags : List String → List String
  ids_of_tags [] = []
  ids_of_tags (tag ∷ tags) = p.source_ids tag ++ ids_of_tags tags

  -- `_cited_ids`
  unfoldable pub cited_ids : String → List String
  unfolding ids_of_tags
  cited_ids text = ids_of_tags (p.citation_tags text)

  -- `_figures`
  unfoldable pub figures : String → List String
  figures text =
      p.numbers
        (p.without_separators (p.without_references (p.without_marker (p.without_tags text))))

  -- the kind of a line that is not blank, after the block before it
  unfoldable pub kind_of : Option Block → String → Kind
  unfolding cited_ids only_punctuation starts_with_space
  kind_of before line =
      if p.is_heading line
      then heading
      else if p.is_table_row line
      then table
      else if p.is_list_item line || (starts_with_space line && is_kind items before)
      then items
      else if not (length (cited_ids line) == 0) && only_punctuation (p.without_tags line)
      then cite
      else prose

  abbrev emit : Option Block → List Block
  emit none = []
  emit (some b) = b ∷ []

  abbrev joins : Kind → Bool
  joins k = kind_eq k table || kind_eq k items

  -- the last block with one more line of its kind
  abbrev extended : Option Block → String → Option Block
  extended none line = none
  extended (some (k, lines)) line = some (k, lines ++ line ∷ [])

  -- the loop of `_blocks`, with the block that is being built
  unfoldable pub blocks_from : Option Block → List String → List Block
  unfolding kind_of strip
  blocks_from before [] = emit before
  blocks_from before (line ∷ lines) =
      let k = kind_of before line in
      let after_blank = blocks_from (some (blank, [])) lines in
      let joined = blocks_from (extended before line) lines in
      let fresh = blocks_from (some (k, line ∷ [])) lines in
      if str_eq (strip line) ""
      then emit before ++ after_blank
      else if joins k && is_kind k before
      then joined
      else emit before ++ fresh

  -- `_blocks`
  unfoldable pub blocks : String → List Block
  unfolding blocks_from
  blocks answer = select (λ b. not (kind_eq b.0 blank)) (blocks_from none (p.split_lines answer))

  module _ (valid_ids source_figures : List String) where
    abbrev pub is_valid : String → Bool
    is_valid sid = any (str_eq sid) valid_ids

    unfoldable pub cites_valid : List String → Bool
    unfolding cited_ids
    cites_valid lines = any (λ line. any is_valid (cited_ids line)) lines

    abbrev block_cites : Option Block → Bool
    block_cites none = false
    block_cites (some (k, lines)) = cites_valid lines

    abbrev lines_of : Option Block → List String
    lines_of none = []
    lines_of (some (k, lines)) = lines

    abbrev ends_with_colon : Option String → Bool
    ends_with_colon none = false
    ends_with_colon (some line) = ends_with (strip_end (p.without_tags line)) ":"

    -- whether a block is backed by a citation of its own or beside it
    unfoldable pub supported : Bool → Option Block → Block → Option Block → Bool
    unfolding cites_valid ends_with last strip_end
    supported section_cited prev (kind, lines) next =
        section_cited
        || (cites_valid lines
            || (((is_kind cite next || joins kind) && block_cites next)
                || (joins kind
                    && (is_kind prose prev
                        && (block_cites prev && ends_with_colon (last (lines_of prev)))))))

    abbrev is_backed : Bool → String → Bool
    is_backed support line = support || all (λ f. any (str_eq f) source_figures) (figures line)

    -- the claims of a block, and how many of them are backed
    unfoldable pub count_lines : Bool → List String → ℕ × ℕ
    unfolding figures
    count_lines support [] = (0, 0)
    count_lines support (line ∷ lines) =
        let rest = count_lines support lines in
        if length (figures line) == 0
        then rest
        else (suc rest.0, (if is_backed support line then 1 else 0) + rest.1)

    abbrev pub head_of : List Block → Option Block
    head_of [] = none
    head_of (b ∷ bs) = some b

    -- the loop over the blocks
    unfoldable pub count_blocks : Option Block → Bool → List Block → ℕ × ℕ
    unfolding count_lines supported
    count_blocks prev section_cited [] = (0, 0)
    count_blocks prev section_cited ((kind, lines) ∷ bs) =
        let in_section = count_blocks (some (kind, lines)) (cites_valid lines) bs in
        let rest = count_blocks (some (kind, lines)) section_cited bs in
        let own = count_lines (supported section_cited prev (kind, lines) (head_of bs)) lines in
        if kind_eq kind heading then in_section else (own.0 + rest.0, own.1 + rest.1)

  unfoldable pub figures_of : List (String × Found) → List String
  unfolding figures
  figures_of [] = []
  figures_of ((sid, c) ∷ cs) = figures c.text_content ++ figures_of cs

  abbrev pub count_valid : List String → List String → ℕ
  count_valid ids [] = 0
  count_valid ids (sid ∷ sids) = (if any (str_eq sid) ids then 1 else 0) + count_valid ids sids

  abbrev pub share : ℕ × ℕ → ℕ → ℕ → Ratio
  share (zero, backed) valid cited = record { num = valid; den = cited }
  share (suc claims, backed) valid cited = record { num = backed * valid; den = suc claims * cited }

  abbrev pub confidence_of : List String → List (String × Found) → List String → String → Ratio
  confidence_of ids chunks [] answer = record { num = 0; den = 1 }
  confidence_of ids chunks (sid ∷ sids) answer =
      share (count_blocks ids (figures_of chunks) none false (blocks answer))
        (count_valid ids (sid ∷ sids)) (length (sid ∷ sids))

  -- `estimate_confidence`, on chunks with their ids
  unfoldable pub estimate_confidence : String → List (String × Found) → Ratio
  unfolding cited_ids blocks count_blocks figures_of
  estimate_confidence answer [] = record { num = 1; den = 2 }
  estimate_confidence answer (c ∷ cs) =
      confidence_of (map (λ x. x.0) (c ∷ cs)) (c ∷ cs) (cited_ids answer) answer

  unfoldable pub citation_of : String × Found → Citation
  unfolding take_chars
  citation_of (sid, c) = record {
    source_id = sid;
    document_id = c.document_id;
    filename = c.filename;
    chunk_index = c.chunk_index;
    page_ref = c.page_ref;
    section_label = c.section_label;
    excerpt = take_chars 300 c.text_content;
  }

  -- the loop of `extract_citations`, with the ids that were seen; an id holds no "SOURCE_ID="
  unfoldable pub citations_from : List String → String → List (String × Found) → List Citation
  unfolding citation_of
  citations_from seen answer [] = []
  citations_from seen answer ((sid, c) ∷ cs) =
      let skipped = citations_from seen answer cs in
      let taken = citation_of (sid, c) ∷ citations_from (sid ∷ seen) answer cs in
      if str_eq sid "" || any (str_eq sid) seen
      then skipped
      else if contains sid answer
      then taken
      else skipped

  unfoldable pub extract_citations : String → List (String × Found) → List Citation
  unfolding citations_from
  extract_citations answer chunks = citations_from [] answer chunks

-- ===== src/Chunker.antt =====
-- backend/app/ingest/chunker.py: a text is cut into overlapping windows of words.
pub mod Covers
use Prim.Native.String.{count}
use pipe_line_gpt_backend.Prelude.{
  ℕ, zero, suc, ◌+◌, ◌-◌, ◌*◌, ◌/◌, min, max, String, Bool, true, false, Option, none, some, List,
  [], ◌∷◌, length, take, drop, ltb, ◌==◌, words, join_with, if◌then◌else◌,
}

abbrev pub chunk_size : ℕ
chunk_size = 400

abbrev pub chunk_overlap : ℕ
chunk_overlap = 50

-- `_approx_tokens`
unfoldable pub approx_tokens : String → ℕ
approx_tokens text = max 1 (count text / 4)

-- the dictionary of a chunk
pub record Piece : Type 0 where
  pub chunk_index : ℕ
  pub text_content : String
  pub token_count : ℕ
  pub page_ref : Option String
  pub section_label : Option String

-- `int(n * 0.75)`
abbrev pub words_of_tokens : ℕ → ℕ
words_of_tokens n = n * 3 / 4

abbrev more : {A : Type 0} → A → Option (List A) → Option (List A)
more x none = none
more x (some xs) = some (x ∷ xs)

-- The loop: the words of each chunk, for `size` words with `overlap` of them shared. The fuel bounds
-- its turns, and `none` means that it ran out; the number of words is enough where the overlap is
-- less than the size. (`end - words_overlap` is below 0 only where it is not.)
unfoldable pub windows : ℕ → (size overlap : ℕ) → List String → ℕ → Option (List (List String))
windows zero size overlap ws start = none
windows (suc fuel) size overlap ws start =
    let stop = min (start + size) (length ws) in
    let chunk_words = take (stop - start) (drop start ws) in
    let rest = windows fuel size overlap ws (stop - overlap) in
    if ltb start (length ws)
    then (if stop == length ws then some (chunk_words ∷ []) else more chunk_words rest)
    else some []

-- the chunks of the windows, counted from an index
unfoldable pub numbered : Option String → Option String → ℕ → List (List String) → List Piece
unfolding approx_tokens
numbered page_ref section_label i [] = []
numbered page_ref section_label i (w ∷ ws) =
    let text = join_with " " w in
    record {
      chunk_index = i;
      text_content = text;
      token_count = approx_tokens text;
      page_ref = page_ref;
      section_label = section_label;
    }
    ∷ numbered page_ref section_label (i + 1) ws

abbrev pieces_of : Option String → Option String → Option (List (List String)) → Option (List Piece)
pieces_of page_ref section_label none = none
pieces_of page_ref section_label (some ws) = some (numbered page_ref section_label 0 ws)

unfoldable pub chunk_text :
    String → (size overlap : ℕ) → (page_ref section_label : Option String) → Option (List Piece)
unfolding windows words
chunk_text text size overlap page_ref section_label =
    let ws = words text in
    pieces_of page_ref section_label
      (windows (suc (length ws)) (words_of_tokens size) (words_of_tokens overlap) ws 0)

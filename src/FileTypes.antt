-- ===== src/FileTypes.antt =====
-- backend/app/ingest/file_types.py and backend/app/ingest/tags.py: which files are taken, the names of
-- documents, and their tags. `lower` is str.lower; a file is the list of its bytes.
use Prim.Native.String.{count, ◌++◌ as str_append}
use pipe_line_gpt_backend.Prelude.{
  ℕ, ◌-◌, String, Bool, true, false, not, ◌&&◌, ◌||◌, Option, none, some, List, [], ◌∷◌, select,
  str_eq, leb, ◌==◌, if◌then◌else◌, split_on, is_code, words, join_with, last_piece, take_chars,
  drop_chars,
}

-- the kinds of files: the values of EXTENSION_TO_SOURCE_TYPE
pub data SourceType : Type 0 where
  pdf csv phmsa phmsa_zip : SourceType

abbrev pub source_type_text : SourceType → String
source_type_text pdf = "pdf"
source_type_text csv = "csv"
source_type_text phmsa = "phmsa"
source_type_text phmsa_zip = "phmsa_zip"

-- EXTENSION_TO_SOURCE_TYPE.get
unfoldable pub source_type_of_suffix : String → Option SourceType
source_type_of_suffix suffix =
    if str_eq suffix ".pdf"
    then some pdf
    else if str_eq suffix ".csv"
    then some csv
    else if str_eq suffix ".tsv" || str_eq suffix ".txt"
    then some phmsa
    else if str_eq suffix ".zip"
    then some phmsa_zip
    else none

-- the suffix of a name, by the pieces between its dots
abbrev suffix_of : (String → String) → List String → String
suffix_of lower [] = ""
suffix_of lower (p ∷ []) = ""
suffix_of lower (p ∷ q ∷ ps) = str_append "." (lower (last_piece (q ∷ ps)))

unfoldable pub source_type_for : (String → String) → String → Option SourceType
unfolding source_type_of_suffix split_on
source_type_for lower filename =
    source_type_of_suffix (suffix_of lower (split_on (is_code 46) filename))

-- `head.startswith(magic)`
abbrev pub starts_with_bytes : List ℕ → List ℕ → Bool
starts_with_bytes head [] = true
starts_with_bytes [] (m ∷ ms) = false
starts_with_bytes (h ∷ hs) (m ∷ ms) = h == m && starts_with_bytes hs ms

-- MAGIC_BYTES: "%PDF-" and "PK"
unfoldable pub has_valid_magic : SourceType → List ℕ → Bool
has_valid_magic pdf head = starts_with_bytes head (37 ∷ 80 ∷ 68 ∷ 70 ∷ 45 ∷ [])
has_valid_magic phmsa_zip head = starts_with_bytes head (80 ∷ 75 ∷ [])
has_valid_magic csv head = true
has_valid_magic phmsa head = true

abbrev pub name_max : ℕ
name_max = 512

-- `value or fallback` on a text
abbrev pub or_text : String → String → String
or_text t fallback = if str_eq t "" then fallback else t

-- the pieces between slashes and backslashes
unfoldable pub path_pieces : String → List String
unfolding split_on
path_pieces path = split_on (λ c. is_code 47 c || is_code 92 c) path

-- the pieces of a path that name something
unfoldable pub path_parts : String → List String
unfolding path_pieces
path_parts path =
    select (λ p. not (str_eq p "" || (str_eq p "." || str_eq p ".."))) (path_pieces path)

-- the last 512 characters of a name
unfoldable pub last_chars : String → String
unfolding drop_chars
last_chars name =
    if leb (count name) name_max then name else drop_chars (count name - name_max) name

abbrev base_name : String → String
base_name filename = or_text (last_piece (path_pieces filename)) "upload"

-- the name for a file inside a folder, where the path ends with the file's name
abbrev name_of_parts : String → List String → String
name_of_parts base parts =
    if not (str_eq (last_piece parts) "") && str_eq (last_piece parts) base
    then last_chars (join_with "/" parts)
    else take_chars 255 base

unfoldable pub display_name : String → Option String → String
unfolding path_pieces path_parts last_chars take_chars
display_name filename none = take_chars 255 (base_name filename)
display_name filename (some path) = name_of_parts (base_name filename) (path_parts path)

-- `clean_tag`
unfoldable pub clean_tag : Option String → Option String
unfolding words join_with
clean_tag none = none
clean_tag (some value) =
    let tag = join_with " " (words value) in if str_eq tag "" then none else some tag

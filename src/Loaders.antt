-- ===== src/Loaders.antt =====
-- backend/app/ingest: what the loaders of the kinds of files share. Each cuts the texts of a file into
-- chunks, and numbers the chunks across the file.
pub mod Csv
pub mod Pdf
pub mod PhmsaRows
pub mod Phmsa
pub mod Parse
pub mod Numbered
use Prim.Native.Char.{Char}
use pipe_line_gpt_backend.Prelude.{ℕ, suc, String, Bool, Option, none, some, List, [], ◌∷◌}
use pipe_line_gpt_backend.Chunker.{Piece, chunk_text, chunk_size, chunk_overlap}

-- One item of a row of csv.DictReader: a column with its text, or none where the row is too short,
-- or the texts beyond the header.
pub data Field : Type 0 where
  cell : String → Option String → Field
  extra : List String → Field

abbrev pub Row : Type 0
Row = List Field

-- What `_ocr_page` does with a page: a text, an exception that the loader catches (SubprocessError or
-- OSError), or any other exception.
pub data Scan : Type 0 where
  recognised : String → Scan
  ocr_failed ocr_raised : Scan

-- A page of pdfplumber: the text of `extract_text`, and the recognition of the rendered page.
pub record Page : Type 0 where
  pub text : Option String
  pub scan : Scan

-- What the loaders take from outside. `none` is an exception: bytes.decode with replacement,
-- csv.DictReader with a delimiter, pdfplumber's pages, the names and contents in a zip, the last part
-- of a path, the texts of a number and of a list, Python's case methods, str.isdigit, int, and
-- strptime with a format, written as day, month and year.
pub record Readers : Type 0 where
  pub decode : List ℕ → String
  pub csv_rows : Char → String → Option (List Row)
  pub pdf_pages : List ℕ → Option (List Page)
  pub zip_files : List ℕ → Option (List (String × List ℕ))
  pub path_name : String → String
  pub str : ℕ → String
  pub show_list : List String → String
  pub lower : String → String
  pub upper : String → String
  pub title : String → String
  pub capitalize : String → String
  pub isdigit : String → Bool
  pub int : String → Option ℕ
  pub parse_date : String → String → Option String

-- the settings of optical character recognition, and whether tesseract is installed
pub record Ocr : Type 0 where
  pub ocr_enabled : Bool
  pub tesseract_available : Bool

-- the metadata of a file: what the worker reads of it
pub record Meta : Type 0 where
  pub year_from : Option ℕ
  pub year_to : Option ℕ
  pub commodity : Option String
  pub row_count : ℕ
  pub pages : ℕ
  pub ocr_pages : ℕ

abbrev pub no_meta : Meta
no_meta = record {
  year_from = none;
  year_to = none;
  commodity = none;
  row_count = 0;
  pages = 0;
  ocr_pages = 0;
}

abbrev pub or_empty : {A : Type 0} → Option (List A) → List A
or_empty none = []
or_empty (some xs) = xs

-- `chunk_text` with its default sizes, for which it always ends (Loaders/Numbered)
unfoldable pub pieces_of_text : String → Option String → Option String → List Piece
unfolding chunk_text
pieces_of_text text page_ref section_label =
    or_empty (chunk_text text chunk_size chunk_overlap page_ref section_label)

-- `for i, chunk in enumerate(chunks, start): chunk["chunk_index"] = i`
unfoldable pub reindex : ℕ → List Piece → List Piece
reindex i [] = []
reindex i (p ∷ ps) = record p { chunk_index = i } ∷ reindex (suc i) ps

-- ===== src/Loaders/Phmsa.antt =====
-- backend/app/ingest/phmsa_loader.py: tables of incidents, one text for each incident, alone or in a
-- zip.
use pipe_line_gpt_backend.Prelude.{
  String, Bool, true, false, not, ◌||◌, Option, none, some, List, [], ◌∷◌, ◌++◌, length, any, min,
  max, ℕ, str_eq, if◌then◌else◌, strip, contains, ends_with, take_chars, join_with,
}
use pipe_line_gpt_backend.Chunker.{Piece}
use pipe_line_gpt_backend.Loaders.{Row, Readers, Meta, no_meta, pieces_of_text, reindex}
use pipe_line_gpt_backend.Loaders.PhmsaRows.{get, incident_label, row_to_text}

-- the set of the texts, each once, in the order of the rows
unfoldable pub distinct_texts : List String → List String
distinct_texts [] = []
distinct_texts (t ∷ ts) =
    let rest = distinct_texts ts in if any (str_eq t) rest then rest else t ∷ rest

abbrev pub least : ℕ → List ℕ → ℕ
least m [] = m
least m (n ∷ ns) = least (min m n) ns

abbrev pub greatest : ℕ → List ℕ → ℕ
greatest m [] = m
greatest m (n ∷ ns) = greatest (max m n) ns

abbrev with_years : List ℕ → Meta → Meta
with_years [] meta = meta
with_years (y ∷ ys) meta = record meta {
  year_from = some (least y ys);
  year_to = some (greatest y ys);
}

-- the commodity of a file that has one only
abbrev with_commodity : List String → Meta → Meta
with_commodity (c ∷ []) meta = record meta { commodity = some c }
with_commodity [] meta = meta
with_commodity (c ∷ d ∷ cs) meta = meta

-- `str(row.get(column, "0")).strip() not in ("", "0")`; the text of None is "None"
unfoldable pub is_counted : String → Row → Bool
unfolding get strip
is_counted column row = elim (get column row) [
  | none ↦ false
  | some v ↦ elim v [ none ↦ true | some t ↦ not (str_eq (strip t) "" || str_eq (strip t) "0") ]
]

unfoldable pub commodities : List Row → List String
unfolding get
commodities [] = []
commodities (row ∷ rows) =
    let rest = commodities rows in
    elim (get "COMMODITY" row) [
      | none ↦ rest
      | some v ↦ elim v [ none ↦ rest | some t ↦ if str_eq t "" then rest else t ∷ rest ]
    ]

module _ (r : Readers) where
  -- the year of a row, if it has one in digits; `none` where isdigit or int raises
  abbrev year_of : Option (Option String) → Option (Option ℕ)
  year_of none = if r.isdigit "" then none else some none
  year_of (some none) = none
  year_of (some (some t)) =
      if r.isdigit t then elim (r.int t) [ none ↦ none | some n ↦ some (some n) ] else some none

  abbrev add_year : Option (Option ℕ) → Option (List ℕ) → Option (List ℕ)
  add_year (some none) ys = ys
  add_year (some (some y)) (some ys) = some (y ∷ ys)
  add_year (some (some y)) none = none
  add_year none ys = none

  unfoldable pub years : List Row → Option (List ℕ)
  unfolding get
  years [] = some []
  years (row ∷ rows) = add_year (year_of (get "IYEAR" row)) (years rows)

  unfoldable pub section_of : Row → String
  unfolding is_counted incident_label join_with
  section_of row =
      let section = incident_label r row in
      if is_counted "FATAL" row || is_counted "INJURE" row
      then join_with "" (section ∷ " · Fatality or injury" ∷ [])
      else section

  abbrev add_pieces : Row → Option String → Option (List Piece) → Option (List Piece)
  add_pieces row (some text) (some ps) =
      some (pieces_of_text text none (some (section_of row)) ++ ps)
  add_pieces row none ps = none
  add_pieces row (some text) none = none

  -- the chunks of the rows, before they are numbered
  unfoldable pub row_pieces : List Row → Option (List Piece)
  unfolding pieces_of_text section_of row_to_text
  row_pieces [] = some []
  row_pieces (row ∷ rows) = add_pieces row (row_to_text r row) (row_pieces rows)

  abbrev assemble : List Row → Option (List ℕ) → Option (List Piece) → Option (List Piece × Meta)
  assemble rows (some ys) (some ps) = some (
    reindex 0 ps,
    with_years ys (
        with_commodity (distinct_texts (commodities rows))
          (record no_meta { row_count = length rows })),
  )
  assemble rows (some ys) none = none
  assemble rows none ps = none

  abbrev load_rows : Option (List Row) → Option (List Piece × Meta)
  load_rows none = none
  load_rows (some rows) = assemble rows (years rows) (row_pieces rows)

  -- a tab among the first 2048 characters makes it the delimiter
  unfoldable pub load_phmsa_tsv : List ℕ → Option (List Piece × Meta)
  unfolding take_chars years row_pieces reindex commodities distinct_texts
  load_phmsa_tsv content =
      let text = r.decode content in
      load_rows (r.csv_rows (if contains "\t" (take_chars 2048 text) then "\t" else ",") text)

  abbrev is_table : String → Bool
  is_table name =
      let low = r.lower name in
      ends_with low ".csv" || (ends_with low ".tsv" || ends_with low ".txt")

  abbrev add_table :
      String
      → Option (List Piece × Meta)
      → Option (List (List Piece × Meta × String))
      → Option (List (List Piece × Meta × String))
  add_table name (some (ps, meta)) (some rest) = some ((ps, meta, r.path_name name) ∷ rest)
  add_table name (some (ps, meta)) none = none
  add_table name none rest = none

  unfoldable pub tables : List (String × List ℕ) → Option (List (List Piece × Meta × String))
  unfolding ends_with load_phmsa_tsv
  tables [] = some []
  tables ((name, content) ∷ files) =
      let rest = tables files in
      if is_table name then add_table name (load_phmsa_tsv content) rest else rest

  unfoldable pub load_phmsa_zip : List ℕ → Option (List (List Piece × Meta × String))
  unfolding tables
  load_phmsa_zip content = elim (r.zip_files content) [ none ↦ none | some files ↦ tables files ]

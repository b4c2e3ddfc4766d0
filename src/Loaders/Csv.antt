-- ===== src/Loaders/Csv.antt =====
-- backend/app/ingest/csv_loader.py: the rows of a table in blocks of twenty, each block a text.
use Prim.Native.String.{◌++◌ as str_append}
use pipe_line_gpt_backend.Prelude.{
  ℕ, zero, suc, ◌+◌, String, Option, none, some, List, [], ◌∷◌, ◌++◌, length, take, drop, str_eq,
  if◌then◌else◌, join_with,
}
use pipe_line_gpt_backend.Chunker.{Piece}
use pipe_line_gpt_backend.Loaders.{
  Field, cell, extra, Row, Readers, Meta, no_meta, pieces_of_text, reindex,
}

abbrev pub block_size : ℕ
block_size = 20

-- `range(0, len(rows), block_size)` with the rows of each block; the number of rows is enough fuel
unfoldable pub blocks : {A : Type 0} → ℕ → ℕ → List A → List (ℕ × List A)
blocks zero start rows = []
blocks (suc fuel) start [] = []
blocks (suc fuel) start (r ∷ rs) =
    (start, take block_size (r ∷ rs)) ∷ blocks fuel (start + block_size) (drop block_size (r ∷ rs))

module _ (r : Readers) where
  -- `f"{k}: {v}"` where there is something in the cell
  unfoldable pub part_of : Field → List String
  part_of (cell k none) = []
  part_of (cell k (some v)) = if str_eq v "" then [] else str_append k (str_append ": " v) ∷ []
  part_of (extra vs) = str_append "None: " (r.show_list vs) ∷ []

  abbrev parts_of : Row → List String
  parts_of [] = []
  parts_of (f ∷ fs) = part_of f ++ parts_of fs

  -- the line of a row
  unfoldable pub line_of : ℕ → Row → String
  unfolding part_of join_with
  line_of n row =
      str_append "[ROW " (str_append (r.str n) (str_append "] " (join_with " | " (parts_of row))))

  unfoldable pub lines_from : ℕ → List Row → List String
  unfolding line_of
  lines_from n [] = []
  lines_from n (row ∷ rows) = line_of n row ∷ lines_from (suc n) rows

  abbrev block_label : ℕ → List Row → String
  block_label start rows =
      join_with "" ("Rows " ∷ r.str (start + 1) ∷ "-" ∷ r.str (start + length rows) ∷ [])

  -- the chunks of the blocks, counted on from an index
  unfoldable pub block_pieces : ℕ → List (ℕ × List Row) → List Piece
  unfolding lines_from pieces_of_text reindex join_with
  block_pieces i [] = []
  block_pieces i ((start, rows) ∷ bs) =
      let text = join_with "\n" (lines_from (suc start) rows) in
      let ps = reindex i (pieces_of_text text none (some (block_label start rows))) in
      ps ++ block_pieces (i + length ps) bs

  abbrev pieces_of_rows : Option (List Row) → Option (List Piece × Meta)
  pieces_of_rows none = none
  pieces_of_rows (some rows) =
      some
        (block_pieces 0 (blocks (length rows) 0 rows), record no_meta { row_count = length rows })

  unfoldable pub load_csv : List ℕ → Option (List Piece × Meta)
  unfolding block_pieces blocks
  load_csv content = pieces_of_rows (r.csv_rows "," (r.decode content))

-- ===== src/Loaders/Numbered.antt =====
-- The chunks of a file are counted from 0, whatever its kind, and the rows of a table are all in the
-- texts that are cut.
use pipe_line_gpt_backend.Prelude.{
  ℕ, zero, suc, ◌+◌, ◌≤◌, String, ◌≡◌, refl, ap, ◌∙◌, Bool-cases, any, ◌&&◌, Option, some, none,
  List, [], ◌∷◌, ◌++◌, length, take, drop, All, arith, Option-cases, inl, inr, length-take,
  length-drop, contains, take_chars, if◌then◌else◌,
}
use pipe_line_gpt_backend.FileTypes.{SourceType, pdf, csv, phmsa, phmsa_zip}
use pipe_line_gpt_backend.Chunker.{Piece, chunk_text, chunk_size, chunk_overlap}
use pipe_line_gpt_backend.Chunker.Covers.{chunk_text_covers}
use pipe_line_gpt_backend.Loaders.{Row, Readers, Ocr, Meta, pieces_of_text, reindex}
use pipe_line_gpt_backend.Loaders.Csv.{block_size, blocks, lines_from, block_pieces, load_csv}
use pipe_line_gpt_backend.Loaders.Pdf.{ocr_raises, load_pdf}
use pipe_line_gpt_backend.Loaders.Phmsa.{load_phmsa_tsv, load_phmsa_zip, years, row_pieces}
use pipe_line_gpt_backend.Loaders.Parse.{parse, merged, all_pieces}

-- The sizes that the loaders use let every text be cut to its end.
pub pieces_of_text-some :
    (text : String) (page_ref section_label : Option String)
    → chunk_text text chunk_size chunk_overlap page_ref section_label
      ≡ some (pieces_of_text text page_ref section_label)
unfolding pieces_of_text
pieces_of_text-some text page_ref section_label =
    let (ps, cs, is, n, t, w, l) =
      chunk_text_covers text chunk_size chunk_overlap page_ref section_label (omega arith) in
    rw is refl

-- the chunks are counted up from an index
abbrev pub IsIndexed : ℕ → List Piece → Type 0
IsIndexed i [] = Unit
IsIndexed i (p ∷ ps) = (p.chunk_index ≡ i) × IsIndexed (suc i) ps

pub reindex-IsIndexed : (i : ℕ) (ps : List Piece) → IsIndexed i (reindex i ps)
unfolding reindex
reindex-IsIndexed i [] = tt
reindex-IsIndexed i (p ∷ ps) = (refl, reindex-IsIndexed (suc i) ps)

append-IsIndexed :
    (i j : ℕ) (ps qs : List Piece)
    → j ≡ i + length ps
    → IsIndexed i ps
    → IsIndexed j qs
    → IsIndexed i (ps ++ qs)
append-IsIndexed i j [] qs e h k = let same : i ≡ j = omega arith in rw same k
append-IsIndexed i j (p ∷ ps) qs e h k = (h.0, append-IsIndexed (suc i) j ps qs (omega arith) h.1 k)

block_pieces-IsIndexed :
    (r : Readers) (bs : List (ℕ × List Row)) (i : ℕ) → IsIndexed i (block_pieces r i bs)
unfolding block_pieces
block_pieces-IsIndexed r [] i = tt
block_pieces-IsIndexed r ((start, rows) ∷ bs) i =
    append-IsIndexed i _ _ _ refl (reindex-IsIndexed i _) (block_pieces-IsIndexed r bs _)

-- what a loader gives, where it gives something, is counted from 0
abbrev IndexedResult : Option (List Piece × Meta) → Type 0
IndexedResult none = Unit
IndexedResult (some (ps, meta)) = IsIndexed 0 ps

load_csv-IndexedResult : (r : Readers) (content : List ℕ) → IndexedResult (load_csv r content)
unfolding load_csv
load_csv-IndexedResult r content = elim (Option-cases (r.csv_rows "," (r.decode content))) [
  | inl e ↦ rw e tt
  | inr (rows, e) ↦ rw e (block_pieces-IsIndexed r (blocks (length rows) 0 rows) 0)
]

load_pdf-IndexedResult :
    (r : Readers) (o : Ocr) (content : List ℕ) → IndexedResult (load_pdf r o content)
unfolding load_pdf
load_pdf-IndexedResult r o content = elim (Option-cases (r.pdf_pages content)) [
  | inl e ↦ rw e tt
  | inr (pages, e) ↦
      (elim (Bool-cases (any (ocr_raises (o.ocr_enabled && o.tesseract_available)) pages)) [
        | inl raises ↦ rw (e, raises) tt
        | inr fine ↦ rw (e, fine) (reindex-IsIndexed 0 _)
      ])
]

load_phmsa_tsv-IndexedResult :
    (r : Readers) (content : List ℕ) → IndexedResult (load_phmsa_tsv r content)
unfolding load_phmsa_tsv
load_phmsa_tsv-IndexedResult r content =
    elim (Option-cases (
      r.csv_rows (if contains "\t" (take_chars 2048 (r.decode content)) then "\t" else ",")
        (r.decode content))) [
          | inl e ↦ rw e tt
          | inr (rows, e) ↦ rw e (elim (Option-cases (years r rows)) [
            | inl e' ↦ rw e' tt
            | inr (ys, e') ↦ rw e' (elim (Option-cases (row_pieces r rows)) [
              | inl e'' ↦ rw e'' tt
              | inr (ps, e'') ↦ rw e'' (reindex-IsIndexed 0 ps)
            ])
          ])
        ]

merged-IndexedResult :
    (results : Option (List (List Piece × Meta × String))) → IndexedResult (merged results)
merged-IndexedResult none = tt
merged-IndexedResult (some results) = reindex-IsIndexed 0 (all_pieces results)

parse-IndexedResult :
    (r : Readers) (o : Ocr) (t : SourceType) (content : List ℕ)
    → IndexedResult (parse r o t content)
unfolding parse
parse-IndexedResult r o pdf content = load_pdf-IndexedResult r o content
parse-IndexedResult r o csv content = load_csv-IndexedResult r content
parse-IndexedResult r o phmsa content = load_phmsa_tsv-IndexedResult r content
parse-IndexedResult r o phmsa_zip content = merged-IndexedResult (load_phmsa_zip r content)

-- Whatever the kind of a file, the chunks that its loader gives are counted 0, 1, 2 and so on, across
-- its pages, blocks of rows, incidents or tables.
pub parse-IsIndexed :
    (r : Readers) (o : Ocr) (t : SourceType) (content : List ℕ) (ps : List Piece) (meta : Meta)
    → parse r o t content ≡ some (ps, meta)
    → IsIndexed 0 ps
parse-IsIndexed r o t content ps meta h = rw h at (parse-IndexedResult r o t content)

-- the lines of the blocks, one block after the other
unfoldable pub block_lines : Readers → List (ℕ × List Row) → List String
unfolding lines_from
block_lines r [] = []
block_lines r ((start, rows) ∷ bs) = lines_from r (suc start) rows ++ block_lines r bs

take-drop-lines_from :
    (r : Readers) (k n m : ℕ) (xs : List Row)
    → m ≡ n + k
    → lines_from r n (take k xs) ++ lines_from r m (drop k xs) ≡ lines_from r n xs
unfolding lines_from
take-drop-lines_from r zero n m xs e = let same : m ≡ n = omega arith in rw same refl
take-drop-lines_from r (suc k) n m [] e = refl
take-drop-lines_from r (suc k) n m (x ∷ xs) e =
    rw (take-drop-lines_from r k (suc n) m xs (omega arith)) refl

-- With a row of fuel for each row, the blocks of a table hold at most 20 rows each, and their lines
-- are those of its rows, in order and numbered without a gap.
pub blocks_lem :
    (r : Readers) (fuel start : ℕ) (rows : List Row)
    → length rows ≤ fuel
    → (block_lines r (blocks fuel start rows) ≡ lines_from r (suc start) rows)
      × All (λ b. length b.1 ≤ block_size) (blocks fuel start rows)
unfolding blocks block_lines lines_from
blocks_lem r zero start [] h = (refl, tt)
blocks_lem r zero start (x ∷ xs) h = absurd (omega arith)
blocks_lem r (suc fuel) start [] h = (refl, tt)
blocks_lem r (suc fuel) start (x ∷ xs) h =
    let rest =
      blocks_lem r fuel (start + block_size) (drop block_size (x ∷ xs))
        (omega (arith, length-drop block_size (x ∷ xs))) in
    (
      ap (λ ls. lines_from r (suc start) (take block_size (x ∷ xs)) ++ ls) rest.0
          ∙ take-drop-lines_from r block_size (suc start) _ (x ∷ xs) (omega arith),
      (omega (arith, length-take block_size (x ∷ xs)), rest.1),
    )

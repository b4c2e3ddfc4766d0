-- ===== src/Loaders/Pdf.antt =====
-- backend/app/ingest/pdf_loader.py: the pages of a PDF, where a page with little text is read by
-- optical character recognition. The log lines are not modelled.
use Prim.Native.String.{count, ◌++◌ as str_append}
use pipe_line_gpt_backend.Prelude.{
  ℕ, suc, ◌+◌, String, Bool, true, false, ◌&&◌, Option, none, some, List, [], ◌∷◌, ◌++◌, any,
  length, ltb, ◌==◌, if◌then◌else◌, strip,
}
use pipe_line_gpt_backend.Chunker.{Piece}
use pipe_line_gpt_backend.Loaders.{
  Page, Scan, recognised, ocr_failed, ocr_raised, Readers, Ocr, Meta, no_meta, pieces_of_text,
  reindex,
}

abbrev pub ocr_min_chars : ℕ
ocr_min_chars = 25

abbrev or_no_text : Option String → String
or_no_text none = ""
or_no_text (some t) = t

-- `len(text.strip())`
unfoldable pub stripped_length : String → ℕ
unfolding strip
stripped_length text = count (strip text)

-- the text that recognition gives for a page: none where it is off or fails
abbrev scan_text : Scan → String
scan_text (recognised t) = t
scan_text ocr_failed = ""
scan_text ocr_raised = ""

abbrev ocr_text : Bool → Page → String
ocr_text true page = scan_text page.scan
ocr_text false page = ""

-- the recognised text takes the place of a short one where it is longer
unfoldable pub is_read_by_ocr : Bool → Page → Bool
unfolding stripped_length
is_read_by_ocr ocr page =
    let own = stripped_length (or_no_text page.text) in
    ltb own ocr_min_chars && ltb own (stripped_length (ocr_text ocr page))

abbrev is_raised : Scan → Bool
is_raised ocr_raised = true
is_raised _ = false

-- the recognition of a page with little text raises what the loader does not catch
unfoldable pub ocr_raises : Bool → Page → Bool
unfolding stripped_length
ocr_raises ocr page =
    ocr && (ltb (stripped_length (or_no_text page.text)) ocr_min_chars && is_raised page.scan)

unfoldable pub page_text : Bool → Page → String
unfolding is_read_by_ocr
page_text ocr page = if is_read_by_ocr ocr page then ocr_text ocr page else or_no_text page.text

module _ (r : Readers) where
  unfoldable pub page_label : Bool → ℕ → Page → String
  unfolding is_read_by_ocr
  page_label ocr n page =
      let label = str_append "Page " (r.str n) in
      if is_read_by_ocr ocr page then str_append label " (OCR)" else label

  -- the chunks of the pages from a number on
  unfoldable pub page_pieces : Bool → ℕ → List Page → List Piece
  unfolding page_text page_label pieces_of_text stripped_length
  page_pieces ocr n [] = []
  page_pieces ocr n (page ∷ pages) =
      let text = page_text ocr page in
      let rest = page_pieces ocr (suc n) pages in
      if stripped_length text == 0
      then rest
      else pieces_of_text text (some (r.str n)) (some (page_label ocr n page)) ++ rest

  unfoldable pub ocr_count : Bool → List Page → ℕ
  unfolding is_read_by_ocr
  ocr_count ocr [] = 0
  ocr_count ocr (page ∷ pages) = (if is_read_by_ocr ocr page then 1 else 0) + ocr_count ocr pages

  abbrev pieces_of_pages : Bool → Option (List Page) → Option (List Piece × Meta)
  pieces_of_pages ocr none = none
  pieces_of_pages ocr (some pages) =
      if any (ocr_raises ocr) pages
      then none
      else some (
        reindex 0 (page_pieces ocr 1 pages),
        record no_meta { pages = length pages; ocr_pages = ocr_count ocr pages },
      )

  unfoldable pub load_pdf : Ocr → List ℕ → Option (List Piece × Meta)
  unfolding page_pieces ocr_count ocr_raises reindex
  load_pdf o content =
      pieces_of_pages (o.ocr_enabled && o.tesseract_available) (r.pdf_pages content)

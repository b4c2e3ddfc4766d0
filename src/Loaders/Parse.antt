-- ===== src/Loaders/Parse.antt =====
-- backend/app/tasks/celery_app.py: `_parse`, which picks the loader of a kind of file. `none` stands for
-- any exception of a loader, which the source turns into a DocumentParseError.
use pipe_line_gpt_backend.Prelude.{String, Option, none, some, List, [], ◌∷◌, ◌++◌, ℕ}
use pipe_line_gpt_backend.FileTypes.{SourceType, pdf, csv, phmsa, phmsa_zip}
use pipe_line_gpt_backend.Chunker.{Piece}
use pipe_line_gpt_backend.Loaders.{Readers, Ocr, Meta, no_meta, reindex}
use pipe_line_gpt_backend.Loaders.Csv.{load_csv}
use pipe_line_gpt_backend.Loaders.Pdf.{load_pdf}
use pipe_line_gpt_backend.Loaders.Phmsa.{load_phmsa_tsv, load_phmsa_zip}

-- `raw_chunks`: the chunks of all tables of a zip
unfoldable pub all_pieces : List (List Piece × Meta × String) → List Piece
all_pieces [] = []
all_pieces ((ps, meta, name) ∷ rest) = ps ++ all_pieces rest

-- the chunks of the tables, numbered across them
abbrev pub merged : Option (List (List Piece × Meta × String)) → Option (List Piece × Meta)
merged none = none
merged (some results) = some (reindex 0 (all_pieces results), no_meta)

unfoldable pub parse : Readers → Ocr → SourceType → List ℕ → Option (List Piece × Meta)
unfolding all_pieces reindex load_phmsa_zip
parse r o pdf content = load_pdf r o content
parse r o csv content = load_csv r content
parse r o phmsa content = load_phmsa_tsv r content
parse r o phmsa_zip content = merged (load_phmsa_zip r content)

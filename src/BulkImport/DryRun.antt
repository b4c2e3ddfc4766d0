-- ===== src/BulkImport/DryRun.antt =====
-- A dry run writes nothing and counts every file once.
use pipe_line_gpt_backend.Prelude.{
  ℕ, ◌+◌, ◌≡◌, refl, ◌∙◌, true, List, [], ◌∷◌, length, arith, inl, inr,
}
use pipe_line_gpt_backend.Exec.{ok, Run-cases}
use pipe_line_gpt_backend.Documents.{Library, Uploads}
use pipe_line_gpt_backend.BulkImport.{
  File, Options, Run, Counts, counted, queue_file, import_file, import_files, import_folder,
  no_counts,
}

-- how many files were counted
abbrev pub total : Counts → ℕ
total n = n.queued + n.would_queue + n.duplicate + n.skipped

module _ (Cache : Type 0) (svc : Uploads Cache) (o : Options) where
  import_file-dry :
      (f : File) (r : Run Cache)
      → o.dry_run ≡ true
      → ((import_file Cache svc o f r).0 ≡ ok tt)
        × ((import_file Cache svc o f r).1.library ≡ r.library)
  unfolding import_file
  import_file-dry f r dry = (ground arith, ground arith)

  import_files-dry :
      (fs : List File) (r : Run Cache)
      → o.dry_run ≡ true
      → ((import_files Cache svc o fs r).0 ≡ ok tt)
        × ((import_files Cache svc o fs r).1.library ≡ r.library)
  unfolding import_files
  import_files-dry [] r dry = (refl, refl)
  import_files-dry (f ∷ fs) r dry =
      let here = import_file-dry f r dry in
      let later = import_files-dry fs (import_file Cache svc o f r).1 dry in
      (ground arith, ground arith)

  import_file-total :
      (f : File) (r r' : Run Cache)
      → import_file Cache svc o f r ≡ (ok tt, r')
      → total r'.counts ≡ total r.counts + 1
  unfolding import_file queue_file counted
  import_file-total f r r' h = ground arith

  import_files-total :
      (fs : List File) (r r' : Run Cache)
      → import_files Cache svc o fs r ≡ (ok tt, r')
      → total r'.counts ≡ total r.counts + length fs
  unfolding import_files
  import_files-total [] r r' h = ground arith
  import_files-total (f ∷ fs) r r' h = elim (Run-cases (import_file Cache svc o f r)) [
    | inr (e, mid, run) ↦ absurd (ground arith)
    | inl (u, mid, run) ↦
        let here = import_file-total f r mid run in
        let later = import_files-total fs mid r' (ground arith) in ground arith
  ]

  -- A dry run always ends, writes nothing to the library, and counts every file once.
  pub import_folder-dry :
      (fs : List File) (l : Library Cache)
      → o.dry_run ≡ true
      → ((import_folder Cache svc o fs l).0 ≡ ok tt)
        × ((import_folder Cache svc o fs l).1.library ≡ l)
        × (total (import_folder Cache svc o fs l).1.counts ≡ length fs)
  unfolding import_folder
  import_folder-dry fs l dry =
      let start : Run Cache = record {
        library = l;
        seen_in_run = [];
        counts = no_counts;
        report = [];
      } in
      let (ends, same) = import_files-dry fs start dry in
      (
        ends,
        same,
        import_files-total fs start (import_files Cache svc o fs start).1 (ground arith)
            ∙ omega arith,
      )

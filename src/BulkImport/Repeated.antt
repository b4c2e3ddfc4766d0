-- ===== src/BulkImport/Repeated.antt =====
-- A repeated import queues nothing.
use pipe_line_gpt_backend.Prelude.{
  any, eq_iff, String, ◌≡◌, refl, sym, Bool, true, false, some, List, [], ◌∷◌, find, str_eq,
  eq_refl, arith, Bool-cases, Option-cases, ◌⊎◌, inl, inr, All,
}
use pipe_line_gpt_backend.Exec.{ok, Run-cases}
use pipe_line_gpt_backend.Models.{Document}
use pipe_line_gpt_backend.FileTypes.{SourceType, last_chars}
use pipe_line_gpt_backend.Documents.{Library, Uploads, with_hash}
use pipe_line_gpt_backend.BulkImport.{
  File, Options, Run, counted, inspect, existing, queue_file, import_file, import_files,
  import_folder, no_counts,
}

-- some document has a content
abbrev pub has_content : {Cache : Type 0} → Library Cache → String → Bool
has_content l sha = any (λ d. str_eq d.sha256_hash sha) l.documents

has_content-with_hash :
    (sha : String) (ds : List Document)
    → any (λ d. str_eq d.sha256_hash sha) ds ≡ true
    → (d : Document) × (with_hash sha ds ≡ some d)
has_content-with_hash sha [] h = absurd (ground arith)
has_content-with_hash sha (d ∷ ds) h = elim (Bool-cases (str_eq d.sha256_hash sha)) [
  | inl e ↦ (d, ground arith)
  | inr e ↦ let (x, found) = has_content-with_hash sha ds (ground arith) in (x, ground arith)
]

with_hash-has_content :
    (sha : String) (ds : List Document) (d : Document)
    → with_hash sha ds ≡ some d
    → any (λ d. str_eq d.sha256_hash sha) ds ≡ true
with_hash-has_content sha [] d h = cc
with_hash-has_content sha (x ∷ ds) d h = ground (arith, with_hash-has_content sha ds d)

seen-holds :
    (P : String → Type 0) (sha : String) (ps : List (String × String)) (p : String × String)
    → All (λ p. P p.0) ps
    → find (λ p. str_eq p.0 sha) ps ≡ some p
    → P p.0 × (p.0 ≡ sha)
seen-holds P sha [] p k h = cc
seen-holds P sha (x ∷ ps) p k h = elim (Bool-cases (str_eq x.0 sha)) [
  | inl e ↦
      let same : x ≡ p = ground arith in (rw (sym same) k.0, rw (sym same) ((eq_iff x.0 sha).0 e))
  | inr e ↦ seen-holds P sha ps p k.1 (ground arith)
]

module _ (Cache : Type 0) (svc : Uploads Cache) (o : Options) where
  -- the contents that the run has met are in the library
  abbrev pub SeenIn : Run Cache → Type 0
  SeenIn r = All (λ p. has_content r.library p.0 ≡ true) r.seen_in_run

  -- the content of a file that is not skipped is in a library
  abbrev pub IsIn : Library Cache → File → Type 0
  IsIn l f =
      (t : SourceType) (sha : String)
      → inspect Cache svc o f ≡ some (t, sha)
      → has_content l sha ≡ true

  import_file_grows :
      (f : File) (r : Run Cache) (sha : String)
      → has_content r.library sha ≡ true
      → has_content (import_file Cache svc o f r).1.library sha ≡ true
  unfolding import_file queue_file
  import_file_grows f r sha h = ground arith

  existing-has_content :
      (sha name : String) (r : Run Cache)
      → SeenIn r
      → existing Cache svc sha r ≡ some name
      → has_content r.library sha ≡ true
  unfolding existing
  existing-has_content sha name r seen h = elim (Option-cases (with_hash sha r.library.documents)) [
    | inr (d, e) ↦ with_hash-has_content sha r.library.documents d e
    | inl e ↦ (elim (Option-cases (find (λ p. str_eq p.0 sha) r.seen_in_run)) [
      | inl g ↦ absurd (ground arith)
      | inr (p, g) ↦
          let (held, same) =
            seen-holds (λ x. has_content r.library x ≡ true) sha r.seen_in_run p seen g in
          ground arith
    ])
  ]

  has_content-existing :
      (sha : String) (r : Run Cache)
      → has_content r.library sha ≡ true
      → (name : String) × (existing Cache svc sha r ≡ some name)
  unfolding existing
  has_content-existing sha r h =
      let (d, found) = has_content-with_hash sha r.library.documents h in
      elim (Option-cases (existing Cache svc sha r)) [
        | inr (name, e) ↦ (name, e)
        | inl e ↦ absurd (ground arith)
      ]

  import_file-IsIn :
      (f : File) (r r' : Run Cache)
      → o.dry_run ≡ false
      → SeenIn r
      → import_file Cache svc o f r ≡ (ok tt, r')
      → IsIn r'.library f
  unfolding import_file queue_file
  import_file-IsIn f r r' wet seen h t sha is = elim (Option-cases (existing Cache svc sha r)) [
    | inl e ↦ ground (arith, eq_refl sha)
    | inr (name, e) ↦ let held = existing-has_content sha name r seen e in ground arith
  ]

  seen_grows :
      (ps : List (String × String)) (l l' : Library Cache)
      → ((sha : String) → has_content l sha ≡ true → has_content l' sha ≡ true)
      → All (λ p. has_content l p.0 ≡ true) ps
      → All (λ p. has_content l' p.0 ≡ true) ps
  seen_grows [] l l' up k = tt
  seen_grows (p ∷ ps) l l' up k = (up p.0 k.0, seen_grows ps l l' up k.1)

  seen-after :
      (f : File) (r r' : Run Cache)
      → import_file Cache svc o f r ≡ (ok tt, r')
      → (r'.seen_in_run ≡ r.seen_in_run)
        ⊎ ((t : SourceType) × (sha name : String) × (inspect Cache svc o f ≡ some (t, sha))
            × (r'.seen_in_run ≡ (sha, name) ∷ r.seen_in_run))
  unfolding import_file queue_file
  seen-after f r r' h = elim (Option-cases (inspect Cache svc o f)) [
    | inl e ↦ inl (ground arith)
    | inr ((t, sha), e) ↦ (elim (Option-cases (existing Cache svc sha r)) [
      | inr (name, known) ↦ inl (ground arith)
      | inl fresh ↦ inr (t, sha, last_chars f.path, e, ground arith)
    ])
  ]

  import_file-SeenIn :
      (f : File) (r r' : Run Cache)
      → o.dry_run ≡ false
      → SeenIn r
      → import_file Cache svc o f r ≡ (ok tt, r')
      → SeenIn r'
  import_file-SeenIn f r r' wet seen h =
      let grown : (sha : String)
          → has_content r.library sha ≡ true
          → has_content r'.library sha ≡ true =
        λ sha k. ground (arith, import_file_grows f r sha k) in
      let old = seen_grows r.seen_in_run r.library r'.library grown seen in
      elim (seen-after f r r' h) [
        | inl same ↦ rw same old
        | inr (t, sha, name, is, more) ↦ rw more (import_file-IsIn f r r' wet seen h t sha is, old)
      ]

  -- A file whose content is there changes nothing and is not queued.
  import_file-again :
      (f : File) (r : Run Cache)
      → IsIn r.library f
      → let r' = (import_file Cache svc o f r).1 in
        ((import_file Cache svc o f r).0 ≡ ok tt)
        × (r'.library ≡ r.library)
        × (r'.counts.queued ≡ r.counts.queued)
  unfolding import_file counted
  import_file-again f r there = elim (Option-cases (inspect Cache svc o f)) [
    | inl e ↦ (ground arith, ground arith, ground arith)
    | inr ((t, sha), e) ↦
        let (name, known) = has_content-existing sha r (there t sha e) in
        (ground arith, ground arith, ground arith)
  ]

  import_files-grows :
      (fs : List File) (r r' : Run Cache) (sha : String)
      → import_files Cache svc o fs r ≡ (ok tt, r')
      → has_content r.library sha ≡ true
      → has_content r'.library sha ≡ true
  unfolding import_files
  import_files-grows [] r r' sha h k = ground arith
  import_files-grows (f ∷ fs) r r' sha h k = elim (Run-cases (import_file Cache svc o f r)) [
    | inr (e, mid, run) ↦ absurd (ground arith)
    | inl (u, mid, run) ↦
        import_files-grows fs mid r' sha (ground arith)
          (ground (arith, import_file_grows f r sha k))
  ]

  import_files-IsIn :
      (fs : List File) (r r' : Run Cache)
      → o.dry_run ≡ false
      → SeenIn r
      → import_files Cache svc o fs r ≡ (ok tt, r')
      → All (λ f. IsIn r'.library f) fs
  unfolding import_files
  import_files-IsIn [] r r' wet seen h = tt
  import_files-IsIn (f ∷ fs) r r' wet seen h = elim (Run-cases (import_file Cache svc o f r)) [
    | inr (e, mid, run) ↦ absurd (ground arith)
    | inl (tt, mid, run) ↦
        let rest : import_files Cache svc o fs mid ≡ (ok tt, r') = ground arith in
        (
          (λ t sha is.
              import_files-grows fs mid r' sha rest
                (import_file-IsIn f r mid wet seen run t sha is)),
          import_files-IsIn fs mid r' wet (import_file-SeenIn f r mid wet seen run) rest,
        )
  ]

  import_files-again :
      (fs : List File) (r : Run Cache)
      → All (λ f. IsIn r.library f) fs
      → let r' = (import_files Cache svc o fs r).1 in
        ((import_files Cache svc o fs r).0 ≡ ok tt)
        × (r'.library ≡ r.library)
        × (r'.counts.queued ≡ r.counts.queued)
  unfolding import_files
  import_files-again [] r there = (refl, refl, refl)
  import_files-again (f ∷ fs) r there =
      let (ends, same, none_queued) = import_file-again f r there.0 in
      let mid = (import_file Cache svc o f r).1 in
      let (ends', same', none_queued') = import_files-again fs mid (rw same there.1) in
      (ground arith, ground arith, ground arith)

  -- After an import that was no dry run and ended, the same import again ends too, queues no file and
  -- leaves the library as it is.
  pub import_folder_again :
      (fs : List File) (l : Library Cache) (r : Run Cache)
      → o.dry_run ≡ false
      → import_folder Cache svc o fs l ≡ (ok tt, r)
      → let again = import_folder Cache svc o fs r.library in
        (again.0 ≡ ok tt) × (again.1.library ≡ r.library) × (again.1.counts.queued ≡ 0)
  unfolding import_folder
  import_folder_again fs l r wet h =
      import_files-again fs
        (record { library = r.library; seen_in_run = []; counts = no_counts; report = [] })
        (import_files-IsIn fs
          (record { library = l; seen_in_run = []; counts = no_counts; report = [] }) r wet tt h)

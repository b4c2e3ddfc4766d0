-- ===== src/Documents/Rows.antt =====
-- Rows of documents after a deletion or a change of one row: their contents, and what belongs to them.
use pipe_line_gpt_backend.Prelude.{
  ℕ, String, ◌≡◌, refl, Bool, true, false, not, none, List, [], ◌∷◌, any, select, update_where,
  ◌==◌, arith, Bool-cases, inl, inr, All,
}
use pipe_line_gpt_backend.Models.{Document, Chunk}
use pipe_line_gpt_backend.Documents.{with_hash}

-- No two rows have one content.
abbrev pub HashesDistinct : List Document → Type 0
HashesDistinct [] = Unit
HashesDistinct (d ∷ ds) = (with_hash d.sha256_hash ds ≡ none) × HashesDistinct ds

-- there is a row with an id
abbrev pub has_document : List Document → ℕ → Bool
has_document ds id = any (λ d. d.id == id) ds

abbrev pub ChunksOwned : List Document → List Chunk → Type 0
ChunksOwned ds cs = All (λ c. has_document ds c.document_id ≡ true) cs

abbrev pub FilesOwned : List Document → List (ℕ × List ℕ) → Type 0
FilesOwned ds fs = All (λ f. has_document ds f.0 ≡ true) fs

pub with_hash-select :
    (sha : String) (id : ℕ) (ds : List Document)
    → with_hash sha ds ≡ none
    → with_hash sha (select (λ x. not (x.id == id)) ds) ≡ none
with_hash-select sha id [] h = refl
with_hash-select sha id (d ∷ ds) h = ground (arith, with_hash-select sha id ds)

pub select-HashesDistinct :
    (id : ℕ) (ds : List Document)
    → HashesDistinct ds
    → HashesDistinct (select (λ x. not (x.id == id)) ds)
select-HashesDistinct id [] h = tt
select-HashesDistinct id (d ∷ ds) h = elim (Bool-cases (d.id == id)) [
  | inl e ↦ rw e (select-HashesDistinct id ds h.1)
  | inr e ↦ rw e (with_hash-select d.sha256_hash id ds h.0, select-HashesDistinct id ds h.1)
]

pub with_hash-update :
    (sha : String) (id : ℕ) (f : Document → Document) (ds : List Document)
    → ((x : Document) → (f x).sha256_hash ≡ x.sha256_hash)
    → with_hash sha ds ≡ none
    → with_hash sha (update_where (λ x. x.id == id) f ds) ≡ none
with_hash-update sha id f [] keep h = refl
with_hash-update sha id f (d ∷ ds) keep h =
    ground (arith, keep d, with_hash-update sha id f ds keep)

pub update-HashesDistinct :
    (id : ℕ) (f : Document → Document) (ds : List Document)
    → ((x : Document) → (f x).sha256_hash ≡ x.sha256_hash)
    → HashesDistinct ds
    → HashesDistinct (update_where (λ x. x.id == id) f ds)
update-HashesDistinct id f [] keep h = tt
update-HashesDistinct id f (d ∷ ds) keep h = elim (Bool-cases (d.id == id)) [
  | inl e ↦ rw e (
    rw (keep d) (with_hash-update d.sha256_hash id f ds keep h.0),
    update-HashesDistinct id f ds keep h.1,
  )
  | inr e ↦
      rw e (with_hash-update d.sha256_hash id f ds keep h.0, update-HashesDistinct id f ds keep h.1)
]

pub has_document-update :
    (n id : ℕ) (f : Document → Document) (ds : List Document)
    → ((x : Document) → (f x).id ≡ x.id)
    → has_document (update_where (λ x. x.id == id) f ds) n ≡ has_document ds n
has_document-update n id f [] keep = refl
has_document-update n id f (d ∷ ds) keep =
    ground (arith, keep d, has_document-update n id f ds keep)

-- another document survives a deletion
pub has_document-select :
    (n id : ℕ) (ds : List Document)
    → (n == id) ≡ false
    → has_document (select (λ x. not (x.id == id)) ds) n ≡ has_document ds n
has_document-select n id [] h = refl
has_document-select n id (d ∷ ds) h = ground (arith, has_document-select n id ds h)

-- A list whose elements name documents, when the documents change but keep those that it names.
module _ {A : Type 0} (owner : A → ℕ) (ds ds' : List Document) where
  pub All-owned :
      (xs : List A)
      → ((n : ℕ) → has_document ds n ≡ true → has_document ds' n ≡ true)
      → All (λ x. has_document ds (owner x) ≡ true) xs
      → All (λ x. has_document ds' (owner x) ≡ true) xs
  All-owned [] keep h = tt
  All-owned (x ∷ xs) keep h = (keep (owner x) h.0, All-owned xs keep h.1)

  pub All-kept :
      (id : ℕ) (xs : List A)
      → ((n : ℕ) → (n == id) ≡ false → has_document ds n ≡ true → has_document ds' n ≡ true)
      → All (λ x. has_document ds (owner x) ≡ true) xs
      → All (λ x. has_document ds' (owner x) ≡ true) (select (λ x. not (owner x == id)) xs)
  All-kept id [] keep h = tt
  All-kept id (x ∷ xs) keep h = elim (Bool-cases (owner x == id)) [
    | inl e ↦ rw e (All-kept id xs keep h.1)
    | inr e ↦ rw e (keep (owner x) e h.0, All-kept id xs keep h.1)
  ]

-- ===== src/Documents/Pages.antt =====
-- The pages of the knowledge base show every document once, and its summary counts them all.
use mathlib.Core.List.{Memᴰ}
use pipe_line_gpt_backend.Prelude.{
  ℕ, zero, suc, ◌+◌, ◌*◌, ◌≤◌, ◌<◌, String, ◌≡◌, ◌↔◌, refl, sym, ap, ◌∙◌, Bool, true, ◌&&◌, ◌⊎◌,
  inl, inr, Option, none, some, List, [], ◌∷◌, ◌++◌, map, any, select, take, drop, length, ◌==◌,
  ==_iff, eq_iff, str_eq, strip, arith, Bool-cases, take-append-drop, length-sort_by, if◌then◌else◌,
  sort_by, All, All-map, All-select, All-sort_by, Adjacent, sort_by-Adjacent, any-sort_by,
  sort_by-DistinctKeys, select-DistinctKeys, DistinctKeys,
}
use pipe_line_gpt_backend.Models.{Document, DocumentStatus, pending, processing, completed, failed}
use pipe_line_gpt_backend.Chunker.Covers.{drop-drop}
use pipe_line_gpt_backend.Documents.Listing.{
  item_of, newest_first, named_like, has_status, chosen, same_status, count_status, summary_of,
  matching, list_documents, items_of_pages,
}

abbrev one_if : Bool → ℕ
one_if b = if b then 1 else 0

one_status :
    (s : DocumentStatus)
    → one_if (same_status s pending)
        + one_if (same_status s processing)
        + one_if (same_status s completed)
        + one_if (same_status s failed)
      ≡ 1
one_status pending = refl
one_status processing = refl
one_status completed = refl
one_status failed = refl

-- each document has one status
status_counts :
    (ds : List Document)
    → count_status pending ds
        + count_status processing ds
        + count_status completed ds
        + count_status failed ds
      ≡ length ds
unfolding count_status
status_counts [] = omega arith
status_counts (d ∷ ds) = omega (arith, one_status d.status, status_counts ds)

drop-every : {A : Type 0} (n : ℕ) (xs : List A) → length xs ≤ n → drop n xs ≡ []
drop-every zero [] h = refl
drop-every zero (x ∷ xs) h = absurd (omega arith)
drop-every (suc n) [] h = refl
drop-every (suc n) (x ∷ xs) h = drop-every n xs (omega arith)

map-append : {A B : Type 0} (f : A → B) (xs ys : List A) → map f (xs ++ ys) ≡ map f xs ++ map f ys
map-append f [] ys = refl
map-append f (x ∷ xs) ys = ap (λ zs. f x ∷ zs) (map-append f xs ys)

abbrev pub document_id : Document → ℕ
document_id d = d.id

same_status_iff : (a b : DocumentStatus) → (same_status a b ≡ true) ↔ (a ≡ b)
same_status_iff pending pending = ground arith
same_status_iff pending processing = ground arith
same_status_iff pending completed = ground arith
same_status_iff pending failed = ground arith
same_status_iff processing pending = ground arith
same_status_iff processing processing = ground arith
same_status_iff processing completed = ground arith
same_status_iff processing failed = ground arith
same_status_iff completed pending = ground arith
same_status_iff completed processing = ground arith
same_status_iff completed completed = ground arith
same_status_iff completed failed = ground arith
same_status_iff failed pending = ground arith
same_status_iff failed processing = ground arith
same_status_iff failed completed = ground arith
same_status_iff failed failed = ground arith

-- newest first, and among those of one date the higher id first
abbrev pub NewestFirst : List Document → Type 0
NewestFirst [] = Unit
NewestFirst (x ∷ []) = Unit
NewestFirst (x ∷ y ∷ ys) =
    ((y.ingest_date < x.ingest_date) ⊎ ((y.ingest_date ≡ x.ingest_date) × (y.id ≤ x.id)))
    × NewestFirst (y ∷ ys)

newest : (ds : List Document) → Adjacent newest_first ds → NewestFirst ds
newest [] h = tt
newest (x ∷ []) h = tt
newest (x ∷ y ∷ ys) h = (ground (arith, h.0), newest (y ∷ ys) h.1)

mem_each : {A : Type 0} (xs : List A) → All (λ x. Memᴰ x xs) xs
mem_each [] = tt
mem_each (x ∷ xs) = (Memᴰ.head refl, All-map xs (λ y m. Memᴰ.tail m) (mem_each xs))

-- a row that passes a test is among those selected
select-kept :
    (test : Document → Bool) (ds : List Document)
    → All (λ d. test d ≡ true → any (λ x. x.id == d.id) (select test ds) ≡ true) ds
select-kept test [] = tt
select-kept test (d ∷ ds) = (
  λ h. rw h (ground (arith, (==_iff d.id d.id).1 refl)),
  All-map ds (λ x kept h. ground (arith, kept h)) (select-kept test ds),
)

module _ (ilike : String → String → Bool) where
  pages-from :
      (n limit offset : ℕ) (q : Option String) (s : Option DocumentStatus) (ds : List Document)
      → length (matching ilike q s ds) ≤ offset + n * limit
      → items_of_pages ilike n limit offset q s ds
        ≡ map item_of (drop offset (matching ilike q s ds))
  unfolding items_of_pages list_documents
  pages-from zero limit offset q s ds h =
      rw (drop-every offset (matching ilike q s ds) (omega (arith, h))) refl
  pages-from (suc n) limit offset q s ds h =
      let ms = matching ilike q s ds in
      let more : length ms ≤ offset + limit + n * limit = omega (arith, h) in
      rw (pages-from n limit (offset + limit) q s ds more) (
        ap (λ zs. map item_of (take limit (drop offset ms)) ++ map item_of zs)
          (sym (drop-drop limit offset ms))
        ∙ sym (map-append item_of (take limit (drop offset ms)) (drop limit (drop offset ms)))
        ∙ ap (map item_of) (take-append-drop limit (drop offset ms)))

  -- what the filters ask of a document
  abbrev NameLike : Option String → Document → Type 0
  NameLike none d = Unit
  NameLike (some t) d = (strip t ≡ "") ⊎ (ilike d.filename (strip t) ≡ true)

  abbrev StatusIs : Option DocumentStatus → Document → Type 0
  StatusIs none d = Unit
  StatusIs (some wanted) d = d.status ≡ wanted

  abbrev pub Passes : Option String → Option DocumentStatus → Document → Type 0
  Passes q s d = NameLike q d × StatusIs s d

  named_like_iff : (q : Option String) (d : Document) → (named_like ilike q d ≡ true) ↔ NameLike q d
  named_like_iff none d = (λ _. tt, λ _. refl)
  named_like_iff (some t) d = (
    λ h. (elim (Bool-cases (str_eq (strip t) "")) [
      | inl e ↦ inl ((eq_iff (strip t) "").0 e)
      | inr e ↦ inr (ground arith)
    ]),
    λ h. (elim h [ inl blank ↦ rw ((eq_iff (strip t) "").1 blank) refl | inr like ↦ ground arith ]),
  )

  has_status_iff :
      (s : Option DocumentStatus) (d : Document) → (has_status ilike s d ≡ true) ↔ StatusIs s d
  has_status_iff none d = (λ _. tt, λ _. refl)
  has_status_iff (some wanted) d = same_status_iff d.status wanted

  -- the conditions of the query ask just that
  Passes-iff :
      (q : Option String) (s : Option DocumentStatus) (d : Document)
      → (named_like ilike q d && has_status ilike s d ≡ true) ↔ Passes q s d
  Passes-iff q s d =
      let n = named_like_iff q d in
      let t = has_status_iff s d in
      (λ h. (n.0 (ground arith), t.0 (ground arith)), λ h. ground (arith, n.1 h.0, t.1 h.1))

  -- Where no two documents have one id, and with enough pages of one size, one after the other: the
  -- listing shows documents of the table only, each once, newest first and the higher id first
  -- among those of one date; the name of each is like the text asked for, unless that is blank, and
  -- its status is the one asked for; and each document of the table for which this holds is shown.
  -- They are as many as the total of a page says, and the summary of every page counts all the
  -- documents, whatever the filters.
  pub list_documents_complete :
      (n limit offset : ℕ) (q : Option String) (s : Option DocumentStatus) (ds : List Document)
      → DistinctKeys document_id ds
      → (list_documents ilike limit offset q s ds).total ≤ n * limit
      → let page = list_documents ilike limit offset q s ds in
        (ms : List Document) × (items_of_pages ilike n limit 0 q s ds ≡ map item_of ms)
        × All (λ d. Memᴰ d ds × Passes q s d) ms
        × DistinctKeys document_id ms
        × NewestFirst ms
        × All (λ d. Passes q s d → any (λ x. x.id == d.id) ms ≡ true) ds
        × (length ms ≡ page.total)
        × (page.summary.documents ≡ length ds)
  unfolding list_documents matching summary_of
  list_documents_complete n limit offset q s ds distinct h =
      let test : Document → Bool = λ d. named_like ilike q d && has_status ilike s d in
      let rows = chosen ilike q s ds in
      let sorted = length-sort_by newest_first rows in
      (
        matching ilike q s ds,
        pages-from n limit 0 q s ds (omega (arith, sorted, h)),
        All-sort_by newest_first (λ d. Memᴰ d ds × Passes q s d) rows
            (All-select test ds (λ d e m. (m, (Passes-iff q s d).0 e)) (mem_each ds)),
        sort_by-DistinctKeys newest_first document_id rows
            (select-DistinctKeys document_id test ds distinct),
        newest (sort_by newest_first rows)
            (sort_by-Adjacent newest_first rows (λ a b e. ground arith)),
        All-map ds
            (λ d kept passes.
              any-sort_by newest_first (λ x. x.id == d.id) rows
              ∙ kept ((Passes-iff q s d).1 passes))
            (select-kept test ds),
        sorted,
        status_counts ds,
      )

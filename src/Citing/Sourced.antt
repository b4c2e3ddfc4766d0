-- ===== src/Citing/Sourced.antt =====
-- The citations of an answer: each source that it names, once, and nothing else.
use Prim.Native.String.{count, ◌++◌ as str_append}
use text.Mathlib.TextLemmas.{length-append}
use pipe_line_gpt_backend.Prelude.{
  ℕ, suc, String, ◌≡◌, refl, Bool, true, false, ◌&&◌, ◌||◌, List, [], ◌∷◌, any, str_eq, contains,
  ◌==◌, ==_iff, eq_refl, eq_iff, ap, ◌-◌, arith, Bool-cases, inl, inr, All, All-map,
}
use pipe_line_gpt_backend.Models.{Citation}
use pipe_line_gpt_backend.Retrieval.{Found}
use pipe_line_gpt_backend.Citing.{
  Patterns, citations_from, citation_of, extract_citations, with_ids, source_id, zeros,
  build_context_block,
}

-- a citation has the id and the place of a chunk
abbrev pub cites_chunk : Citation → String × Found → Bool
cites_chunk r (sid, c) =
    str_eq sid r.source_id && (c.document_id == r.document_id && c.chunk_index == r.chunk_index)

-- no two citations have one id
abbrev pub DistinctIds : List Citation → Type 0
DistinctIds [] = Unit
DistinctIds (r ∷ rs) = All (λ x. str_eq x.source_id r.source_id ≡ false) rs × DistinctIds rs

-- the ids that an answer names are cited, if they were not before
abbrev NamedCited : String → List Citation → List String → List (String × Found) → Type 0
NamedCited answer rs seen cs =
    All
      (λ e.
        (str_eq e.0 "" || any (str_eq e.0) seen) ≡ false
        → contains e.0 answer ≡ true
        → any (λ r. str_eq e.0 r.source_id) rs ≡ true)
      cs

All-both :
    {A : Type 0} {P Q R : A → Type 0} (xs : List A)
    → All P xs
    → All Q xs
    → ((x : A) → P x → Q x → R x)
    → All R xs
All-both [] h k give = tt
All-both (x ∷ xs) h k give = (give x h.0 k.0, All-both xs h.1 k.1 give)

module _ (p : Patterns) where
  citations_from-backed :
      (answer : String) (cs : List (String × Found)) (seen : List String)
      → All
          (λ r.
            (contains r.source_id answer ≡ true)
            × (any (cites_chunk r) cs ≡ true)
            × (any (str_eq r.source_id) seen ≡ false))
          (citations_from p seen answer cs)
  unfolding citations_from citation_of
  citations_from-backed answer [] seen = tt
  citations_from-backed answer ((sid, c) ∷ cs) seen =
      let rest = citations_from-backed answer cs in
      elim (Bool-cases (str_eq sid "" || any (str_eq sid) seen)) [
        | inl e ↦ rw e (All-map _ (λ r h. (h.0, ground arith, h.2)) (rest seen))
        | inr e ↦ (elim (Bool-cases (contains sid answer)) [
          | inl named ↦
              rw (e, named)
                (
                  (
                    named,
                    ground (
                      arith,
                      eq_refl sid,
                      (==_iff c.document_id c.document_id).1 refl,
                      (==_iff c.chunk_index c.chunk_index).1 refl,
                    ),
                    ground arith,
                  ),
                  All-map _ (λ r h. (h.0, ground arith, ground (arith, h.2))) (rest (sid ∷ seen)),
                )
          | inr unnamed ↦ rw (e, unnamed) (All-map _ (λ r h. (h.0, ground arith, h.2)) (rest seen))
        ])
      ]

  citations_from-DistinctIds :
      (answer : String) (cs : List (String × Found)) (seen : List String)
      → DistinctIds (citations_from p seen answer cs)
  unfolding citations_from citation_of
  citations_from-DistinctIds answer [] seen = tt
  citations_from-DistinctIds answer ((sid, c) ∷ cs) seen =
      elim (Bool-cases (str_eq sid "" || any (str_eq sid) seen)) [
        | inl e ↦ rw e (citations_from-DistinctIds answer cs seen)
        | inr e ↦ (elim (Bool-cases (contains sid answer)) [
          | inl named ↦
              rw (e, named)
                (
                  All-map _ (λ r h. ground (arith, h.2))
                      (citations_from-backed answer cs (sid ∷ seen)),
                  citations_from-DistinctIds answer cs (sid ∷ seen),
                )
          | inr unnamed ↦ rw (e, unnamed) (citations_from-DistinctIds answer cs seen)
        ])
      ]

  citations_from-NamedCited :
      (answer : String) (cs : List (String × Found)) (seen : List String)
      → NamedCited answer (citations_from p seen answer cs) seen cs
  unfolding citations_from citation_of
  citations_from-NamedCited answer [] seen = tt
  citations_from-NamedCited answer ((sid, c) ∷ cs) seen =
      let rs = citations_from p seen answer ((sid, c) ∷ cs) in
      elim (Bool-cases (str_eq sid "" || any (str_eq sid) seen)) [
        | inl e ↦
            let skips : rs ≡ citations_from p seen answer cs = ground arith in
            (
              (λ fresh named. absurd (ground arith)),
              All-map cs (λ x h fresh named. rw skips (h fresh named))
                  (citations_from-NamedCited answer cs seen),
            )
        | inr e ↦ (elim (Bool-cases (contains sid answer)) [
          | inr unnamed ↦
              let skips : rs ≡ citations_from p seen answer cs = ground arith in
              (
                (λ fresh named. absurd (ground arith)),
                All-map cs (λ x h fresh named. rw skips (h fresh named))
                    (citations_from-NamedCited answer cs seen),
              )
          | inl is ↦
              let takes : rs ≡ citation_of p (sid, c) ∷ citations_from p (sid ∷ seen) answer cs =
                ground arith in
              (
                (λ fresh named. rw takes (ground (arith, eq_refl sid))),
                All-map cs (λ x h fresh named. rw takes (behind x h fresh named))
                    (citations_from-NamedCited answer cs (sid ∷ seen)),
              )
        ])
      ]
    where
      behind :
          (x : String × Found)
          → ((str_eq x.0 "" || any (str_eq x.0) (sid ∷ seen)) ≡ false
              → contains x.0 answer ≡ true
              → any (λ r. str_eq x.0 r.source_id) (citations_from p (sid ∷ seen) answer cs) ≡ true)
          → (str_eq x.0 "" || any (str_eq x.0) seen) ≡ false
          → contains x.0 answer ≡ true
          → any
              (λ r. str_eq x.0 r.source_id)
              (citation_of p (sid, c) ∷ citations_from p (sid ∷ seen) answer cs)
            ≡ true
      behind x h fresh named = elim (Bool-cases (str_eq x.0 sid)) [
        | inl same ↦ ground arith
        | inr other ↦ let later = h (ground arith) named in ground arith
      ]

  with_ids-named : (n : ℕ) (cs : List Found) → All (λ e. str_eq e.0 "" ≡ false) (with_ids p n cs)
  unfolding with_ids source_id
  with_ids-named n [] = tt
  with_ids-named n (c ∷ cs) = (
    elim (Bool-cases (str_eq (source_id p n) "")) [
      | inr e ↦ e
      | inl e ↦
          let same : source_id p n ≡ "" = (eq_iff (source_id p n) "").0 e in
          absurd (
            omega (
              arith,
              ap count same,
              length-append "SRC-" (str_append (zeros (3 - count (p.str n))) (p.str n)),
            ))
    ],
    with_ids-named (suc n) cs,
  )

  -- The citations of an answer over the sources of its context: no source twice, each of them a source
  -- of the context that the answer names, and every source that the answer names.
  pub extract_citations_lem :
      (answer : String) (chunks : List Found)
      → let sources = (build_context_block p chunks).1 in
        let rs = extract_citations p answer sources in
        DistinctIds rs
        × All (λ r. (contains r.source_id answer ≡ true) × (any (cites_chunk r) sources ≡ true)) rs
        × All
            (λ e. contains e.0 answer ≡ true → any (λ r. str_eq e.0 r.source_id) rs ≡ true)
            sources
  unfolding extract_citations build_context_block
  extract_citations_lem answer chunks =
      let sources = with_ids p 1 chunks in
      (
        citations_from-DistinctIds answer sources [],
        All-map _ (λ r h. (h.0, h.1)) (citations_from-backed answer sources []),
        All-both sources (citations_from-NamedCited answer sources []) (with_ids-named 1 chunks)
            (λ e cited named. cited (ground (arith, named))),
      )

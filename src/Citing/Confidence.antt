-- ===== src/Citing/Confidence.antt =====
-- The confidence of an answer is a share of one.
use native.Mathlib.Nat.{mul-le-mul, one-le-mul}
use pipe_line_gpt_backend.Prelude.{
  ℕ, zero, suc, ◌≤◌, String, ◌≡◌, refl, Bool, false, Option, none, some, List, [], ◌∷◌, any, length,
  map, str_eq, arith, List-cases, inl, inr, ◌==◌,
}
use pipe_line_gpt_backend.Retrieval.{Found}
use pipe_line_gpt_backend.Citing.{
  Patterns, Block, blocks, cited_ids, count_lines, count_blocks, cites_valid, supported, figures_of,
  estimate_confidence, head_of, count_valid, share,
}

module _ (p : Patterns) where
  module _ (ids source_figures : List String) where
    -- a block has no more backed claims than claims
    count_lines-bounded :
        (support : Bool) (lines : List String)
        → let n = count_lines p ids source_figures support lines in n.1 ≤ n.0
    unfolding count_lines
    count_lines-bounded support [] = omega arith
    count_lines-bounded support (line ∷ lines) = ground (arith, count_lines-bounded support lines)

    count_blocks-bounded :
        (bs : List Block) (prev : Option Block) (section_cited : Bool)
        → let n = count_blocks p ids source_figures prev section_cited bs in n.1 ≤ n.0
    unfolding count_blocks
    count_blocks-bounded [] prev section_cited = omega arith
    count_blocks-bounded ((kind, lines) ∷ bs) prev section_cited = ground (
      arith,
      count_lines-bounded
          (supported p ids source_figures section_cited prev (kind, lines)
            (head_of p ids source_figures bs))
          lines,
      count_blocks-bounded bs (some (kind, lines)) (cites_valid p ids source_figures lines),
      count_blocks-bounded bs (some (kind, lines)) section_cited,
    )

  count_valid-bounded : (ids sids : List String) → count_valid p ids sids ≤ length sids
  count_valid-bounded ids [] = omega arith
  count_valid-bounded ids (sid ∷ sids) = ground (arith, count_valid-bounded ids sids)

  share-bounded :
      (claims backed valid cited : ℕ)
      → backed ≤ claims
      → valid ≤ cited
      → 1 ≤ cited
      → ((share p (claims, backed) valid cited).num ≤ (share p (claims, backed) valid cited).den)
        × (1 ≤ (share p (claims, backed) valid cited).den)
  share-bounded zero backed valid cited h k one = (k, one)
  share-bounded (suc claims) backed valid cited h k one =
      (mul-le-mul h k, one-le-mul (omega arith) one)

  count_valid-none :
      (ids sids : List String)
      → any (λ sid. any (str_eq sid) ids) sids ≡ false
      → count_valid p ids sids ≡ 0
  count_valid-none ids [] h = refl
  count_valid-none ids (sid ∷ sids) h = ground (arith, count_valid-none ids sids)

  share-zero : (claims backed cited : ℕ) → (share p (claims, backed) 0 cited).num ≡ 0
  share-zero zero backed cited = refl
  share-zero (suc claims) backed cited = omega arith

  -- The confidence of an answer is a share between 0 and 1, and it is 0 where chunks were retrieved and
  -- the answer cites none of them.
  pub estimate_confidence-bounded :
      (answer : String) (chunks : List (String × Found))
      → let c = estimate_confidence p answer chunks in
        (c.num ≤ c.den)
        × (1 ≤ c.den)
        × ((length chunks == 0) ≡ false
            → any (λ sid. any (str_eq sid) (map (λ x. x.0) chunks)) (cited_ids p answer) ≡ false
            → c.num ≡ 0)
  unfolding estimate_confidence
  estimate_confidence-bounded answer [] =
      (omega arith, omega arith, (λ some_there none_cited. absurd (ground arith)))
  estimate_confidence-bounded answer (c ∷ cs) = elim (List-cases (cited_ids p answer)) [
    | inl e ↦ rw e (omega arith, omega arith, (λ some_there none_cited. refl))
    | inr (sid, sids, e) ↦
        let ids = map (λ x. x.0) (c ∷ cs) in
        let n = count_blocks p ids (figures_of p (c ∷ cs)) none false (blocks p answer) in
        let (least, one) =
          share-bounded n.0 n.1 (count_valid p ids (sid ∷ sids)) (length (sid ∷ sids))
            (count_blocks-bounded ids (figures_of p (c ∷ cs)) (blocks p answer) none false)
            (count_valid-bounded ids (sid ∷ sids)) (omega arith) in
        rw e (
          least,
          one,
          (λ some_there none_cited.
              rw (count_valid-none ids (sid ∷ sids) none_cited)
                (share-zero n.0 n.1 (length (sid ∷ sids)))),
        )
  ]

-- ===== src/Hitl/Risk.antt =====
-- Which answers are delivered without an engineer.
use mathlib.Core.List.{Memᴰ}
use pipe_line_gpt_backend.Prelude.{
  ◌*◌, ◌≤◌, String, ◌≡◌, ◌↔◌, ◌⊎◌, inl, inr, refl, Bool, true, false, ◌||◌, List, [], ◌∷◌, ◌++◌,
  any, All, arith, Bool-cases,
}
use pipe_line_gpt_backend.Config.{Settings}
use pipe_line_gpt_backend.Models.{high, low, Ratio}
use pipe_line_gpt_backend.Hitl.{
  Patterns, recommends, clauses_of_line, clauses_of_lines, recommendation_clauses, classify_risk,
}

module _ (re : Patterns) (s : Settings) where
  -- no text of a list passes a test
  abbrev pub None : (String → Bool) → List String → Type 0
  None p xs = All (λ x. p x ≡ false) xs

  any-None : (p : String → Bool) (xs : List String) → (any p xs ≡ false) ↔ None p xs
  any-None p [] = (λ _. tt, λ _. refl)
  any-None p (x ∷ xs) = ground (arith, any-None p xs)

  -- An answer goes out with no review, and as LOW risk, exactly when the model's check found no
  -- advice, the question asks for none, no recommending clause names a high-risk action or a
  -- medium-risk matter, and the confidence reaches the threshold.
  pub classify_risk-low_iff :
      (question answer : String) (confidence : Ratio) (recommends_action : Bool)
      → (classify_risk re s question answer confidence recommends_action ≡ (low, false)) ↔ (
          (recommends_action ≡ false)
          × (re.advice_request question ≡ false)
          × None re.high_risk_verbs (recommendation_clauses re answer)
          × None re.medium_risk_keywords (recommendation_clauses re answer)
          × (s.hitl_confidence_threshold.num * confidence.den
              ≤ confidence.num * s.hitl_confidence_threshold.den))
  unfolding classify_risk
  classify_risk-low_iff question answer confidence b =
      let cs = recommendation_clauses re answer in
      let h = any-None re.high_risk_verbs cs in
      let m = any-None re.medium_risk_keywords cs in
      (
        λ e. (ground arith, ground arith, h.0 (ground arith), m.0 (ground arith), ground arith),
        λ w. ground (arith, h.1 w.2, m.1 w.3),
      )

  -- a clause that recommends something, in whatever section it stands
  abbrev pub Advises : String → Type 0
  Advises clause =
      (re.imperative_start clause ≡ true)
      ⊎ ((re.deferral clause ≡ false) × (re.recommendation_cues clause ≡ true))

  any-append : (p : String → Bool) (xs ys : List String) → any p (xs ++ ys) ≡ (any p xs || any p ys)
  any-append p [] ys = refl
  any-append p (x ∷ xs) ys = ground (arith, any-append p xs ys)

  Advises-recommends : (b : Bool) (clause : String) → Advises clause → recommends re b clause ≡ true
  unfolding recommends
  Advises-recommends b clause h = ground arith

  or_true : (b : Bool) → (b || true) ≡ true
  or_true true = refl
  or_true false = refl

  any-clauses_of_line :
      (p : String → Bool) (b : Bool) (clause : String) {cs : List String}
      → Advises clause
      → p clause ≡ true
      → Memᴰ clause cs
      → any p (clauses_of_line re b cs) ≡ true
  unfolding clauses_of_line
  any-clauses_of_line p b clause adv h (Memᴰ.head {x = x} e) =
      rw (← e) (rw (Advises-recommends b clause adv, h))
  any-clauses_of_line p b clause adv h (Memᴰ.tail {x = x} m) =
      let ih = any-clauses_of_line p b clause adv h m in
      elim (Bool-cases (recommends re b x)) [ inl e ↦ ground arith | inr e ↦ ground arith ]

  any-clauses_of_lines :
      (p : String → Bool) (clause line : String) (b : Bool) {lines : List String}
      → Advises clause
      → p clause ≡ true
      → re.is_heading line ≡ false
      → Memᴰ clause (re.split_clauses line)
      → Memᴰ line lines
      → any p (clauses_of_lines re b lines) ≡ true
  unfolding clauses_of_lines
  any-clauses_of_lines p clause line b adv h plain m (Memᴰ.head {x = x} {xs = rest} e) =
      rw (← e)
        (rw (plain, clauses_of_lines, any-append, any-clauses_of_line p b clause adv h m) refl)
  any-clauses_of_lines p clause line b adv h plain m (Memᴰ.tail {x = x} {xs = rest} n) =
      elim (Bool-cases (re.is_heading x)) [
        | inl e ↦
            let ih =
              any-clauses_of_lines p clause line (re.recommendation_heading x) adv h plain m n in
            rw (e, clauses_of_lines, any-append, ih) (or_true _)
        | inr e ↦
            let ih = any-clauses_of_lines p clause line b adv h plain m n in
            rw (e, clauses_of_lines, any-append, ih) (or_true _)
      ]

  -- A clause outside headings that recommends (an imperative, or a cue that is no deferral) and
  -- names a high-risk action makes the answer HIGH risk and holds it for review, whatever the rest
  -- of the answer, the confidence and the model's own check say.
  pub high_risk_advice_held :
      (question answer clause line : String) (confidence : Ratio) (recommends_action : Bool)
      → Advises clause
      → re.high_risk_verbs clause ≡ true
      → re.is_heading line ≡ false
      → Memᴰ clause (re.split_clauses line)
      → Memᴰ line (re.splitlines answer)
      → classify_risk re s question answer confidence recommends_action ≡ (high, true)
  unfolding classify_risk recommendation_clauses
  high_risk_advice_held question answer clause line confidence b adv verb plain m n =
      let found = any-clauses_of_lines re.high_risk_verbs clause line false adv verb plain m n in
      ground arith

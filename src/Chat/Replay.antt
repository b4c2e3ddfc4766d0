-- ===== src/Chat/Replay.antt =====
-- The pieces in which a finished answer is sent: `full_answer[i : i + REPLAY_CHUNK_CHARS]` for each
-- `i` of the range.
use Prim.Native.String.{count, ◌++◌ as str_append}
use text.Mathlib.TextLemmas.{cons-append, length-cons}
use pipe_line_gpt_backend.Prelude.{
  take_chars, drop_chars, take-drop_chars, count-drop_chars, count-take_chars, ℕ, zero, suc, ◌≤◌,
  String, ◌≡◌, refl, ap, ◌∙◌, List, [], ◌∷◌, All, arith,
}

abbrev pub replay_chunk_chars : ℕ
replay_chunk_chars = 48

-- The fuel bounds the number of pieces; the length of the text is enough.
pieces_within : ℕ → String → List String
unfolding take_chars drop_chars
pieces_within zero s = []
pieces_within (suc f) String.[] = []
pieces_within (suc f) (String.◌∷◌ c s) =
    take_chars replay_chunk_chars (String.◌∷◌ c s)
    ∷ pieces_within f (drop_chars replay_chunk_chars (String.◌∷◌ c s))

unfoldable pub pieces : String → List String
unfolding pieces_within
pieces s = pieces_within (count s) s

-- The pieces put together again.
unfoldable pub join : List String → String
join [] = ""
join (p ∷ ps) = str_append p (join ps)

pieces_within-join : (f : ℕ) (s : String) → count s ≤ f → join (pieces_within f s) ≡ s
unfolding pieces_within join
pieces_within-join zero String.[] h = refl
pieces_within-join zero (String.◌∷◌ c s) h = absurd (omega (arith, length-cons c s))
pieces_within-join (suc f) String.[] h = refl
pieces_within-join (suc f) (String.◌∷◌ c s) h =
    let rest = drop_chars 47 s in
    let ih = pieces_within-join f rest (omega (arith, count-drop_chars 47 s, length-cons c s)) in
    ap (λ t. str_append (String.◌∷◌ c (take_chars 47 s)) t) ih
    ∙ cons-append c (take_chars 47 s) rest
    ∙ ap (λ t. String.◌∷◌ c t) (take-drop_chars 47 s)

-- The pieces of an answer, put together, are the answer.
pub join-pieces : (s : String) → join (pieces s) ≡ s
unfolding pieces
join-pieces s = pieces_within-join (count s) s (omega arith)

pieces_within-short :
    (f : ℕ) (s : String) → All (λ p. count p ≤ replay_chunk_chars) (pieces_within f s)
unfolding pieces_within
pieces_within-short zero s = tt
pieces_within-short (suc f) String.[] = tt
pieces_within-short (suc f) (String.◌∷◌ c s) =
    (count-take_chars 48 (String.◌∷◌ c s), pieces_within-short f (drop_chars 47 s))

-- No piece is longer than 48 characters.
pub pieces-short : (s : String) → All (λ p. count p ≤ replay_chunk_chars) (pieces s)
unfolding pieces
pieces-short s = pieces_within-short (count s) s

-- ===== src/Chunker/Covers.antt =====
-- The chunks of a text hold all of its words, in order, and no chunk holds too many.
use mathlib.Core.List.{append-nil}
use pipe_line_gpt_backend.Prelude.{
  map, List-cases, join_with, ℕ, zero, suc, ◌+◌, ◌-◌, ◌≤◌, ◌<◌, min, String, ◌≡◌, refl, sym, ap,
  ◌∙◌, Option, some, List, [], ◌∷◌, ◌++◌, length, take, drop, ltb, words, arith, Bool-cases, ◌⊎◌,
  inl, inr, All, length-take, length-drop, take-append-drop,
}
use pipe_line_gpt_backend.Chunker.{
  approx_tokens, windows, numbered, chunk_text, Piece, words_of_tokens,
}

-- The words that the windows bring: all of the first, and what is new of the others.
unfoldable pub new_words : ℕ → List (List String) → List String
new_words overlap [] = []
new_words overlap (w ∷ ws) = drop overlap w ++ new_words overlap ws

unfoldable pub all_words : ℕ → List (List String) → List String
unfolding new_words
all_words overlap [] = []
all_words overlap (w ∷ ws) = w ++ new_words overlap ws

drop-append :
    {A : Type 0} (n : ℕ) (xs ys : List A) → n ≤ length xs → drop n (xs ++ ys) ≡ drop n xs ++ ys
drop-append zero xs ys h = refl
drop-append (suc n) [] ys h = absurd (omega arith)
drop-append (suc n) (x ∷ xs) ys h = drop-append n xs ys (omega arith)

drop-nil : {A : Type 0} (n : ℕ) → drop {A = A} n [] ≡ []
drop-nil zero = refl
drop-nil (suc n) = refl

pub drop-drop : {A : Type 0} (m n : ℕ) (xs : List A) → drop m (drop n xs) ≡ drop (n + m) xs
drop-drop m zero xs = ap (λ k. drop k xs) (omega arith)
drop-drop m (suc n) [] = drop-nil m ∙ sym (drop-nil (suc n + m))
drop-drop m (suc n) (x ∷ xs) =
    let same : suc (n + m) ≡ suc n + m = omega arith in
    drop-drop m n xs ∙ ap (λ k. drop k (x ∷ xs)) same

pub take-all : {A : Type 0} (n : ℕ) (xs : List A) → length xs ≤ n → take n xs ≡ xs
take-all zero [] h = refl
take-all zero (x ∷ xs) h = absurd (omega arith)
take-all (suc n) [] h = refl
take-all (suc n) (x ∷ xs) h = ap (λ ys. x ∷ ys) (take-all n xs (omega arith))

module _ (size overlap : ℕ) (ws : List String) where
  -- windows that hold the words from `start` on, the first of them more than the overlap
  pub record IsCover (start : ℕ) (cs : List (List String)) : Type 0 where
    pub first : List String
    pub others : List (List String)
    pub split : cs ≡ first ∷ others
    pub long : start + overlap ≤ length ws → overlap ≤ length first
    pub covered : first ++ new_words overlap others ≡ drop start ws
    pub short : All (λ c. length c ≤ size) cs

  -- the words of the chunk at a start
  abbrev chunk_at : ℕ → ℕ → List String
  chunk_at start stop = take (stop - start) (drop start ws)

  length-chunk_at :
      (start stop : ℕ) → stop ≤ length ws → length (chunk_at start stop) ≡ stop - start
  length-chunk_at start stop h =
      length-take (stop - start) (drop start ws) ∙ omega (arith, length-drop start ws)

  le-or-gt : (m n : ℕ) → (m ≤ n) ⊎ (n < m)
  le-or-gt m n = elim (Bool-cases (ltb n m)) [
    | inl e ↦ inr (ground arith)
    | inr e ↦ inl (ground arith)
  ]

  windows-last :
      (fuel start : ℕ)
      → start < length ws
      → length ws ≤ start + size
      → windows (suc fuel) size overlap ws start ≡ some (chunk_at start (length ws) ∷ [])
  unfolding windows
  windows-last fuel start inside fits =
      let stop : min (start + size) (length ws) ≡ length ws = omega arith in rw stop (ground arith)

  windows-step :
      (fuel start : ℕ) (cs : List (List String))
      → start + size < length ws
      → windows fuel size overlap ws (start + size - overlap) ≡ some cs
      → windows (suc fuel) size overlap ws start ≡ some (chunk_at start (start + size) ∷ cs)
  unfolding windows
  windows-step fuel start cs inner is =
      let stop : min (start + size) (length ws) ≡ start + size = omega arith in
      rw stop (ground arith)

  -- the last window
  last-IsCover :
      (start : ℕ)
      → start < length ws
      → length ws ≤ start + size
      → IsCover start (chunk_at start (length ws) ∷ [])
  unfolding new_words
  last-IsCover start inside fits =
      let size_of = length-chunk_at start (length ws) (omega arith) in
      record {
        first = chunk_at start (length ws);
        others = [];
        split = refl;
        long = λ room. omega (arith, size_of);
        covered =
            append-nil _
            ∙ take-all (length ws - start) (drop start ws) (omega (arith, length-drop start ws));
        short = (omega (arith, size_of), tt);
      }

  -- a window before others
  step-IsCover :
      (start : ℕ) (cs : List (List String))
      → overlap < size
      → start + size < length ws
      → IsCover (start + size - overlap) cs
      → IsCover start (chunk_at start (start + size) ∷ cs)
  unfolding new_words
  step-IsCover start cs lt inside c =
      let size_of = length-chunk_at start (start + size) (omega arith) in
      let next : new_words overlap cs ≡ drop (start + size) ws =
        ap (new_words overlap) c.split
        ∙ sym (drop-append overlap c.first (new_words overlap c.others) (c.long (omega arith)))
        ∙ ap (drop overlap) c.covered
        ∙ drop-drop overlap (start + size - overlap) ws
        ∙ ap (λ n. drop n ws) (omega arith) in
      let rest : drop (start + size) ws ≡ drop (start + size - start) (drop start ws) =
        ap (λ n. drop n ws) (omega arith) ∙ sym (drop-drop (start + size - start) start ws) in
      record {
        first = chunk_at start (start + size);
        others = cs;
        split = refl;
        long = λ room. omega (arith, size_of);
        covered =
            ap (λ xs. chunk_at start (start + size) ++ xs) (next ∙ rest)
            ∙ take-append-drop (start + size - start) (drop start ws);
        short = (omega (arith, size_of), c.short);
      }

  windows-IsCover :
      (fuel start : ℕ)
      → overlap < size
      → start < length ws
      → length ws - start ≤ fuel
      → (cs : List (List String)) × (windows fuel size overlap ws start ≡ some cs)
        × IsCover start cs
  windows-IsCover zero start lt inside enough = absurd (omega arith)
  windows-IsCover (suc fuel) start lt inside enough = elim (le-or-gt (length ws) (start + size)) [
    | inl fits ↦ (
      chunk_at start (length ws) ∷ [],
      windows-last fuel start inside fits,
      last-IsCover start inside fits,
    )
    | inr inner ↦
        let (cs, is, c) =
          windows-IsCover fuel (start + size - overlap) lt (omega arith) (omega arith) in
        (
          chunk_at start (start + size) ∷ cs,
          windows-step fuel start cs inner is,
          step-IsCover start cs lt inner c,
        )
  ]

-- the fields that the chunks of a text must have
abbrev pub IsNumbered : Option String → Option String → ℕ → List Piece → Type 0
IsNumbered page_ref section_label i [] = Unit
IsNumbered page_ref section_label i (p ∷ ps) =
    (p.chunk_index ≡ i)
    × (p.page_ref ≡ page_ref)
    × (p.section_label ≡ section_label)
    × (1 ≤ p.token_count)
    × IsNumbered page_ref section_label (i + 1) ps

numbered-IsNumbered :
    (page_ref section_label : Option String) (i : ℕ) (cs : List (List String))
    → IsNumbered page_ref section_label i (numbered page_ref section_label i cs)
unfolding numbered approx_tokens
numbered-IsNumbered page_ref section_label i [] = tt
numbered-IsNumbered page_ref section_label i (c ∷ cs) =
    (refl, refl, refl, omega arith, numbered-IsNumbered page_ref section_label (i + 1) cs)

texts-numbered :
    (page_ref section_label : Option String) (i : ℕ) (cs : List (List String))
    → map (λ p. p.text_content) (numbered page_ref section_label i cs) ≡ map (join_with " ") cs
unfolding numbered
texts-numbered page_ref section_label i [] = refl
texts-numbered page_ref section_label i (c ∷ cs) =
    ap (λ ts. join_with " " c ∷ ts) (texts-numbered page_ref section_label (i + 1) cs)

all_words-IsCover :
    (size overlap : ℕ) (ws : List String) (cs : List (List String))
    → IsCover size overlap ws 0 cs
    → all_words overlap cs ≡ ws
unfolding all_words new_words
all_words-IsCover size overlap ws cs c = ap (all_words overlap) c.split ∙ c.covered

chunk_text_empty :
    (text : String) (size overlap : ℕ) (page_ref section_label : Option String)
    → words text ≡ []
    → chunk_text text size overlap page_ref section_label ≡ some []
unfolding chunk_text windows numbered
chunk_text_empty text size overlap page_ref section_label h = rw h refl

-- Where the overlap is less than the size, in words, the cutting of a text ends. Its chunks are
-- counted from 0, have the page and the label that were given and a token at least; their texts join
-- windows of at most `size` words, and the windows together, each without the words that it shares
-- with the one before, are the words of the text in order.
pub chunk_text_covers :
    (text : String) (size overlap : ℕ) (page_ref section_label : Option String)
    → words_of_tokens overlap < words_of_tokens size
    → (ps : List Piece) × (cs : List (List String)) × (chunk_text text size overlap page_ref
          section_label
        ≡ some ps)
      × IsNumbered page_ref section_label 0 ps
      × (map (λ p. p.text_content) ps ≡ map (join_with " ") cs)
      × (all_words (words_of_tokens overlap) cs ≡ words text)
      × All (λ c. length c ≤ words_of_tokens size) cs
unfolding chunk_text all_words numbered
chunk_text_covers text size overlap page_ref section_label lt = elim (List-cases (words text)) [
  | inl none_there ↦ (
    [],
    [],
    chunk_text_empty text size overlap page_ref section_label none_there,
    tt,
    refl,
    sym none_there,
    tt,
  )
  | inr (w, ws, there) ↦
      let (cs, is, c) =
        windows-IsCover (words_of_tokens size) (words_of_tokens overlap) (words text)
          (suc (length (words text))) 0 lt (ground arith) (omega arith) in
      (
        numbered page_ref section_label 0 cs,
        cs,
        rw is refl,
        numbered-IsNumbered page_ref section_label 0 cs,
        texts-numbered page_ref section_label 0 cs,
        all_words-IsCover (words_of_tokens size) (words_of_tokens overlap) (words text) cs c,
        c.short,
      )
]

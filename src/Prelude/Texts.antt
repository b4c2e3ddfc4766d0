-- ===== src/Prelude/Texts.antt =====
-- Python's operations on texts that the service uses: slices, `split` and `join`.
use Prim.Native.Nat.{ℕ, zero, suc, ◌-◌, ◌≤◌}
use Prim.Native.Char.{Char, code}
use Prim.Native.String.{String, count, ◌++◌ as str_append}
use mathlib.Core.Path.{◌≡◌, ap, ◌∙◌}
use mathlib.Core.Bool.{Bool, true, false, not, ◌&&◌, ◌||◌}
use mathlib.Core.Option.{none, some}
use mathlib.Core.List.{List, [], ◌∷◌}
use native.Mathlib.Omega.{arith}
use text.Mathlib.Text.{◌==◌ as str_eq, find?}
use text.Mathlib.TextLemmas.{cons-append, nil-append, length-nil, length-cons}
use pipe_line_gpt_backend.Prelude.Tests.{if◌then◌else◌, leb, ◌==◌}
use pipe_line_gpt_backend.Prelude.Lists.{any, select}

-- `s[:n]`
unfoldable pub take_chars : ℕ → String → String
take_chars zero s = ""
take_chars (suc n) String.[] = ""
take_chars (suc n) (String.◌∷◌ c s) = String.◌∷◌ c (take_chars n s)

-- `s[n:]`
unfoldable pub drop_chars : ℕ → String → String
drop_chars zero s = s
drop_chars (suc n) String.[] = ""
drop_chars (suc n) (String.◌∷◌ c s) = drop_chars n s

pub take-drop_chars : (n : ℕ) (s : String) → str_append (take_chars n s) (drop_chars n s) ≡ s
unfolding take_chars drop_chars
take-drop_chars zero s = nil-append s
take-drop_chars (suc n) String.[] = nil-append ""
take-drop_chars (suc n) (String.◌∷◌ c s) =
    cons-append c _ _ ∙ ap (λ t. String.◌∷◌ c t) (take-drop_chars n s)

pub count-drop_chars : (n : ℕ) (s : String) → count (drop_chars n s) ≤ count s
unfolding drop_chars
count-drop_chars zero s = omega arith
count-drop_chars (suc n) String.[] = omega arith
count-drop_chars (suc n) (String.◌∷◌ c s) = omega (arith, count-drop_chars n s, length-cons c s)

pub count-take_chars : (n : ℕ) (s : String) → count (take_chars n s) ≤ n
unfolding take_chars
count-take_chars zero s = omega (arith, length-nil)
count-take_chars (suc n) String.[] = omega (arith, length-nil)
count-take_chars (suc n) (String.◌∷◌ c s) =
    omega (arith, count-take_chars n s, length-cons c (take_chars n s))

-- The code points for which `str.isspace` holds.
abbrev pub is_space : Char → Bool
is_space c =
    let n = code c in
    (leb 9 n && leb n 13)
    || ((leb 28 n && leb n 32)
        || ((leb 8192 n && leb n 8202)
            || any (λ m. m == n) (133 ∷ 160 ∷ 5760 ∷ 8232 ∷ 8233 ∷ 8239 ∷ 8287 ∷ 12288 ∷ [])))

abbrev pub is_code : ℕ → Char → Bool
is_code n c = code c == n

abbrev cons_head : Char → List String → List String
cons_head c [] = String.◌∷◌ c "" ∷ []
cons_head c (w ∷ ws) = String.◌∷◌ c w ∷ ws

-- the pieces between the characters that pass a test, the empty ones included
unfoldable pub split_on : (Char → Bool) → String → List String
split_on p String.[] = "" ∷ []
split_on p (String.◌∷◌ c s) = let rest = split_on p s in if p c then "" ∷ rest else cons_head c rest

-- `s.split()`
unfoldable pub words : String → List String
unfolding split_on
words s = select (λ w. not (str_eq w "")) (split_on is_space s)

-- `sep.join(ws)`
unfoldable pub join_with : String → List String → String
join_with sep [] = ""
join_with sep (w ∷ []) = w
join_with sep (w ∷ v ∷ ws) = str_append w (str_append sep (join_with sep (v ∷ ws)))

-- the last piece of `s.split(...)`
abbrev pub last_piece : List String → String
last_piece [] = ""
last_piece (w ∷ []) = w
last_piece (w ∷ v ∷ ws) = last_piece (v ∷ ws)

-- `s.rstrip()`
unfoldable pub strip_end : String → String
strip_end String.[] = ""
strip_end (String.◌∷◌ c s) =
    let rest = strip_end s in if is_space c && str_eq rest "" then "" else String.◌∷◌ c rest

-- `s.strip()`
unfoldable pub strip : String → String
unfolding strip_end
strip String.[] = ""
strip (String.◌∷◌ c s) =
    let rest = strip s in if is_space c then rest else String.◌∷◌ c (strip_end s)

-- `t in s`
abbrev pub contains : String → String → Bool
contains t s = elim (find? s t) [ none ↦ false | some i ↦ true ]

-- `s.endswith(t)`
unfoldable pub ends_with : String → String → Bool
unfolding drop_chars
ends_with s t = str_eq (drop_chars (count s - count t) s) t

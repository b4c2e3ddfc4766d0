-- ===== src/Prelude/Sorting.antt =====
-- Python's `sorted`: stable, by insertion, for a Boolean order that tells whether an element may stand
-- before another one.
use Prim.Native.Nat.{ℕ, zero, suc, ◌<◌, ◌≤◌}
use mathlib.Core.Path.{◌≡◌, refl, ap}
use mathlib.Core.Logic.{inl, inr}
use mathlib.Core.Bool.{Bool, false}
use mathlib.Core.Option.{some}
use mathlib.Core.List.{List, [], ◌∷◌}
use native.Mathlib.Omega.{arith}
use pipe_line_gpt_backend.Prelude.Tests.{if◌then◌else◌, Bool-cases, leb, ltb, ◌==◌}
use pipe_line_gpt_backend.Prelude.Lists.{All, All-map, All-select, select, length, take, drop, last}

module _ {A : Type 0} (le : A → A → Bool) where
  unfoldable pub insert_by : A → List A → List A
  insert_by x [] = x ∷ []
  insert_by x (y ∷ ys) = let rest = insert_by x ys in if le x y then x ∷ y ∷ ys else y ∷ rest

  unfoldable pub sort_by : List A → List A
  unfolding insert_by
  sort_by [] = []
  sort_by (x ∷ xs) = insert_by x (sort_by xs)

  length-insert_by : (x : A) (ys : List A) → length (insert_by x ys) ≡ suc (length ys)
  unfolding insert_by
  length-insert_by x [] = refl
  length-insert_by x (y ∷ ys) = ground (arith, length-insert_by x ys)

  pub length-sort_by : (xs : List A) → length (sort_by xs) ≡ length xs
  unfolding sort_by
  length-sort_by [] = refl
  length-sort_by (x ∷ xs) = omega (arith, length-insert_by x (sort_by xs), length-sort_by xs)

  module _ {κ} (P : A → Type κ) where
    pub All-insert_by : (x : A) (ys : List A) → P x → All P ys → All P (insert_by x ys)
    unfolding insert_by
    All-insert_by x [] h k = (h, tt)
    All-insert_by x (y ∷ ys) h k = elim (Bool-cases (le x y)) [
      | inl e ↦ rw e (h, k)
      | inr e ↦ rw e (k.0, All-insert_by x ys h k.1)
    ]

    pub All-sort_by : (xs : List A) → All P xs → All P (sort_by xs)
    unfolding sort_by
    All-sort_by [] h = tt
    All-sort_by (x ∷ xs) h = All-insert_by x (sort_by xs) h.0 (All-sort_by xs h.1)

-- Rows with distinct numbers, sorted by them, ascend.
module _ {A : Type 0} (key : A → ℕ) where
  abbrev pub DistinctKeys : List A → Type 0
  DistinctKeys [] = Unit
  DistinctKeys (x ∷ xs) = All (λ y. (key x == key y) ≡ false) xs × DistinctKeys xs

  abbrev pub Ascending : List A → Type 0
  Ascending [] = Unit
  Ascending (x ∷ xs) = All (λ y. key x < key y) xs × Ascending xs

  abbrev pub by_key : A → A → Bool
  by_key x y = leb (key x) (key y)

  insert_by-Ascending :
      (x : A) (ys : List A)
      → All (λ y. (key x == key y) ≡ false) ys
      → Ascending ys
      → Ascending (insert_by by_key x ys)
  unfolding insert_by
  insert_by-Ascending x [] h k = (tt, tt)
  insert_by-Ascending x (y ∷ ys) h k = elim (Bool-cases (by_key x y)) [
    | inl e ↦
        let less : key x < key y = ground (arith, h.0) in
        rw e ((less, All-map ys (λ z lt. omega (arith, lt, less)) k.0), k)
    | inr e ↦ rw e (
      All-insert_by by_key (λ z. key y < key z) x ys (ground arith) k.0,
      insert_by-Ascending x ys h.1 k.1,
    )
  ]

  pub sort_by-Ascending : (xs : List A) → DistinctKeys xs → Ascending (sort_by by_key xs)
  unfolding sort_by
  sort_by-Ascending [] h = tt
  sort_by-Ascending (x ∷ xs) h =
      insert_by-Ascending x (sort_by by_key xs)
        (All-sort_by by_key (λ z. (key x == key z) ≡ false) xs h.0) (sort_by-Ascending xs h.1)

  insert_by-least :
      (x : A) (ys : List A) → All (λ y. key x < key y) ys → insert_by by_key x ys ≡ x ∷ ys
  unfolding insert_by
  insert_by-least x [] h = refl
  insert_by-least x (y ∷ ys) h = ground (arith, h.0)

  select-insert_by :
      (q : A → Bool) (x : A) (ys : List A)
      → All (λ y. (key x == key y) ≡ false) ys
      → Ascending ys
      → select q (insert_by by_key x ys)
        ≡ (if q x then insert_by by_key x (select q ys) else select q ys)
  unfolding insert_by
  select-insert_by q x [] h k = ground arith
  select-insert_by q x (y ∷ ys) h k = elim (Bool-cases (by_key x y)) [
    | inl e ↦
        let less : key x < key y = ground (arith, h.0) in
        let above : All (λ z. key x < key z) (select q ys) =
          All-select q ys (λ z e lt. omega (arith, lt, less)) k.0 in
        ground (arith, insert_by-least x (select q ys) above)
    | inr e ↦ ground (arith, select-insert_by q x ys h.1 k.1)
  ]

  -- Sorting and a choice by a test can be exchanged.
  pub select-sort_by :
      (q : A → Bool) (xs : List A)
      → DistinctKeys xs
      → select q (sort_by by_key xs) ≡ sort_by by_key (select q xs)
  unfolding sort_by
  select-sort_by q [] h = refl
  select-sort_by q (x ∷ xs) h = ground (
    arith,
    select-insert_by q x (sort_by by_key xs)
        (All-sort_by by_key (λ z. (key x == key z) ≡ false) xs h.0) (sort_by-Ascending xs h.1),
    select-sort_by q xs h.1,
  )

  pub last-take-All :
      (P : A → Type 0) (n : ℕ) (xs : List A) (x : A) → last (take n xs) ≡ some x → All P xs → P x
  unfolding last
  last-take-All P zero xs x e h = absurd (ground arith)
  last-take-All P (suc n) [] x e h = absurd (ground arith)
  last-take-All P (suc zero) (y ∷ ys) x e h = let same : x ≡ y = ground arith in rw same h.0
  last-take-All P (suc (suc n)) (y ∷ []) x e h = let same : x ≡ y = ground arith in rw same h.0
  last-take-All P (suc (suc n)) (y ∷ z ∷ ys) x e h = last-take-All P (suc n) (z ∷ ys) x e h.1

  select_above_every :
      (m : ℕ) (xs : List A) → All (λ y. m < key y) xs → select (λ y. ltb m (key y)) xs ≡ xs
  select_above_every m [] h = refl
  select_above_every m (x ∷ xs) h = ground (arith, select_above_every m xs h.1, h.0)

  -- After the first elements of an ascending list come those above the last of them.
  pub select-above :
      (n : ℕ) (xs : List A) (x : A)
      → Ascending xs
      → last (take n xs) ≡ some x
      → select (λ y. ltb (key x) (key y)) xs ≡ drop n xs
  unfolding last
  select-above zero xs x h e = absurd (ground arith)
  select-above (suc n) [] x h e = absurd (ground arith)
  select-above (suc zero) (y ∷ ys) x h e =
      let same : x ≡ y = ground arith in
      let same_key : key x ≡ key y = ap key same in
      let above : All (λ z. key x < key z) ys =
        All-map ys (λ z lt. omega (arith, lt, same_key)) h.0 in
      ground (arith, select_above_every (key x) ys above, same_key)
  select-above (suc (suc n)) (y ∷ []) x h e =
      let same : x ≡ y = ground arith in let same_key : key x ≡ key y = ap key same in ground arith
  select-above (suc (suc n)) (y ∷ z ∷ ys) x h e =
      let less : key y < key x = last-take-All (λ w. key y < key w) (suc n) (z ∷ ys) x e h.0 in
      ground (arith, select-above (suc n) (z ∷ ys) x h.1 e, less)

  pub take-below :
      (n : ℕ) (xs : List A) (x : A)
      → Ascending xs
      → last (take n xs) ≡ some x
      → All (λ y. key y ≤ key x) (take n xs)
  unfolding last
  take-below zero xs x h e = tt
  take-below (suc n) [] x h e = tt
  take-below (suc zero) (y ∷ ys) x h e =
      let same : x ≡ y = ground arith in
      let same_key : key x ≡ key y = ap key same in (omega (arith, same_key), tt)
  take-below (suc (suc n)) (y ∷ []) x h e =
      let same : x ≡ y = ground arith in
      let same_key : key x ≡ key y = ap key same in (omega (arith, same_key), tt)
  take-below (suc (suc n)) (y ∷ z ∷ ys) x h e =
      let less : key y < key x = last-take-All (λ w. key y < key w) (suc n) (z ∷ ys) x e h.0 in
      (omega (arith, less), take-below (suc n) (z ∷ ys) x h.1 e)

  pub select-DistinctKeys :
      (q : A → Bool) (xs : List A) → DistinctKeys xs → DistinctKeys (select q xs)
  select-DistinctKeys q [] h = tt
  select-DistinctKeys q (x ∷ xs) h =
      let rest = select-DistinctKeys q xs h.1 in
      elim (Bool-cases (q x)) [
        | inl e ↦ rw e (All-select q xs (λ z e k. k) h.0, rest)
        | inr e ↦ rw e rest
      ]

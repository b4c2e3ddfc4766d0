-- ===== src/Prelude/StableSorts.antt =====
-- A stable sort by a Boolean order that puts one of any two elements first: its result is in order and
-- has the same elements.
use Prim.Native.Nat.{ℕ, zero, suc}
use mathlib.Core.Path.{◌≡◌, refl}
use mathlib.Core.Logic.{inl, inr}
use mathlib.Core.Bool.{Bool, true, false, ◌||◌}
use mathlib.Core.List.{List, [], ◌∷◌}
use native.Mathlib.Omega.{arith}
use pipe_line_gpt_backend.Prelude.Tests.{Bool-cases, ◌==◌}
use pipe_line_gpt_backend.Prelude.Lists.{All, any, take}
use pipe_line_gpt_backend.Prelude.Sorting.{
  insert_by, sort_by, All-insert_by, All-sort_by, DistinctKeys,
}

module _ {A : Type 0} (le : A → A → Bool) where
  -- each element may stand before the next one
  abbrev pub Adjacent : List A → Type 0
  Adjacent [] = Unit
  Adjacent (x ∷ []) = Unit
  Adjacent (x ∷ y ∷ ys) = (le x y ≡ true) × Adjacent (y ∷ ys)

  insert_by-Adjacent :
      (x : A) (ys : List A)
      → ((a b : A) → le a b ≡ false → le b a ≡ true)
      → Adjacent ys
      → Adjacent (insert_by le x ys)
  unfolding insert_by
  insert_by-Adjacent x [] total h = tt
  insert_by-Adjacent x (y ∷ []) total h = elim (Bool-cases (le x y)) [
    | inl e ↦ rw e (e, tt)
    | inr e ↦ rw e (total x y e, tt)
  ]
  insert_by-Adjacent x (y ∷ z ∷ zs) total h = elim (Bool-cases (le x y)) [
    | inl e ↦ rw e (e, h)
    | inr e ↦
        let rest = insert_by-Adjacent x (z ∷ zs) total h.1 in
        (elim (Bool-cases (le x z)) [
          | inl e' ↦ rw (e, e') (total x y e, (rw e' at rest))
          | inr e' ↦ rw (e, e') (h.0, (rw e' at rest))
        ])
  ]

  pub sort_by-Adjacent :
      (xs : List A) → ((a b : A) → le a b ≡ false → le b a ≡ true) → Adjacent (sort_by le xs)
  unfolding sort_by
  sort_by-Adjacent [] total = tt
  sort_by-Adjacent (x ∷ xs) total =
      insert_by-Adjacent x (sort_by le xs) total (sort_by-Adjacent xs total)

  any-insert_by : (p : A → Bool) (x : A) (ys : List A) → any p (insert_by le x ys) ≡ p x || any p ys
  unfolding insert_by
  any-insert_by p x [] = refl
  any-insert_by p x (y ∷ ys) = ground (arith, any-insert_by p x ys)

  pub any-sort_by : (p : A → Bool) (xs : List A) → any p (sort_by le xs) ≡ any p xs
  unfolding sort_by
  any-sort_by p [] = refl
  any-sort_by p (x ∷ xs) = ground (arith, any-insert_by p x (sort_by le xs), any-sort_by p xs)

  module _ (key : A → ℕ) where
    insert_by-DistinctKeys :
        (x : A) (ys : List A)
        → All (λ y. (key x == key y) ≡ false) ys
        → DistinctKeys key ys
        → DistinctKeys key (insert_by le x ys)
    unfolding insert_by
    insert_by-DistinctKeys x [] h k = (tt, tt)
    insert_by-DistinctKeys x (y ∷ ys) h k = elim (Bool-cases (le x y)) [
      | inl e ↦ rw e (h, k)
      | inr e ↦ rw e (
        All-insert_by le (λ z. (key y == key z) ≡ false) x ys (ground (arith, h.0)) k.0,
        insert_by-DistinctKeys x ys h.1 k.1,
      )
    ]

    pub sort_by-DistinctKeys :
        (xs : List A) → DistinctKeys key xs → DistinctKeys key (sort_by le xs)
    unfolding sort_by
    sort_by-DistinctKeys [] h = tt
    sort_by-DistinctKeys (x ∷ xs) h =
        insert_by-DistinctKeys x (sort_by le xs)
          (All-sort_by le (λ z. (key x == key z) ≡ false) xs h.0) (sort_by-DistinctKeys xs h.1)

pub All-take : {A : Type 0} (P : A → Type 0) (n : ℕ) (xs : List A) → All P xs → All P (take n xs)
All-take P zero xs h = tt
All-take P (suc n) [] h = tt
All-take P (suc n) (x ∷ xs) h = (h.0, All-take P n xs h.1)

pub take-DistinctKeys :
    {A : Type 0} (key : A → ℕ) (n : ℕ) (xs : List A)
    → DistinctKeys key xs
    → DistinctKeys key (take n xs)
take-DistinctKeys key zero xs h = tt
take-DistinctKeys key (suc n) [] h = tt
take-DistinctKeys key (suc n) (x ∷ xs) h =
    (All-take (λ z. (key x == key z) ≡ false) n xs h.0, take-DistinctKeys key n xs h.1)

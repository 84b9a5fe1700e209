-- ===== src/Prelude/Removal.antt =====
-- What is left of a table when the rows among the first, or after the first, of it in some order are
-- removed: the retention rules of the audit log and of the upload directory.
use Prim.Native.Nat.{ℕ, zero, suc, ◌+◌, ◌-◌, ◌≤◌}
use mathlib.Core.Path.{◌≡◌, refl}
use mathlib.Core.Logic.{inl, inr}
use mathlib.Core.Bool.{Bool, true, false, not}
use mathlib.Core.List.{List, [], ◌∷◌}
use native.Mathlib.Omega.{arith}
use batch_shutdown_assistant.Prelude.Tests.{Bool-cases}
use batch_shutdown_assistant.Prelude.Lists.{
  length, take, drop, select, any_row, All, length-select-le,
}
use batch_shutdown_assistant.Prelude.Sort.{insert_by, sort_by, length-sort_by}

module _ {ℓ} {A : Type ℓ} where
  length-drop : (n : ℕ) (xs : List A) → length (drop n xs) ≡ length xs - n
  length-drop zero xs = omega arith
  length-drop (suc n) [] = omega arith
  length-drop (suc n) (x ∷ xs) = omega (arith, length-drop n xs)

  length-take-le : (n : ℕ) (xs : List A) → length (take n xs) ≤ n
  length-take-le zero xs = omega arith
  length-take-le (suc n) [] = omega arith
  length-take-le (suc n) (x ∷ xs) = omega (arith, length-take-le n xs)

  -- A query counts the same in the table and in its two parts.
  length-select-parts :
      (p : A → Bool) (n : ℕ) (xs : List A)
      → length (select p xs) ≡ length (select p (take n xs)) + length (select p (drop n xs))
  length-select-parts p zero xs = omega arith
  length-select-parts p (suc n) [] = omega arith
  length-select-parts p (suc n) (x ∷ xs) = ground (arith, length-select-parts p n xs)

  length-select-none :
      (p : A → Bool) (xs : List A) → All (λ x. p x ≡ false) xs → length (select p xs) ≡ 0
  length-select-none p [] h = refl
  length-select-none p (x ∷ xs) h = rw h.0 (length-select-none p xs h.1)

  length-select-insert_by :
      (le : A → A → Bool) (p : A → Bool) (a : A) (bs : List A)
      → length (select p (insert_by le a bs)) ≡ length (select p (a ∷ bs))
  unfolding insert_by
  length-select-insert_by le p a [] = refl
  length-select-insert_by le p a (b ∷ bs) = elim (Bool-cases (le a b)) [
    | inl before ↦ rw before refl
    | inr after ↦ rw after (ground (arith, length-select-insert_by le p a bs))
  ]

  length-select-sort_by :
      (le : A → A → Bool) (p : A → Bool) (xs : List A)
      → length (select p (sort_by le xs)) ≡ length (select p xs)
  unfolding sort_by
  length-select-sort_by le p [] = refl
  length-select-sort_by le p (a ∷ xs) =
      ground (arith, length-select-insert_by le p a (sort_by le xs), length-select-sort_by le p xs)

  module _ (same : A → A → Bool) (same-refl : (x : A) → same x x ≡ true) where
    -- The rows that are not among the given ones.
    abbrev pub is_left : List A → A → Bool
    is_left gone x = not (any_row (same x) gone)

    All-among-cons :
        (y : A) (gone xs : List A)
        → All (λ x. is_left gone x ≡ false) xs
        → All (λ x. is_left (y ∷ gone) x ≡ false) xs
    All-among-cons y gone [] h = tt
    All-among-cons y gone (x ∷ xs) h = (ground (arith, h.0), All-among-cons y gone xs h.1)

    All-among : (xs : List A) → All (λ x. is_left xs x ≡ false) xs
    All-among [] = tt
    All-among (x ∷ xs) = (ground (arith, same-refl x), All-among-cons x xs xs (All-among xs))

    -- Without the first `n` in an order, at most the others are left.
    pub length-without-take :
        (le : A → A → Bool) (n : ℕ) (xs : List A)
        → length (select (is_left (take n (sort_by le xs))) xs) ≤ length xs - n
    length-without-take le n xs =
        let gone = take n (sort_by le xs) in
        omega (
          arith,
          length-select-sort_by le (is_left gone) xs,
          length-select-parts (is_left gone) n (sort_by le xs),
          length-select-none (is_left gone) gone (All-among gone),
          length-select-le (is_left gone) (drop n (sort_by le xs)),
          length-drop n (sort_by le xs),
          length-sort_by le xs,
        )

    -- Without those after the first `n`, at most `n` are left.
    pub length-without-drop :
        (le : A → A → Bool) (n : ℕ) (xs : List A)
        → length (select (is_left (drop n (sort_by le xs))) xs) ≤ n
    length-without-drop le n xs =
        let gone = drop n (sort_by le xs) in
        omega (
          arith,
          length-select-sort_by le (is_left gone) xs,
          length-select-parts (is_left gone) n (sort_by le xs),
          length-select-none (is_left gone) gone (All-among gone),
          length-select-le (is_left gone) (take n (sort_by le xs)),
          length-take-le n (sort_by le xs),
        )

-- ===== src/Prelude/Sort.antt =====
-- `sorted` and ORDER BY as a stable insertion sort, and the pages of a list (OFFSET and LIMIT).
use Prim.Native.Nat.{ℕ, zero, suc, ◌+◌, ◌*◌, ◌≤◌}
use mathlib.Core.Path.{◌≡◌, refl, sym, ap, ◌∙◌}
use mathlib.Core.Logic.{inl, inr}
use mathlib.Core.Bool.{Bool, true, false}
use mathlib.Core.List.{List, [], ◌∷◌, ◌++◌, map}
use mathlib.Core.List.{Perm}
use mathlib.Core.List.Perm
use native.Mathlib.Omega.{arith}
use batch_shutdown_assistant.Prelude.Tests.{if◌then◌else◌, Bool-cases}
use batch_shutdown_assistant.Prelude.Lists.{length, take, drop, All}

-- Each item is before all that follow it.
abbrev pub IsSortedBy {ℓ} : {A : Type ℓ} → (A → A → Bool) → List A → Type ℓ
IsSortedBy le [] = Unit
IsSortedBy le (a ∷ xs) = All (λ b. le a b ≡ true) xs × IsSortedBy le xs

module _ {ℓ} {A : Type ℓ} (le : A → A → Bool) where
  unfoldable pub insert_by : A → List A → List A
  insert_by a [] = a ∷ []
  insert_by a (b ∷ bs) = if le a b then a ∷ b ∷ bs else b ∷ insert_by a bs

  -- Items of one key stay in their order.
  unfoldable pub sort_by : List A → List A
  unfolding insert_by
  sort_by [] = []
  sort_by (a ∷ xs) = insert_by a (sort_by xs)

  All-insert_by {κ} :
      (P : A → Type κ) (a : A) (bs : List A) → P a → All P bs → All P (insert_by a bs)
  unfolding insert_by
  All-insert_by P a [] h hs = (h, tt)
  All-insert_by P a (b ∷ bs) h hs = elim (Bool-cases (le a b)) [
    | inl before ↦ rw before (h, hs)
    | inr after ↦ rw after (hs.0, All-insert_by P a bs h hs.1)
  ]

  pub All-sort_by {κ} : (P : A → Type κ) (xs : List A) → All P xs → All P (sort_by xs)
  unfolding sort_by
  All-sort_by P [] h = tt
  All-sort_by P (a ∷ xs) h = All-insert_by P a (sort_by xs) h.0 (All-sort_by P xs h.1)

  length-insert_by : (a : A) (bs : List A) → length (insert_by a bs) ≡ suc (length bs)
  unfolding insert_by
  length-insert_by a [] = refl
  length-insert_by a (b ∷ bs) = elim (Bool-cases (le a b)) [
    | inl before ↦ rw before refl
    | inr after ↦ rw after (ap suc (length-insert_by a bs))
  ]

  pub length-sort_by : (xs : List A) → length (sort_by xs) ≡ length xs
  unfolding sort_by
  length-sort_by [] = refl
  length-sort_by (a ∷ xs) = length-insert_by a (sort_by xs) ∙ ap suc (length-sort_by xs)

  insert_by-perm : (a : A) (bs : List A) → Perm (insert_by a bs) (a ∷ bs)
  unfolding insert_by
  insert_by-perm a [] = Perm.refl (a ∷ [])
  insert_by-perm a (b ∷ bs) = elim (Bool-cases (le a b)) [
    | inl before ↦ rw before (Perm.refl (a ∷ b ∷ bs))
    | inr after ↦ rw after (Perm.trans (Perm.cons b (insert_by-perm a bs)) (Perm.swap a b bs))
  ]

  pub sort_by-perm : (xs : List A) → Perm (sort_by xs) xs
  unfolding sort_by
  sort_by-perm [] = Perm.refl []
  sort_by-perm (a ∷ xs) = Perm.trans (insert_by-perm a (sort_by xs)) (Perm.cons a (sort_by-perm xs))

  -- A test that is coarser than the one sorted by: it may leave ties that the latter breaks.
  module _ (le' : A → A → Bool) (before : (a b : A) → le a b ≡ true → le' a b ≡ true)
      (after : (a b : A) → le a b ≡ false → le' b a ≡ true)
      (trans : (a b c : A) → le' a b ≡ true → le' b c ≡ true → le' a c ≡ true) where
    All-le :
        (a b : A) (bs : List A)
        → le' a b ≡ true
        → All (λ c. le' b c ≡ true) bs
        → All (λ c. le' a c ≡ true) bs
    All-le a b [] h hs = tt
    All-le a b (c ∷ cs) h hs = (trans a b c h hs.0, All-le a b cs h hs.1)

    insert_by-IsSortedBy :
        (a : A) (bs : List A) → IsSortedBy le' bs → IsSortedBy le' (insert_by a bs)
    unfolding insert_by
    insert_by-IsSortedBy a [] h = (tt, tt)
    insert_by-IsSortedBy a (b ∷ bs) h = elim (Bool-cases (le a b)) [
      | inl first ↦ rw first ((before a b first, All-le a b bs (before a b first) h.0), h)
      | inr later ↦ rw later (
        All-insert_by (λ c. le' b c ≡ true) a bs (after a b later) h.0,
        insert_by-IsSortedBy a bs h.1,
      )
    ]

    -- The result of `sort_by` is sorted by the coarser test.
    pub sort_by-IsSortedBy : (xs : List A) → IsSortedBy le' (sort_by xs)
    unfolding sort_by
    sort_by-IsSortedBy [] = tt
    sort_by-IsSortedBy (a ∷ xs) = insert_by-IsSortedBy a (sort_by xs) (sort_by-IsSortedBy xs)

-- A change that the order does not see may come after the sorting as well as before it.
module _ {ℓ} {A : Type ℓ} (le : A → A → Bool) (f : A → A)
    (same : (a b : A) → le (f a) (f b) ≡ le a b) where
  insert_by-map : (a : A) (bs : List A) → insert_by le (f a) (map f bs) ≡ map f (insert_by le a bs)
  unfolding insert_by
  insert_by-map a [] = refl
  insert_by-map a (b ∷ bs) = elim (Bool-cases (le a b)) [
    | inl before ↦ rw (same a b, before) refl
    | inr after ↦ rw (same a b, after) (ap (λ cs. f b ∷ cs) (insert_by-map a bs))
  ]

  pub sort_by-map : (xs : List A) → sort_by le (map f xs) ≡ map f (sort_by le xs)
  unfolding sort_by
  sort_by-map [] = refl
  sort_by-map (a ∷ xs) = ap (insert_by le (f a)) (sort_by-map xs) ∙ insert_by-map a (sort_by le xs)

module _ {ℓ} {A : Type ℓ} where
  -- `OFFSET start LIMIT size`
  abbrev pub page_of : ℕ → ℕ → List A → List A
  page_of start size xs = take size (drop start xs)

  pub page_of-map :
      (f : A → A) (start size : ℕ) (xs : List A)
      → page_of start size (map f xs) ≡ map f (page_of start size xs)
  page_of-map f zero zero xs = refl
  page_of-map f zero (suc size) [] = refl
  page_of-map f zero (suc size) (x ∷ xs) = ap (λ ys. f x ∷ ys) (page_of-map f zero size xs)
  page_of-map f (suc start) zero xs = refl
  page_of-map f (suc start) (suc size) [] = refl
  page_of-map f (suc start) (suc size) (x ∷ xs) = page_of-map f start (suc size) xs

  -- The pages of one size from an offset on, one after another.
  unfoldable pub pages : ℕ → ℕ → ℕ → List A → List A
  pages zero start size xs = []
  pages (suc n) start size xs = page_of start size xs ++ pages n (start + size) size xs

  take-nil : (n : ℕ) → take {A = A} n [] ≡ []
  take-nil zero = refl
  take-nil (suc n) = refl

  drop-nil : (n : ℕ) → drop {A = A} n [] ≡ []
  drop-nil zero = refl
  drop-nil (suc n) = refl

  take-add : (m n : ℕ) (xs : List A) → take (m + n) xs ≡ take m xs ++ take n (drop m xs)
  take-add zero n xs = let e : 0 + n ≡ n = omega arith in ap (λ k. take k xs) e
  take-add (suc m) n [] = take-nil (suc m + n) ∙ sym (take-nil n)
  take-add (suc m) n (x ∷ xs) =
      let e : suc m + n ≡ suc (m + n) = omega arith in rw e (ap (λ ys. x ∷ ys) (take-add m n xs))

  drop-add : (m n : ℕ) (xs : List A) → drop (m + n) xs ≡ drop n (drop m xs)
  drop-add zero n xs = let e : 0 + n ≡ n = omega arith in ap (λ k. drop k xs) e
  drop-add (suc m) n [] = drop-nil (suc m + n) ∙ sym (drop-nil n)
  drop-add (suc m) n (x ∷ xs) =
      let e : suc m + n ≡ suc (m + n) = omega arith in rw e (drop-add m n xs)

  -- Pages that follow one another are the beginning of the list.
  pub pages-take :
      (n start size : ℕ) (xs : List A) → pages n start size xs ≡ take (n * size) (drop start xs)
  unfolding pages
  pages-take zero start size xs =
      let e : 0 ≡ 0 * size = omega arith in ap (λ k. take k (drop start xs)) e
  pages-take (suc n) start size xs =
      ap (λ ys. page_of start size xs ++ ys)
        (pages-take n (start + size) size xs ∙ ap (take (n * size)) (drop-add start size xs))
      ∙ sym (take-add size (n * size) (drop start xs))
      ∙ ap (λ k. take k (drop start xs)) (omega arith)

  pub take-all : (n : ℕ) (xs : List A) → length xs ≤ n → take n xs ≡ xs
  take-all zero [] h = refl
  take-all zero (x ∷ xs) h = absurd (omega arith)
  take-all (suc n) [] h = refl
  take-all (suc n) (x ∷ xs) h = ap (λ ys. x ∷ ys) (take-all n xs (omega arith))

-- ===== src/Common/Sort.antt =====
-- Insertion sort by a Boolean order, which stands for Go's sort package. Where two items are equal
-- in the order the earlier one stays first, as sort.SliceStable has it.
use Prim.Native.Nat.{ℕ, ◌+◌}
use mathlib.Core.Path.{◌≡◌, refl}
use mathlib.Core.Bool.{Bool, true}
use mathlib.Core.List.{List, [], ◌∷◌}
use native.Mathlib.Omega.{arith}
use touchline.Common.Tests.{◌==◌, if◌then◌else◌}
use touchline.Common.Lists.{length, count}

module _ {ℓ} {A : Type ℓ} where
  -- `before y x` puts `y` in front of `x`.
  unfoldable pub insert_by : (A → A → Bool) → A → List A → List A
  insert_by before x [] = x ∷ []
  insert_by before x (y ∷ ys) =
      let rest = insert_by before x ys in if before y x then y ∷ rest else x ∷ y ∷ ys

  unfoldable pub sort_by : (A → A → Bool) → List A → List A
  unfolding insert_by
  sort_by before [] = []
  sort_by before (x ∷ xs) = insert_by before x (sort_by before xs)

  -- How many items pass a test.
  abbrev pub tally : (A → Bool) → List A → ℕ
  tally p [] = 0
  tally p (x ∷ xs) = (if p x then 1 else 0) + tally p xs

  tally-insert_by :
      (before : A → A → Bool) (p : A → Bool) (x : A) (xs : List A)
      → tally p (insert_by before x xs) ≡ (if p x then 1 else 0) + tally p xs
  unfolding insert_by
  tally-insert_by before p x [] = refl
  tally-insert_by before p x (y ∷ ys) = ground (arith, tally-insert_by before p x ys)

  -- Sorting keeps every item as often as it was there.
  pub tally-sort_by :
      (before : A → A → Bool) (p : A → Bool) (xs : List A)
      → tally p (sort_by before xs) ≡ tally p xs
  unfolding sort_by
  tally-sort_by before p [] = refl
  tally-sort_by before p (x ∷ xs) =
      omega (arith, tally-insert_by before p x (sort_by before xs), tally-sort_by before p xs)

tally-length : {A : Type 0} (xs : List A) → tally (λ (_ : A). true) xs ≡ length xs
tally-length [] = refl
tally-length (x ∷ xs) = omega (arith, tally-length xs)

pub length-sort_by :
    {A : Type 0} (before : A → A → Bool) (xs : List A) → length (sort_by before xs) ≡ length xs
length-sort_by before xs =
    omega (
      arith,
      tally-length (sort_by before xs),
      tally-length xs,
      tally-sort_by before (λ _. true) xs,
    )

pub tally-count : (a : ℕ) (xs : List ℕ) → tally (λ x. x == a) xs ≡ count a xs
tally-count a [] = refl
tally-count a (x ∷ xs) = omega (arith, tally-count a xs)

pub count-sort_by :
    (before : ℕ → ℕ → Bool) (a : ℕ) (xs : List ℕ) → count a (sort_by before xs) ≡ count a xs
count-sort_by before a xs = omega (
  arith,
  tally-count a (sort_by before xs),
  tally-count a xs,
  tally-sort_by before (λ x. x == a) xs,
)

-- ===== src/Base/Counts.antt =====
-- Counting occurrences in a list of numbers, and sums over the numbers below a bound.
-- It models no file of the repository.
use Prim.Native.Nat.{ℕ, zero, suc, ◌+◌, ◌≤◌, ◌<◌}
use mathlib.Core.Path.{◌≡◌, refl, ap, ◌∙◌}
use mathlib.Core.Bool.{true, false}
use mathlib.Core.Logic.{inl, inr}
use mathlib.Core.List.{List, [], ◌∷◌, ◌++◌}
use native.Mathlib.Omega.{arith}
use hooch.Base.Tests.{update, ◌==◌, if◌then◌else◌, Bool-cases}
use hooch.Base.Lists.{length}

pub count : ℕ → List ℕ → ℕ
count a [] = 0
count a (x ∷ xs) = if x == a then suc (count a xs) else count a xs

abbrev pub Below : ℕ → List ℕ → Type 0
Below n [] = Unit
Below n (x ∷ xs) = (x < n) × Below n xs

pub count-nil : (a : ℕ) → count a [] ≡ 0
unfolding count
count-nil a = refl

pub count-cons :
    (a x : ℕ) (xs : List ℕ) → count a (x ∷ xs) ≡ (if x == a then suc (count a xs) else count a xs)
unfolding count
count-cons a x xs = refl

pub count-snoc :
    (a x : ℕ) (xs : List ℕ)
    → count a (xs ++ x ∷ []) ≡ (if x == a then suc (count a xs) else count a xs)
unfolding count
count-snoc a x [] = refl
count-snoc a x (y ∷ xs) = ground (arith, count-snoc a x xs)

pub Below-snoc : (n x : ℕ) (xs : List ℕ) → x < n → Below n xs → Below n (xs ++ x ∷ [])
Below-snoc n x [] h b = (h, tt)
Below-snoc n x (y ∷ xs) h b = (b.0, Below-snoc n x xs h b.1)

pub total : ℕ → (ℕ → ℕ) → ℕ
total zero f = 0
total (suc n) f = f n + total n f

total_ext : (n : ℕ) (f g : ℕ → ℕ) → ((a : ℕ) → a < n → f a ≡ g a) → total n f ≡ total n g
unfolding total
total_ext zero f g h = refl
total_ext (suc n) f g h =
    omega (arith, h n (omega arith), total_ext n f g (λ a lt. h a (omega arith)))

-- One more at one place.
total_bump :
    (n x : ℕ) (f g : ℕ → ℕ)
    → x < n
    → ((a : ℕ) → g a ≡ (if x == a then suc (f a) else f a))
    → total n g ≡ suc (total n f)
unfolding total
total_bump zero x f g lt h = elim lt [ ]
total_bump (suc n) x f g lt h = elim (Bool-cases (x == n)) [
  | inl here ↦ ground (arith, h n, total_ext n g f (λ a below. ground (arith, h a)))
  | inr there ↦ ground (arith, h n, total_bump n x f g (ground arith) h)
]

-- Another value at one place.
pub total_change :
    (n x : ℕ) (f g : ℕ → ℕ)
    → x < n
    → ((a : ℕ) → (x == a) ≡ false → g a ≡ f a)
    → total n g + f x ≡ total n f + g x
unfolding total
total_change zero x f g lt same = elim lt [ ]
total_change (suc n) x f g lt same = elim (Bool-cases (x == n)) [
  | inl here ↦
      let at : x ≡ n = ground arith in
      let below : total n g ≡ total n f = total_ext n g f (λ a lo. same a (ground arith)) in
      rw at (omega (arith, below))
  | inr there ↦ omega (arith, same n there, total_change n x f g (ground arith) same)
]

pub total-update {ℓ} :
    {A : Type ℓ} (n i : ℕ) (f : A → ℕ) (g : ℕ → A) (x : A)
    → i < n
    → total n (λ a. f (update g i x a)) + f (g i) ≡ total n (λ a. f (g a)) + f x
total-update n i f g x lt =
    total_change n i (λ a. f (g a)) (λ a. f (update g i x a)) lt (λ a other. rw other refl)
    ∙ ap (λ y. total n (λ a. f (g a)) + f y) {x = update g i x i} {y = x} here
  where
    here : update g i x i ≡ x
    here = let same : (i == i) ≡ true = ground arith in rw same refl

pub total_zero : (n : ℕ) → total n (λ a. 0) ≡ 0
unfolding total
total_zero zero = refl
total_zero (suc n) = omega (arith, total_zero n)

pub total_one : (f : ℕ → ℕ) → total 1 f ≡ f 0
unfolding total
total_one f = omega arith

length-eq-total : (n : ℕ) (xs : List ℕ) → Below n xs → length xs ≡ total n (λ a. count a xs)
length-eq-total n [] b =
    omega (arith, total_zero n, total_ext n (λ a. count a []) (λ a. 0) (λ a lt. count-nil a))
length-eq-total n (x ∷ xs) b = omega (
  arith,
  length-eq-total n xs b.1,
  total_bump n x (λ a. count a xs) (λ a. count a (x ∷ xs)) b.0 (λ a. count-cons a x xs),
)

total_le : (n : ℕ) (f : ℕ → ℕ) → ((a : ℕ) → a < n → f a ≤ 1) → total n f ≤ n
unfolding total
total_le zero f h = omega arith
total_le (suc n) f h = omega (arith, h n (omega arith), total_le n f (λ a lt. h a (omega arith)))

total_lt : (n x : ℕ) (f : ℕ → ℕ) → ((a : ℕ) → a < n → f a ≤ 1) → x < n → f x ≡ 0 → total n f < n
unfolding total
total_lt zero x f h lt e = elim lt [ ]
total_lt (suc n) x f h lt e = elim (Bool-cases (x == n)) [
  | inl here ↦ ground (arith, total_le n f (λ a below. h a (omega arith)))
  | inr there ↦ ground (arith, h n, total_lt n x f (λ a below. h a (omega arith)) (ground arith) e)
]

-- Distinct numbers below `n`, of which `x` is none, are fewer than `n`.
pub length-lt_of_missing :
    (n x : ℕ) (xs : List ℕ)
    → Below n xs
    → ((a : ℕ) → a < n → count a xs ≤ 1)
    → x < n
    → count x xs ≡ 0
    → length xs < n
length-lt_of_missing n x xs b once lt none_there =
    omega (arith, length-eq-total n xs b, total_lt n x (λ a. count a xs) once lt none_there)

-- ===== src/Common/Lists.antt =====
-- Lists measured by native numbers, the duplicate-free lists among them, and the view of a C array
-- (a function from indices) as the list of its first cells.
use Prim.Native.Nat.{ℕ, zero, suc, ◌+◌, ◌≤◌, ◌<◌}
use mathlib.Core.Path.{◌≡◌, refl, ◌∙◌, ap, ap₂}
use mathlib.Core.Logic.{◌≢◌}
use mathlib.Core.Bool.{Bool, false, ◌||◌}
use mathlib.Core.List.{List, [], ◌∷◌, ◌++◌}
use native.Mathlib.Omega.{arith}
use microbus.Common.Tests.{◌==◌, if◌then◌else◌}

module _ {ℓ} {A : Type ℓ} where
  abbrev pub length : List A → ℕ
  length [] = 0
  length (x ∷ xs) = suc (length xs)

  pub length-append : (xs ys : List A) → length (xs ++ ys) ≡ length xs + length ys
  length-append [] ys = omega arith
  length-append (x ∷ xs) ys = omega (arith, length-append xs ys)

  -- A write to one cell of an array.
  abbrev pub update : (ℕ → A) → ℕ → A → ℕ → A
  update f i v j = if j == i then v else f j

  -- The `n` cells from index `i` on.
  abbrev pub cells : (ℕ → A) → ℕ → ℕ → List A
  cells f i zero = []
  cells f i (suc n) = f i ∷ cells f (i + 1) n

  pub length-cells : (f : ℕ → A) (i n : ℕ) → length (cells f i n) ≡ n
  length-cells f i zero = refl
  length-cells f i (suc n) = ap suc (length-cells f (i + 1) n)

  -- Arrays that agree on a range, one of them shifted by `d`, show the same cells there.
  pub cells-eq :
      (f g : ℕ → A) (d i n : ℕ)
      → ((j : ℕ) → i ≤ j → j < i + n → f j ≡ g (j + d))
      → cells f i n ≡ cells g (i + d) n
  cells-eq f g d i zero h = refl
  cells-eq f g d i (suc n) h = ap₂ ◌∷◌ (h i (omega arith) (omega arith)) (
      cells-eq f g d (i + 1) n (λ j a b. h j (omega arith) (omega arith))
      ∙ ap (λ k. cells g k n) shift)
    where
      shift : i + 1 + d ≡ i + d + 1
      shift = omega arith

  -- The last cell of a range.
  pub cells-suc : (f : ℕ → A) (i n : ℕ) → cells f i (suc n) ≡ cells f i n ++ (f (i + n) ∷ [])
  cells-suc f i zero = ap (λ k. f k ∷ []) (omega arith)
  cells-suc f i (suc n) =
      ap (λ l. f i ∷ l) (cells-suc f (i + 1) n ∙ ap (λ k. cells f (i + 1) n ++ (f k ∷ [])) step)
    where
      step : i + 1 + n ≡ i + suc n
      step = omega arith

  -- A range is its first part and the rest.
  pub cells-split :
      (f : ℕ → A) (i n k m j : ℕ) → m ≡ n + k → j ≡ i + n → cells f i m ≡ cells f i n ++ cells f j k
  cells-split f i zero k m j e e' = ap₂ (λ x y. cells f x y) first all
    where
      first : i ≡ j
      first = omega arith

      all : m ≡ k
      all = omega arith
  cells-split f i (suc n) k zero j e e' = absurd (omega arith)
  cells-split f i (suc n) k (suc m) j e e' =
      ap (λ l. f i ∷ l) (cells-split f (i + 1) n k m j (omega arith) (omega arith))

-- Lists of node ids.
abbrev pub contains : ℕ → List ℕ → Bool
contains a [] = false
contains a (x ∷ xs) = x == a || contains a xs

abbrev pub erase : ℕ → List ℕ → List ℕ
erase a [] = []
erase a (x ∷ xs) = if x == a then xs else x ∷ erase a xs

abbrev pub Nodup : List ℕ → Type 0
Nodup [] = Unit
Nodup (x ∷ xs) = (contains x xs ≡ false) × Nodup xs

pub contains-append :
    (a b : ℕ) (xs : List ℕ) → contains a (xs ++ (b ∷ [])) ≡ (contains a xs || (b == a))
contains-append a b [] = ground arith
contains-append a b (x ∷ xs) = ground (arith, contains-append a b xs)

pub Nodup-append : (a : ℕ) (xs : List ℕ) → contains a xs ≡ false → Nodup xs → Nodup (xs ++ (a ∷ []))
Nodup-append a [] h d = ground arith
Nodup-append a (x ∷ xs) h d = ground (arith, Nodup-append a xs, contains-append x a xs)

pub contains-erase_ne : (a b : ℕ) (xs : List ℕ) → a ≢ b → contains b (erase a xs) ≡ contains b xs
contains-erase_ne a b [] h = refl
contains-erase_ne a b (x ∷ xs) h = ground (arith, contains-erase_ne a b xs)

pub contains-erase_self : (a : ℕ) (xs : List ℕ) → Nodup xs → contains a (erase a xs) ≡ false
contains-erase_self a [] d = refl
contains-erase_self a (x ∷ xs) d = ground (arith, contains-erase_self a xs)

pub erase_of_not_contains : (a : ℕ) (xs : List ℕ) → contains a xs ≡ false → erase a xs ≡ xs
erase_of_not_contains a [] h = refl
erase_of_not_contains a (x ∷ xs) h = ground (arith, erase_of_not_contains a xs)

contains_of_erase :
    (a b : ℕ) (xs : List ℕ) → contains b xs ≡ false → contains b (erase a xs) ≡ false
contains_of_erase a b [] h = refl
contains_of_erase a b (x ∷ xs) h = ground (arith, contains_of_erase a b xs)

pub Nodup-erase : (a : ℕ) (xs : List ℕ) → Nodup xs → Nodup (erase a xs)
Nodup-erase a [] d = tt
Nodup-erase a (x ∷ xs) d = ground (arith, Nodup-erase a xs, contains_of_erase a x xs)

pub length-erase :
    (a : ℕ) (xs : List ℕ)
    → length xs ≡ (if contains a xs then length (erase a xs) + 1 else length (erase a xs))
length-erase a [] = refl
length-erase a (x ∷ xs) = ground (arith, length-erase a xs)

-- ===== src/Common/Result.antt =====
-- Code that may stop, and what holds of its result wherever it does not.
use mathlib.Core.Path.{◌≡◌, refl, ap, subst}
use mathlib.Core.Bool.{Bool, true, false}
use mathlib.Core.Option.{Option, none, some}
use microbus.Common.Tests.{if◌then◌else◌}

-- Code that may stop: `none` is a failed `microbusAssert`, after which `assertMessage` never
-- returns, or a read through a null pointer.
infixl 5 ◌>>=◌ ◌>>◌
abbrev pub ◌>>=◌ {ℓ κ} : {A : Type ℓ} {B : Type κ} → Option A → (A → Option B) → Option B
none >>= f = none
some a >>= f = f a

abbrev pub ◌>>◌ {ℓ} : {B : Type ℓ} → Option (Unit {0}) → Option B → Option B
m >> k = m >>= λ _. k

-- `microbusAssert`
abbrev pub assert : Bool → Option (Unit {0})
assert true = some tt
assert false = none

pub >>=-eq-some {ℓ κ} :
    {A : Type ℓ} {B : Type κ} (m : Option A) (f : A → Option B) {b : B}
    → (m >>= f) ≡ some b
    → (a : A) × (m ≡ some a) × (f a ≡ some b)
>>=-eq-some none f h = cc
>>=-eq-some (some a) f h = (a, refl, h)

-- Where the code does not stop, its result has the property.
pub record Ensures {A : Type 0} (P : A → Type 0) (out : Option A) : Type 0 where
  pub ensured : (x : A) → out ≡ some x → P x

module _ {A : Type 0} {P : A → Type 0} where
  pub Ensures-some : {a : A} → P a → Ensures P (some a)
  Ensures-some {a} h = record {
    ensured = λ x e. subst P (ap (λ o. elim o [ none ↦ a | some y ↦ y ]) e) h;
  }

  pub Ensures-none : Ensures P none
  Ensures-none = record { ensured = λ x e. absurd cc }

  pub Ensures-if :
      (b : Bool) {x y : Option A}
      → (b ≡ true → Ensures P x)
      → (b ≡ false → Ensures P y)
      → Ensures P (if b then x else y)
  Ensures-if true on off = on refl
  Ensures-if false on off = off refl

  pub Ensures-bind :
      {B : Type 0} (o : Option B) {k : B → Option A}
      → ((a : B) → o ≡ some a → Ensures P (k a))
      → Ensures P (o >>= k)
  Ensures-bind none h = Ensures-none
  Ensures-bind (some a) h = h a refl

  pub Ensures-elim :
      {B : Type 0} (o : Option B) {k : B → Option A}
      → ((a : B) → o ≡ some a → Ensures P (k a))
      → Ensures P (elim o [ none ↦ none | some a ↦ k a ])
  Ensures-elim none h = Ensures-none
  Ensures-elim (some a) h = h a refl

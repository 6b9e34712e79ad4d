-- ===== src/Common/Options.antt =====
-- A computation that may panic: `none` is the panic.
use mathlib.Core.Path.{◌≡◌, refl, sym, ◌∙◌, subst}
use mathlib.Core.Option.{Option, none, some}
use mathlib.Core.Bool.{Bool, true, false}
use response_verification.Common.Tests.{if◌then◌else◌}

infixl 5 ◌>>=◌
abbrev pub ◌>>=◌ {ℓ κ} : {A : Type ℓ} {B : Type κ} → Option A → (A → Option B) → Option B
some a >>= f = f a
none >>= f = none

pub some_inj {ℓ} : {A : Type ℓ} {a b : A} → some a ≡ some b → a ≡ b
some_inj e = cc

-- The computation returns, and what it returns has the property.
pub record Returns {ℓ κ} {A : Type ℓ} (m : Option A) (P : A → Type κ) : Type (ℓ ⊔ κ) where
  pub result : A
  pub returned : m ≡ some result
  pub holds : P result

module _ {ℓ κ μ ν} {A : Type ℓ} {B : Type κ} where
  pub Returns-bind :
      {P : A → Type μ} (Q : B → Type ν) (m : Option A) (f : A → Option B)
      → Returns m P
      → ((a : A) → P a → Returns (f a) Q)
      → Returns (m >>= f) Q
  Returns-bind Q m f r next =
      let s = next r.result r.holds in
      record { result = s.result; returned = rw (r.returned, ◌>>=◌) s.returned; holds = s.holds }

module _ {ℓ κ} {A : Type ℓ} where
  pub Returns-some : (P : A → Type κ) (a : A) → P a → Returns (some a) P
  Returns-some P a h = record { result = a; returned = refl; holds = h }

  pub Returns-imp {μ} :
      {P : A → Type κ} {Q : A → Type μ} {m : Option A}
      → ((a : A) → P a → Q a)
      → Returns m P
      → Returns m Q
  Returns-imp f r = record { result = r.result; returned = r.returned; holds = f r.result r.holds }

  pub Returns-if :
      (P : A → Type κ) (b : Bool) (m n : Option A)
      → (b ≡ true → Returns m P)
      → (b ≡ false → Returns n P)
      → Returns (if b then m else n) P
  Returns-if P true m n f g = f refl
  Returns-if P false m n f g = g refl

module _ {ℓ κ μ} {A : Type ℓ} {P : A → Type κ} {Q : A → Type μ} {m : Option A} where
  pub Returns-both : Returns m P → Returns m Q → Returns m (λ a. P a × Q a)
  Returns-both p q = record {
    result = p.result;
    returned = p.returned;
    holds = (p.holds, subst Q (some_inj (sym q.returned ∙ p.returned)) q.holds);
  }

module _ {ℓ κ} {A : Type ℓ} {P : A → Type κ} {m : Option A} where
  -- The property of a result that is known.
  pub Returns-at : {u : A} → Returns m P → m ≡ some u → P u
  Returns-at r e = subst P (some_inj (sym r.returned ∙ e)) r.holds

-- The result has the property, if there is one.
abbrev pub IfSome {ℓ κ} : {A : Type ℓ} → (A → Type κ) → Option A → Type κ
IfSome P none = Unit
IfSome P (some a) = P a

module _ {ℓ κ μ ν} {A : Type ℓ} {B : Type κ} where
  pub IfSome-bind :
      (P : A → Type μ) (Q : B → Type ν) (m : Option A) (f : A → Option B)
      → IfSome P m
      → ((a : A) → P a → IfSome Q (f a))
      → IfSome Q (m >>= f)
  IfSome-bind P Q none f h next = tt
  IfSome-bind P Q (some a) f h next = next a h

-- ===== src/Common/Results.antt =====
-- Rust's `Result`, its `?`, and the parts of slices that the code takes.
use Prim.Native.Nat.{ℕ, zero, suc}
use mathlib.Core.Path.{subst, ◌≡◌, refl, ap, ◌∙◌}
use mathlib.Core.Option.{Option, none, some}
use mathlib.Core.List.{List, [], ◌∷◌, ◌++◌}
use response_verification.Common.Tests.{length}

pub data Result {ℓ κ} (E : Type ℓ) (A : Type κ) : Type (ℓ ⊔ κ) where
  ok : A → Result E A
  err : E → Result E A

infixl 5 ◌>>=◌
abbrev pub ◌>>=◌ {ℓ κ μ} :
    {E : Type ℓ} {A : Type κ} {B : Type μ} → Result E A → (A → Result E B) → Result E B
ok a >>= f = f a
err e >>= f = err e

-- `Option::ok_or`.
abbrev pub ok_or_err {ℓ κ} : {E : Type ℓ} {A : Type κ} → E → Option A → Result E A
ok_or_err e none = err e
ok_or_err e (some a) = ok a

-- The result is `Ok`, and what it carries has the property.
abbrev pub IfOk {ℓ κ μ} : {E : Type ℓ} {A : Type κ} → (A → Type μ) → Result E A → Type μ
IfOk P (ok a) = P a
IfOk P (err e) = Unit

-- The parts of a chain that succeeds.
pub ok_of_bind {ℓ κ μ} :
    {E : Type ℓ} {A : Type κ} {B : Type μ} (m : Result E A) (f : A → Result E B) (b : B)
    → (m >>= f) ≡ ok b
    → (a : A) × (m ≡ ok a) × (f a ≡ ok b)
ok_of_bind (ok a) f b h = (a, refl, h)
ok_of_bind (err e) f b h = cc

pub ok_inj {ℓ κ} : {E : Type ℓ} {A : Type κ} {a b : A} → ◌≡◌ {A = Result E A} (ok a) (ok b) → a ≡ b
ok_inj e = cc

-- And back: a chain whose parts succeed does.
pub bind_ok {ℓ κ μ} :
    {E : Type ℓ} {A : Type κ} {B : Type μ} (m : Result E A) (f : A → Result E B) {a : A} {b : B}
    → m ≡ ok a
    → f a ≡ ok b
    → (m >>= f) ≡ ok b
bind_ok (ok c) f e h = ap f (ok_inj e) ∙ h
bind_ok (err c) f e h = cc e

module _ {ℓ κ μ} {E : Type ℓ} {A : Type κ} where
  pub IfOk-ok : (P : A → Type μ) (m : Result E A) (a : A) → m ≡ ok a → IfOk P m → P a
  IfOk-ok P m a e h = subst (λ (r : Result E A). IfOk P r) e h

module _ {ℓ κ μ ν} {E : Type ℓ} {A : Type κ} where
  pub IfOk-imp :
      (P : A → Type μ) (Q : A → Type ν) (m : Result E A)
      → IfOk P m
      → ((a : A) → P a → Q a)
      → IfOk Q m
  IfOk-imp P Q (ok a) h f = f a h
  IfOk-imp P Q (err e) h f = tt

module _ {ℓ κ} {E : Type ℓ} {A : Type κ} where
  pub IfOk-self : (m : Result E A) → IfOk (λ a. m ≡ ok a) m
  IfOk-self (ok a) = refl
  IfOk-self (err e) = tt

module _ {ℓ κ μ ν ρ} {E : Type ℓ} {A : Type κ} {B : Type μ} where
  pub IfOk-bind :
      (P : A → Type ν) (Q : B → Type ρ) (m : Result E A) (f : A → Result E B)
      → IfOk P m
      → ((a : A) → P a → IfOk Q (f a))
      → IfOk Q (m >>= f)
  IfOk-bind P Q (ok a) f h next = next a h
  IfOk-bind P Q (err e) f h next = tt

module _ {ℓ κ} {E : Type ℓ} {A : Type κ} where
  pub ok_or_err-IfOk : (e : E) (o : Option A) → IfOk (λ a. o ≡ some a) (ok_or_err e o)
  ok_or_err-IfOk e none = tt
  ok_or_err-IfOk e (some a) = refl

-- `&s[..n]` and `&s[n..]`.
abbrev pub take {ℓ} : {A : Type ℓ} → ℕ → List A → List A
take zero xs = []
take (suc n) [] = []
take (suc n) (x ∷ xs) = x ∷ take n xs

abbrev pub drop {ℓ} : {A : Type ℓ} → ℕ → List A → List A
drop zero xs = xs
drop (suc n) [] = []
drop (suc n) (x ∷ xs) = drop n xs

module _ {ℓ} {A : Type ℓ} where
  pub take-drop : (n : ℕ) (xs : List A) → take n xs ++ drop n xs ≡ xs
  take-drop zero xs = refl
  take-drop (suc n) [] = refl
  take-drop (suc n) (x ∷ xs) = ap (λ ys. x ∷ ys) (take-drop n xs)

  pub take-append : (xs ys : List A) → take (length xs) (xs ++ ys) ≡ xs
  take-append [] ys = refl
  take-append (x ∷ xs) ys = ap (λ zs. x ∷ zs) (take-append xs ys)

  pub drop-append : (xs ys : List A) → drop (length xs) (xs ++ ys) ≡ ys
  drop-append [] ys = refl
  drop-append (x ∷ xs) ys = drop-append xs ys

-- ===== src/Response/Headers/Named.antt =====
-- response_hash.rs and request_hash.rs: names that are compared without their case.
use response_verification.Common.{
  ◌≡◌, refl, ap, sym, ◌∙◌, Bool, true, false, List, [], ◌∷◌, In, here, there, ◌↔◌, inl, inr,
  Bool-cases,
}
use response_verification.Common.Bytes.{Bytes, bytes_eq_refl, eq_of_bytes_eq}
use response_verification.Response.Headers.{
  to_ascii_lowercase, eq_ignore_ascii_case, any_eq_ignore_ascii_case,
}

abbrev pub IsSameName : Bytes → Bytes → Type 0
IsSameName a b = to_ascii_lowercase a ≡ to_ascii_lowercase b

-- The list has the name, in some case.
abbrev pub IsNamed : List Bytes → Bytes → Type 0
IsNamed names name = (n : Bytes) × In n names × IsSameName n name

pub IsSameName-eq : (a b : Bytes) → (eq_ignore_ascii_case a b ≡ true) ↔ IsSameName a b
IsSameName-eq a b = (eq_of_bytes_eq _ _, λ e. rw e (bytes_eq_refl (to_ascii_lowercase b)))

IsNamed-tail :
    (h : Bytes) (hs : List Bytes) (name : Bytes) → IsNamed hs name → IsNamed (h ∷ hs) name
IsNamed-tail h hs name (n, i, e) = (n, there i, e)

pub any-IsNamed :
    (names : List Bytes) (name : Bytes)
    → any_eq_ignore_ascii_case names name ≡ true
    → IsNamed names name
unfolding any_eq_ignore_ascii_case
any-IsNamed [] name e = cc e
any-IsNamed (h ∷ hs) name e = elim (Bool-cases (eq_ignore_ascii_case h name)) [
  | inl same ↦ (h, here refl, (IsSameName-eq h name).0 same)
  | inr other ↦ IsNamed-tail h hs name (any-IsNamed hs name (rw other at e))
]

pub IsNamed-any :
    (names : List Bytes) (name : Bytes)
    → IsNamed names name
    → any_eq_ignore_ascii_case names name ≡ true
unfolding any_eq_ignore_ascii_case
IsNamed-any [] name (n, i, e) = elim i [ ]
IsNamed-any (h ∷ hs) name (n, here f, e) =
    rw ((IsSameName-eq h name).1 (ap to_ascii_lowercase (sym f) ∙ e)) refl
IsNamed-any (h ∷ hs) name (n, there i, e) =
    let more = IsNamed-any hs name (n, i, e) in
    elim (Bool-cases (eq_ignore_ascii_case h name)) [
      | inl same ↦ rw same refl
      | inr other ↦ rw other more
    ]

-- A test that fails is a fact that does not hold.
pub false_of {ℓ} : {P : Type ℓ} (b : Bool) → (P → b ≡ true) → b ≡ false → P → ⊥
false_of b f e p = cc (f p, e)

pub of_not_false {ℓ} : {P : Type ℓ} (b : Bool) → (b ≡ true → P) → (P → ⊥) → b ≡ false
of_not_false true f n = absurd (n (f refl))
of_not_false false f n = refl

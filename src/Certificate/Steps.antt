-- ===== src/Certificate/Steps.antt =====
-- certificate_verification.rs: what the steps of the check succeed on.
use response_verification.Common.{
  ℕ, ◌+◌, ◌≡◌, refl, sym, ◌∙◌, ap, Bool, true, false, ◌==◌, Option, none, some, ◌++◌, length, arith,
  inl, inr, Bool-cases, length-append,
}
use response_verification.Common.Bytes.{Bytes, bytes_eq, eq_of_bytes_eq, bytes_eq_refl}
use response_verification.Common.Results.{ok, IfOk, take, drop, take-drop, take-append, drop-append}
use response_verification.HashTree.{LookupResult}
use response_verification.Certificate.{
  Delegation, CertificateError, der_prefix, extract_der, found_or, check, no_delegation,
}

eq_of_test : (a b : ℕ) → (a == b) ≡ true → a ≡ b
eq_of_test a b e = ground arith

test_of_eq : (a b : ℕ) → a ≡ b → (a == b) ≡ true
test_of_eq a b e = ground arith

pub found_or-IfOk :
    {E : Type 0} (e : E) (r : LookupResult) → IfOk (λ v. r ≡ LookupResult.found v) (found_or e r)
found_or-IfOk e (LookupResult.found v) = refl
found_or-IfOk e LookupResult.absent = tt
found_or-IfOk e LookupResult.unknown = tt
found_or-IfOk e LookupResult.error = tt

pub check-IfOk : (b : Bool) (e : CertificateError) → IfOk (λ _. b ≡ true) (check b e)
check-IfOk true e = refl
check-IfOk false e = tt

pub no_delegation-IfOk : (o : Option Delegation) → IfOk (λ _. o ≡ none) (no_delegation o)
no_delegation-IfOk none = refl
no_delegation-IfOk (some d) = tt

-- A DER key: the prefix and 96 bytes of key.
abbrev pub IsDer : Bytes → Bytes → Type 0
IsDer buf pk = (buf ≡ der_prefix ++ pk) × (length pk ≡ 96)

pub extract_der-IfOk : (buf : Bytes) → IfOk (IsDer buf) (extract_der buf)
unfolding extract_der
extract_der-IfOk buf = elim (Bool-cases (length buf == length der_prefix + 96)) [
  | inr e ↦ rw (e) tt
  | inl e ↦ elim (Bool-cases (bytes_eq (take (length der_prefix) buf) der_prefix)) [
    | inr f ↦ rw (e, f) tt
    | inl f ↦
        rw (e, f)
          (parts (eq_of_bytes_eq _ _ f) (take-drop (length der_prefix) buf) (eq_of_test _ _ e))
  ]
]
  where
    parts :
        take (length der_prefix) buf ≡ der_prefix
        → take (length der_prefix) buf ++ drop (length der_prefix) buf ≡ buf
        → length buf ≡ length der_prefix + 96
        → IsDer buf (drop (length der_prefix) buf)
    parts t e l =
        let whole : buf ≡ der_prefix ++ drop (length der_prefix) buf =
          sym e ∙ ap (λ z. z ++ drop (length der_prefix) buf) t in
        (
          whole,
          omega (
            arith,
            length-append der_prefix (drop (length der_prefix) buf),
            ap (λ z. length z) whole,
          ),
        )

pub ok-extract_der : (buf pk : Bytes) → IsDer buf pk → extract_der buf ≡ ok pk
unfolding extract_der
ok-extract_der buf pk h = rw (h.0) (
    rw (fits) (
      rw (take-append der_prefix pk)
        (rw (bytes_eq_refl der_prefix) (rw (drop-append der_prefix pk) refl))))
  where
    fits : (length (der_prefix ++ pk) == length der_prefix + 96) ≡ true
    fits = test_of_eq _ _ (length-append der_prefix pk ∙ ap (λ n. length der_prefix + n) h.1)

-- ===== src/Certificate/Accepted.antt =====
-- certificate_verification.rs: exactly which certificates `verify` accepts.
use response_verification.Common.{ℕ, ◌≡◌, refl, sym, ap, true, Option, none, some, List, ◌++◌, ◌↔◌}
use response_verification.Common.Bytes.{Bytes}
use response_verification.Common.Results.{
  ok, IfOk, IfOk-bind, IfOk-ok, IfOk-imp, ok_or_err, ok_or_err-IfOk,
}
use response_verification.Common.Sha.{Sha256}
use response_verification.HashTree.{digest, LookupResult, lookup_path}
use response_verification.Certificate.{
  Delegation, Certificate, CertificateError, Platform, ic_state_root_domain_separator, extract_der,
  found_or, check, principal_is_within_ranges, verify_certificate_time,
  verify_certificate_signature, no_delegation, subnet_path, verify_delegation, signing_key, verify,
}
use response_verification.Certificate.Steps.{
  IsDer, extract_der-IfOk, ok-extract_der, found_or-IfOk, check-IfOk, no_delegation-IfOk,
}
use response_verification.Certificate.Current.{
  IsWithin, IsCurrent, principal_is_within_ranges-IsWithin, IsWithin-principal_is_within_ranges,
  verify_certificate_time-IfOk, ok-verify_certificate_time,
}

module _ (platform : Platform) where
  module _ ⦃sha : Sha256⦄ where
    -- The certificate's tree is signed with the key that the DER text holds.
    pub record IsSigned (certificate : Certificate) (der_key : Bytes) : Type 0 where
      pub key : Bytes
      pub der : IsDer der_key key
      pub signed :
          platform.core_verify certificate.signature
            (ic_state_root_domain_separator ++ digest certificate.tree)
            key
          ≡ true

    verify_certificate_signature-IfOk :
        (c : Certificate) (k : Bytes)
        → IfOk (λ u. IsSigned c k) (verify_certificate_signature platform c k)
    unfolding verify_certificate_signature
    verify_certificate_signature-IfOk c k =
        IfOk-bind _ (λ (u : Unit). IsSigned c k) (extract_der k) _ (extract_der-IfOk k)
          λ pk der.
            IfOk-imp _ (λ (u : Unit). IsSigned c k)
              (check (platform.core_verify c.signature _ pk) _) (check-IfOk _ _)
              λ u signed. record { key = pk; der = der; signed = signed }

    ok-verify_certificate_signature :
        (c : Certificate) (k : Bytes)
        → IsSigned c k
        → verify_certificate_signature platform c k ≡ ok tt
    unfolding verify_certificate_signature
    ok-verify_certificate_signature c k h = rw (ok-extract_der k h.key h.der) (rw (h.signed) refl)

    -- The delegation's certificate, itself without a delegation and signed with the root key, names
    -- the subnet's ranges, one of which has the canister, and the subnet's key.
    pub record IsDelegated (d : Delegation) (canister_id root key : Bytes) : Type 0 where
      pub certificate : Certificate
      pub parsed : platform.parse_certificate d.certificate ≡ some certificate
      pub not_nested : certificate.delegation ≡ none
      pub signed : IsSigned certificate root
      pub encoded : Bytes
      pub has_ranges :
          lookup_path certificate.tree (subnet_path d "canister_ranges")
          ≡ LookupResult.found encoded
      pub canister : platform.Principal
      pub is_canister : platform.from_slice canister_id ≡ some canister
      pub ranges : List (platform.Principal × platform.Principal)
      pub parsed_ranges : platform.parse_principals encoded ≡ some ranges
      pub within : IsWithin platform canister ranges
      pub has_key :
          lookup_path certificate.tree (subnet_path d "public_key") ≡ LookupResult.found key

    verify_delegation-IfOk :
        (d : Delegation) (canister_id root : Bytes)
        → IfOk
            (λ key. IsDelegated d canister_id root key)
            (verify_delegation platform d canister_id root)
    unfolding verify_delegation
    verify_delegation-IfOk d canister_id root =
        let Q : Bytes → Type 0 = λ key. IsDelegated d canister_id root key in
        IfOk-bind _ Q
          (ok_or_err CertificateError.cbor_parsing_failed
            (platform.parse_certificate d.certificate))
          _ (ok_or_err-IfOk _ _)
          λ c parsed.
            IfOk-bind _ Q (no_delegation c.delegation) _ (no_delegation-IfOk c.delegation)
              λ _ not_nested.
                IfOk-bind _ Q (verify_certificate_signature platform c root) _
                  (verify_certificate_signature-IfOk c root)
                  λ _ signed.
                    IfOk-bind _ Q
                      (found_or _ (lookup_path c.tree (subnet_path d "canister_ranges"))) _
                      (found_or-IfOk _ _)
                      λ encoded has_ranges.
                        IfOk-bind _ Q
                          (ok_or_err CertificateError.panics (platform.from_slice canister_id)) _
                          (ok_or_err-IfOk _ _)
                          λ canister is_canister.
                            IfOk-bind _ Q
                              (ok_or_err CertificateError.cbor_parsing_failed
                                (platform.parse_principals encoded))
                              _ (ok_or_err-IfOk _ _)
                              λ ranges parsed_ranges.
                                IfOk-bind _ Q
                                  (check (principal_is_within_ranges platform canister ranges) _) _
                                  (check-IfOk _ _)
                                  λ _ within.
                                    IfOk-imp _ Q
                                      (found_or _ (lookup_path c.tree (subnet_path d "public_key")))
                                      (found_or-IfOk _ _)
                                      λ key has_key. record {
                                        certificate = c;
                                        parsed = parsed;
                                        not_nested = not_nested;
                                        signed = signed;
                                        encoded = encoded;
                                        has_ranges = has_ranges;
                                        canister = canister;
                                        is_canister = is_canister;
                                        ranges = ranges;
                                        parsed_ranges = parsed_ranges;
                                        within =
                                            principal_is_within_ranges-IsWithin platform canister
                                              ranges within;
                                        has_key = has_key;
                                      }

    ok-verify_delegation :
        (d : Delegation) (canister_id root key : Bytes)
        → IsDelegated d canister_id root key
        → verify_delegation platform d canister_id root ≡ ok key
    unfolding verify_delegation
    ok-verify_delegation d canister_id root key h = rw (h.parsed) (
        rw (ok-verify_certificate_signature h.certificate root h.signed) (
          rw (h.not_nested, h.has_ranges, h.is_canister, h.parsed_ranges)
            (rw (within) (rw (h.has_key) refl))))
      where
        within : principal_is_within_ranges platform h.canister h.ranges ≡ true
        within =
            let (r, m, a, b) = h.within in
            IsWithin-principal_is_within_ranges platform h.canister h.ranges r m a b

    -- The key that the certificate is to be signed with: the root key, or the one delegated to.
    abbrev pub IsSigningKey : Option Delegation → Bytes → Bytes → Bytes → Type 0
    IsSigningKey none canister_id root key = key ≡ root
    IsSigningKey (some d) canister_id root key = IsDelegated d canister_id root key

    signing_key-IfOk :
        (o : Option Delegation) (canister_id root : Bytes)
        → IfOk (IsSigningKey o canister_id root) (signing_key platform o canister_id root)
    signing_key-IfOk none canister_id root = refl
    signing_key-IfOk (some d) canister_id root = verify_delegation-IfOk d canister_id root

    ok-signing_key :
        (o : Option Delegation) (canister_id root key : Bytes)
        → IsSigningKey o canister_id root key
        → signing_key platform o canister_id root ≡ ok key
    ok-signing_key none canister_id root key h = ap (λ k. ok k) (sym h)
    ok-signing_key (some d) canister_id root key h = ok-verify_delegation d canister_id root key h

    -- What `verify` promises of a certificate.
    pub record IsAccepted (c : Certificate) (canister_id root : Bytes) (now offset : ℕ)
        : Type 0 where
      pub current : IsCurrent platform c now offset
      pub key : Bytes
      pub signing : IsSigningKey c.delegation canister_id root key
      pub signed : IsSigned c key

    verify-IfOk :
        (c : Certificate) (canister_id root : Bytes) (now offset : ℕ)
        → IfOk
            (λ u. IsAccepted c canister_id root now offset)
            (verify platform c canister_id root now offset)
    unfolding verify
    verify-IfOk c canister_id root now offset =
        let Q : Unit → Type 0 = λ u. IsAccepted c canister_id root now offset in
        IfOk-bind _ Q (verify_certificate_time platform c now offset) _
          (verify_certificate_time-IfOk platform c now offset)
          λ _ current.
            IfOk-bind _ Q (signing_key platform c.delegation canister_id root) _
              (signing_key-IfOk c.delegation canister_id root)
              λ key signing.
                IfOk-imp _ Q (verify_certificate_signature platform c key)
                  (verify_certificate_signature-IfOk c key)
                  λ _ signed. record {
                    current = current;
                    key = key;
                    signing = signing;
                    signed = signed;
                  }

  -- `verify` accepts a certificate if and only if its tree states a time no further from now than the
  -- offset, and its digest is signed with the root key or, if it has a delegation, with the subnet key
  -- that a certificate parsed from it names, one without a delegation, signed with the root key and
  -- with the canister in one of its ranges.
  pub verify-IsAccepted :
      ⦃sha : Sha256⦄ (c : Certificate) (canister_id root : Bytes) (now offset : ℕ)
      → (verify platform c canister_id root now offset ≡ ok tt)
        ↔ IsAccepted c canister_id root now offset
  verify-IsAccepted c canister_id root now offset = (
    λ e.
        IfOk-ok _ (verify platform c canister_id root now offset) tt e
          (verify-IfOk c canister_id root now offset),
    unfold verify in
        λ h. rw (ok-verify_certificate_time platform c now offset h.current) (
          rw (ok-signing_key c.delegation canister_id root h.key h.signing)
            (ok-verify_certificate_signature c h.key h.signed)),
  )

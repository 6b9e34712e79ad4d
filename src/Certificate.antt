-- ===== src/Certificate.antt =====
-- packages/ic-certification/src/certificate.rs and
-- packages/ic-certificate-verification/src/certificate_verification.rs: certificates, and the check of
-- their time, their delegation and their signature. The crates that the code calls are the fields of
-- `Platform`. The proofs are in the modules below.
pub mod Steps
pub mod Current
pub mod Accepted
pub mod Cache
use response_verification.Common.{
  ℕ, ◌+◌, ◌-◌, ◌<◌, ◌≡◌, Bool, false, not, ◌&&◌, ◌||◌, ◌==◌, ltb, leb, if◌then◌else◌, Option, none,
  some, List, [], ◌∷◌, ◌++◌, length, String,
}
use response_verification.Common.Bytes.{Bytes, codes, bytes_eq}
use response_verification.Common.Results.{Result, ok, err, ◌>>=◌, ok_or_err, take, drop}
use response_verification.Common.Sha.{Sha256}
use response_verification.HashTree.{HashTree, digest, LookupResult, lookup_path}

pub record Delegation : Type 0 where
  pub subnet_id : Bytes
  pub certificate : Bytes

pub record Certificate : Type 0 where
  pub tree : HashTree
  pub signature : Bytes
  pub delegation : Option Delegation

-- `CertificateVerificationError`, the variants of this file; `panics` is a panic of the code.
pub data CertificateError : Type 0 where
  der_key_length_mismatch : ℕ → ℕ → CertificateError
  der_prefix_mismatch : Bytes → Bytes → CertificateError
  cbor_parsing_failed : CertificateError
  certificate_has_too_many_delegations : CertificateError
  subnet_canister_id_ranges_not_found : List Bytes → CertificateError
  subnet_public_key_not_found : List Bytes → CertificateError
  principal_out_of_range : CertificateError
  missing_time_path_in_tree : List Bytes → CertificateError
  time_decoding_failed : CertificateError
  time_too_far_in_the_future : ℕ → ℕ → CertificateError
  time_too_far_in_the_past : ℕ → ℕ → CertificateError
  signature_verification_failed : CertificateError
  panics : CertificateError

-- `CertificateVerificationResult`.
abbrev pub CertificateResult : Type 0 → Type 0
CertificateResult A = Result CertificateError A

-- What the code gets from elsewhere: the CBOR readers of certificates and of arrays of principals
-- (`none` is an error), `Principal` of `candid` with its order (`none` is a panic), LEB128 numbers,
-- which fit a `u64`, and the BLS check, `core_verify` with the answer `BLS_OK`.
pub record Platform : Type 1 where
  pub Principal : Type 0
  pub from_slice : Bytes → Option Principal
  pub principal_le : Principal → Principal → Bool
  pub parse_certificate : Bytes → Option Certificate
  pub parse_principals : Bytes → Option (List (Principal × Principal))
  pub read_unsigned : Bytes → Option ℕ
  pub read_unsigned-bound :
      (b : Bytes) (n : ℕ) → read_unsigned b ≡ some n → n < 18446744073709551616
  pub core_verify : Bytes → Bytes → Bytes → Bool

abbrev pub ic_state_root_domain_separator : Bytes
ic_state_root_domain_separator = 13 ∷ codes "ic-state-root"

unfoldable pub der_prefix : Bytes
der_prefix =
    48 ∷ 129 ∷ 130 ∷ 48 ∷ 29 ∷ 6 ∷ 13 ∷ 43 ∷ 6 ∷ 1 ∷ 4 ∷ 1 ∷ 130 ∷ 220 ∷ 124 ∷ 5 ∷ 3 ∷ 1 ∷ 2 ∷ 1 ∷ 6
    ∷ 12 ∷ 43 ∷ 6 ∷ 1 ∷ 4 ∷ 1 ∷ 130 ∷ 220 ∷ 124 ∷ 5 ∷ 3 ∷ 2 ∷ 1 ∷ 3 ∷ 97 ∷ 0 ∷ []

unfoldable pub extract_der : Bytes → CertificateResult Bytes
extract_der buf =
    if not (length buf == length der_prefix + 96)
    then err (der_key_length_mismatch (length der_prefix + 96) (length buf))
    else if not (bytes_eq (take (length der_prefix) buf) der_prefix)
    then err (der_prefix_mismatch der_prefix (take (length der_prefix) buf))
    else ok (drop (length der_prefix) buf)

-- `let LookupResult::Found(v) = … else { return Err(e) }`.
abbrev pub found_or {ℓ} : {E : Type ℓ} → E → LookupResult → Result E Bytes
found_or e (LookupResult.found v) = ok v
found_or e LookupResult.absent = err e
found_or e LookupResult.unknown = err e
found_or e LookupResult.error = err e

abbrev pub u128_max : ℕ
u128_max = 340282366920938463463374607431768211455

abbrev pub check : Bool → CertificateError → CertificateResult Unit
check b e = if b then ok tt else err e

abbrev pub no_delegation : Option Delegation → CertificateResult Unit
no_delegation none = ok tt
no_delegation (some d) = err certificate_has_too_many_delegations

abbrev pub subnet_path : Delegation → String → List Bytes
subnet_path d name = codes "subnet" ∷ d.subnet_id ∷ codes name ∷ []

-- `u128::saturating_add`; `saturating_sub` is the subtraction of ℕ.
abbrev pub saturating_add : ℕ → ℕ → ℕ
saturating_add a b = if leb (a + b) u128_max then a + b else u128_max

-- The two comparisons that end `verify_certificate_time`.
unfoldable pub check_window : ℕ → ℕ → ℕ → CertificateResult Unit
check_window time now offset =
    if ltb (saturating_add now offset) time
    then err (time_too_far_in_the_future time (saturating_add now offset))
    else if ltb time (now - offset)
    then err (time_too_far_in_the_past time (now - offset))
    else ok tt

module _ (platform : Platform) where
  unfoldable pub principal_is_within_ranges :
      platform.Principal → List (platform.Principal × platform.Principal) → Bool
  principal_is_within_ranges p [] = false
  principal_is_within_ranges p (r ∷ ranges) =
      platform.principal_le r.0 p && platform.principal_le p r.1
      || principal_is_within_ranges p ranges

  -- Without the cache of signatures that verified before, which Cache adds.
  abbrev pub verify_signature : Bytes → Bytes → Bytes → CertificateResult Unit
  verify_signature pk sig msg =
      check (platform.core_verify sig msg pk) signature_verification_failed

  unfoldable pub verify_certificate_time : Certificate → ℕ → ℕ → CertificateResult Unit
  verify_certificate_time certificate now offset = do
    let time_path = codes "time" ∷ []
    encoded ←
        found_or (missing_time_path_in_tree time_path) (lookup_path certificate.tree time_path)
    time ← ok_or_err time_decoding_failed (platform.read_unsigned encoded)
    check_window time now offset

  module _ ⦃sha : Sha256⦄ where
    unfoldable pub verify_certificate_signature : Certificate → Bytes → CertificateResult Unit
    verify_certificate_signature certificate der_key = do
      pk ← extract_der der_key
      verify_signature pk certificate.signature
          (ic_state_root_domain_separator ++ digest certificate.tree)

    unfoldable pub verify_delegation : Delegation → Bytes → Bytes → CertificateResult Bytes
    verify_delegation delegation canister_id root_public_key = do
      cert ← ok_or_err cbor_parsing_failed (platform.parse_certificate delegation.certificate)
      _ ← no_delegation cert.delegation
      _ ← verify_certificate_signature cert root_public_key
      let canister_range_path = subnet_path delegation "canister_ranges"
      canister_range ←
          found_or (subnet_canister_id_ranges_not_found canister_range_path)
            (lookup_path cert.tree canister_range_path)
      canister ← ok_or_err panics (platform.from_slice canister_id)
      canister_ranges ← ok_or_err cbor_parsing_failed (platform.parse_principals canister_range)
      _ ← check (principal_is_within_ranges canister canister_ranges) principal_out_of_range
      let public_key_path = subnet_path delegation "public_key"
      found_or (subnet_public_key_not_found public_key_path) (lookup_path cert.tree public_key_path)

    -- The key that the certificate is to be signed with.
    abbrev pub signing_key : Option Delegation → Bytes → Bytes → CertificateResult Bytes
    signing_key (some delegation) canister_id root_public_key =
        verify_delegation delegation canister_id root_public_key
    signing_key none canister_id root_public_key = ok root_public_key

    unfoldable pub verify : Certificate → Bytes → Bytes → ℕ → ℕ → CertificateResult Unit
    verify certificate canister_id root_public_key now offset = do
      _ ← verify_certificate_time certificate now offset
      der_key ← signing_key certificate.delegation canister_id root_public_key
      verify_certificate_signature certificate der_key

-- ===== src/Examples/Certificates.antt =====
-- Examples of the theorems on certificates.
use response_verification.Common.{
  ℕ, ◌<◌, ◌≡◌, Bool, true, false, ◌||◌, if◌then◌else◌, ltb, Bool-cases, Option, none, some, List,
  [], ◌∷◌, ◌++◌, ◌↔◌, ◌⊎◌, inl, inr, refl, arith,
}
use response_verification.Common.Bytes.{Bytes, codes, bytes_eq, eq_of_bytes_eq}
use response_verification.Common.Results.{ok}
use response_verification.Common.Sha.{Collision}
use response_verification.HashTree.{fork, labeled, leaf}
use response_verification.Certificate.{Certificate, Platform, der_prefix, verify_signature, verify}
use response_verification.Certificate.Accepted.{IsAccepted, verify-IsAccepted}
use response_verification.Certificate.Cache.{
  SizedCache, IsSound, verify_signature_cached, verify_signature_cached_lem,
}
use response_verification.Examples.{toy_sha, repeat}

-- A number that is one byte long.
abbrev pub read_small : Bytes → Option ℕ
read_small [] = none
read_small (n ∷ b) = if ltb n 128 then some n else none

pub read_small-bound : (b : Bytes) (n : ℕ) → read_small b ≡ some n → n < 18446744073709551616
read_small-bound [] n e = absurd (grind arith)
read_small-bound (m ∷ b) n e = ground arith

-- Principals are their bytes, a signature verifies if it is the key, and no certificate parses.
abbrev pub toy_platform : Platform
toy_platform = record {
  Principal = Bytes;
  from_slice = λ b. some b;
  principal_le = λ a b. bytes_eq a b;
  parse_certificate = λ b. none;
  parse_principals = λ b. none;
  read_unsigned = read_small;
  read_unsigned-bound = read_small-bound;
  core_verify = λ sig msg pk. bytes_eq sig pk;
}

abbrev pub key : Bytes
key = repeat 96 7

abbrev pub der_key : Bytes
der_key = der_prefix ++ key

-- A certificate of the time 5 for the canister 1, with the data given.
abbrev pub certificate_of_data : Bytes → Certificate
certificate_of_data data_hash = record {
  tree =
      fork
        (labeled (codes "canister")
          (labeled (1 ∷ []) (labeled (codes "certified_data") (leaf data_hash))))
        (labeled (codes "time") (leaf (5 ∷ [])));
  signature = key;
  delegation = none;
}

verify-IsAccepted_example :
    (verify toy_platform (certificate_of_data []) (1 ∷ []) der_key 6 1 ≡ ok tt)
    ↔ IsAccepted toy_platform (certificate_of_data []) (1 ∷ []) der_key 6 1
verify-IsAccepted_example =
    verify-IsAccepted toy_platform (certificate_of_data []) (1 ∷ []) der_key 6 1

abbrev member : List Bytes → Bytes → Bool
member [] x = false
member (e ∷ c) x = bytes_eq x e || member c x

member_cons :
    (c : List Bytes) (e x : Bytes) → member (e ∷ c) x ≡ true → (x ≡ e) ⊎ (member c x ≡ true)
member_cons c e x h = elim (Bool-cases (bytes_eq x e)) [
  | inl a ↦ inl (eq_of_bytes_eq x e a)
  | inr a ↦ inr (ground arith)
]

-- A cache without a limit.
abbrev toy_cache : SizedCache
toy_cache = record {
  State = List Bytes;
  cache_get = λ c e. (c, member c e);
  cache_set = λ c e. e ∷ c;
  has-cache_get = λ c e x h. h;
  has-cache_set = member_cons;
}

abbrev message : Bytes
message = repeat 46 1

empty-IsSound : IsSound toy_platform toy_cache []
empty-IsSound x h = absurd (grind arith)

-- The cache after the signature was checked once.
abbrev warm : List Bytes
warm = (verify_signature_cached toy_platform toy_cache [] key key message).0

warm-IsSound : IsSound toy_platform toy_cache warm
warm-IsSound =
    (verify_signature_cached_lem toy_platform toy_cache [] key key message refl refl
      empty-IsSound).1

verify_signature_cached_lem_example :
    (((verify_signature_cached toy_platform toy_cache warm key key message).1
        ≡ verify_signature toy_platform key key message)
      ⊎ Collision toy_sha)
    × IsSound toy_platform toy_cache
        ((verify_signature_cached toy_platform toy_cache warm key key message).0)
verify_signature_cached_lem_example =
    verify_signature_cached_lem toy_platform toy_cache warm key key message refl refl warm-IsSound

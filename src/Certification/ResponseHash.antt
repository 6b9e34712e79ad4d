-- ===== src/Certification/ResponseHash.antt =====
-- packages/ic-http-certification/src/hash/response_hash.rs: the hashes of a response; the filter of the
-- headers is in Response/Headers.
use response_verification.Common.{ℕ, Option, none, some, List, [], ◌∷◌, ◌++◌, map}
use response_verification.Common.Bytes.{Bytes, codes}
use response_verification.Common.Sha.{Sha256}
use response_verification.RepresentationHash.{
  Value, string, number, Leb128, representation_independent_hash,
}
use response_verification.Response.Headers.{
  Header, HttpResponse, ResponseCertification, ResponseHeaders, filter_response_headers,
}

abbrev pub response_status_pseudo_header_name : Bytes
response_status_pseudo_header_name = codes ":ic-cert-status"

abbrev pub string_entry : Header → Bytes × Value
string_entry (name, value) = (name, string value)

-- `headers_to_verify`.
abbrev pub response_entries : ℕ → ResponseHeaders → List (Bytes × Value)
response_entries status response_headers =
    map string_entry response_headers.headers
    ++ ((response_status_pseudo_header_name, number status) ∷ [])

-- `unwrap_or_else`.
abbrev pub body_hash_or : Bytes → Option Bytes → Bytes
body_hash_or computed none = computed
body_hash_or computed (some given) = given

module _ ⦃sha : Sha256⦄ (leb : Leb128) where
  unfoldable pub response_headers_hash : ℕ → ResponseHeaders → Bytes
  response_headers_hash status response_headers =
      representation_independent_hash leb (response_entries status response_headers)

  unfoldable pub response_hash : HttpResponse → ResponseCertification → Option Bytes → Bytes
  response_hash response certification body_hash = sha.hash (
      response_headers_hash response.status_code (filter_response_headers response certification)
      ++ body_hash_or (sha.hash response.body) body_hash)

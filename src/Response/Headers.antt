-- ===== src/Response/Headers.antt =====
-- packages/ic-http-certification/src/hash/response_hash.rs, `filter_response_headers`: the headers of a
-- response that its certification covers.
pub mod Named
pub mod Filter
use response_verification.Common.{
  ℕ, ◌+◌, Bool, false, not, ◌&&◌, ◌||◌, leb, if◌then◌else◌, Option, none, some, List, [], ◌∷◌, map,
}
use response_verification.Common.Bytes.{Bytes, codes, bytes_eq}

abbrev pub Header : Type 0
Header = Bytes × Bytes

pub record HttpResponse : Type 0 where
  pub status_code : ℕ
  pub headers : List Header
  pub body : Bytes

-- `DefaultResponseCertificationType`.
pub data ResponseCertification : Type 0 where
  certified_response_headers : List Bytes → ResponseCertification
  response_header_exclusions : List Bytes → ResponseCertification

pub record ResponseHeaders : Type 0 where
  pub headers : List Header
  pub certificate : Option Bytes

abbrev pub certificate_header_name : Bytes
certificate_header_name = codes "IC-Certificate"

abbrev pub certificate_expression_header_name : Bytes
certificate_expression_header_name = codes "IC-CertificateExpression"

unfoldable pub to_ascii_lowercase : Bytes → Bytes
to_ascii_lowercase = map (λ x. if leb 65 x && leb x 90 then x + 32 else x)

abbrev pub eq_ignore_ascii_case : Bytes → Bytes → Bool
eq_ignore_ascii_case a b = bytes_eq (to_ascii_lowercase a) (to_ascii_lowercase b)

-- `iter().any(…)`.
unfoldable pub any_eq_ignore_ascii_case : List Bytes → Bytes → Bool
any_eq_ignore_ascii_case [] name = false
any_eq_ignore_ascii_case (h ∷ hs) name =
    eq_ignore_ascii_case h name || any_eq_ignore_ascii_case hs name

abbrev pub headers_filter : ResponseCertification → Bytes → Bool
headers_filter (ResponseCertification.certified_response_headers hs) name =
    any_eq_ignore_ascii_case hs name
headers_filter (ResponseCertification.response_header_exclusions hs) name =
    not (any_eq_ignore_ascii_case hs name)

-- The closure of `filter_map`: the header as it is kept, if it is.
unfoldable pub kept_header : ResponseCertification → Header → Option Header
kept_header certification (name, value) =
    if eq_ignore_ascii_case name certificate_header_name
    then none
    else if eq_ignore_ascii_case name certificate_expression_header_name
    then some (to_ascii_lowercase name, value)
    else if headers_filter certification name
    then some (to_ascii_lowercase name, value)
    else none

abbrev pub cons_some : Option Header → List Header → List Header
cons_some none hs = hs
cons_some (some h) hs = h ∷ hs

unfoldable pub kept_headers : ResponseCertification → List Header → List Header
kept_headers certification [] = []
kept_headers certification (h ∷ hs) =
    cons_some (kept_header certification h) (kept_headers certification hs)

-- The assignments to `response_headers.certificate`, from the left: the last one stands.
unfoldable pub certificate_of : Option Bytes → List Header → Option Bytes
certificate_of found [] = found
certificate_of found ((name, value) ∷ hs) =
    certificate_of (if eq_ignore_ascii_case name certificate_header_name then some value else found)
      hs

unfoldable pub filter_response_headers : HttpResponse → ResponseCertification → ResponseHeaders
filter_response_headers response certification = record {
  headers = kept_headers certification response.headers;
  certificate = certificate_of none response.headers;
}

-- ===== src/Certification/RequestHash.antt =====
-- packages/ic-http-certification/src/hash/request_hash.rs: the hash of a request.
use response_verification.Common.{
  ℕ, Bool, false, ◌==◌, if◌then◌else◌, Option, none, some, List, [], ◌∷◌, ◌++◌, map,
}
use response_verification.Common.Bytes.{Bytes, codes}
use response_verification.Common.Results.{ok, err, ◌>>=◌}
use response_verification.Common.Sha.{Sha256}
use response_verification.RepresentationHash.{representation_independent_hash}
use response_verification.Response.Headers.{
  Header, to_ascii_lowercase, any_eq_ignore_ascii_case, cons_some,
}
use response_verification.Certification.{
  Library, HttpRequest, RequestCertification, HttpCertificationResult, malformed_url,
}
use response_verification.Certification.ResponseHash.{string_entry}

-- `str::split` at a character and `[_]::join`.
abbrev pub cons_first : ℕ → List Bytes → List Bytes
cons_first x [] = (x ∷ []) ∷ []
cons_first x (p ∷ ps) = (x ∷ p) ∷ ps

unfoldable pub split : ℕ → Bytes → List Bytes
split c [] = [] ∷ []
split c (x ∷ xs) = let rest = split c xs in if x == c then [] ∷ rest else cons_first x rest

unfoldable pub join : ℕ → List Bytes → Bytes
join c [] = []
join c (p ∷ []) = p
join c (p ∷ q ∷ ps) = p ++ (c ∷ join c (q ∷ ps))

-- The closure of `filter`: the fragment's name, the part before the first `=`, is certified.
abbrev pub name_is_certified : List Bytes → RequestCertification → Bool
name_is_certified [] certification = false
name_is_certified (name ∷ rest) certification =
    any_eq_ignore_ascii_case certification.query_parameters name

unfoldable pub is_certified : RequestCertification → Bytes → Bool
is_certified certification fragment = name_is_certified (split b'=' fragment) certification

unfoldable pub filter_fragments : RequestCertification → List Bytes → List Bytes
filter_fragments certification [] = []
filter_fragments certification (f ∷ fs) =
    let rest = filter_fragments certification fs in
    if is_certified certification f then f ∷ rest else rest

abbrev pub join_some : List Bytes → Option Bytes
join_some [] = none
join_some (f ∷ fs) = some (join b'&' (f ∷ fs))

unfoldable pub get_filtered_query : Bytes → RequestCertification → Option Bytes
get_filtered_query query certification =
    join_some (filter_fragments certification (split b'&' query))

-- Each value is wrapped by `Value::String` below.
abbrev pub kept_request_header : RequestCertification → Header → Option Header
kept_request_header certification (name, value) =
    if any_eq_ignore_ascii_case certification.headers name
    then some (to_ascii_lowercase name, value)
    else none

unfoldable pub get_filtered_headers : List Header → RequestCertification → List Header
get_filtered_headers [] certification = []
get_filtered_headers (h ∷ hs) certification =
    cons_some (kept_request_header certification h) (get_filtered_headers hs certification)

-- `request.get_query()`.
abbrev pub get_query : Library → HttpRequest → HttpCertificationResult (Option Bytes)
get_query library request = elim (library.uri_query request.url) [
  | none ↦ err (malformed_url request.url)
  | some query ↦ ok query
]

abbrev pub query_entry : RequestCertification → Option Bytes → List Header
query_entry certification none = []
query_entry certification (some query) = elim (get_filtered_query query certification) [
  | none ↦ []
  | some filtered ↦ (codes ":ic-cert-query", filtered) ∷ []
]

-- `filtered_headers` after both `push`es.
unfoldable pub request_texts :
    Library → HttpRequest → RequestCertification → HttpCertificationResult (List Header)
request_texts library request certification = do
  query ← get_query library request
  ok (
      get_filtered_headers request.headers certification
      ++ ((codes ":ic-cert-method", request.method) ∷ query_entry certification query))

module _ ⦃sha : Sha256⦄ (library : Library) where
  unfoldable pub request_hash : HttpRequest → RequestCertification → HttpCertificationResult Bytes
  request_hash request certification = do
    texts ← request_texts library request certification
    ok (
        sha.hash (
          representation_independent_hash library.leb128 (map string_entry texts)
          ++ sha.hash request.body))

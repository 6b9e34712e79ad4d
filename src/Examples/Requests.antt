-- ===== src/Examples/Requests.antt =====
-- Examples of the theorems on the hash of a request and on certifications.
use response_verification.Common.{
  arith, ◌≡◌, refl, ap, sym, ◌∙◌, here, there, none, some, List, [], ◌∷◌, ◌++◌, ◌⊎◌, map,
}
use response_verification.Common.Bytes.{Bytes, codes, compare_bytes}
use response_verification.Common.Results.{ok}
use response_verification.Common.Sha.{Collision}
use response_verification.RepresentationHash.{representation_independent_hash}
use response_verification.Wildcard.{path_prefix}
use response_verification.Response.Hashes.{CelExpression}
use response_verification.Response.Headers.{
  Header, HttpResponse, filter_response_headers, to_ascii_lowercase, any_eq_ignore_ascii_case,
  certificate_expression_header_name,
}
use response_verification.Certification.{HttpRequest, RequestCertification}
use response_verification.Certification.ResponseHash.{response_hash, string_entry}
use response_verification.Certification.RequestHash.{
  request_texts, request_hash, get_filtered_query, filter_fragments, split, join, is_certified,
  get_filtered_headers,
}
use response_verification.Certification.CelText.{
  create_default_cel_expr, create_request_cel_expr, create_response_cel_expr, join_quoted,
}
use response_verification.Certification.HttpCertification.{
  HttpCertification, certify_full, validate_response, validate_headers,
}
use response_verification.Certification.TreePath.{exact, to_expr_path, entry_to_tree_path}
use response_verification.Certification.SameRequest.{request_hash-inj}
use response_verification.Certification.Covered.{IsPlainRequest, SameRequest}
use response_verification.Certification.Query.{
  Selects, IsCertifiedFragment, fragments_of, get_filtered_query-Selects,
}
use response_verification.HashTree.{HashTree, SubtreeLookupResult, lookup_subtree}
use response_verification.Response.Hashes.{validate_hashes}
use response_verification.Response.Pair
use response_verification.Response.Pair.{hash_of_request}
use response_verification.Examples.Pairs.{toy_gateway}
use response_verification.Certification.ExpressionHeader.{
  validate_response_lem, judge, expression_values,
}
use response_verification.Certification.Lookup.{certify_full-validate_hashes}
use response_verification.Examples.{toy_sha}
use response_verification.Examples.Hashes.{toy_leb, toy_library, every_header}

-- The query stands for the whole URL.
abbrev certified : RequestCertification
certified = record { headers = codes "host" ∷ []; query_parameters = codes "a" ∷ codes "c" ∷ [] }

abbrev ask : HttpRequest
ask = record {
  method = codes "GET";
  url = codes "a=1&b=2&c=3";
  headers = (codes "Host", codes "x") ∷ (codes "Accept", codes "y") ∷ [];
  body = [];
}

-- Another fragment and another header, neither certified.
abbrev ask_again : HttpRequest
ask_again = record {
  method = codes "GET";
  url = codes "a=1&c=3&d=4";
  headers = (codes "host", codes "x") ∷ [];
  body = [];
}

filtered : get_filtered_query (codes "a=1&b=2&c=3") certified ≡ some (codes "a=1&c=3")
unfolding get_filtered_query filter_fragments split join is_certified any_eq_ignore_ascii_case
    to_ascii_lowercase compare_bytes
filtered = refl

get_filtered_query-Selects_example :
    Selects
      (IsCertifiedFragment certified)
      (split b'&' (codes "a=1&b=2&c=3"))
      (fragments_of (get_filtered_query (codes "a=1&b=2&c=3") certified))
get_filtered_query-Selects_example = get_filtered_query-Selects (codes "a=1&b=2&c=3") certified

abbrev hashed_texts : List Header
hashed_texts =
    (codes "host", codes "x")
    ∷ (codes ":ic-cert-method", codes "GET")
    ∷ (codes ":ic-cert-query", codes "a=1&c=3")
    ∷ []

abbrev ask_hash : Bytes
ask_hash =
    toy_sha.hash
      (representation_independent_hash toy_leb (map string_entry hashed_texts) ++ toy_sha.hash [])

ask_hashed : request_hash toy_library ask certified ≡ ok ask_hash
unfolding request_hash request_texts get_filtered_headers get_filtered_query filter_fragments split
    join is_certified any_eq_ignore_ascii_case to_ascii_lowercase compare_bytes
ask_hashed = refl

ask_again_hashed : request_hash toy_library ask_again certified ≡ ok ask_hash
unfolding request_hash request_texts get_filtered_headers get_filtered_query filter_fragments split
    join is_certified any_eq_ignore_ascii_case to_ascii_lowercase compare_bytes
ask_again_hashed = refl

plain_name :
    (name known : Bytes)
    → name ≡ known
    → (to_ascii_lowercase known ≡ codes ":ic-cert-method" → ⊥)
    → (to_ascii_lowercase known ≡ codes ":ic-cert-query" → ⊥)
    → (to_ascii_lowercase name ≡ codes ":ic-cert-method" → ⊥)
      × (to_ascii_lowercase name ≡ codes ":ic-cert-query" → ⊥)
plain_name name known e method query =
    let same = ap to_ascii_lowercase (sym e) in ((λ f. method (same ∙ f)), (λ f. query (same ∙ f)))

ask-IsPlain : IsPlainRequest ask.headers
unfolding to_ascii_lowercase
ask-IsPlain name value (here e) =
    plain_name name (codes "Host") (ap (λ z. z.0) e) (λ f. ground arith) (λ f. ground arith)
ask-IsPlain name value (there (here e)) =
    plain_name name (codes "Accept") (ap (λ z. z.0) e) (λ f. ground arith) (λ f. ground arith)
ask-IsPlain name value (there (there m)) = elim m [ ]

ask_again-IsPlain : IsPlainRequest ask_again.headers
unfolding to_ascii_lowercase
ask_again-IsPlain name value (here e) =
    plain_name name (codes "host") (ap (λ z. z.0) e) (λ f. ground arith) (λ f. ground arith)
ask_again-IsPlain name value (there m) = elim m [ ]

request_hash-inj_example : SameRequest toy_library certified ask ask_again ⊎ Collision toy_sha
request_hash-inj_example =
    request_hash-inj toy_library ask ask_again certified ask_hash ask-IsPlain ask_again-IsPlain
      ask_hashed ask_again_hashed

abbrev expression : Bytes
expression = create_default_cel_expr (CelExpression.full certified every_header)

abbrev answer : HttpResponse
answer = record {
  status_code = 200;
  headers = (certificate_expression_header_name, expression) ∷ (codes "A", codes "1") ∷ [];
  body = codes "hi";
}

validate_response_lem_example :
    validate_response toy_library answer expression
    ≡ judge expression (expression_values toy_library answer.headers)
validate_response_lem_example = validate_response_lem toy_library expression answer

abbrev answer_certification : HttpCertification
answer_certification =
    HttpCertification.full (toy_sha.hash expression) ask_hash
      (response_hash toy_leb answer every_header none)

certified_answer :
    certify_full toy_gateway.library certified every_header ask answer none
    ≡ ok answer_certification
unfolding certify_full validate_response validate_headers compare_bytes request_hash request_texts
    get_filtered_headers get_filtered_query filter_fragments split join is_certified
    any_eq_ignore_ascii_case to_ascii_lowercase create_default_cel_expr create_request_cel_expr
    create_response_cel_expr join_quoted
certified_answer = refl

certify_full-validate_hashes_example :
    (h : Bytes) × (hash_of_request toy_gateway ask (some certified) ≡ ok (some h))
    × ((tree : HashTree)
        → lookup_subtree tree (
            path_prefix
            ∷ entry_to_tree_path
                (record { path = exact (codes "/a"); certification = answer_certification }))
          ≡ SubtreeLookupResult.found (HashTree.leaf [])
        → validate_hashes
            (toy_sha.hash expression)
            (some h)
            (Pair.response_hash toy_gateway answer (filter_response_headers answer every_header))
            (to_expr_path (exact (codes "/a")))
            tree
            (CelExpression.full certified every_header)
          ≡ ok tt)
certify_full-validate_hashes_example =
    certify_full-validate_hashes toy_gateway certified every_header ask answer none
      answer_certification (exact (codes "/a")) tt certified_answer

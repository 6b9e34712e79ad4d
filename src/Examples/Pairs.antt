-- ===== src/Examples/Pairs.antt =====
-- Examples of the theorems on a request and a response.
use response_verification.Common.{
  ℕ, ◌≡◌, refl, if◌then◌else◌, Option, none, some, List, [], ◌∷◌, ◌↔◌, In,
}
use response_verification.Common.Bytes.{Bytes, codes, compare_bytes, bytes_eq}
use response_verification.Common.Results.{ok}
use response_verification.HashTree.{
  HashTree, labeled, leaf, domain_sep, digest, lookup_label, lookup_path, lookup_subtree,
}
use response_verification.Certificate.{
  der_prefix, extract_der, verify_certificate_time, check_window, verify_certificate_signature,
  verify,
}
use response_verification.Wildcard.{
  last, pop, starts_with, is_wildcard_path_valid_for_request_path, strip_path_affixes, continues,
  next_path, wildcards, responding_for, more_specific_wildcards_for,
}
use response_verification.Response.ExprPath.{
  path_might_exist_in_tree, path_exists_in_tree, expr_path_has_valid_suffix,
  expr_path_has_valid_prefix, request_url_path, path_eq, none_might_exist, validate_wildcard,
  validate_expr_path,
}
use response_verification.Response.Hashes.{
  skip, response_only, validate_tree, validate_expr_hash, validate_hashes,
}
use response_verification.Response.Headers.{
  HttpResponse, ResponseCertification, certificate_header_name, certificate_expression_header_name,
  to_ascii_lowercase, any_eq_ignore_ascii_case, kept_header, kept_headers, certificate_of,
  filter_response_headers,
}
use response_verification.Response.Headers.Filter.{ComesFrom, filter_response_headers-IsKept}
use response_verification.Response.CertificateHeader.First.{IsRead, certificate_header-IsRead}
use response_verification.Certification.{HttpRequest}
use response_verification.Certification.ResponseHash
use response_verification.RepresentationHash
use response_verification.Cel.{map_cel_ast, validate_function, validate_object, get_field}
use response_verification.Cel.RoundTrip.{expression_ast}
use response_verification.Examples.Hashes.{toy_library}
use response_verification.Response.Gateway.{Gateway, cel_to_certification}
use response_verification.Response.CertificateHeader.{
  CertificateHeader, set_field, read_fields, certificate_header,
}
use response_verification.Response.Pair.{
  VerificationInfo, header_value, response_hash, verify_hashes, v2_verification, verify_v2,
  verify_request_response_pair,
}
use response_verification.Response.Pair.Accepted.{IsVerified, v2_verification-IsVerified}
use response_verification.Response.Pair.Versions.{
  IsSupported, verify_request_response_pair-IsSupported,
}
use response_verification.Examples.{toy_sha}
use response_verification.Examples.Certificates.{toy_platform, der_key, certificate_of_data}
use response_verification.Examples.Responses.{expr_path, expr_hash, request_path, pruned_tree}

-- A response with its expression `9` and a certificate header of four fields.
abbrev header_text : Bytes
header_text = 1 ∷ 2 ∷ 3 ∷ 4 ∷ []

abbrev response : HttpResponse
response = record {
  status_code = 200;
  headers =
      (certificate_header_name, header_text)
      ∷ (certificate_expression_header_name, 9 ∷ [])
      ∷ (codes "Host", codes "x")
      ∷ [];
  body = codes "hello";
}

abbrev toy_field : Bytes → Option (Bytes × Bytes)
toy_field text =
    if bytes_eq text (1 ∷ [])
    then some (codes "certificate", text)
    else if bytes_eq text (2 ∷ [])
    then some (codes "tree", text)
    else if bytes_eq text (3 ∷ [])
    then some (codes "version", 2 ∷ [])
    else some (codes "expr_path", text)

abbrev one_byte : Bytes → Option ℕ
one_byte [] = none
one_byte (n ∷ b) = some n

abbrev singletons : Bytes → List Bytes
singletons [] = []
singletons (x ∷ xs) = (x ∷ []) ∷ singletons xs

abbrev request : HttpRequest
request = record { method = codes "GET"; url = request_path; headers = []; body = [] }

-- Fields are bytes, no decompression fails, and the expression asks for nothing.
abbrev pub toy_gateway : Gateway
toy_gateway = record {
  platform = record toy_platform {
    parse_certificate = λ b. some (certificate_of_data (digest pruned_tree));
  };
  library = record toy_library { to_lowercase = to_ascii_lowercase };
  get_path = λ request. some request.url;
  split_fields = singletons;
  header_field = toy_field;
  decode_base64 = λ b. some b;
  parse_u8 = one_byte;
  parse_tree = λ b. some pruned_tree;
  parse_strings = λ b. some expr_path;
  gunzip = λ b. some b;
  inflate = λ b. some b;
  parse_cel = λ b. some (expression_ast skip);
  display_cel = λ cel. [];
}

abbrev skipped : VerificationInfo
skipped = record { response = none; verification_version = 2 }

pair_run :
    verify_request_response_pair toy_gateway request response (1 ∷ []) 6 1 der_key 2 ≡ ok skipped
unfolding verify_request_response_pair verify_v2 cel_to_certification map_cel_ast validate_function
    validate_object get_field v2_verification certificate_header read_fields set_field header_value
    validate_tree validate_expr_hash verify verify_certificate_time check_window
    verify_certificate_signature extract_der der_prefix lookup_path digest domain_sep
    to_ascii_lowercase validate_expr_path validate_wildcard none_might_exist path_eq
    request_url_path expr_path_has_valid_prefix expr_path_has_valid_suffix path_exists_in_tree
    path_might_exist_in_tree lookup_subtree lookup_label compare_bytes more_specific_wildcards_for
    responding_for wildcards next_path continues strip_path_affixes
    is_wildcard_path_valid_for_request_path starts_with pop last
pair_run = refl

verify_request_response_pair-IsSupported_example : IsSupported toy_gateway response 2 skipped
verify_request_response_pair-IsSupported_example =
    verify_request_response_pair-IsSupported toy_gateway request response (1 ∷ []) 6 1 der_key 2
      skipped pair_run

abbrev hosts : ResponseCertification
hosts = ResponseCertification.certified_response_headers (codes "host" ∷ [])

filter_response_headers-IsKept_example :
    In (codes "host", codes "x") ((filter_response_headers response hosts).headers)
    ↔ ComesFrom hosts (response.headers) (codes "host", codes "x")
filter_response_headers-IsKept_example =
    filter_response_headers-IsKept response hosts (codes "host", codes "x")

-- A tree that certifies the response with its header `Host`.
abbrev covering_tree : HashTree
covering_tree = labeled (codes "http_expr") (
    labeled (codes "<*>") (
      labeled expr_hash (
        labeled [] (
          labeled (response_hash toy_gateway response (filter_response_headers response hosts))
            (leaf [])))))

abbrev shown : VerificationInfo
shown = record {
  response = some (record {
    status_code = some 200;
    headers =
        (codes "ic-certificateexpression", 9 ∷ [])
        ∷ (codes "host", codes "x")
        ∷ (certificate_header_name, header_text)
        ∷ [];
    body = codes "hello";
  });
  verification_version = 2;
}

v2_run :
    v2_verification toy_gateway request response
      (1 ∷ [])
      6
      1
      covering_tree
      (certificate_of_data (digest covering_tree))
      expr_path
      expr_hash
      (response_only hosts)
      der_key
    ≡ ok shown
unfolding ResponseHash.response_headers_hash RepresentationHash.representation_independent_hash
    RepresentationHash.concat_pairs RepresentationHash.sort_unstable RepresentationHash.insert_pair
    RepresentationHash.compare_pair RepresentationHash.hash_entry RepresentationHash.hash_value
    v2_verification verify_hashes filter_response_headers kept_headers kept_header certificate_of
    any_eq_ignore_ascii_case to_ascii_lowercase validate_hashes validate_tree validate_expr_hash
    verify verify_certificate_time check_window verify_certificate_signature extract_der der_prefix
    lookup_path digest domain_sep validate_expr_path validate_wildcard none_might_exist path_eq
    request_url_path expr_path_has_valid_prefix expr_path_has_valid_suffix path_exists_in_tree
    path_might_exist_in_tree lookup_subtree lookup_label compare_bytes more_specific_wildcards_for
    responding_for wildcards next_path continues strip_path_affixes
    is_wildcard_path_valid_for_request_path starts_with pop last
v2_run = refl

v2_verification-IsVerified_example :
    IsVerified toy_gateway request response
      (1 ∷ [])
      6
      1
      covering_tree
      (certificate_of_data (digest covering_tree))
      expr_path
      expr_hash
      (response_only hosts)
      der_key
      shown
v2_verification-IsVerified_example =
    v2_verification-IsVerified toy_gateway request response (1 ∷ []) 6 1 covering_tree
      (certificate_of_data (digest covering_tree)) expr_path expr_hash (response_only hosts) der_key
      shown v2_run

abbrev read_header : CertificateHeader
read_header = record {
  certificate = certificate_of_data (digest pruned_tree);
  tree = pruned_tree;
  version = 2;
  expr_path = some expr_path;
}

-- A second version field is ignored.
abbrev repeated_text : Bytes
repeated_text = 1 ∷ 2 ∷ 3 ∷ 4 ∷ 3 ∷ []

header_run : certificate_header toy_gateway repeated_text ≡ ok read_header
unfolding certificate_header read_fields set_field compare_bytes
header_run = refl

certificate_header-IsRead_example :
    IsRead toy_gateway (toy_gateway.split_fields repeated_text) read_header
certificate_header-IsRead_example =
    certificate_header-IsRead toy_gateway repeated_text read_header header_run

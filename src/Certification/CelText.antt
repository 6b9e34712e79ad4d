-- ===== src/Certification/CelText.antt =====
-- packages/ic-http-certification/src/cel/create_cel_expr.rs: the text of a CEL expression, which is
-- also what `to_string` gives.
use response_verification.Common.{List, [], ◌∷◌, ◌++◌}
use response_verification.Common.Bytes.{Bytes, codes}
use response_verification.Response.Hashes.{CelExpression, skip, response_only, full}
use response_verification.Response.Headers.{
  ResponseCertification, certified_response_headers, response_header_exclusions,
}
use response_verification.Certification.{RequestCertification}

-- `join(r#"",""#)` between two quotes, if there is an element.
unfoldable pub join_quoted : List Bytes → Bytes
join_quoted [] = []
join_quoted (t ∷ []) = t
join_quoted (t ∷ u ∷ ts) = t ++ (codes "\",\"" ++ join_quoted (u ∷ ts))

abbrev pub quoted_list : List Bytes → Bytes
quoted_list [] = []
quoted_list (t ∷ ts) = codes "\"" ++ (join_quoted (t ∷ ts) ++ codes "\"")

unfoldable pub create_request_cel_expr : RequestCertification → Bytes
create_request_cel_expr certification =
    codes "request_certification:RequestCertification{certified_request_headers:["
    ++ (quoted_list certification.headers
        ++ (codes "],certified_query_parameters:["
            ++ (quoted_list certification.query_parameters ++ codes "]},")))

abbrev pub headers_field : ResponseCertification → Bytes
headers_field (certified_response_headers headers) = codes "certified_response_headers"
headers_field (response_header_exclusions headers) = codes "response_header_exclusions"

abbrev pub headers_of : ResponseCertification → List Bytes
headers_of (certified_response_headers headers) = headers
headers_of (response_header_exclusions headers) = headers

unfoldable pub create_response_cel_expr : ResponseCertification → Bytes
create_response_cel_expr certification =
    codes "response_certification:ResponseCertification{"
    ++ (headers_field certification
        ++ (codes ":ResponseHeaderList{headers:["
            ++ (quoted_list (headers_of certification) ++ codes "]}}")))

unfoldable pub create_default_cel_expr :
    CelExpression RequestCertification ResponseCertification → Bytes
create_default_cel_expr skip =
    codes "default_certification(ValidationArgs{no_certification:Empty{}})"
create_default_cel_expr (response_only response) =
    codes "default_certification(ValidationArgs{certification:Certification{"
    ++ (codes "no_request_certification:Empty{},"
        ++ (create_response_cel_expr response ++ codes "}})"))
create_default_cel_expr (full request response) =
    codes "default_certification(ValidationArgs{certification:Certification{"
    ++ (create_request_cel_expr request ++ (create_response_cel_expr response ++ codes "}})"))

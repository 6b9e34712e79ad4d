-- ===== src/Certification/ExpressionHeader.antt =====
-- `validate_response`: which expression headers a response must have.
use response_verification.Common.{◌≡◌, refl, true, false, if◌then◌else◌, List, [], ◌∷◌, arith}
use response_verification.Common.Bytes.{Bytes, bytes_eq}
use response_verification.Common.Results.{ok, err}
use response_verification.Response.Headers.{Header, HttpResponse}
use response_verification.Certification.{
  Library, HttpCertificationResult, certificate_expression_header_mismatch,
  certificate_expression_header_missing, multiple_certificate_expression_headers,
}
use response_verification.Certification.HttpCertification.{
  is_expression_header, validate_headers, validate_response,
}

-- The values of the expression headers.
unfoldable pub expression_values : Library → List Header → List Bytes
expression_values library [] = []
expression_values library ((name, value) ∷ hs) =
    let rest = expression_values library hs in
    if is_expression_header library name then value ∷ rest else rest

-- Of one value it must be the expression; of more the first two decide what is wrong.
unfoldable pub judge : Bytes → List Bytes → HttpCertificationResult (Unit {0})
judge cel_expr [] = err (certificate_expression_header_missing cel_expr)
judge cel_expr (v ∷ []) =
    if bytes_eq v cel_expr then ok tt else err (certificate_expression_header_mismatch cel_expr v)
judge cel_expr (v ∷ w ∷ vs) =
    if bytes_eq v cel_expr
    then (if bytes_eq w cel_expr
        then err (multiple_certificate_expression_headers cel_expr)
        else err (certificate_expression_header_mismatch cel_expr w))
    else err (certificate_expression_header_mismatch cel_expr v)

module _ (library : Library) (cel_expr : Bytes) where
  judge_next : List Bytes → HttpCertificationResult (Unit {0})
  judge_next [] = ok tt
  judge_next (v ∷ vs) =
      if bytes_eq v cel_expr
      then err (multiple_certificate_expression_headers cel_expr)
      else err (certificate_expression_header_mismatch cel_expr v)

  next_header :
      (hs : List Header)
      → validate_headers library cel_expr true hs ≡ judge_next (expression_values library hs)
  unfolding validate_headers expression_values judge_next
  next_header [] = refl
  next_header ((name, value) ∷ hs) = ground (arith, next_header hs)

  judge-cons :
      (v : Bytes) (vs : List Bytes)
      → judge cel_expr (v ∷ vs) ≡ (
          if bytes_eq v cel_expr
          then judge_next vs
          else err (certificate_expression_header_mismatch cel_expr v))
  unfolding judge judge_next
  judge-cons v [] = refl
  judge-cons v (w ∷ vs) = refl

  first_header :
      (hs : List Header)
      → validate_headers library cel_expr false hs ≡ judge cel_expr (expression_values library hs)
  unfolding validate_headers expression_values
  first_header [] = unfold judge in refl
  first_header ((name, value) ∷ hs) =
      ground
        (arith, first_header hs, next_header hs, judge-cons value (expression_values library hs))

  -- The check of a response succeeds for exactly one expression header, whose value is the expression;
  -- each other case has its error, and only the first two expression headers count.
  pub validate_response_lem :
      (response : HttpResponse)
      → validate_response library response cel_expr
        ≡ judge cel_expr (expression_values library response.headers)
  unfolding validate_response
  validate_response_lem response = first_header response.headers

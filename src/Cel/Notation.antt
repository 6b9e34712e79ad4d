-- ===== src/Cel/Notation.antt =====
-- create_cel_expr.rs: the text of an expression is the notation of its syntax tree.
use response_verification.Common.{◌≡◌, refl, ap, sym, ◌∙◌, List, [], ◌∷◌, ◌++◌}
use mathlib.Core.List.{append_assoc}
use response_verification.Common.Bytes.{Bytes, codes}
use response_verification.Response.Hashes.{CelExpression}
use response_verification.Response.Headers.{
  ResponseCertification, certified_response_headers, response_header_exclusions,
}
use response_verification.Certification.{RequestCertification}
use response_verification.Certification.CelText.{
  join_quoted, quoted_list, create_request_cel_expr, create_response_cel_expr,
  create_default_cel_expr,
}
use response_verification.Cel.{
  CelValue, string, array, object, function, CelValues, no_values, value, Fields, no_fields, field,
}
use response_verification.Cel.RoundTrip.{string_values, expression_ast}

-- The notation of CEL without spaces: strings in quotes, lists in brackets, objects and calls after
-- their names, everything separated by commas.
unfoldable mutual
  pub notation : CelValue → Bytes
  notation (string text) = codes "\"" ++ (text ++ codes "\"")
  notation (array vs) = codes "[" ++ (values_notation vs ++ codes "]")
  notation (object name fs) = name ++ (codes "{" ++ (fields_notation fs ++ codes "}"))
  notation (function name vs) = name ++ (codes "(" ++ (values_notation vs ++ codes ")"))

  pub values_notation : CelValues → Bytes
  values_notation no_values = []
  values_notation (value v rest) = notation v ++ more_values rest

  pub more_values : CelValues → Bytes
  more_values no_values = []
  more_values (value v rest) = codes "," ++ (notation v ++ more_values rest)

  pub fields_notation : Fields → Bytes
  fields_notation no_fields = []
  fields_notation (field name v rest) = name ++ (codes ":" ++ (notation v ++ more_fields rest))

  pub more_fields : Fields → Bytes
  more_fields no_fields = []
  more_fields (field name v rest) =
      codes "," ++ (name ++ (codes ":" ++ (notation v ++ more_fields rest)))

strings_notation :
    (t : Bytes) (ts : List Bytes) → values_notation (string_values (t ∷ ts)) ≡ quoted_list (t ∷ ts)
unfolding notation join_quoted
strings_notation t [] = simp (append_assoc)
strings_notation t (u ∷ ts) =
    let rest = values_notation (string_values (u ∷ ts)) in
    ap (λ z. codes "\"" ++ z) (append_assoc t (codes "\"") (codes "," ++ rest))
    ∙ ap (λ z. codes "\"" ++ (t ++ (codes "\"," ++ z))) (strings_notation u ts)
    ∙ sym (
        ap (λ z. codes "\"" ++ z)
          (append_assoc t (codes "\",\"" ++ join_quoted (u ∷ ts)) (codes "\"")))

strings-quoted_list : (ts : List Bytes) → values_notation (string_values ts) ≡ quoted_list ts
unfolding notation
strings-quoted_list [] = refl
strings-quoted_list (t ∷ ts) = strings_notation t ts

pub notation-expression_ast :
    (expression : CelExpression RequestCertification ResponseCertification)
    → notation (expression_ast expression) ≡ create_default_cel_expr expression
unfolding notation create_default_cel_expr create_request_cel_expr create_response_cel_expr
notation-expression_ast CelExpression.skip = refl
notation-expression_ast (CelExpression.response_only (certified_response_headers ts)) =
    simp (strings-quoted_list, append_assoc)
notation-expression_ast (CelExpression.response_only (response_header_exclusions ts)) =
    simp (strings-quoted_list, append_assoc)
notation-expression_ast (CelExpression.full q (certified_response_headers ts)) =
    simp (strings-quoted_list, append_assoc)
notation-expression_ast (CelExpression.full q (response_header_exclusions ts)) =
    simp (strings-quoted_list, append_assoc)

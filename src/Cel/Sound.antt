-- ===== src/Cel/Sound.antt =====
-- ast_mapping.rs: a syntax tree that is read without an error describes the certification.
use response_verification.Common.{
  ◌≡◌, refl, sym, ◌∙◌, ap, subst, Option, none, some, List, inl, inr,
}
use response_verification.Common.Bytes.{Bytes, codes}
use response_verification.Common.Results.{ok, ok_of_bind, ok_inj}
use response_verification.Response.Hashes.{CelExpression}
use response_verification.Response.Headers.{ResponseCertification}
use response_verification.Certification.{RequestCertification}
use response_verification.Cel.{
  CelValue, array, object, function, CelValues, no_values, value, Fields, get_field,
  validate_object, validate_function, validate_string_array, property, request_certification_of,
  request_properties, validate_request_certification, listed, headers_in, response_properties,
  response_certification_of, validate_response_certification, certification_of, expression_of,
  first_argument, argument_properties, map_cel_ast,
}
use response_verification.Cel.RoundTrip.{string_values}
use response_verification.Cel.Describes.{
  Lists, IsRequest, IsResponse, IsCertification, says_skip, says_response_only, says_full,
  Describes,
}
use response_verification.Cel.Nodes.{
  validate_object-ok, validate_function-ok, validate_string_array-ok, property-ok,
}

module _ (to_string : CelValue → Bytes) where
  request_certification_of-ok :
      (cel : CelValue) (request : RequestCertification)
      → request_certification_of to_string cel ≡ ok request
      → IsRequest cel request
  unfolding request_certification_of
  request_certification_of-ok cel request e =
      let (fs, e1, f1) = ok_of_bind (validate_object to_string cel _) _ request e in
      let (h, e2, f2) = ok_of_bind (property _ _ fs) _ request f1 in
      let (hs, e3, f3) = ok_of_bind (validate_string_array to_string h _) _ request f2 in
      let (q, e4, f4) = ok_of_bind (property _ _ fs) _ request f3 in
      let (qs, e5, f5) = ok_of_bind (validate_string_array to_string q _) _ request f4 in
      record {
        properties = fs;
        is_object = validate_object-ok to_string cel _ fs e1;
        headers =
            property-ok to_string _ _ fs h e2
            ∙ ap some (validate_string_array-ok to_string h _ hs e3)
            ∙ ap (λ r. some (array (string_values r.headers))) (ok_inj f5);
        parameters =
            property-ok to_string _ _ fs q e4
            ∙ ap some (validate_string_array-ok to_string q _ qs e5)
            ∙ ap (λ r. some (array (string_values r.query_parameters))) (ok_inj f5);
      }

  listed-ok :
      (name : Bytes) (fs : Fields) (o : Option CelValue) (r : Option (List Bytes))
      → get_field fs (codes "headers") ≡ o
      → listed to_string name o ≡ ok r
      → Lists (some (object (codes "ResponseHeaderList") fs)) r
  listed-ok name fs none none f e = inr (fs, refl, f)
  listed-ok name fs none (some ts) f e = cc e
  listed-ok name fs (some cel) r f e =
      let (ts, found, same) = ok_of_bind (validate_string_array to_string cel name) _ r e in
      subst (λ z. Lists (some (object (codes "ResponseHeaderList") fs)) z) (ok_inj same)
        (fs, refl, f ∙ ap some (validate_string_array-ok to_string cel name ts found))

  headers_in-ok :
      (name : Bytes) (o : Option CelValue) (r : Option (List Bytes))
      → headers_in to_string name o ≡ ok r
      → Lists o r
  unfolding headers_in
  headers_in-ok name none none e = inl refl
  headers_in-ok name none (some ts) e = cc e
  headers_in-ok name (some cel) r e =
      let (fs, e1, f1) = ok_of_bind (validate_object to_string cel _) _ r e in
      subst (λ c. Lists (some c) r) (sym (validate_object-ok to_string cel _ fs e1))
        (listed-ok name fs (get_field fs (codes "headers")) r refl f1)

  response_certification_of-ok :
      (cel : CelValue) (response : ResponseCertification)
      → response_certification_of to_string cel ≡ ok response
      → IsResponse cel response
  unfolding response_certification_of
  response_certification_of-ok cel response e =
      let (fs, e1, f1) = ok_of_bind (validate_object to_string cel _) _ response e in
      let (a, e2, f2) = ok_of_bind (headers_in to_string _ _) _ response f1 in
      let (b, e3, f3) = ok_of_bind (headers_in to_string _ _) _ response f2 in
      choose fs (validate_object-ok to_string cel _ fs e1) a b response (headers_in-ok _ _ a e2)
        (headers_in-ok _ _ b e3) f3
    where
      choose :
          (fs : Fields)
          → cel ≡ object (codes "ResponseCertification") fs
          → (a b : Option (List Bytes)) (r : ResponseCertification)
          → Lists (get_field fs (codes "certified_response_headers")) a
          → Lists (get_field fs (codes "response_header_exclusions")) b
          → response_properties a b ≡ ok r
          → IsResponse cel r
      choose fs o (some ts) (some us) r l m e = cc e
      choose fs o none none r l m e = cc e
      choose fs o (some ts) none r l m e =
          subst (λ z. IsResponse cel z) (ok_inj e)
            (record { properties = fs; is_object = o; listed = l; alone = m })
      choose fs o none (some us) r l m e =
          subst (λ z. IsResponse cel z) (ok_inj e)
            (record { properties = fs; is_object = o; listed = m; alone = l })

  certification_of-ok :
      (fs : Fields) (cel : CelValue)
      (expression : CelExpression RequestCertification ResponseCertification)
      → get_field fs (codes "no_certification") ≡ none
      → get_field fs (codes "certification") ≡ some cel
      → certification_of to_string cel ≡ ok expression
      → IsCertification fs expression
  unfolding certification_of validate_request_certification validate_response_certification
  certification_of-ok fs cel expression n c e =
      let (ps, e1, f1) = ok_of_bind (validate_object to_string cel _) _ expression e in
      let (request, e2, f2) = ok_of_bind (request_properties to_string _ _) _ expression f1 in
      let (response, e3, f3) =
        ok_of_bind (validate_response_certification to_string ps) _ expression f2 in
      let (v, e4, f4) = ok_of_bind (property _ _ ps) _ response e3 in
      subst (IsCertification fs) (ok_inj f3) (
        says ps v request response (c ∙ ap some (validate_object-ok to_string cel _ ps e1)) _ _ refl
          refl e2 (property-ok to_string _ _ ps v e4) (response_certification_of-ok v response f4))
    where
      says :
          (ps : Fields) (v : CelValue) (request : Option RequestCertification)
          (response : ResponseCertification)
          → get_field fs (codes "certification") ≡ some (object (codes "Certification") ps)
          → (a b : Option CelValue) → get_field ps (codes "no_request_certification") ≡ a
          → get_field ps (codes "request_certification") ≡ b
          → request_properties to_string a b ≡ ok request
          → get_field ps (codes "response_certification") ≡ some v
          → IsResponse v response
          → IsCertification fs (expression_of request response)
      says ps v request response o (some a) (some b) f g e there r = cc e
      says ps v request response o none none f g e there r = cc e
      says ps v request response o (some a) none f g e there r =
          subst (λ z. IsCertification fs (expression_of z response)) (ok_inj e)
            (says_response_only n o f g there r)
      says ps v request response o none (some b) f g e there r =
          let (q, found, same) = ok_of_bind (request_certification_of to_string b) _ request e in
          subst (λ z. IsCertification fs (expression_of z response)) (ok_inj same)
            (says_full n o f g there (request_certification_of-ok b q found) r)

  argument_properties-ok :
      (fs : Fields) (expression : CelExpression RequestCertification ResponseCertification)
      (a b : Option CelValue)
      → get_field fs (codes "no_certification") ≡ a
      → get_field fs (codes "certification") ≡ b
      → argument_properties to_string a b ≡ ok expression
      → IsCertification fs expression
  argument_properties-ok fs x (some a) (some b) f g e = cc e
  argument_properties-ok fs x none none f g e = cc e
  argument_properties-ok fs x (some a) none f g e =
      subst (IsCertification fs) (ok_inj e) (says_skip f g)
  argument_properties-ok fs x none (some b) f g e = certification_of-ok fs b x f g e

  first_argument-ok :
      (vs : CelValues) (v : CelValue)
      → first_argument vs ≡ ok v
      → (more : CelValues) × (vs ≡ value v more)
  first_argument-ok no_values v e = cc e
  first_argument-ok (value w more) v e = (more, ap (λ z. value z more) (ok_inj e))

  pub map_cel_ast-ok :
      (cel : CelValue) (expression : CelExpression RequestCertification ResponseCertification)
      → map_cel_ast to_string cel ≡ ok expression
      → Describes cel expression
  unfolding map_cel_ast
  map_cel_ast-ok cel expression e =
      let (vs, e1, f1) = ok_of_bind (validate_function to_string cel _) _ expression e in
      let (v, e2, f2) = ok_of_bind (first_argument vs) _ expression f1 in
      let (fs, e3, f3) = ok_of_bind (validate_object to_string v _) _ expression f2 in
      let (more, same) = first_argument-ok vs v e2 in
      record {
        fields = fs;
        more = more;
        is_call =
            validate_function-ok to_string cel _ vs e1
            ∙ ap (function (codes "default_certification"))
                (same ∙ ap (λ z. value z more) (validate_object-ok to_string v _ fs e3));
        says = argument_properties-ok fs expression _ _ refl refl f3;
      }

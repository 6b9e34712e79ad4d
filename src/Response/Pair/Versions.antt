-- ===== src/Response/Pair/Versions.antt =====
-- verify_request_response_pair.rs: no response passes by a version lower than the one asked for, or
-- one that is not supported.
use response_verification.Common.{
  ℕ, ◌≤◌, ◌≡◌, refl, sym, ◌∙◌, ◌==◌, ltb, Option, none, some, ◌⊎◌, inl, inr, arith, Bool-cases,
}
use response_verification.Common.Bytes.{Bytes}
use response_verification.Common.Results.{
  Result, ok, err, ◌>>=◌, ok_or_err, ok_or_err-IfOk, IfOk, IfOk-ok, IfOk-imp, IfOk-self, IfOk-bind,
}
use response_verification.Common.Sha.{Sha256}
use response_verification.HashTree.{HashTree}
use response_verification.Certificate.{Certificate, verify}
use response_verification.Wildcard.{Segments}
use response_verification.Response.{ResponseError}
use response_verification.Response.ExprPath.{validate_expr_path}
use response_verification.Response.Hashes.{
  CelExpression, skip, response_only, full, validate_tree, validate_expr_hash, validate_hashes,
}
use response_verification.Response.Headers.{
  HttpResponse, ResponseCertification, certificate_header_name, certificate_expression_header_name,
  filter_response_headers,
}
use response_verification.Response.Gateway.{Gateway, cel_to_certification}
use response_verification.Certification.{HttpRequest, RequestCertification}
use response_verification.Response.CertificateHeader.{CertificateHeader, certificate_header}
use response_verification.Response.Pair.{
  VerificationInfo, from_certificate, header_value, hash_of_request, response_hash, verify_hashes,
  verify_certified, v1_verification, v2_verification, verify_v2, verify_request_response_pair,
  decode_body, body_is_valid,
}

-- Whatever the result of a step, the chain has a property that all its ends have.
after :
    {E A B : Type 0} (Q : B → Type 0) (m : Result E A) (f : A → Result E B)
    → ((a : A) → IfOk Q (f a))
    → IfOk Q (m >>= f)
after Q (ok a) f h = h a
after Q (err e) f h = tt

module _ (gateway : Gateway) ⦃sha : Sha256⦄ where
  abbrev IsVersion : ℕ → VerificationInfo → Type 0
  IsVersion n info = info.verification_version ≡ n

  v1_verification-IsVersion :
      (request : HttpRequest) (response : HttpResponse) (canister_id : Bytes) (now offset : ℕ)
      (tree : HashTree) (certificate : Certificate) (encoding : Option Bytes) (key : Bytes)
      → IfOk (IsVersion 1) (
          v1_verification gateway request response canister_id now offset tree certificate encoding
            key)
  unfolding v1_verification
  v1_verification-IsVersion request response canister_id now offset tree certificate encoding key =
      after (IsVersion 1)
        (from_certificate (verify gateway.platform certificate canister_id key now offset)) _
        λ _.
          after (IsVersion 1) (ok_or_err ResponseError.decoding_failed (gateway.get_path request)) _
            λ path. after (IsVersion 1) (decode_body gateway response.body encoding) _ λ decoded.
              after (IsVersion 1) (validate_tree canister_id certificate tree) _ λ _.
                elim (Bool-cases (body_is_valid gateway tree path response.body decoded encoding)) [
                  | inl e ↦ rw (e) refl
                  | inr e ↦ rw (e) tt
                ]

  verify_hashes-IsVersion :
      (request : HttpRequest) (response : HttpResponse) (tree : HashTree) (expr_path : Segments)
      (expr_hash : Bytes) (c : CelExpression RequestCertification ResponseCertification)
      (asked : Option RequestCertification) (r : ResponseCertification)
      → IfOk
          (IsVersion 2)
          (verify_hashes gateway request response tree expr_path expr_hash c asked r)
  unfolding verify_hashes
  verify_hashes-IsVersion request response tree expr_path expr_hash c asked r =
      after (IsVersion 2) (hash_of_request gateway request asked) _ λ h.
        after (IsVersion 2)
          (validate_hashes expr_hash h
            (response_hash gateway response (filter_response_headers response r)) expr_path tree c)
          _
          λ _.
            after (IsVersion 2)
              (ok_or_err ResponseError.header_missing_certification
                ((filter_response_headers response r).certificate))
              _ λ _. refl

  verify_certified-IsVersion :
      (request : HttpRequest) (response : HttpResponse) (tree : HashTree) (expr_path : Segments)
      (expr_hash : Bytes) (c : CelExpression RequestCertification ResponseCertification)
      → IfOk (IsVersion 2) (verify_certified gateway request response tree expr_path expr_hash c)
  verify_certified-IsVersion request response tree expr_path expr_hash skip =
      after (IsVersion 2) (validate_expr_hash expr_path expr_hash tree) _ λ _. refl
  verify_certified-IsVersion request response tree expr_path expr_hash (response_only r) =
      verify_hashes-IsVersion request response tree expr_path expr_hash (response_only r) none r
  verify_certified-IsVersion request response tree expr_path expr_hash (full q r) =
      verify_hashes-IsVersion request response tree expr_path expr_hash (full q r) (some q) r

  verify_v2-IsVersion :
      (request : HttpRequest) (response : HttpResponse) (canister_id : Bytes) (now offset : ℕ)
      (key : Bytes) (header : CertificateHeader)
      → IfOk (IsVersion 2) (verify_v2 gateway request response canister_id now offset key header)
  unfolding verify_v2 v2_verification
  verify_v2-IsVersion request response canister_id now offset key header =
      after (IsVersion 2)
        (ok_or_err ResponseError.header_missing_certification (
          header_value gateway response.headers
            (gateway.library.to_lowercase certificate_expression_header_name)))
        _
        λ expression.
          after (IsVersion 2)
            (ok_or_err ResponseError.header_missing_certificate_expression_path header.expr_path) _
            λ expr_path.
              after (IsVersion 2)
                (ok_or_err ResponseError.decoding_failed (cel_to_certification gateway expression))
                _
                λ c.
                  after (IsVersion 2)
                    (ok_or_err ResponseError.decoding_failed (gateway.get_path request)) _
                    λ path.
                      after (IsVersion 2)
                        (from_certificate
                          (verify gateway.platform header.certificate canister_id key now offset))
                        _
                        λ _.
                          after (IsVersion 2)
                            (validate_tree canister_id header.certificate header.tree) _
                            λ _.
                              after (IsVersion 2) (validate_expr_path expr_path path header.tree) _
                                λ _.
                                  verify_certified-IsVersion request response header.tree expr_path
                                    (sha.hash expression) c

  -- The response's certificate header states the version of the answer, which is at least the one
  -- asked for, and is 1 or 2.
  abbrev pub IsSupported : HttpResponse → ℕ → VerificationInfo → Type 0
  IsSupported response min_version info =
      (text : Bytes) × (header : CertificateHeader) × (header_value gateway response.headers
          (gateway.library.to_lowercase certificate_header_name)
        ≡ some text)
      × (certificate_header gateway text ≡ ok header)
      × (info.verification_version ≡ header.version)
      × (min_version ≤ header.version)
      × ((header.version ≡ 1) ⊎ (header.version ≡ 2))

  -- If a request and a response are accepted, then the response's certificate header parses, the
  -- answer's version is the one in it, it is not lower than the version asked for, and it is 1 or 2.
  pub verify_request_response_pair-IsSupported :
      (request : HttpRequest) (response : HttpResponse) (canister_id : Bytes) (now offset : ℕ)
      (key : Bytes) (min_version : ℕ) (info : VerificationInfo)
      → verify_request_response_pair gateway request response canister_id now offset key min_version
        ≡ ok info
      → IsSupported response min_version info
  unfolding verify_request_response_pair
  verify_request_response_pair-IsSupported request response canister_id now offset key min_version
        info e =
      IfOk-ok Q _ info e (
        IfOk-bind _ Q
          (ok_or_err ResponseError.header_missing_certification (
            header_value gateway response.headers
              (gateway.library.to_lowercase certificate_header_name)))
          _ (ok_or_err-IfOk _ _)
          λ text f. IfOk-bind _ Q (certificate_header gateway text) _ (IfOk-self _) λ header g.
            elim (Bool-cases (ltb header.version min_version)) [
              | inl a ↦ rw (a) tt
              | inr a ↦ elim (Bool-cases (header.version == 1)) [
                | inl b ↦
                    rw (a, b)
                      (IfOk-imp _ Q _
                        (v1_verification-IsVersion request response canister_id now offset
                          header.tree header.certificate _ key)
                        λ i v. (
                          text,
                          header,
                          f,
                          g,
                          v ∙ sym (ground arith),
                          ground arith,
                          inl (ground arith),
                        ))
                | inr b ↦ elim (Bool-cases (header.version == 2)) [
                  | inl c ↦
                      rw (a, b, c)
                        (IfOk-imp _ Q _
                          (verify_v2-IsVersion request response canister_id now offset key header)
                          λ i v. (
                            text,
                            header,
                            f,
                            g,
                            v ∙ sym (ground arith),
                            ground arith,
                            inr (ground arith),
                          ))
                  | inr c ↦ rw (a, b, c) tt
                ]
              ]
            ])
    where
      Q : VerificationInfo → Type 0
      Q i = IsSupported response min_version i

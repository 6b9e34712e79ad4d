-- ===== src/Response/Pair/Accepted.antt =====
-- verify_request_response_pair.rs: what holds of a request and a response that are accepted.
use response_verification.Common.{ℕ, ◌≡◌, refl, subst, Option, none, some, [], ◌∷◌, ◌++◌}
use response_verification.Common.Bytes.{Bytes}
use response_verification.Common.Results.{
  Result, ok, err, ok_or_err, ok_or_err-IfOk, IfOk, IfOk-ok, IfOk-imp, IfOk-self, IfOk-bind,
}
use response_verification.Common.Sha.{Sha256}
use response_verification.HashTree.{
  HashTree, digest, LookupResult, lookup_path, SubtreeLookupResult, lookup_subtree,
}
use response_verification.Certificate.{Certificate, CertificateError, verify}
use response_verification.Certificate.Accepted.{IsAccepted, verify-IsAccepted}
use response_verification.Wildcard.{Segments, push}
use response_verification.Response.{ResponseError}
use response_verification.Response.ExprPath.{request_url_path, validate_expr_path}
use response_verification.Response.ExprPath.Accepted.{IsFound, IsBest, validate_expr_path-IfOk}
use response_verification.Response.Hashes.{
  CelExpression, skip, response_only, full, certified_data_path, validate_tree, validate_expr_hash,
  validate_hashes, request_label, subtree_or,
}
use response_verification.Response.Hashes.Certified.{validate_tree_lem, validate_hashes_lem}
use response_verification.Response.Headers.{
  HttpResponse, ResponseCertification, filter_response_headers,
}
use response_verification.Response.Gateway.{Gateway, hash_request}
use response_verification.Certification.{HttpRequest, RequestCertification}
use response_verification.Response.Pair.{
  VerifiedResponse, VerificationInfo, from_certificate, hash_of_request, response_hash,
  verify_hashes, verify_certified, v2_verification,
}

subtree_or-IfOk :
    (e : ResponseError) (r : SubtreeLookupResult)
    → IfOk (λ n. r ≡ SubtreeLookupResult.found n) (subtree_or e r)
subtree_or-IfOk e (SubtreeLookupResult.found n) = refl
subtree_or-IfOk e SubtreeLookupResult.absent = tt
subtree_or-IfOk e SubtreeLookupResult.unknown = tt

from_certificate-IfOk :
    {A : Type 0} (P : A → Type 0) (m : Result CertificateError A)
    → IfOk P m
    → IfOk P (from_certificate m)
from_certificate-IfOk P (ok a) h = h
from_certificate-IfOk P (err e) h = tt

module _ (gateway : Gateway) ⦃sha : Sha256⦄ where
  -- The tree has the empty leaf for the expression, the request's label and the response, and the
  -- body and the status in the answer are the response's.
  pub record Covers (response : HttpResponse) (tree : HashTree) (expr_path : Segments)
      (expr_hash label : Bytes) (r : ResponseCertification) (info : VerificationInfo) : Type 0 where
    pub has_leaf :
        lookup_subtree tree (
          push expr_path expr_hash
          ++ (label ∷ response_hash gateway response (filter_response_headers response r) ∷ []))
        ≡ SubtreeLookupResult.found (HashTree.leaf [])
    pub shown : VerifiedResponse
    pub answered : info.response ≡ some shown
    pub same_body : shown.body ≡ response.body
    pub same_status : shown.status_code ≡ some (response.status_code)

  verify_hashes-IfOk :
      (request : HttpRequest) (response : HttpResponse) (tree : HashTree) (expr_path : Segments)
      (expr_hash : Bytes) (c : CelExpression RequestCertification ResponseCertification)
      (asked : Option RequestCertification) (r : ResponseCertification)
      → IfOk
          (λ info.
            (h : Option Bytes) × (hash_of_request gateway request asked ≡ ok h)
            × Covers response tree expr_path expr_hash (request_label c h) r info)
          (verify_hashes gateway request response tree expr_path expr_hash c asked r)
  unfolding verify_hashes
  verify_hashes-IfOk request response tree expr_path expr_hash c asked r =
      let Q : VerificationInfo → Type 0 = λ info.
        (h : Option Bytes) × (hash_of_request gateway request asked ≡ ok h)
        × Covers response tree expr_path expr_hash (request_label c h) r info in
      let headers = filter_response_headers response r in
      IfOk-bind _ Q (hash_of_request gateway request asked) _ (IfOk-self _) λ h e.
        IfOk-bind _ Q
          (validate_hashes expr_hash h (response_hash gateway response headers) expr_path tree c) _
          (IfOk-self _)
          λ _ v.
            IfOk-bind _ Q (ok_or_err ResponseError.header_missing_certification headers.certificate)
              _ (ok_or_err-IfOk _ _)
              λ value _. (
                h,
                e,
                record {
                  has_leaf = (validate_hashes_lem expr_hash h _ expr_path tree c).0 v;
                  shown = _;
                  answered = refl;
                  same_body = refl;
                  same_status = refl;
                },
              )

  -- What the tree certifies of the response, by the kind of certification: nothing but the
  -- expression; the response; or the request and the response.
  abbrev pub IsCertified :
      HttpRequest
      → HttpResponse
      → HashTree
      → Segments
      → Bytes
      → CelExpression RequestCertification ResponseCertification
      → VerificationInfo
      → Type 0
  IsCertified request response tree expr_path expr_hash skip info =
      IsFound tree (push expr_path expr_hash) × (info.response ≡ none)
  IsCertified request response tree expr_path expr_hash (response_only r) info =
      Covers response tree expr_path expr_hash [] r info
  IsCertified request response tree expr_path expr_hash (full q r) info =
      (h : Bytes) × (hash_request gateway request q ≡ some h)
      × Covers response tree expr_path expr_hash h r info

  hash_of_request-some :
      (request : HttpRequest) (q : RequestCertification) (o : Option Bytes)
      → hash_of_request gateway request (some q) ≡ ok o
      → (h : Bytes) × (hash_request gateway request q ≡ some h) × (o ≡ some h)
  hash_of_request-some request q o e =
      IfOk-ok (λ o. (h : Bytes) × (hash_request gateway request q ≡ some h) × (o ≡ some h))
        (hash_of_request gateway request (some q)) o e
        (IfOk-bind _ (λ o. (h : Bytes) × (hash_request gateway request q ≡ some h) × (o ≡ some h))
          (ok_or_err ResponseError.decoding_failed (hash_request gateway request q)) _
          (ok_or_err-IfOk _ _) λ h f. (h, f, refl))

  verify_certified-IfOk :
      (request : HttpRequest) (response : HttpResponse) (tree : HashTree) (expr_path : Segments)
      (expr_hash : Bytes) (c : CelExpression RequestCertification ResponseCertification)
      → IfOk
          (IsCertified request response tree expr_path expr_hash c)
          (verify_certified gateway request response tree expr_path expr_hash c)
  verify_certified-IfOk request response tree expr_path expr_hash skip =
      IfOk-bind _ (IsCertified request response tree expr_path expr_hash skip)
        (validate_expr_hash expr_path expr_hash tree) _ (found_expr_hash) λ n e. ((n, e), refl)
    where
      found_expr_hash :
          IfOk
            (λ n. lookup_subtree tree (push expr_path expr_hash) ≡ SubtreeLookupResult.found n)
            (validate_expr_hash expr_path expr_hash tree)
      found_expr_hash = unfold validate_expr_hash in subtree_or-IfOk _ _
  verify_certified-IfOk request response tree expr_path expr_hash (response_only r) =
      IfOk-imp _ (IsCertified request response tree expr_path expr_hash (response_only r))
        (verify_hashes gateway request response tree expr_path expr_hash (response_only r) none r)
        (verify_hashes-IfOk request response tree expr_path expr_hash (response_only r) none r)
        λ info (h, e, covers). covers
  verify_certified-IfOk request response tree expr_path expr_hash (full q r) =
      IfOk-imp _ (IsCertified request response tree expr_path expr_hash (full q r))
        (verify_hashes gateway request response tree expr_path expr_hash (full q r) (some q) r)
        (verify_hashes-IfOk request response tree expr_path expr_hash (full q r) (some q) r)
        λ info (o, e, covers).
          let (h, f, g) = hash_of_request-some request q o e in
          (
            h,
            f,
            subst
                (λ z. Covers response tree expr_path expr_hash (request_label (full q r) z) r info)
                g covers,
          )

  -- What the second version promises of a request and a response.
  pub record IsVerified (request : HttpRequest) (response : HttpResponse) (canister_id : Bytes)
      (now offset : ℕ) (tree : HashTree) (certificate : Certificate) (expr_path : Segments)
      (expr_hash : Bytes) (certification : CelExpression RequestCertification ResponseCertification)
      (key : Bytes) (info : VerificationInfo) : Type 0 where
    pub path : Bytes
    pub requested : gateway.get_path request ≡ some path
    pub accepted : IsAccepted gateway.platform certificate canister_id key now offset
    pub witnessed :
        lookup_path certificate.tree (certified_data_path canister_id)
        ≡ LookupResult.found (digest tree)
    pub best : IsBest tree expr_path (request_url_path path)
    pub certified : IsCertified request response tree expr_path expr_hash certification info

  v2_verification-IfOk :
      (request : HttpRequest) (response : HttpResponse) (canister_id : Bytes) (now offset : ℕ)
      (tree : HashTree) (certificate : Certificate) (expr_path : Segments) (expr_hash : Bytes)
      (certification : CelExpression RequestCertification ResponseCertification) (key : Bytes)
      → IfOk
          (IsVerified request response canister_id now offset tree certificate expr_path expr_hash
            certification key)
          (v2_verification gateway request response canister_id now offset tree certificate
            expr_path expr_hash certification key)
  unfolding v2_verification
  v2_verification-IfOk request response canister_id now offset tree certificate expr_path expr_hash
        certification key =
      let Q : VerificationInfo → Type 0 =
        IsVerified request response canister_id now offset tree certificate expr_path expr_hash
          certification key in
      let checked = verify gateway.platform certificate canister_id key now offset in
      IfOk-bind _ Q (ok_or_err ResponseError.decoding_failed (gateway.get_path request)) _
        (ok_or_err-IfOk _ _)
        λ path requested.
          IfOk-bind _ Q (from_certificate checked) _
            (from_certificate-IfOk (λ (u : Unit {0}). checked ≡ ok u) checked (IfOk-self checked))
            λ _ verified.
              IfOk-bind _ Q (validate_tree canister_id certificate tree) _ (IfOk-self _)
                λ _ witnessed.
                  IfOk-bind _ Q (validate_expr_path expr_path path tree) _
                    (validate_expr_path-IfOk expr_path path tree)
                    λ _ best.
                      IfOk-imp _ Q
                        (verify_certified gateway request response tree expr_path expr_hash
                          certification)
                        (verify_certified-IfOk request response tree expr_path expr_hash
                          certification)
                        λ info certified. record {
                          path = path;
                          requested = requested;
                          accepted =
                              (verify-IsAccepted gateway.platform certificate canister_id key now
                                  offset).0
                                verified;
                          witnessed = (validate_tree_lem canister_id certificate tree).0 witnessed;
                          best = best;
                          certified = certified;
                        }

  -- If the second version accepts a request and a response, then the certificate is accepted, its
  -- tree has the digest of the witness as the canister's certified data, the expression path is the
  -- exact one of the request's path or the best wildcard for it in the witness. Where the
  -- expression skips the certification, the witness has the expression's hash below the expression
  -- path, and the answer has no response. Otherwise the witness has the empty leaf below the
  -- expression path, the expression's hash, the request's hash (an empty label where the request is
  -- not certified), and the hash of the response with its filtered headers; and the answer shows the
  -- response's body and status.
  pub v2_verification-IsVerified :
      (request : HttpRequest) (response : HttpResponse) (canister_id : Bytes) (now offset : ℕ)
      (tree : HashTree) (certificate : Certificate) (expr_path : Segments) (expr_hash : Bytes)
      (certification : CelExpression RequestCertification ResponseCertification) (key : Bytes)
      (info : VerificationInfo)
      → v2_verification gateway request response canister_id now offset tree certificate expr_path
          expr_hash certification key
        ≡ ok info
      → IsVerified request response canister_id now offset tree certificate expr_path expr_hash
          certification key info
  v2_verification-IsVerified request response canister_id now offset tree certificate expr_path
        expr_hash certification key info e =
      IfOk-ok _ _ info e (
        v2_verification-IfOk request response canister_id now offset tree certificate expr_path
          expr_hash certification key)

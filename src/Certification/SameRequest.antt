-- ===== src/Certification/SameRequest.antt =====
-- What two requests with the same hash have in common.
use response_verification.Common.{
  ◌≡◌, ap, sym, ◌∙◌, List, map, ◌⊎◌, ◌↔◌, inl, inr, In, subst, length,
}
use response_verification.Common.Bytes.{Bytes, append-inj}
use response_verification.Common.Results.{ok, ok_of_bind, ok_inj}
use response_verification.Common.Sha.{Sha256, Collision, hash-inj}
use response_verification.RepresentationHash.{
  Value, string, Leb128, hash_value, representation_independent_hash,
}
use response_verification.RepresentationHash.Binding.{
  representation_independent_hash-inj, entry_hashed,
}
use response_verification.RepresentationHash.Unordered.{In-map, In-map_inv}
use response_verification.Response.Headers.{Header}
use response_verification.Certification.{Library, HttpRequest, RequestCertification}
use response_verification.Certification.ResponseHash.{string_entry}
use response_verification.Certification.SameResponse.{all_or, string_hashed}
use response_verification.Certification.RequestHash.{request_texts, request_hash}
use response_verification.Certification.Covered.{IsPlainRequest, SameRequest, request_texts-parts}
use response_verification.Certification.SameTexts.{same_parts}

module _ ⦃sha : Sha256⦄ (leb : Leb128) where
  text_kept :
      (g h : List Header)
      → representation_independent_hash leb (map string_entry g)
        ≡ representation_independent_hash leb (map string_entry h)
      → (a : Header) → In a g
      → In a h ⊎ Collision sha
  text_kept g h e (k, v) m = elim (representation_independent_hash-inj leb _ _ e) [
    | inr c ↦ inr c
    | inl p ↦ elim (entry_hashed leb _ _ k (string v) p (In-map string_entry (k, v) g m)) [
      | inr c ↦ inr c
      | inl (w, there_is, same) ↦
          let ((j, u), found, is) = In-map_inv string_entry (k, w) h there_is in
          elim (string_hashed leb v u (same ∙ ap (λ z. hash_value leb z.1) is)) [
            | inr c ↦ inr c
            | inl q ↦ inl (
                subst (λ z. In (z, v) h) (sym (ap (λ z. z.0) is))
                  (subst (λ z. In (j, z) h) (sym q) found))
          ]
    ]
  ]

  length-representation_independent_hash :
      (m : List (Bytes × Value)) → length (representation_independent_hash leb m) ≡ 32
  unfolding representation_independent_hash
  length-representation_independent_hash m = sha.length-hash _

module _ ⦃sha : Sha256⦄ (library : Library) where
  same_texts :
      (r q : HttpRequest) (c : RequestCertification) (x : Bytes)
      → request_hash library r c ≡ ok x
      → request_hash library q c ≡ ok x
      → ((g : List Header) × (h : List Header) × (request_texts library r c ≡ ok g)
          × (request_texts library q c ≡ ok h)
          × ((a : Header) → In a g ↔ In a h)
          × (r.body ≡ q.body))
        ⊎ Collision sha
  unfolding request_hash
  same_texts r q c x e f =
      let (g, eg, hg) = ok_of_bind (request_texts library r c) _ x e in
      let (h, eh, hh) = ok_of_bind (request_texts library q c) _ x f in
      elim (hash-inj _ _ (ok_inj (hg ∙ sym hh))) [
        | inr y ↦ inr y
        | inl parts ↦
            let texts = λ (z : List Header). map string_entry z in
            let (heads, bodies) =
              append-inj (representation_independent_hash library.leb128 (texts g))
                (sha.hash r.body) (representation_independent_hash library.leb128 (texts h))
                (sha.hash q.body)
                (length-representation_independent_hash library.leb128 (texts g)
                  ∙ sym (length-representation_independent_hash library.leb128 (texts h)))
                parts in
            elim (hash-inj _ _ bodies) [
              | inr y ↦ inr y
              | inl same_body ↦ elim (all_or g (text_kept library.leb128 g h heads)) [
                | inr y ↦ inr y
                | inl there_ ↦ elim (all_or h (text_kept library.leb128 h g (sym heads))) [
                  | inr y ↦ inr y
                  | inl back ↦ inl (g, h, eg, eh, (λ a. (there_ a, back a)), same_body)
                ]
              ]
            ]
      ]

  -- Two requests with the same hash under one certification, neither with a header named like the
  -- method or the query, have the same method, the same certified headers, the same certified
  -- fragments of their queries in the same order, and the same body, or they show a collision.
  pub request_hash-inj :
      (r q : HttpRequest) (c : RequestCertification) (x : Bytes)
      → IsPlainRequest r.headers
      → IsPlainRequest q.headers
      → request_hash library r c ≡ ok x
      → request_hash library q c ≡ ok x
      → SameRequest library c r q ⊎ Collision sha
  request_hash-inj r q c x plain_r plain_q e f = elim (same_texts r q c x e f) [
    | inr y ↦ inr y
    | inl (g, h, eg, eh, same, body) ↦
        let (a, ea, fa) = request_texts-parts library r c g eg in
        let (b, eb, fb) = request_texts-parts library q c h eh in
        inl (
          same_parts library r q c a b plain_r plain_q ea eb
            (λ z. (
              (λ m. subst (In z) (sym fb) ((same z).0 (subst (In z) fa m))),
              (λ m. subst (In z) (sym fa) ((same z).1 (subst (In z) fb m))),
            ))
            body)
  ]

-- ===== src/Certification/SameTexts.antt =====
-- hash/request_hash.rs: requests with the same texts are the same as far as a certification covers them.
use response_verification.Common.{
  ◌≡◌, refl, ap, sym, ◌∙◌, Option, none, some, here, there, List, arith, ◌⊎◌, ◌↔◌, inl, inr, In,
  In-append, In-append_left, In-append_right, subst,
}
use response_verification.Common.Bytes.{Bytes, codes}
use response_verification.Response.Headers.{Header, to_ascii_lowercase}
use response_verification.Certification.{Library, HttpRequest, RequestCertification}
use response_verification.Certification.Query.{Selects, IsCertifiedFragment, fragments_of}
use response_verification.Certification.RequestHash.{get_filtered_headers}
use response_verification.Certification.Covered.{
  IsCertifiedHeader, IsPlainRequest, SameRequest, In-get_filtered_headers, certified-In,
  certified_query, text_entry, certified_query-Selects, parts_of,
}

pseudo_names : codes ":ic-cert-method" ≡ codes ":ic-cert-query" → ⊥
pseudo_names e = ground arith

-- The names of the certified headers of a plain request.
plain_name :
    (c : RequestCertification) (hs : List Header) (k v : Bytes)
    → IsPlainRequest hs
    → In (k, v) (get_filtered_headers hs c)
    → (k ≡ codes ":ic-cert-method" → ⊥) × (k ≡ codes ":ic-cert-query" → ⊥)
plain_name c hs k v plain m =
    let (name, value, i, n, e) = In-get_filtered_headers c hs (k, v) m in
    let is_name : k ≡ to_ascii_lowercase name = ap (λ z. z.0) e in
    let no = plain name value i in ((λ f. no.0 (sym is_name ∙ f)), (λ f. no.1 (sym is_name ∙ f)))

In-text_entry :
    (o : Option Bytes) (k v : Bytes)
    → In (k, v) (text_entry o)
    → (k ≡ codes ":ic-cert-query") × (o ≡ some v)
In-text_entry none k v m = elim m [ ]
In-text_entry (some t) k v (here e) = (ap (λ z. z.0) e, ap some (sym (ap (λ z. z.1) e)))
In-text_entry (some t) k v (there m) = elim m [ ]

text_entry-In :
    (o : Option Bytes) (v : Bytes) → o ≡ some v → In (codes ":ic-cert-query", v) (text_entry o)
text_entry-In o v e = subst (λ z. In (codes ":ic-cert-query", v) (text_entry z)) (sym e) (here refl)

-- What one request's texts say of another's, where those are among these.
module _ (r q : HttpRequest) (c : RequestCertification) (a b : Option Bytes)
    (plain_r : IsPlainRequest r.headers) (plain_q : IsPlainRequest q.headers)
    (kept : (z : Header) → In z (parts_of r c a) → In z (parts_of q c b)) where
  parts-cases :
      (k v : Bytes)
      → In (k, v) (parts_of q c b)
      → In (k, v) (get_filtered_headers q.headers c)
        ⊎ ((k ≡ codes ":ic-cert-method") × (v ≡ q.method))
        ⊎ ((k ≡ codes ":ic-cert-query") × (certified_query c b ≡ some v))
  parts-cases k v m = elim (In-append (k, v) (get_filtered_headers q.headers c) _ m) [
    | inl x ↦ inl x
    | inr (here e) ↦ inr (inl (ap (λ z. z.0) e, ap (λ z. z.1) e))
    | inr (there x) ↦ inr (inr (In-text_entry (certified_query c b) k v x))
  ]

  header_kept :
      (k v : Bytes)
      → In (k, v) (get_filtered_headers r.headers c)
      → In (k, v) (get_filtered_headers q.headers c)
  header_kept k v m =
      let no = plain_name c r.headers k v plain_r m in
      elim (parts-cases k v (kept (k, v) (In-append_left _ _ _ m))) [
        | inl x ↦ x
        | inr (inl (e, _)) ↦ absurd (no.0 e)
        | inr (inr (e, _)) ↦ absurd (no.1 e)
      ]

  method_kept : r.method ≡ q.method
  method_kept =
      let method = codes ":ic-cert-method" in
      elim (parts-cases method r.method (
        kept (method, r.method)
          (In-append_right _ (get_filtered_headers r.headers c) _ (here refl)))) [
            | inl x ↦ absurd ((plain_name c q.headers method r.method plain_q x).0 refl)
            | inr (inl (_, e)) ↦ e
            | inr (inr (e, _)) ↦ absurd (pseudo_names e)
          ]

  query_kept : (v : Bytes) → certified_query c a ≡ some v → certified_query c b ≡ some v
  query_kept v e =
      let query = codes ":ic-cert-query" in
      elim (parts-cases query v (
        kept (query, v)
          (In-append_right _ (get_filtered_headers r.headers c) _
            (there (text_entry-In (certified_query c a) v e))))) [
              | inl x ↦ absurd ((plain_name c q.headers query v plain_q x).1 refl)
              | inr (inl (f, _)) ↦ absurd (pseudo_names (sym f))
              | inr (inr (_, f)) ↦ f
            ]

  certified_kept : (z : Header) → IsCertifiedHeader c r.headers z → IsCertifiedHeader c q.headers z
  certified_kept z (name, value, i, n, e) = subst (IsCertifiedHeader c q.headers) (sym e) (
      In-get_filtered_headers c q.headers _
        (header_kept _ _ (certified-In c r.headers name value i n)))

same_options :
    (o p : Option Bytes)
    → ((v : Bytes) → o ≡ some v → p ≡ some v)
    → ((v : Bytes) → p ≡ some v → o ≡ some v)
    → o ≡ p
same_options none none f g = refl
same_options (some v) p f g = sym (f v refl)
same_options none (some v) f g = g v refl

pub same_parts :
    (library : Library) (r q : HttpRequest) (c : RequestCertification) (a b : Option Bytes)
    → IsPlainRequest r.headers
    → IsPlainRequest q.headers
    → library.uri_query r.url ≡ some a
    → library.uri_query q.url ≡ some b
    → ((z : Header) → In z (parts_of r c a) ↔ In z (parts_of q c b))
    → r.body ≡ q.body
    → SameRequest library c r q
same_parts library r q c a b plain_r plain_q ea eb same body = record {
  same_method = method_kept r q c a b plain_r plain_q (λ z. (same z).0);
  same_headers = λ z. (
    certified_kept r q c a b plain_r plain_q (λ y. (same y).0) z,
    certified_kept q r c b a plain_q plain_r (λ y. (same y).1) z,
  );
  fragments = fragments_of (certified_query c a);
  of_first = (a, ea, certified_query-Selects c a);
  of_second = (
    b,
    eb,
    subst (λ z. Selects (IsCertifiedFragment c) (fragments_of b) (fragments_of z))
        (same_options (certified_query c b) (certified_query c a)
          (query_kept q r c b a plain_q plain_r (λ y. (same y).1))
          (query_kept r q c a b plain_r plain_q (λ y. (same y).0)))
        (certified_query-Selects c b),
  );
  same_body = body;
}

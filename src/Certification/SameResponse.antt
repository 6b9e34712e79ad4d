-- ===== src/Certification/SameResponse.antt =====
-- Responses with the same hash have the same status, body and certified headers.
use response_verification.Common.{
  ℕ, ◌≡◌, refl, ap, sym, ◌∙◌, none, List, [], ◌∷◌, map, ◌⊎◌, ◌↔◌, inl, inr, In, here, there,
  In-append, In-append_left, In-append_right, subst, length,
}
use response_verification.Common.Bytes.{Bytes, append-inj}
use response_verification.Common.Sha.{Sha256, Collision, hash-inj}
use response_verification.RepresentationHash.{
  Value, string, number, Leb128, hash_value, representation_independent_hash,
}
use response_verification.RepresentationHash.Binding.{
  representation_independent_hash-inj, entry_hashed,
}
use response_verification.RepresentationHash.Unordered.{In-map, In-map_inv}
use response_verification.Response.Headers.{
  Header, HttpResponse, ResponseCertification, ResponseHeaders, filter_response_headers,
}
use response_verification.Certification.ResponseHash.{
  response_status_pseudo_header_name, string_entry, response_entries, response_headers_hash,
  response_hash,
}

-- A fact for each element of a list, or the exception.
pub all_or {ℓ κ} :
    {A : Type ℓ} {P : A → Type κ} {C : Type 0} (xs : List A)
    → ((a : A) → In a xs → P a ⊎ C)
    → ((a : A) → In a xs → P a) ⊎ C
all_or [] f = inl (λ a h. elim h [ ])
all_or {P = P} (x ∷ xs) f = elim (f x (here refl)) [
  | inr c ↦ inr c
  | inl p ↦ elim (all_or xs (λ a h. f a (there h))) [
    | inr c ↦ inr c
    | inl ps ↦ inl (λ a m. elim m [ here e ↦ subst P (sym e) p | there h ↦ ps a h ])
  ]
]

-- No header is named like the status.
abbrev pub IsPlain : List Header → Type 0
IsPlain hs = (value : Bytes) → In (response_status_pseudo_header_name, value) hs → ⊥

module _ ⦃sha : Sha256⦄ (leb : Leb128) where
  pub string_hashed :
      (a b : Bytes)
      → hash_value leb (string a) ≡ hash_value leb (string b)
      → (a ≡ b) ⊎ Collision sha
  unfolding hash_value
  string_hashed a b e = hash-inj a b e

  number_hashed :
      (m n : ℕ) → hash_value leb (number m) ≡ hash_value leb (number n) → (m ≡ n) ⊎ Collision sha
  unfolding hash_value
  number_hashed m n e = elim (hash-inj _ _ e) [
    | inl p ↦ inl (leb.write_unsigned-inj m n p)
    | inr c ↦ inr c
  ]

  length-response_headers_hash :
      (s : ℕ) (h : ResponseHeaders) → length (response_headers_hash leb s h) ≡ 32
  unfolding response_headers_hash representation_independent_hash
  length-response_headers_hash s h = sha.length-hash _

  -- An entry comes from a header, or is the status.
  In-response_entries :
      (t : ℕ) (h : ResponseHeaders) (k : Bytes) (w : Value)
      → In (k, w) (response_entries t h)
      → ((v : Bytes) × In (k, v) h.headers × (w ≡ string v))
        ⊎ ((k ≡ response_status_pseudo_header_name) × (w ≡ number t))
  In-response_entries t h k w m = elim (In-append (k, w) (map string_entry h.headers) _ m) [
    | inl a ↦
        let (x, there_is, e) = In-map_inv string_entry (k, w) h.headers a in
        inl (
          x.1,
          subst (λ z. In (z, x.1) h.headers) (sym (ap (λ z. z.0) e)) there_is,
          ap (λ z. z.1) e,
        )
    | inr (here e) ↦ inr (ap (λ z. z.0) e, ap (λ z. z.1) e)
    | inr (there b) ↦ elim b [ ]
  ]

  module _ (s t : ℕ) (g h : ResponseHeaders)
      (e : response_headers_hash leb s g ≡ response_headers_hash leb t h) where
    entry_kept :
        (k : Bytes) (v : Value)
        → In (k, v) (response_entries s g)
        → ((w : Value) × In (k, w) (response_entries t h) × (hash_value leb v ≡ hash_value leb w))
          ⊎ Collision sha
    unfolding response_headers_hash
    entry_kept k v m = elim (representation_independent_hash-inj leb _ _ e) [
      | inr c ↦ inr c
      | inl p ↦ entry_hashed leb _ _ k v p m
    ]

    header_kept : IsPlain g.headers → (a : Header) → In a g.headers → In a h.headers ⊎ Collision sha
    header_kept plain (k, v) m =
        elim (entry_kept k (string v)
          (In-append_left _ _ _ (In-map string_entry (k, v) g.headers m))) [
            | inr c ↦ inr c
            | inl (w, there_is, same) ↦ elim (In-response_entries t h k w there_is) [
              | inr (named, _) ↦ absurd (plain v (subst (λ z. In (z, v) g.headers) named m))
              | inl (v', found, is) ↦ elim (string_hashed v v' (same ∙ ap (hash_value leb) is)) [
                | inr c ↦ inr c
                | inl q ↦ inl (subst (λ z. In (k, z) h.headers) (sym q) found)
              ]
            ]
          ]

    status_kept : IsPlain h.headers → (s ≡ t) ⊎ Collision sha
    status_kept plain =
        elim (entry_kept response_status_pseudo_header_name (number s)
          (In-append_right _ (map string_entry g.headers) _ (here refl))) [
            | inr c ↦ inr c
            | inl (w, there_is, same) ↦ elim (In-response_entries t h _ w there_is) [
              | inl (v', found, _) ↦ absurd (plain v' found)
              | inr (_, is) ↦ number_hashed s t (same ∙ ap (hash_value leb) is)
            ]
          ]

  -- Two responses with one hash under one certification, neither with a header that is named like the
  -- status, have the same status, the same certified headers and the same body, or show a collision.
  pub response_hash-inj :
      (r q : HttpResponse) (c : ResponseCertification)
      → IsPlain (filter_response_headers r c).headers
      → IsPlain (filter_response_headers q c).headers
      → response_hash leb r c none ≡ response_hash leb q c none
      → ((r.status_code ≡ q.status_code)
          × ((a : Header)
              → In a (filter_response_headers r c).headers
                ↔ In a (filter_response_headers q c).headers)
          × (r.body ≡ q.body))
        ⊎ Collision sha
  unfolding response_hash
  response_hash-inj r q c plain_r plain_q e = elim (hash-inj _ _ e) [
    | inr x ↦ inr x
    | inl parts ↦
        let g = filter_response_headers r c in
        let h = filter_response_headers q c in
        let (heads, bodies) =
          append-inj (response_headers_hash leb r.status_code g) _
            (response_headers_hash leb q.status_code h) _
            (length-response_headers_hash _ g ∙ sym (length-response_headers_hash _ h)) parts in
        elim (status_kept _ _ g h heads plain_q) [
          | inr x ↦ inr x
          | inl same_status ↦ elim (hash-inj _ _ bodies) [
            | inr x ↦ inr x
            | inl same_body ↦ elim (all_or g.headers (header_kept _ _ g h heads plain_r)) [
              | inr x ↦ inr x
              | inl there_ ↦ elim (all_or h.headers (header_kept _ _ h g (sym heads) plain_q)) [
                | inr x ↦ inr x
                | inl back ↦ inl (same_status, (λ a. (there_ a, back a)), same_body)
              ]
            ]
          ]
        ]
  ]

-- ===== src/Response/Headers/Filter.antt =====
-- response_hash.rs: which headers `filter_response_headers` keeps.
use response_verification.Common.{
  ◌≡◌, refl, Bool, not, true, false, Option, none, some, List, [], ◌∷◌, In, here, there, ◌↔◌, ◌⊎◌,
  inl, inr, arith, Bool-cases,
}
use response_verification.Common.Bytes.{Bytes}
use response_verification.Response.Headers.Named.{
  IsSameName, IsNamed, IsSameName-eq, any-IsNamed, IsNamed-any, false_of, of_not_false,
}
use response_verification.Response.Headers.{
  Header, HttpResponse, ResponseCertification, certificate_header_name,
  certificate_expression_header_name, to_ascii_lowercase, eq_ignore_ascii_case, headers_filter,
  kept_header, cons_some, kept_headers, filter_response_headers,
}

-- The tests that keep a header: it is not the certificate, and is the certificate expression or passes the filter.
abbrev Survives : ResponseCertification → Bytes → Type 0
Survives c name =
    (eq_ignore_ascii_case name certificate_header_name ≡ false)
    × ((eq_ignore_ascii_case name certificate_expression_header_name ≡ true)
        ⊎ (headers_filter c name ≡ true))

kept_header-Survives :
    (c : ResponseCertification) (name value : Bytes) (h : Header)
    → kept_header c (name, value) ≡ some h
    → Survives c name × (h ≡ (to_ascii_lowercase name, value))
unfolding kept_header
kept_header-Survives c name value h e =
    elim (Bool-cases (eq_ignore_ascii_case name certificate_header_name)) [
      | inl a ↦ absurd (ground arith)
      | inr a ↦ elim (Bool-cases (eq_ignore_ascii_case name certificate_expression_header_name)) [
        | inl b ↦ ((a, inl b), ground arith)
        | inr b ↦ elim (Bool-cases (headers_filter c name)) [
          | inl d ↦ ((a, inr d), ground arith)
          | inr d ↦ absurd (ground arith)
        ]
      ]
    ]

Survives-kept_header :
    (c : ResponseCertification) (name value : Bytes)
    → Survives c name
    → kept_header c (name, value) ≡ some (to_ascii_lowercase name, value)
unfolding kept_header
Survives-kept_header c name value (a, inl b) = rw (a, b) refl
Survives-kept_header c name value (a, inr d) =
    rw (a) (elim (Bool-cases (eq_ignore_ascii_case name certificate_expression_header_name)) [
      | inl b ↦ rw (b) refl
      | inr b ↦ rw (b, d) refl
    ])

-- The header comes from one of the list that survives.
abbrev Comes : ResponseCertification → List Header → Header → Type 0
Comes c hs h =
    (name : Bytes) × (value : Bytes) × In (name, value) hs
    × Survives c name
    × (h ≡ (to_ascii_lowercase name, value))

In-cons_some :
    (h : Header) (o : Option Header) (hs : List Header)
    → In h (cons_some o hs)
    → (o ≡ some h) ⊎ In h hs
In-cons_some h none hs m = inr m
In-cons_some h (some k) hs (here e) = inl (rw (e) refl)
In-cons_some h (some k) hs (there m) = inr m

In-cons_some_right :
    (h : Header) (o : Option Header) (hs : List Header) → In h hs → In h (cons_some o hs)
In-cons_some_right h none hs m = m
In-cons_some_right h (some k) hs m = there m

kept_headers-Comes :
    (c : ResponseCertification) (hs : List Header) (h : Header)
    → In h (kept_headers c hs)
    → Comes c hs h
unfolding kept_headers
kept_headers-Comes c [] h m = elim m [ ]
kept_headers-Comes c ((name, value) ∷ hs) h m =
    elim (In-cons_some h (kept_header c (name, value)) (kept_headers c hs) m) [
      | inl e ↦ let (k, f) = kept_header-Survives c name value h e in (name, value, here refl, k, f)
      | inr n ↦ let (a, b, i, k, e) = kept_headers-Comes c hs h n in (a, b, there i, k, e)
    ]

Comes-kept_headers :
    (c : ResponseCertification) (hs : List Header) (name value : Bytes)
    → In (name, value) hs
    → Survives c name
    → In (to_ascii_lowercase name, value) (kept_headers c hs)
unfolding kept_headers
Comes-kept_headers c [] name value m k = elim m [ ]
Comes-kept_headers c (g ∷ hs) name value (here e) k =
    rw (← e) (rw (Survives-kept_header c name value k) (here refl))
Comes-kept_headers c (g ∷ hs) name value (there m) k =
    In-cons_some_right _ (kept_header c g) (kept_headers c hs)
      (Comes-kept_headers c hs name value m k)

-- The certification covers the name: it lists it, or does not exclude it.
abbrev pub Passes : ResponseCertification → Bytes → Type 0
Passes (ResponseCertification.certified_response_headers names) name = IsNamed names name
Passes (ResponseCertification.response_header_exclusions names) name = IsNamed names name → ⊥

-- A name that is kept, whatever the case of its letters.
abbrev pub IsKept : ResponseCertification → Bytes → Type 0
IsKept c name =
    (IsSameName name certificate_header_name → ⊥)
    × (IsSameName name certificate_expression_header_name ⊎ Passes c name)

-- The header is one of the list that is kept, its name in lower case.
abbrev pub ComesFrom : ResponseCertification → List Header → Header → Type 0
ComesFrom c hs h =
    (name : Bytes) × (value : Bytes) × In (name, value) hs
    × IsKept c name
    × (h ≡ (to_ascii_lowercase name, value))

filter_refuses : (b : Bool) → not b ≡ true → b ≡ false
filter_refuses b e = ground arith

filter_lets : (b : Bool) → b ≡ false → not b ≡ true
filter_lets b e = ground arith

headers_filter-Passes :
    (c : ResponseCertification) (name : Bytes) → (headers_filter c name ≡ true) ↔ Passes c name
headers_filter-Passes (ResponseCertification.certified_response_headers names) name =
    (any-IsNamed names name, IsNamed-any names name)
headers_filter-Passes (ResponseCertification.response_header_exclusions names) name = (
  λ e. false_of _ (IsNamed-any names name) (filter_refuses _ e),
  λ n. filter_lets _ (of_not_false _ (any-IsNamed names name) n),
)

Survives-IsKept : (c : ResponseCertification) (name : Bytes) → Survives c name ↔ IsKept c name
Survives-IsKept c name = (
  λ (a, b). (
    false_of _ ((IsSameName-eq name certificate_header_name).1) a,
    elim b [
      | inl e ↦ inl ((IsSameName-eq name certificate_expression_header_name).0 e)
      | inr e ↦ inr ((headers_filter-Passes c name).0 e)
    ],
  ),
  λ (a, b). (
    of_not_false _ ((IsSameName-eq name certificate_header_name).0) a,
    elim b [
      | inl e ↦ inl ((IsSameName-eq name certificate_expression_header_name).1 e)
      | inr e ↦ inr ((headers_filter-Passes c name).1 e)
    ],
  ),
)

-- The filtered headers are exactly the response's headers, their names in lower case, that are not
-- named as the certificate, and are named as the certificate expression, or as one of the listed
-- headers, or, where the certification lists exclusions, not as one of these; names are compared
-- without the case of their letters.
pub filter_response_headers-IsKept :
    (response : HttpResponse) (c : ResponseCertification) (h : Header)
    → In h ((filter_response_headers response c).headers) ↔ ComesFrom c (response.headers) h
unfolding filter_response_headers
filter_response_headers-IsKept response c h = (
  (λ m.
      let (name, value, i, k, e) = kept_headers-Comes c response.headers h m in
      (name, value, i, (Survives-IsKept c name).0 k, e)),
  λ (name, value, m, k, e).
      rw (e) (Comes-kept_headers c response.headers name value m ((Survives-IsKept c name).1 k)),
)

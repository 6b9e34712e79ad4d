-- ===== src/Certification/Covered.antt =====
-- hash/request_hash.rs: what is hashed of a request, and what a certification covers of two requests.
use response_verification.Common.{
  ◌≡◌, refl, ap, sym, ◌∙◌, Option, none, some, Option-cases, here, there, List, [], ◌∷◌, ◌++◌, ◌↔◌,
  inl, inr, In, subst, Bool-cases,
}
use response_verification.Common.Bytes.{Bytes, codes}
use response_verification.Common.Results.{ok, ok_inj}
use response_verification.Response.Headers.{Header, to_ascii_lowercase, any_eq_ignore_ascii_case}
use response_verification.Certification.{Library, HttpRequest, RequestCertification}
use response_verification.Certification.Query.{
  Selects, selected_all, IsCertifiedFragment, fragments_of, get_filtered_query-Selects,
}
use response_verification.Response.Headers.Named.{IsNamed, any-IsNamed, IsNamed-any}
use response_verification.Certification.RequestHash.{
  get_filtered_headers, query_entry, get_query, get_filtered_query, request_texts,
}

-- A header of the request that the certification lists, its name in lower case.
abbrev pub IsCertifiedHeader : RequestCertification → List Header → Header → Type 0
IsCertifiedHeader c hs a =
    (name : Bytes) × (value : Bytes) × In (name, value) hs
    × IsNamed c.headers name
    × (a ≡ (to_ascii_lowercase name, value))

-- No header is named like the method or the query.
abbrev pub IsPlainRequest : List Header → Type 0
IsPlainRequest hs =
    (name value : Bytes)
    → In (name, value) hs
    → (to_ascii_lowercase name ≡ codes ":ic-cert-method" → ⊥)
      × (to_ascii_lowercase name ≡ codes ":ic-cert-query" → ⊥)

-- These are the certified fragments of the URL's query.
abbrev pub HasFragments : Library → RequestCertification → Bytes → List Bytes → Type 0
HasFragments library c url fs =
    (query : Option Bytes) × (library.uri_query url ≡ some query)
    × Selects (IsCertifiedFragment c) (fragments_of query) fs

-- What a certification covers of two requests is the same.
pub record SameRequest (library : Library) (c : RequestCertification) (r q : HttpRequest)
    : Type 0 where
  pub same_method : r.method ≡ q.method
  pub same_headers :
      (a : Header) → IsCertifiedHeader c r.headers a ↔ IsCertifiedHeader c q.headers a
  pub fragments : List Bytes
  pub of_first : HasFragments library c r.url fragments
  pub of_second : HasFragments library c q.url fragments
  pub same_body : r.body ≡ q.body

pub In-get_filtered_headers :
    (c : RequestCertification) (hs : List Header) (a : Header)
    → In a (get_filtered_headers hs c)
    → IsCertifiedHeader c hs a
unfolding get_filtered_headers
In-get_filtered_headers c [] a m = elim m [ ]
In-get_filtered_headers c ((name, value) ∷ hs) a m =
    elim (Bool-cases (any_eq_ignore_ascii_case c.headers name)) [
      | inl listed ↦ elim (rw (listed, get_filtered_headers) at m) [
        | here e ↦ (name, value, here refl, any-IsNamed c.headers name listed, e)
        | there i ↦ later (In-get_filtered_headers c hs a i)
      ]
      | inr other ↦ later (In-get_filtered_headers c hs a (rw (other, get_filtered_headers) at m))
    ]
  where
    later : IsCertifiedHeader c hs a → IsCertifiedHeader c ((name, value) ∷ hs) a
    later (n, v, i, k, e) = (n, v, there i, k, e)

pub certified-In :
    (c : RequestCertification) (hs : List Header) (name value : Bytes)
    → In (name, value) hs
    → IsNamed c.headers name
    → In (to_ascii_lowercase name, value) (get_filtered_headers hs c)
unfolding get_filtered_headers
certified-In c [] name value i n = elim i [ ]
certified-In c (g ∷ hs) name value (here e) n =
    subst (λ z. In (to_ascii_lowercase name, value) (get_filtered_headers (z ∷ hs) c)) e
      (rw (IsNamed-any c.headers name n, get_filtered_headers) (here refl))
certified-In c ((k, v) ∷ hs) name value (there i) n =
    let more = certified-In c hs name value i n in
    elim (Bool-cases (any_eq_ignore_ascii_case c.headers k)) [
      | inl listed ↦ rw (listed, get_filtered_headers) (there more)
      | inr other ↦ rw (other, get_filtered_headers) more
    ]

-- The certified part of a query that may be missing, and its entry.
abbrev pub certified_query : RequestCertification → Option Bytes → Option Bytes
certified_query c none = none
certified_query c (some query) = get_filtered_query query c

abbrev pub text_entry : Option Bytes → List Header
text_entry none = []
text_entry (some filtered) = (codes ":ic-cert-query", filtered) ∷ []

query_entry_lem :
    (c : RequestCertification) (query : Option Bytes)
    → query_entry c query ≡ text_entry (certified_query c query)
query_entry_lem c none = refl
query_entry_lem c (some query) = elim (Option-cases (get_filtered_query query c)) [
  | inl e ↦ rw (e, query_entry) refl
  | inr (t, e) ↦ rw (e, query_entry) refl
]

pub certified_query-Selects :
    (c : RequestCertification) (query : Option Bytes)
    → Selects (IsCertifiedFragment c) (fragments_of query) (fragments_of (certified_query c query))
certified_query-Selects c none = selected_all
certified_query-Selects c (some query) = get_filtered_query-Selects query c

abbrev pub parts_of : HttpRequest → RequestCertification → Option Bytes → List Header
parts_of r c query =
    get_filtered_headers r.headers c
    ++ ((codes ":ic-cert-method", r.method) ∷ text_entry (certified_query c query))

pub request_texts-parts :
    (library : Library) (r : HttpRequest) (c : RequestCertification) (g : List Header)
    → request_texts library r c ≡ ok g
    → (query : Option Bytes) × (library.uri_query r.url ≡ some query) × (parts_of r c query ≡ g)
unfolding request_texts
request_texts-parts library r c g e = elim (Option-cases (library.uri_query r.url)) [
  | inl missing ↦ absurd (cc (rw (missing, get_query) at e))
  | inr (query, found) ↦ (
    query,
    found,
    ap (λ z. get_filtered_headers r.headers c ++ ((codes ":ic-cert-method", r.method) ∷ z))
          (sym (query_entry_lem c query))
        ∙ ok_inj (rw (found, get_query) at e),
  )
]

-- ===== src/Response/CertificateHeader/First.antt =====
-- certificate_header.rs: of the fields with one name the first is read, and later ones are ignored.
use response_verification.Common.{
  ℕ, ◌≡◌, refl, subst, Bool, true, false, if◌then◌else◌, Bool-cases, Option, none, some, List, [],
  ◌∷◌, inl, inr, arith,
}
use response_verification.Common.Bytes.{Bytes, codes, compare_bytes, bytes_eq, eq_of_bytes_eq}
use response_verification.Common.Results.{
  ok, err, ◌>>=◌, ok_or_err, ok_or_err-IfOk, IfOk, IfOk-ok, IfOk-imp, IfOk-bind,
}
use response_verification.Response.{ResponseError, ResponseResult}
use response_verification.Response.Gateway.{Gateway}
use response_verification.Response.CertificateHeader.{
  CertificateHeader, HeaderFields, keep_or, unwrap_or, decode_header, set_field, set_parsed,
  read_fields, no_fields, certificate_header,
}

-- A variable after a field: read from it if the field has its name and it was not set, else kept.
abbrev IsKept : {A : Type 0} → Bool → Option A → ResponseResult A → Option A → Type 0
IsKept true (some a) parsed new = new ≡ some a
IsKept {A} true none parsed new = (a : A) × (parsed ≡ ok a) × (new ≡ some a)
IsKept false old parsed new = new ≡ old

-- A variable after all fields, by the first value for its name.
abbrev IsFirst :
    {A : Type 0} → Option A → Option Bytes → (Bytes → ResponseResult A) → Option A → Type 0
IsFirst (some a) first parse new = new ≡ some a
IsFirst none none parse new = new ≡ none
IsFirst {A} none (some v) parse new = (a : A) × (parse v ≡ ok a) × (new ≡ some a)

keep_or-IsKept :
    {A : Type 0} (old : Option A) (parsed : ResponseResult A)
    → IfOk (IsKept true old parsed) (keep_or old parsed)
keep_or-IsKept (some a) parsed = refl
keep_or-IsKept none (ok a) = (a, refl, refl)
keep_or-IsKept none (err e) = tt

IsKept-other :
    {A : Type 0} (b : Bool) (old : Option A) (parsed : ResponseResult A)
    → b ≡ false
    → IsKept b old parsed old
IsKept-other true old parsed e = absurd (grind arith)
IsKept-other false old parsed e = refl

IsFirst-IsKept :
    {A : Type 0} (b : Bool) (old next new : Option A) (v : Bytes) (first : Option Bytes)
    (parse : Bytes → ResponseResult A)
    → IsKept b old (parse v) next
    → IsFirst next first parse new
    → IsFirst old (if b then some v else first) parse new
IsFirst-IsKept true (some a) next new v first parse k f = subst (λ o. IsFirst o first parse new) k f
IsFirst-IsKept true none next new v first parse (a, p, k) f =
    (a, p, subst (λ o. IsFirst o first parse new) k f)
IsFirst-IsKept false old next new v first parse k f = subst (λ o. IsFirst o first parse new) k f

module _ (gateway : Gateway) where
  -- The value of the first field with a name, by what the first field is and what the rest gives.
  abbrev pub first_after : Bytes → Option (Bytes × Bytes) → Option Bytes → Option Bytes
  first_after name none rest = rest
  first_after name (some (n, v)) rest = if bytes_eq n name then some v else rest

  abbrev pub first_of : List Bytes → Bytes → Option Bytes
  first_of [] name = none
  first_of (text ∷ texts) name = first_after name (gateway.header_field text) (first_of texts name)

  abbrev IsAssigned : HeaderFields → Bytes → Bytes → HeaderFields → Type 0
  IsAssigned fields name value next =
      IsKept (bytes_eq name (codes "certificate")) fields.certificate
        (decode_header gateway gateway.platform.parse_certificate value) next.certificate
      × IsKept (bytes_eq name (codes "tree")) fields.tree
          (decode_header gateway gateway.parse_tree value) next.tree
      × IsKept (bytes_eq name (codes "version")) fields.version
          (ok_or_err ResponseError.decoding_failed (gateway.parse_u8 value)) next.version
      × IsKept (bytes_eq name (codes "expr_path")) fields.expr_path
          (decode_header gateway gateway.parse_strings value) next.expr_path

  set_field-IsAssigned :
      (fields : HeaderFields) (name value : Bytes)
      → IfOk (IsAssigned fields name value) (set_field gateway fields name value)
  unfolding set_field compare_bytes
  set_field-IsAssigned fields name value = elim (Bool-cases (bytes_eq name (codes "certificate"))) [
    | inl a ↦ rw (eq_of_bytes_eq name (codes "certificate") a) (
        IfOk-bind _ (IsAssigned fields (codes "certificate") value) (keep_or fields.certificate _) _
          (keep_or-IsKept _ _) λ c k. (k, refl, refl, refl))
    | inr a ↦ elim (Bool-cases (bytes_eq name (codes "tree"))) [
      | inl b ↦ rw (eq_of_bytes_eq name (codes "tree") b) (
          IfOk-bind _ (IsAssigned fields (codes "tree") value) (keep_or fields.tree _) _
            (keep_or-IsKept _ _) λ c k. (refl, k, refl, refl))
      | inr b ↦ elim (Bool-cases (bytes_eq name (codes "version"))) [
        | inl c ↦ rw (eq_of_bytes_eq name (codes "version") c) (
            IfOk-bind _ (IsAssigned fields (codes "version") value) (keep_or fields.version _) _
              (keep_or-IsKept _ _) λ c k. (refl, refl, k, refl))
        | inr c ↦ elim (Bool-cases (bytes_eq name (codes "expr_path"))) [
          | inl d ↦ rw (eq_of_bytes_eq name (codes "expr_path") d) (
              IfOk-bind _ (IsAssigned fields (codes "expr_path") value) (keep_or fields.expr_path _)
                _ (keep_or-IsKept _ _) λ c k. (refl, refl, refl, k))
          | inr d ↦
              rw (a, b, c, d)
                (
                  IsKept-other _ _ _ a,
                  IsKept-other _ _ _ b,
                  IsKept-other _ _ _ c,
                  IsKept-other _ _ _ d,
                )
        ]
      ]
    ]
  ]

  -- All four variables are the first values for their names.
  abbrev AreFirst : HeaderFields → (Bytes → Option Bytes) → HeaderFields → Type 0
  AreFirst fields first new =
      IsFirst fields.certificate (first (codes "certificate"))
        (decode_header gateway gateway.platform.parse_certificate) new.certificate
      × IsFirst fields.tree (first (codes "tree")) (decode_header gateway gateway.parse_tree)
          new.tree
      × IsFirst fields.version (first (codes "version"))
          (λ v. ok_or_err ResponseError.decoding_failed (gateway.parse_u8 v)) new.version
      × IsFirst fields.expr_path (first (codes "expr_path"))
          (decode_header gateway gateway.parse_strings) new.expr_path

  IsFirst-self :
      {A : Type 0} (o : Option A) (parse : Bytes → ResponseResult A) → IsFirst o none parse o
  IsFirst-self none parse = refl
  IsFirst-self (some a) parse = refl

  set_parsed-AreFirst :
      (fields : HeaderFields) (parsed : Option (Bytes × Bytes)) (texts : List Bytes)
      → ((next : HeaderFields)
          → IfOk (AreFirst next (first_of texts)) (read_fields gateway next texts))
      → IfOk
          (AreFirst fields (λ name. first_after name parsed (first_of texts name)))
          (do next ← set_parsed gateway fields parsed; read_fields gateway next texts)
  set_parsed-AreFirst fields none texts rest = rest fields
  set_parsed-AreFirst fields (some (n, v)) texts rest =
      let Q = AreFirst fields (λ name. first_after name (some (n, v)) (first_of texts name)) in
      IfOk-bind _ Q (set_field gateway fields n v) _ (set_field-IsAssigned fields n v) λ next k.
        IfOk-imp _ Q (read_fields gateway next texts) (rest next) λ new f. (
          IsFirst-IsKept (bytes_eq n (codes "certificate")) _ next.certificate _ v _
              (decode_header gateway gateway.platform.parse_certificate) k.0 f.0,
          IsFirst-IsKept (bytes_eq n (codes "tree")) _ next.tree _ v _
              (decode_header gateway gateway.parse_tree) k.1 f.1,
          IsFirst-IsKept (bytes_eq n (codes "version")) _ next.version _ v _
              (λ v. ok_or_err ResponseError.decoding_failed (gateway.parse_u8 v)) k.2 f.2,
          IsFirst-IsKept (bytes_eq n (codes "expr_path")) _ next.expr_path _ v _
              (decode_header gateway gateway.parse_strings) k.3 f.3,
        )

  read_fields-AreFirst :
      (texts : List Bytes) (fields : HeaderFields)
      → IfOk (AreFirst fields (first_of texts)) (read_fields gateway fields texts)
  unfolding read_fields
  read_fields-AreFirst [] fields =
      (IsFirst-self _ _, IsFirst-self _ _, IsFirst-self _ _, IsFirst-self _ _)
  read_fields-AreFirst (text ∷ texts) fields =
      set_parsed-AreFirst fields (gateway.header_field text) texts (read_fields-AreFirst texts)

  -- What the header promises: its certificate and its tree decode from the first values for their
  -- names, its version is the first one or 1, and its path the first one, if there is one.
  pub record IsRead (texts : List Bytes) (header : CertificateHeader) : Type 0 where
    pub certificate :
        IsFirst none
          (first_of texts (codes "certificate"))
          (decode_header gateway gateway.platform.parse_certificate)
          (some header.certificate)
    pub tree :
        IsFirst none
          (first_of texts (codes "tree"))
          (decode_header gateway gateway.parse_tree)
          (some header.tree)
    pub version : Option ℕ
    pub first_version :
        IsFirst none
          (first_of texts (codes "version"))
          (λ v. ok_or_err ResponseError.decoding_failed (gateway.parse_u8 v))
          version
    pub is_version : header.version ≡ unwrap_or 1 version
    pub expr_path :
        IsFirst none
          (first_of texts (codes "expr_path"))
          (decode_header gateway gateway.parse_strings)
          header.expr_path

  certificate_header-IfOk :
      (text : Bytes) → IfOk (IsRead (gateway.split_fields text)) (certificate_header gateway text)
  unfolding certificate_header
  certificate_header-IfOk text =
      let Q = IsRead (gateway.split_fields text) in
      IfOk-bind _ Q (read_fields gateway no_fields (gateway.split_fields text)) _
        (read_fields-AreFirst (gateway.split_fields text) no_fields)
        λ fields f.
          IfOk-bind _ Q (ok_or_err ResponseError.header_missing_certificate fields.certificate) _
            (ok_or_err-IfOk _ _)
            λ c e.
              IfOk-bind _ Q (ok_or_err ResponseError.header_missing_tree fields.tree) _
                (ok_or_err-IfOk _ _)
                λ t g. record {
                  certificate =
                      subst
                        (λ o.
                          IsFirst none (first_of (gateway.split_fields text) (codes "certificate"))
                            (decode_header gateway gateway.platform.parse_certificate) o)
                        e f.0;
                  tree =
                      subst
                        (λ o.
                          IsFirst none (first_of (gateway.split_fields text) (codes "tree"))
                            (decode_header gateway gateway.parse_tree) o)
                        g f.1;
                  version = fields.version;
                  first_version = f.2;
                  is_version = refl;
                  expr_path = f.3;
                }

  -- If the certificate header parses, then its certificate and its tree decode from the first fields
  -- of these names, its version is the first of that name or, without one, 1, and its expression path
  -- decodes from the first field of that name, if there is one: later fields change nothing.
  pub certificate_header-IsRead :
      (text : Bytes) (header : CertificateHeader)
      → certificate_header gateway text ≡ ok header
      → IsRead (gateway.split_fields text) header
  certificate_header-IsRead text header e =
      IfOk-ok _ (certificate_header gateway text) header e (certificate_header-IfOk text)

-- ===== src/Certificate/Current.antt =====
-- certificate_verification.rs: when a certificate's time is accepted, and when a principal is in the
-- ranges.
use response_verification.Common.{
  ℕ, ◌+◌, ◌<◌, ◌≤◌, ◌≡◌, refl, true, some, List, [], ◌∷◌, arith, In, here, there, inl, inr,
  Bool-cases,
}
use response_verification.Common.Bytes.{Bytes, codes}
use response_verification.Common.Results.{ok, IfOk, IfOk-bind, IfOk-imp, ok_or_err, ok_or_err-IfOk}
use response_verification.HashTree.{LookupResult, lookup_path}
use response_verification.Certificate.{
  Certificate, CertificateError, Platform, found_or, principal_is_within_ranges,
  verify_certificate_time, check_window,
}
use response_verification.Certificate.Steps.{found_or-IfOk}

check_window-IfOk :
    (time now offset : ℕ)
    → time < 18446744073709551616
    → IfOk
        (λ (u : Unit). (time ≤ now + offset) × (now ≤ time + offset))
        (check_window time now offset)
unfolding check_window
check_window-IfOk time now offset h = ground arith

ok-check_window :
    (time now offset : ℕ)
    → time < 18446744073709551616
    → time ≤ now + offset
    → now ≤ time + offset
    → check_window time now offset ≡ ok tt
unfolding check_window
ok-check_window time now offset h a b = ground arith

module _ (platform : Platform) where
  -- Some range has the principal between its ends.
  abbrev pub IsWithin : platform.Principal → List (platform.Principal × platform.Principal) → Type 0
  IsWithin p ranges =
      (r : platform.Principal × platform.Principal) × In r ranges
      × (platform.principal_le r.0 p ≡ true)
      × (platform.principal_le p r.1 ≡ true)

  pub principal_is_within_ranges-IsWithin :
      (p : platform.Principal) (ranges : List (platform.Principal × platform.Principal))
      → principal_is_within_ranges platform p ranges ≡ true
      → IsWithin p ranges
  unfolding principal_is_within_ranges
  principal_is_within_ranges-IsWithin p [] e = absurd (ground arith)
  principal_is_within_ranges-IsWithin p (r ∷ ranges) e =
      elim (Bool-cases (platform.principal_le r.0 p)) [
        | inl a ↦ elim (Bool-cases (platform.principal_le p r.1)) [
          | inl b ↦ (r, here refl, a, b)
          | inr b ↦ later (principal_is_within_ranges-IsWithin p ranges (ground arith))
        ]
        | inr a ↦ later (principal_is_within_ranges-IsWithin p ranges (ground arith))
      ]
    where
      later : IsWithin p ranges → IsWithin p (r ∷ ranges)
      later (s, m, a, b) = (s, there m, a, b)

  pub IsWithin-principal_is_within_ranges :
      (p : platform.Principal) (ranges : List (platform.Principal × platform.Principal))
      (r : platform.Principal × platform.Principal)
      → In r ranges
      → platform.principal_le r.0 p ≡ true
      → platform.principal_le p r.1 ≡ true
      → principal_is_within_ranges platform p ranges ≡ true
  unfolding principal_is_within_ranges
  IsWithin-principal_is_within_ranges p [] r m a b = elim m [ ]
  IsWithin-principal_is_within_ranges p (q ∷ ranges) r (here e) a b =
      let a' : platform.principal_le q.0 p ≡ true = rw (← e) a in
      let b' : platform.principal_le p q.1 ≡ true = rw (← e) b in ground arith
  IsWithin-principal_is_within_ranges p (q ∷ ranges) r (there m) a b =
      let ih = IsWithin-principal_is_within_ranges p ranges r m a b in ground arith

  -- The certificate states a time that is not further from now than the offset.
  pub record IsCurrent (certificate : Certificate) (now offset : ℕ) : Type 0 where
    pub encoded : Bytes
    pub time : ℕ
    pub states : lookup_path certificate.tree (codes "time" ∷ []) ≡ LookupResult.found encoded
    pub reads : platform.read_unsigned encoded ≡ some time
    pub not_late : time ≤ now + offset
    pub not_early : now ≤ time + offset

  pub verify_certificate_time-IfOk :
      (c : Certificate) (now offset : ℕ)
      → IfOk (λ u. IsCurrent c now offset) (verify_certificate_time platform c now offset)
  unfolding verify_certificate_time
  verify_certificate_time-IfOk c now offset =
      IfOk-bind _ (λ (u : Unit). IsCurrent c now offset)
        (found_or _ (lookup_path c.tree (codes "time" ∷ []))) _ (found_or-IfOk _ _)
        λ encoded states.
          IfOk-bind _ (λ (u : Unit). IsCurrent c now offset)
            (ok_or_err CertificateError.time_decoding_failed (platform.read_unsigned encoded)) _
            (ok_or_err-IfOk _ _)
            λ time reads.
              IfOk-imp _ (λ (u : Unit). IsCurrent c now offset) (check_window time now offset)
                (check_window-IfOk time now offset
                  (platform.read_unsigned-bound encoded time reads))
                λ u w. record {
                  encoded = encoded;
                  time = time;
                  states = states;
                  reads = reads;
                  not_late = w.0;
                  not_early = w.1;
                }

  pub ok-verify_certificate_time :
      (c : Certificate) (now offset : ℕ)
      → IsCurrent c now offset
      → verify_certificate_time platform c now offset ≡ ok tt
  unfolding verify_certificate_time
  ok-verify_certificate_time c now offset h =
      rw (h.states, h.reads)
        (ok-check_window h.time now offset (platform.read_unsigned-bound h.encoded h.time h.reads)
          h.not_late h.not_early)

-- ===== src/Certificate/Cache.antt =====
-- packages/ic-certificate-verification/src/signature_verification: the signatures that verified
-- before are kept in a cache, by the hash of the key, the signature and the message.
use response_verification.Common.{
  ◌≡◌, refl, sym, subst, ◌∙◌, Bool, true, false, if◌then◌else◌, ◌++◌, ◌⊎◌, inl, inr, arith, length,
  Bool-cases,
}
use response_verification.Common.Bytes.{Bytes, bytes_eq, eq_of_bytes_eq, bytes_eq_refl, append-inj}
use response_verification.Common.Results.{ok, err}
use response_verification.Common.Sha.{Sha256, Collision}
use response_verification.HashTree.Binding.{append-inj_right}
use response_verification.Certificate.{
  CertificateResult, CertificateError, Platform, verify_signature,
}

-- `SizedCache` of the crate cached: looking an entry up changes the order of use, adding one may drop
-- others, and neither makes up an entry.
pub record SizedCache : Type 1 where
  pub State : Type 0
  pub cache_get : State → Bytes → State × Bool
  pub cache_set : State → Bytes → State
  pub has-cache_get :
      (c : State) (e x : Bytes)
      → (cache_get (cache_get c e).0 x).1 ≡ true
      → (cache_get c x).1 ≡ true
  pub has-cache_set :
      (c : State) (e x : Bytes)
      → (cache_get (cache_set c e) x).1 ≡ true
      → (x ≡ e) ⊎ ((cache_get c x).1 ≡ true)

clash : (a b : Bytes) → a ≡ b → bytes_eq a b ≡ false → ⊥
clash a b f e =
    let same : bytes_eq a b ≡ true = subst (λ z. bytes_eq a z ≡ true) f (bytes_eq_refl a) in
    differ (bytes_eq a b) same e
  where
    differ : (b : Bool) → b ≡ true → b ≡ false → ⊥
    differ b x y = ground arith

module _ (platform : Platform) (cache : SizedCache) ⦃sha : Sha256⦄ where
  unfoldable pub cache_entry : Bytes → Bytes → Bytes → Bytes
  cache_entry pk sig msg = sha.hash (pk ++ (sig ++ msg))

  -- What is done once the cache has been asked.
  abbrev pub after_lookup :
      cache.State → Bool → Bytes → Bytes → Bytes → cache.State × CertificateResult Unit
  after_lookup c true pk sig msg = (c, ok tt)
  after_lookup c false pk sig msg =
      if platform.core_verify sig msg pk
      then (cache.cache_set c (cache_entry pk sig msg), ok tt)
      else (c, err CertificateError.signature_verification_failed)

  unfoldable pub verify_signature_cached :
      cache.State → Bytes → Bytes → Bytes → cache.State × CertificateResult Unit
  verify_signature_cached c pk sig msg =
      let looked_up = cache.cache_get c (cache_entry pk sig msg) in
      after_lookup looked_up.0 looked_up.1 pk sig msg

  -- A signature that verifies, with a key of 96 bytes and a message of 46: the separator and a digest.
  pub record IsVerifiedEntry (entry : Bytes) : Type 0 where
    pub pk : Bytes
    pub sig : Bytes
    pub msg : Bytes
    pub is_entry : entry ≡ cache_entry pk sig msg
    pub key_length : length pk ≡ 96
    pub message_length : length msg ≡ 46
    pub verifies : platform.core_verify sig msg pk ≡ true

  abbrev pub IsSound : cache.State → Type 0
  IsSound c = (x : Bytes) → (cache.cache_get c x).1 ≡ true → IsVerifiedEntry x

  -- An entry with the hash of a triple verifies only if the triple does, or there is a collision.
  entry_verifies :
      (pk sig msg : Bytes)
      → length pk ≡ 96
      → length msg ≡ 46
      → IsVerifiedEntry (cache_entry pk sig msg)
      → (platform.core_verify sig msg pk ≡ true) ⊎ Collision sha
  entry_verifies pk sig msg lk lm v =
      elim (Bool-cases (bytes_eq (pk ++ (sig ++ msg)) (v.pk ++ (v.sig ++ v.msg)))) [
        | inl e ↦ inl (same (eq_of_bytes_eq _ _ e))
        | inr e ↦ inr (record {
          first = pk ++ (sig ++ msg);
          second = v.pk ++ (v.sig ++ v.msg);
          differ = λ f. clash _ _ f e;
          same = unfold cache_entry in v.is_entry;
        })
      ]
    where
      same : pk ++ (sig ++ msg) ≡ v.pk ++ (v.sig ++ v.msg) → platform.core_verify sig msg pk ≡ true
      same f =
          let (k, rest) =
            append-inj pk (sig ++ msg) v.pk (v.sig ++ v.msg) (lk ∙ sym v.key_length) f in
          let (s, m) = append-inj_right sig msg v.sig v.msg (lm ∙ sym v.message_length) rest in
          rw (k, s, m) v.verifies

  -- The invariant after an entry that verifies is added.
  IsSound-cache_set :
      (c : cache.State) (e : Bytes) → IsSound c → IsVerifiedEntry e → IsSound (cache.cache_set c e)
  IsSound-cache_set c e sound v x h = elim (cache.has-cache_set c e x h) [
    | inl f ↦ rw (f) v
    | inr g ↦ sound x g
  ]

  -- The result agrees with the check without a cache, and the cache stays sound.
  abbrev pub IsCorrect : Bytes → Bytes → Bytes → cache.State × CertificateResult Unit → Type 0
  IsCorrect pk sig msg r =
      ((r.1 ≡ verify_signature platform pk sig msg) ⊎ Collision sha) × IsSound r.0

  after_lookup-IsCorrect :
      (c : cache.State) (b : Bool) (pk sig msg : Bytes)
      → length pk ≡ 96
      → length msg ≡ 46
      → IsSound c
      → (b ≡ true → IsVerifiedEntry (cache_entry pk sig msg))
      → IsCorrect pk sig msg (after_lookup c b pk sig msg)
  after_lookup-IsCorrect c true pk sig msg lk lm sound v =
      elim (entry_verifies pk sig msg lk lm (v refl)) [
        | inl e ↦ (inl (rw (e) refl), sound)
        | inr k ↦ (inr k, sound)
      ]
  after_lookup-IsCorrect c false pk sig msg lk lm sound v =
      elim (Bool-cases (platform.core_verify sig msg pk)) [
        | inl e ↦ rw (e) (
          inl refl,
          IsSound-cache_set c (cache_entry pk sig msg) sound (record {
            pk = pk;
            sig = sig;
            msg = msg;
            is_entry = refl;
            key_length = lk;
            message_length = lm;
            verifies = e;
          }),
        )
        | inr e ↦ rw (e) (inl refl, sound)
      ]

  -- On a cache whose entries all verified, for a key of 96 bytes and a message of 46 bytes, the check
  -- with the cache answers as the check without it, or the hash has a collision; and all entries of
  -- the cache that is left verified.
  pub verify_signature_cached_lem :
      (c : cache.State) (pk sig msg : Bytes)
      → length pk ≡ 96
      → length msg ≡ 46
      → IsSound c
      → (((verify_signature_cached c pk sig msg).1 ≡ verify_signature platform pk sig msg)
          ⊎ Collision sha)
        × IsSound ((verify_signature_cached c pk sig msg).0)
  unfolding verify_signature_cached
  verify_signature_cached_lem c pk sig msg lk lm sound =
      let e = cache_entry pk sig msg in
      after_lookup-IsCorrect (cache.cache_get c e).0 (cache.cache_get c e).1 pk sig msg lk lm
        (λ x h. sound x (cache.has-cache_get c e x h)) (sound e)

-- ===== src/Common/Sha.antt =====
-- SHA-256 (the `sha2` crate) as a parameter: a function from byte strings to 32 bytes. Nothing is
-- assumed of its collisions; the theorems that need their absence return a collision instead.
use Prim.Native.Nat.{Ordering}
use mathlib.Core.Path.{◌≡◌, refl, sym, ap, ◌∙◌}
use mathlib.Core.Logic.{◌≢◌, ◌⊎◌, inl, inr}
use response_verification.Common.Tests.{length}
use response_verification.Common.Bytes.{
  Bytes, compare_bytes, compare_bytes_refl, eq_of_compare_bytes,
}

pub record Sha256 : Type 0 where
  pub hash : Bytes → Bytes
  pub length-hash : (b : Bytes) → length (hash b) ≡ 32

-- Two byte strings that hash alike.
pub record Collision (sha : Sha256) : Type 0 where
  pub first : Bytes
  pub second : Bytes
  pub differ : first ≢ second
  pub same : sha.hash first ≡ sha.hash second

module _ ⦃sha : Sha256⦄ where
  pub hash-inj : (x y : Bytes) → sha.hash x ≡ sha.hash y → (x ≡ y) ⊎ Collision sha
  hash-inj x y e = decide (compare_bytes x y) refl
    where
      differ : (o : Ordering) → compare_bytes x y ≡ o → o ≢ Ordering.eq → Collision sha
      differ o h n = record {
        first = x;
        second = y;
        differ = λ p. n (sym h ∙ ap (λ z. compare_bytes x z) (sym p) ∙ compare_bytes_refl x);
        same = e;
      }

      decide : (o : Ordering) → compare_bytes x y ≡ o → (x ≡ y) ⊎ Collision sha
      decide Ordering.eq h = inl (eq_of_compare_bytes x y h)
      decide Ordering.lt h = inr (differ Ordering.lt h (λ p. cc))
      decide Ordering.gt h = inr (differ Ordering.gt h (λ p. cc))

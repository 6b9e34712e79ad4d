-- ===== src/Common/Bytes.antt =====
-- Byte strings, `[u8]`: lists of numbers, with the lexicographic order and the equality that Rust's
-- standard library gives to slices.
use Prim.Native.Nat.{ℕ, compare, Ordering}
use Prim.Native.Nat.Ordering.{lt, eq, gt}
use Prim.Native.Char.{code}
use Prim.Native.String.{String}
use mathlib.Core.Path.{◌≡◌, refl}
use mathlib.Core.Bool.{Bool, true, false}
use mathlib.Core.List.{List, [], ◌∷◌, ◌++◌}
use response_verification.Common.Tests.{length}
use native.Mathlib.Omega.{arith}

abbrev pub Bytes : Type 0
Bytes = List ℕ

-- The bytes of an ASCII text.
abbrev pub codes : String → Bytes
codes String.[] = []
codes (String.◌∷◌ c s) = code c ∷ codes s

unfoldable pub compare_bytes : Bytes → Bytes → Ordering
compare_bytes [] [] = eq
compare_bytes [] (y ∷ ys) = lt
compare_bytes (x ∷ xs) [] = gt
compare_bytes (x ∷ xs) (y ∷ ys) = elim (compare x y) [
  | lt ↦ lt
  | eq ↦ compare_bytes xs ys
  | gt ↦ gt
]

abbrev pub bytes_eq : Bytes → Bytes → Bool
bytes_eq a b = elim (compare_bytes a b) [ eq ↦ true | _ ↦ false ]

infix 50 ◌≺◌
abbrev pub ◌≺◌ : Bytes → Bytes → Type 0
a ≺ b = compare_bytes a b ≡ lt

pub compare_bytes_refl : (a : Bytes) → compare_bytes a a ≡ eq
unfolding compare_bytes
compare_bytes_refl [] = refl
compare_bytes_refl (x ∷ xs) = ground (arith, compare_bytes_refl xs)

pub eq_of_compare_bytes : (a b : Bytes) → compare_bytes a b ≡ eq → a ≡ b
unfolding compare_bytes
eq_of_compare_bytes [] [] h = refl
eq_of_compare_bytes [] (y ∷ ys) h = ground arith
eq_of_compare_bytes (x ∷ xs) [] h = ground arith
eq_of_compare_bytes (x ∷ xs) (y ∷ ys) h = ground (arith, eq_of_compare_bytes xs ys)

pub lt_of_gt : (a b : Bytes) → compare_bytes a b ≡ gt → b ≺ a
unfolding compare_bytes
lt_of_gt [] [] h = ground arith
lt_of_gt [] (y ∷ ys) h = ground arith
lt_of_gt (x ∷ xs) [] h = refl
lt_of_gt (x ∷ xs) (y ∷ ys) h = ground (arith, lt_of_gt xs ys)

pub gt_of_lt : (a b : Bytes) → a ≺ b → compare_bytes b a ≡ gt
unfolding compare_bytes
gt_of_lt [] [] h = ground arith
gt_of_lt [] (y ∷ ys) h = refl
gt_of_lt (x ∷ xs) [] h = ground arith
gt_of_lt (x ∷ xs) (y ∷ ys) h = ground (arith, gt_of_lt xs ys)

pub lt_trans : (a b c : Bytes) → a ≺ b → b ≺ c → a ≺ c
unfolding compare_bytes
lt_trans [] [] c h k = k
lt_trans [] (y ∷ ys) [] h k = ground arith
lt_trans [] (y ∷ ys) (z ∷ zs) h k = refl
lt_trans (x ∷ xs) [] c h k = ground arith
lt_trans (x ∷ xs) (y ∷ ys) [] h k = ground arith
lt_trans (x ∷ xs) (y ∷ ys) (z ∷ zs) h k = ground (arith, lt_trans xs ys zs)

pub bytes_eq_refl : (a : Bytes) → bytes_eq a a ≡ true
bytes_eq_refl a = ground (arith, compare_bytes_refl a)

pub eq_of_bytes_eq : (a b : Bytes) → bytes_eq a b ≡ true → a ≡ b
eq_of_bytes_eq a b h = ground (arith, eq_of_compare_bytes a b)

pub append-inj : (a b c d : Bytes) → length a ≡ length c → a ++ b ≡ c ++ d → (a ≡ c) × (b ≡ d)
append-inj [] b [] d l e = (refl, e)
append-inj [] b (z ∷ c) d l e = absurd (omega arith)
append-inj (x ∷ a) b [] d l e = absurd (omega arith)
append-inj (x ∷ a) b (z ∷ c) d l e = ground (arith, append-inj a b c d)

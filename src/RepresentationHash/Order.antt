-- ===== src/RepresentationHash/Order.antt =====
-- The order of pairs of hashes, and sorting by it.
use Prim.Native.Nat.Ordering.{lt, eq, gt}
use mathlib.Core.List.{Permᴰ}
use response_verification.Common.{◌≡◌, refl, ◌∙◌, List, [], ◌∷◌, arith}
use response_verification.Common.Bytes.{
  Bytes, compare_bytes_refl, eq_of_compare_bytes, lt_of_gt, gt_of_lt, lt_trans,
}
use response_verification.RepresentationHash.{compare_pair, insert_pair, sort_unstable}

compare_pair_refl : (x : Bytes × Bytes) → compare_pair x x ≡ eq
unfolding compare_pair
compare_pair_refl (a, b) = ground (arith, compare_bytes_refl a, compare_bytes_refl b)

eq_of_compare_pair : (x y : Bytes × Bytes) → compare_pair x y ≡ eq → x ≡ y
unfolding compare_pair
eq_of_compare_pair (a, b) (c, d) e =
    ground (arith, eq_of_compare_bytes a c, eq_of_compare_bytes b d)

pair_lt_of_gt : (x y : Bytes × Bytes) → compare_pair x y ≡ gt → compare_pair y x ≡ lt
unfolding compare_pair
pair_lt_of_gt (a, b) (c, d) e =
    ground (arith, lt_of_gt a c, lt_of_gt b d, eq_of_compare_bytes a c, compare_bytes_refl a)

pair_gt_of_lt : (x y : Bytes × Bytes) → compare_pair x y ≡ lt → compare_pair y x ≡ gt
unfolding compare_pair
pair_gt_of_lt (a, b) (c, d) e =
    ground (arith, gt_of_lt a c, gt_of_lt b d, eq_of_compare_bytes a c, compare_bytes_refl a)

pair_lt_trans :
    (x y z : Bytes × Bytes) → compare_pair x y ≡ lt → compare_pair y z ≡ lt → compare_pair x z ≡ lt
unfolding compare_pair
pair_lt_trans (a, b) (c, d) (m, n) e f = ground (
  arith,
  lt_trans a c m,
  lt_trans b d n,
  eq_of_compare_bytes a c,
  eq_of_compare_bytes c m,
  compare_bytes_refl a,
)

insert_pair_comm :
    (x y : Bytes × Bytes) (zs : List (Bytes × Bytes))
    → insert_pair x (insert_pair y zs) ≡ insert_pair y (insert_pair x zs)
unfolding insert_pair
insert_pair_comm x y [] =
    ground
      (arith, eq_of_compare_pair x y, pair_lt_of_gt x y, pair_gt_of_lt x y, compare_pair_refl x)
insert_pair_comm x y (z ∷ zs) = ground (
  arith,
  insert_pair_comm x y zs,
  eq_of_compare_pair x y,
  pair_lt_of_gt x y,
  pair_gt_of_lt x y,
  compare_pair_refl x,
  eq_of_compare_pair x z,
  eq_of_compare_pair y z,
  pair_lt_of_gt x z,
  pair_lt_of_gt y z,
  pair_lt_trans x y z,
  pair_lt_trans y x z,
  pair_lt_trans z x y,
  pair_lt_trans z y x,
  pair_gt_of_lt x z,
  pair_gt_of_lt y z,
)

pub sort_unstable-Perm :
    {xs ys : List (Bytes × Bytes)} → Permᴰ xs ys → sort_unstable xs ≡ sort_unstable ys
unfolding sort_unstable
sort_unstable-Perm Permᴰ.nil = refl
sort_unstable-Perm (Permᴰ.cons {a} e p) = rw (e, sort_unstable-Perm p) refl
sort_unstable-Perm (Permᴰ.swap {a} {b} {a'} {b'} {l} e f) =
    rw (e, f) (insert_pair_comm b' a' (sort_unstable l))
sort_unstable-Perm (Permᴰ.trans p q) = sort_unstable-Perm p ∙ sort_unstable-Perm q

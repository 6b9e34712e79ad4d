-- ===== src/RbTree/Bounds.antt =====
-- rb_tree/mod.rs: the bounds of a range of keys, `lower_bound`, `upper_bound` and
-- `right_prefix_neighbor`. The keys of `Exact` and `Neighbor` are keys of the tree.
use Prim.Native.Nat.Ordering.{lt, eq, gt}
use response_verification.Common.{
  Bool, true, false, Option, none, some, [], ◌∷◌, if◌then◌else◌, ◌&&◌, ◌==◌,
}
use response_verification.Common.Bytes.{Bytes, compare_bytes}
use response_verification.RbTree.{NodeRef, nil, node}

pub data KeyBound : Type 0 where
  exact : Bytes → KeyBound
  neighbor : Bytes → KeyBound

abbrev pub key_of : KeyBound → Bytes
key_of (exact k) = k
key_of (neighbor k) = k

-- `Option::or`.
abbrev pub or_else {ℓ} : {A : Type ℓ} → Option A → Option A → Option A
or_else (some a) other = some a
or_else none other = other

-- `p.len() <= x.len() && x[0..p.len()] == p`.
unfoldable pub is_prefix_of : Bytes → Bytes → Bool
is_prefix_of [] x = true
is_prefix_of (a ∷ p) [] = false
is_prefix_of (a ∷ p) (b ∷ x) = a == b && is_prefix_of p x

module _ {ℓ} {V : Type ℓ} where
  unfoldable pub lower_bound : NodeRef V → Bytes → Option KeyBound
  lower_bound nil q = none
  lower_bound (node k v l r c h) q = elim (compare_bytes k q) [
    | lt ↦ or_else (lower_bound r q) (some (neighbor k))
    | eq ↦ some (exact k)
    | gt ↦ lower_bound l q
  ]

  unfoldable pub upper_bound : NodeRef V → Bytes → Option KeyBound
  upper_bound nil q = none
  upper_bound (node k v l r c h) q = elim (compare_bytes k q) [
    | lt ↦ upper_bound r q
    | eq ↦ some (exact k)
    | gt ↦ or_else (upper_bound l q) (some (neighbor k))
  ]

  unfoldable pub right_prefix_neighbor : NodeRef V → Bytes → Option KeyBound
  right_prefix_neighbor nil prefix = none
  right_prefix_neighbor (node k v l r c h) prefix =
      let right = right_prefix_neighbor r prefix in
      let left = or_else (right_prefix_neighbor l prefix) (some (neighbor k)) in
      elim (compare_bytes k prefix) [
        | gt ↦ if is_prefix_of prefix k then right else left
        | lt ↦ right
        | eq ↦ right
      ]

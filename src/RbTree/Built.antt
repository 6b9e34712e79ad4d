-- ===== src/RbTree/Built.antt =====
-- The trees that insertions and deletions build from the empty one.
use Prim.Native.Nat.{ℕ, suc, ◌+◌, ◌*◌, ◌^◌, ◌≤◌}
use response_verification.Common.{◌≡◌, some, arith, if◌then◌else◌, leb}
use response_verification.Common.Bytes.{Bytes}
use response_verification.Common.Options.{Returns-at}
use response_verification.Common.Sha.{Sha256}
use response_verification.RbTree.{Color, red, black, AsHashTree, NodeRef, nil, node, insert}
use response_verification.RbTree.Entries.{entries, IsSorted}
use response_verification.RbTree.Hashes.{IsHashed, IsLawful}
use response_verification.RbTree.Insert.{insert_lem}
use response_verification.RbTree.Shape.{
  Shape, leaf_shape, red_shape, two_shape, three_shape, IsBalanced,
}
use response_verification.RbTree.Balanced.{insert-IsBalanced}
use response_verification.RbTree.Delete.{size, delete}
use response_verification.RbTree.Delete.Go.{delete_lem}

-- The number of nodes on the longest path.
abbrev pub height {ℓ} : {V : Type ℓ} → NodeRef V → ℕ
height nil = 0
height (node k v l r c h) = suc (if leb (height l) (height r) then height r else height l)

abbrev redness : Color → ℕ
redness red = 1
redness black = 0

module _ {ℓ} {V : Type ℓ} where
  Shape-height : {c : Color} {n : ℕ} {t : NodeRef V} → Shape c n t → height t ≤ n + n + redness c
  Shape-height leaf_shape = omega arith
  Shape-height (red_shape a b) = ground (arith, Shape-height a, Shape-height b)
  Shape-height (two_shape a b) = ground (arith, Shape-height a, Shape-height b)
  Shape-height (three_shape a b) = ground (arith, Shape-height a, Shape-height b)

  Shape-size : {c : Color} {n : ℕ} {t : NodeRef V} → Shape c n t → 2 ^ n ≤ size t + 1
  Shape-size leaf_shape = omega arith
  Shape-size (red_shape a b) = omega (arith, Shape-size a, Shape-size b)
  Shape-size (two_shape {n = m} a b) = omega (arith, Shape-size a, Shape-size b)
  Shape-size (three_shape {n = m} a b) = omega (arith, Shape-size a, Shape-size b)

module _ {ℓ} {V : Type ℓ} ⦃sha : Sha256⦄ ⦃tr : AsHashTree V⦄ where
  -- `insert` and `delete` are called in any order; the values that are put in keep `AsHashTree`'s law.
  pub data Built : NodeRef V → Type ℓ where
    fresh : Built nil
    inserted :
        {t u : NodeRef V} (k : Bytes) (v : V)
        → Built t
        → IsLawful v
        → insert t k v ≡ some u
        → Built u
    deleted : {t u : NodeRef V} (k : Bytes) → Built t → delete t k ≡ some u → Built u

  -- What every operation keeps.
  pub record IsValid (t : NodeRef V) : Type ℓ where
    pub sorted : IsSorted (entries t)
    pub balanced : IsBalanced t
    pub hashed : IsHashed t

  pub Built-IsValid : (t : NodeRef V) → Built t → IsValid t
  Built-IsValid t fresh = record { sorted = tt; balanced = (0, leaf_shape); hashed = tt }
  Built-IsValid u (inserted {t} k v b w e) =
      let p = Built-IsValid t b in
      let i = Returns-at (insert_lem k v w t p.sorted) e in
      record {
        sorted = i.0;
        balanced = Returns-at (insert-IsBalanced k v t p.balanced) e;
        hashed = i.2 p.hashed;
      }
  Built-IsValid u (deleted {t} k b e) =
      let p = Built-IsValid t b in
      let d = Returns-at (delete_lem k t p.sorted p.balanced) e in
      record { sorted = d.0; balanced = d.1; hashed = d.3 p.hashed }

  -- A tree that insertions and deletions built has no long path: twice a number whose power of two
  -- is at most one more than the number of entries bounds every path.
  pub Built-height : (t : NodeRef V) → Built t → (n : ℕ) × (height t ≤ 2 * n) × (2 ^ n ≤ size t + 1)
  Built-height t b =
      let (n, shape) = (Built-IsValid t b).balanced in
      (n, omega (arith, Shape-height shape), Shape-size shape)

-- ===== src/RbTree/Balanced.antt =====
-- `insert` keeps the tree balanced.
use Prim.Native.Nat.{ℕ, suc}
use response_verification.Common.{◌⊎◌, inl, inr, Ordering-cases}
use response_verification.Common.Bytes.{Bytes, compare_bytes}
use response_verification.Common.Options.{Returns, Returns-bind, Returns-some, Returns-imp}
use response_verification.Common.Sha.{Sha256}
use response_verification.RbTree.{
  Color, red, black, AsHashTree, NodeRef, node, is_red, balance, insert_go, insert, with_hash,
  new_node, rotate_left, rotate_right, flip_colors,
}
use response_verification.RbTree.Shape.{
  Shape, leaf_shape, red_shape, two_shape, three_shape, Fits, Shape-is_red, IsBalanced, paint_black,
  balance_still, balance-left, balance-right, balance-both,
}

-- A red node with a red left child, which the node above resolves.
data Doubled {ℓ} {V : Type ℓ} : ℕ → NodeRef V → Type ℓ where
  doubled :
      {n : ℕ} {k : Bytes} {v : V} {l r : NodeRef V} {h : Bytes}
      → Shape red n l
      → Shape black n r
      → Doubled n (node k v l r red h)

-- What an insertion may make of a part.
abbrev Grown {ℓ} : {V : Type ℓ} → Color → ℕ → NodeRef V → Type ℓ
Grown red n t = Shape red n t ⊎ Doubled n t
Grown black n t = Fits red n t

module _ {ℓ} {V : Type ℓ} ⦃sha : Sha256⦄ ⦃tr : AsHashTree V⦄ where
  grow-red_left :
      (k : Bytes) (v : V) {l r : NodeRef V} (h : Bytes) {n : ℕ}
      → Fits red n l
      → Shape black n r
      → Returns (balance (node k v l r red h)) (Grown red n)
  unfolding balance is_red
  grow-red_left k v h (inl (red_shape a b)) c = rw (Shape-is_red c) (
      rw (Shape-is_red a)
        (rw (Shape-is_red c) (Returns-some _ _ (inr (doubled (red_shape a b) c)))))
  grow-red_left k v h (inr a) c =
      rw (balance_still k v _ _ red h (Shape-is_red a) (Shape-is_red c))
        (Returns-some _ _ (inl (red_shape a c)))

  grow-red_right :
      (k : Bytes) (v : V) {l r : NodeRef V} (h : Bytes) {n : ℕ}
      → Shape black n l
      → Fits red n r
      → Returns (balance (node k v l r red h)) (Grown red n)
  unfolding balance is_red rotate_left with_hash
  grow-red_right k v h a (inl (red_shape b c)) = rw (Shape-is_red a) (
      rw (Shape-is_red a)
        (rw (Shape-is_red c) (Returns-some _ _ (inr (doubled (red_shape a b) c)))))
  grow-red_right k v h a (inr b) = grow-red_left k v h (inr a) b

  grow-black_left :
      (k : Bytes) (v : V) {l r : NodeRef V} (h : Bytes) {n : ℕ}
      → Grown red n l
      → Shape black n r
      → Returns (balance (node k v l r black h)) (Fits red (suc n))
  unfolding balance is_red rotate_right flip_colors with_hash
  grow-black_left k v h (inl a) b = Returns-imp (λ t p. inr p) (balance-left k v h (inl a) b)
  grow-black_left k v h (inr (doubled (red_shape a b) c)) d =
      rw (Shape-is_red d) (Returns-some _ _ (inl (red_shape (two_shape a b) (two_shape c d))))

  module _ (q : Bytes) (w : V) where
    insert_go-Grown :
        (c : Color) (n : ℕ) (t : NodeRef V) → Shape c n t → Returns (insert_go t q w) (Grown c n)
    unfolding insert_go new_node with_hash
    insert_go-Grown black n t leaf_shape = Returns-some _ _ (inl (red_shape leaf_shape leaf_shape))
    insert_go-Grown red n t (red_shape {k = k} a b) = elim (Ordering-cases (compare_bytes q k)) [
      | inl e ↦
          rw (e, insert_go)
            (Returns-bind _ (insert_go _ q w) _ (insert_go-Grown black n _ a)
              λ u p. grow-red_left _ _ _ p b)
      | inr (inl e) ↦ rw (e, insert_go) (grow-red_left k w _ (inr a) b)
      | inr (inr e) ↦
          rw (e, insert_go)
            (Returns-bind _ (insert_go _ q w) _ (insert_go-Grown black n _ b)
              λ u p. grow-red_right _ _ _ a p)
    ]
    insert_go-Grown black n t (two_shape {n = m} {k = k} a b) =
        elim (Ordering-cases (compare_bytes q k)) [
          | inl e ↦
              rw (e, insert_go)
                (Returns-bind _ (insert_go _ q w) _ (insert_go-Grown black m _ a)
                  λ u p. Returns-imp (λ t p. inr p) (balance-left _ _ _ p b))
          | inr (inl e) ↦
              rw (e, insert_go) (Returns-imp (λ t p. inr p) (balance-left k w _ (inr a) b))
          | inr (inr e) ↦
              rw (e, insert_go)
                (Returns-bind _ (insert_go _ q w) _ (insert_go-Grown black m _ b)
                  λ u p. Returns-imp (λ t p. inr p) (balance-right _ _ _ a p))
        ]
    insert_go-Grown black n t (three_shape {n = m} {k = k} a b) =
        elim (Ordering-cases (compare_bytes q k)) [
          | inl e ↦
              rw (e, insert_go)
                (Returns-bind _ (insert_go _ q w) _ (insert_go-Grown red m _ a)
                  λ u p. grow-black_left _ _ _ p b)
          | inr (inl e) ↦ rw (e, insert_go) (grow-black_left k w _ (inl a) b)
          | inr (inr e) ↦
              rw (e, insert_go)
                (Returns-bind _ (insert_go _ q w) _ (insert_go-Grown black m _ b)
                  λ u p. balance-both _ _ _ a p)
        ]

    -- Insertion into a balanced tree never panics and gives a balanced tree.
    pub insert-IsBalanced : (t : NodeRef V) → IsBalanced t → Returns (insert t q w) IsBalanced
    unfolding insert
    insert-IsBalanced t (n, shape) =
        Returns-bind _ (insert_go t q w) _ (insert_go-Grown black n t shape)
          λ u p. Returns-some _ _ (paint_black red n u p)

-- ===== src/RbTree/Shape.antt =====
-- The balance of a left-leaning red-black tree, and how `balance` restores it at one node.
use Prim.Native.Nat.{ℕ, suc}
use response_verification.Common.{◌≡◌, refl, false, some, ◌⊎◌, inl, inr}
use response_verification.Common.Bytes.{Bytes}
use response_verification.Common.Options.{Returns, Returns-some, Returns-imp}
use response_verification.Common.Sha.{Sha256}
use response_verification.RbTree.{
  Color, red, black, AsHashTree, NodeRef, nil, node, is_red, balance, rotate_left, flip_colors,
  with_hash, with_color,
}

-- `Shape c n t`: the root of `t` has the color `c` (`nil` is black), each path down from it meets `n`
-- black nodes, no red node is a right child, and no red node has a red child.
pub data Shape {ℓ} {V : Type ℓ} : Color → ℕ → NodeRef V → Type ℓ where
  leaf_shape : Shape black 0 nil
  red_shape :
      {n : ℕ} {k : Bytes} {v : V} {l r : NodeRef V} {h : Bytes}
      → Shape black n l
      → Shape black n r
      → Shape red n (node k v l r red h)
  two_shape :
      {n : ℕ} {k : Bytes} {v : V} {l r : NodeRef V} {h : Bytes}
      → Shape black n l
      → Shape black n r
      → Shape black (suc n) (node k v l r black h)
  three_shape :
      {n : ℕ} {k : Bytes} {v : V} {l r : NodeRef V} {h : Bytes}
      → Shape red n l
      → Shape black n r
      → Shape black (suc n) (node k v l r black h)

-- What a removal may make of a part: below a red node it may have either color.
abbrev pub Fits {ℓ} : {V : Type ℓ} → Color → ℕ → NodeRef V → Type ℓ
Fits red n t = Shape red n t ⊎ Shape black n t
Fits black n t = Shape black n t

module _ {ℓ} {V : Type ℓ} where
  pub Shape-is_red : {n : ℕ} {t : NodeRef V} → Shape black n t → is_red t ≡ false
  unfolding is_red
  Shape-is_red leaf_shape = refl
  Shape-is_red (two_shape a b) = refl
  Shape-is_red (three_shape a b) = refl

  -- The tree is balanced.
  abbrev pub IsBalanced : NodeRef V → Type ℓ
  IsBalanced t = (n : ℕ) × Shape black n t

  pub paint_black :
      (c : Color) (n : ℕ) (u : NodeRef V) → Fits c n u → IsBalanced (with_color black u)
  unfolding with_color
  paint_black red n u (inl (red_shape a b)) = (suc n, two_shape a b)
  paint_black red n u (inr leaf_shape) = (0, leaf_shape)
  paint_black red n u (inr (two_shape a b)) = (n, two_shape a b)
  paint_black red n u (inr (three_shape a b)) = (n, three_shape a b)
  paint_black black n u leaf_shape = (0, leaf_shape)
  paint_black black n u (two_shape a b) = (n, two_shape a b)
  paint_black black n u (three_shape a b) = (n, three_shape a b)

module _ {ℓ} {V : Type ℓ} ⦃sha : Sha256⦄ ⦃tr : AsHashTree V⦄ where
  -- Between two parts that are not red `balance` changes nothing.
  pub balance_still :
      (k : Bytes) (v : V) (l r : NodeRef V) (c : Color) (h : Bytes)
      → is_red l ≡ false
      → is_red r ≡ false
      → balance (node k v l r c h) ≡ some (node k v l r c h)
  unfolding balance
  balance_still k v l r c h e f = rw f (rw e (rw e))

  pub balance-red :
      (k : Bytes) (v : V) {l r : NodeRef V} (h : Bytes) {n : ℕ}
      → Shape black n l
      → Shape black n r
      → Returns (balance (node k v l r red h)) (Fits red n)
  balance-red k v h a b =
      rw (balance_still k v _ _ red h (Shape-is_red a) (Shape-is_red b))
        (Returns-some _ _ (inl (red_shape a b)))

  pub balance-left :
      (k : Bytes) (v : V) {l r : NodeRef V} (h : Bytes) {n : ℕ}
      → Fits red n l
      → Shape black n r
      → Returns (balance (node k v l r black h)) (Shape black (suc n))
  unfolding balance is_red
  balance-left k v h (inl (red_shape a c)) b =
      rw (Shape-is_red b) (
        rw (Shape-is_red a)
          (rw (Shape-is_red b) (Returns-some _ _ (three_shape (red_shape a c) b))))
  balance-left k v h (inr a) b =
      rw (balance_still k v _ _ black h (Shape-is_red a) (Shape-is_red b))
        (Returns-some _ _ (two_shape a b))

  pub balance-right :
      (k : Bytes) (v : V) {l r : NodeRef V} (h : Bytes) {n : ℕ}
      → Shape black n l
      → Fits red n r
      → Returns (balance (node k v l r black h)) (Shape black (suc n))
  unfolding balance is_red rotate_left with_hash
  balance-right k v h a (inl (red_shape b c)) =
      rw (Shape-is_red a) (
        rw (Shape-is_red a)
          (rw (Shape-is_red c) (Returns-some _ _ (three_shape (red_shape a b) c))))
  balance-right k v h a (inr b) = balance-left k v h (inr a) b

  pub balance-both :
      (k : Bytes) (v : V) {l r : NodeRef V} (h : Bytes) {n : ℕ}
      → Shape red n l
      → Fits red n r
      → Returns (balance (node k v l r black h)) (Fits red (suc n))
  unfolding balance is_red flip_colors
  balance-both k v h (red_shape a b) (inl (red_shape c d)) =
      rw (Shape-is_red a) (Returns-some _ _ (inl (red_shape (two_shape a b) (two_shape c d))))
  balance-both k v h (red_shape a b) (inr c) =
      Returns-imp (λ t p. inr p) (balance-left k v h (inl (red_shape a b)) c)

  pub balance-turn :
      (k : Bytes) (v : V) {l r : NodeRef V} (h : Bytes) {n : ℕ}
      → Fits red n l
      → Shape red n r
      → Returns (balance (node k v l r black h)) (Fits red (suc n))
  balance-turn k v h (inl a) b = balance-both k v h a (inl b)
  balance-turn k v h (inr a) b = Returns-imp (λ t p. inr p) (balance-right k v h a (inl b))

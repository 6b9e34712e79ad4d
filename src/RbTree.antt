-- ===== src/RbTree.antt =====
-- packages/ic-certification/src/rb_tree/mod.rs: left-leaning red-black trees whose nodes carry the
-- hash of the hash tree built from them. Keys are used by their bytes alone (`K: AsRef<[u8]>`) and
-- are byte strings here; `RbTree { root }` and `NodeRef` are one type; a `Box<Node>` is a `NodeRef`
-- that is not `nil`. A panic of `unwrap` is `none`. The proofs are in the modules below.
pub mod Entries
pub mod Hashes
pub mod Rotate
pub mod Insert
pub mod Bounds
pub mod Witness
pub mod Fork
pub mod Full
pub mod Certify
pub mod Carried
pub mod Absent
pub mod Gap
pub mod Sides
pub mod Between
pub mod NoPlace
pub mod Shape
pub mod Delete
pub mod Balanced
pub mod Built
pub mod Modify
use Prim.Native.Nat.Ordering.{lt, eq, gt}
use response_verification.Common.{Bool, true, false, not, ◌&&◌, Option, none, some, if◌then◌else◌}
use response_verification.Common.Bytes.{Bytes, compare_bytes}
use response_verification.Common.Options.{◌>>=◌}
use response_verification.Common.Sha.{Sha256}
use response_verification.HashTree.{HashTree, empty, pruned, fork_hash, leaf_hash, labeled_hash}

pub data Color : Type 0 where
  red black : Color

unfoldable pub flip : Color → Color
flip red = black
flip black = red

-- The trait, without the law that its comment states.
pub record AsHashTree {ℓ} (V : Type ℓ) : Type ℓ where
  pub root_hash : V → Bytes
  pub as_hash_tree : V → HashTree

-- `AsHashTree for Vec<u8>`; that for `Hash` is the same.
instance unfoldable pub bytes_as_hash_tree : ⦃sha : Sha256⦄ → AsHashTree Bytes
bytes_as_hash_tree = record { root_hash = leaf_hash; as_hash_tree = HashTree.leaf }

-- A node holds its key, its value, its left and right parts, its color and its subtree hash.
pub data NodeRef {ℓ} (V : Type ℓ) : Type ℓ where
  nil : NodeRef V
  node : Bytes → V → NodeRef V → NodeRef V → Color → Bytes → NodeRef V

module _ {ℓ} {V : Type ℓ} where
  unfoldable pub is_red : NodeRef V → Bool
  is_red nil = false
  is_red (node k v l r red h) = true
  is_red (node k v l r black h) = false

  abbrev pub left_of : NodeRef V → NodeRef V
  left_of nil = nil
  left_of (node k v l r c h) = l

  abbrev pub right_of : NodeRef V → NodeRef V
  right_of nil = nil
  right_of (node k v l r c h) = r

  unfoldable pub with_color : Color → NodeRef V → NodeRef V
  with_color c nil = nil
  with_color c (node k v l r _ h) = node k v l r c h

  unfoldable pub flip_color : NodeRef V → Option (NodeRef V)
  unfolding flip
  flip_color nil = none
  flip_color (node k v l r c h) = some (node k v l r (flip c) h)

  unfoldable pub flip_colors : NodeRef V → Option (NodeRef V)
  unfolding flip_color flip
  flip_colors nil = none
  flip_colors (node k v l r c h) = do
    l' ← flip_color l
    r' ← flip_color r
    some (node k v l' r' (flip c) h)

  unfoldable pub is_empty : NodeRef V → Bool
  is_empty nil = true
  is_empty (node k v l r c h) = false

  -- The `while let` walks down one branch.
  unfoldable pub get : NodeRef V → Bytes → Option V
  get nil q = none
  get (node k v l r c h) q = elim (compare_bytes q k) [ eq ↦ some v | lt ↦ get l q | gt ↦ get r q ]

  -- `left_hash_tree` and `right_hash_tree`, of the child.
  unfoldable pub child_hash_tree : NodeRef V → HashTree
  child_hash_tree nil = empty
  child_hash_tree (node k v l r c h) = pruned h

module _ {ℓ} {V : Type ℓ} ⦃sha : Sha256⦄ ⦃tr : AsHashTree V⦄ where
  unfoldable pub data_hash : Bytes → V → Bytes
  data_hash k v = labeled_hash k (tr.root_hash v)

  unfoldable pub compute_subtree_hash : Bytes → V → NodeRef V → NodeRef V → Bytes
  compute_subtree_hash k v nil nil = data_hash k v
  compute_subtree_hash k v (node _ _ _ _ _ lh) nil = fork_hash lh (data_hash k v)
  compute_subtree_hash k v nil (node _ _ _ _ _ rh) = fork_hash (data_hash k v) rh
  compute_subtree_hash k v (node _ _ _ _ _ lh) (node _ _ _ _ _ rh) =
      fork_hash lh (fork_hash (data_hash k v) rh)

  -- A node after `update_subtree_hash`.
  unfoldable pub with_hash : Bytes → V → NodeRef V → NodeRef V → Color → NodeRef V
  with_hash k v l r c = node k v l r c (compute_subtree_hash k v l r)

  unfoldable pub new_node : Bytes → V → NodeRef V
  new_node k v = node k v nil nil red (labeled_hash k (tr.root_hash v))

  unfoldable pub rotate_right : NodeRef V → Option (NodeRef V)
  unfolding with_hash
  rotate_right nil = none
  rotate_right (node k v nil r c h) = none
  rotate_right (node k v (node xk xv xl xr xc xh) r c h) =
      some (with_hash xk xv xl (with_hash k v xr r red) c)

  unfoldable pub rotate_left : NodeRef V → Option (NodeRef V)
  unfolding with_hash
  rotate_left nil = none
  rotate_left (node k v l nil c h) = none
  rotate_left (node k v l (node xk xv xl xr xc xh) c h) =
      some (with_hash xk xv (with_hash k v l xl red) xr c)

  -- The three `if`s of `balance`.
  abbrev pub lean_left : NodeRef V → Option (NodeRef V)
  lean_left t = if is_red (right_of t) && not (is_red (left_of t)) then rotate_left t else some t

  abbrev pub split_left : NodeRef V → Option (NodeRef V)
  split_left t =
      if is_red (left_of t) && is_red (left_of (left_of t)) then rotate_right t else some t

  abbrev pub push_red : NodeRef V → Option (NodeRef V)
  push_red t = if is_red (left_of t) && is_red (right_of t) then flip_colors t else some t

  unfoldable pub balance : NodeRef V → Option (NodeRef V)
  balance h = do h' ← lean_left h; h'' ← split_left h'; push_red h''

  unfoldable pub insert_go : NodeRef V → Bytes → V → Option (NodeRef V)
  unfolding with_hash new_node
  insert_go nil k v = some (new_node k v)
  insert_go (node hk hv l r c h) k v = elim (compare_bytes k hk) [
    | eq ↦ balance (with_hash hk v l r c)
    | lt ↦ (do l' ← insert_go l k v; balance (with_hash hk hv l' r c))
    | gt ↦ (do r' ← insert_go r k v; balance (with_hash hk hv l r' c))
  ]

  unfoldable pub insert : NodeRef V → Bytes → V → Option (NodeRef V)
  insert t k v = do root ← insert_go t k v; some (with_color black root)

  -- The value is replaced by what `f` makes of it, and the hashes above it are computed again.
  unfoldable pub modify : NodeRef V → Bytes → (V → V) → NodeRef V
  unfolding with_hash
  modify nil q f = nil
  modify (node k v l r c h) q f = elim (compare_bytes q k) [
    | eq ↦ with_hash k (f v) l r c
    | lt ↦ with_hash k v (modify l q f) r c
    | gt ↦ with_hash k v l (modify r q f) c
  ]

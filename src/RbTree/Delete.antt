-- ===== src/RbTree/Delete.antt =====
-- packages/ic-certification/src/rb_tree/mod.rs: `RbTree::delete` and its inner functions. A recursion
-- of the code goes to a part of a tree that it has rotated before, so it takes fuel here; the tree's
-- size is given, and no fuel left is `none`, as a panic is. A `debug_assert!` of these functions is a panic as
-- well; those of the rotations in RbTree, which ask for the red child that their callers have tested,
-- are left out.
-- The proofs are in the modules below.
pub mod Remove
pub mod Min
pub mod Swap
pub mod Step
pub mod Ready
pub mod Left
pub mod Right
pub mod Go
use Prim.Native.Nat.{ℕ, zero, suc, ◌+◌}
use Prim.Native.Nat.Ordering.{lt, eq, gt}
use response_verification.Common.{Bool, true, false, not, ◌&&◌, Option, none, some, if◌then◌else◌}
use response_verification.Common.Bytes.{Bytes, compare_bytes, bytes_eq}
use response_verification.Common.Options.{◌>>=◌}
use response_verification.Common.Sha.{Sha256}
use response_verification.RbTree.{
  AsHashTree, NodeRef, nil, node, red, black, is_red, is_empty, left_of, right_of, with_color,
  with_hash, flip_colors, rotate_left, rotate_right, balance, get,
}

module _ {ℓ} {V : Type ℓ} where
  abbrev pub size : NodeRef V → ℕ
  size nil = 0
  size (node k v l r c h) = suc (size l + size r)

  -- `key == h.key.as_ref()`.
  abbrev pub has_key : Bytes → NodeRef V → Bool
  has_key q nil = false
  has_key q (node k v l r c h) = bytes_eq q k

  -- The assignment to `h.right` alone.
  abbrev pub set_right : NodeRef V → NodeRef V → NodeRef V
  set_right x nil = nil
  set_right x (node k v l r c h) = node k v l x c h

  -- The leftmost entry, and the leftmost node after an assignment of its key and its value.
  unfoldable pub min : NodeRef V → Option (Bytes × V)
  min nil = none
  min (node k v nil r c h) = some (k, v)
  min (node k v (node lk lv ll lr lc lh) r c h) = min (node lk lv ll lr lc lh)

  unfoldable pub set_min : Bytes → V → NodeRef V → NodeRef V
  set_min q w nil = nil
  set_min q w (node k v nil r c h) = node q w nil r c h
  set_min q w (node k v (node lk lv ll lr lc lh) r c h) =
      node k v (set_min q w (node lk lv ll lr lc lh)) r c h

  -- The two `swap`s of the key and the value with those of the right part's leftmost node.
  abbrev pub swap_min : NodeRef V → Option (NodeRef V)
  swap_min nil = none
  swap_min (node k v l r c h) = do m ← min r; some (node m.0 m.1 l (set_min k v r) c h)

  -- Neither the part nor its left part is red.
  abbrev pub is_lone : NodeRef V → Bool
  is_lone t = not (is_red t) && not (is_red (left_of t))

module _ {ℓ} {V : Type ℓ} ⦃sha : Sha256⦄ ⦃tr : AsHashTree V⦄ where
  -- An assignment to `h.left` or `h.right`, and `h.update_subtree_hash()`.
  abbrev pub replace_left : NodeRef V → NodeRef V → NodeRef V
  replace_left x nil = nil
  replace_left x (node k v l r c h) = with_hash k v x r c

  abbrev pub replace_right : NodeRef V → NodeRef V → NodeRef V
  replace_right x nil = nil
  replace_right x (node k v l r c h) = with_hash k v l x c

  unfoldable pub move_red_left : NodeRef V → Option (NodeRef V)
  move_red_left t = do
    h ← flip_colors t
    if is_red (left_of (right_of h))
        then (do r ← rotate_right (right_of h); h' ← rotate_left (set_right r h); flip_colors h')
        else some h

  unfoldable pub move_red_right : NodeRef V → Option (NodeRef V)
  move_red_right t = do
    h ← flip_colors t
    if is_red (left_of (left_of h)) then (do h' ← rotate_right h; flip_colors h') else some h

  unfoldable pub delete_min : ℕ → NodeRef V → Option (NodeRef V)
  delete_min zero t = none
  delete_min (suc fuel) nil = none
  delete_min (suc fuel) (node k v nil r c h) = if is_empty r then some nil else none
  delete_min (suc fuel) (node k v (node lk lv ll lr lc lh) r c h) = do
    let t = node k v (node lk lv ll lr lc lh) r c h
    t' ← (if is_lone (left_of t) then move_red_left t else some t)
    l' ← delete_min fuel (left_of t')
    balance (replace_left l' t')

  -- The branch for a smaller key; `go` is the recursive call.
  unfoldable pub delete_left : (NodeRef V → Option (NodeRef V)) → NodeRef V → Option (NodeRef V)
  delete_left go t = do
    t' ← (if is_lone (left_of t) then move_red_left t else some t)
    l' ← go (left_of t')
    balance (replace_left l' t')

  -- The other branch, from the removal below the node on.
  unfoldable pub delete_below :
      ℕ → (NodeRef V → Option (NodeRef V)) → Bytes → NodeRef V → Option (NodeRef V)
  delete_below fuel go q t =
      if has_key q t
      then (do t' ← swap_min t; r' ← delete_min fuel (right_of t'); balance (replace_right r' t'))
      else (do r' ← go (right_of t); balance (replace_right r' t))

  unfoldable pub delete_right :
      ℕ → (NodeRef V → Option (NodeRef V)) → Bytes → NodeRef V → Option (NodeRef V)
  delete_right fuel go q t = do
    t' ← (if is_red (left_of t) then rotate_right t else some t)
    if has_key q t' && is_empty (right_of t')
        then (if is_empty (left_of t') then some nil else none)
        else (do
          t'' ← (if is_lone (right_of t') then move_red_right t' else some t')
          delete_below fuel go q t'')

  unfoldable pub delete_go : ℕ → NodeRef V → Bytes → Option (NodeRef V)
  delete_go zero t q = none
  delete_go (suc fuel) nil q = none
  delete_go (suc fuel) (node k v l r c h) q = elim (compare_bytes q k) [
    | lt ↦ delete_left (λ t. delete_go fuel t q) (node k v l r c h)
    | eq ↦ delete_right fuel (λ t. delete_go fuel t q) q (node k v l r c h)
    | gt ↦ delete_right fuel (λ t. delete_go fuel t q) q (node k v l r c h)
  ]

  -- The color that the root is given before the removal.
  abbrev pub redden : NodeRef V → NodeRef V
  redden t = if not (is_red (left_of t)) && not (is_red (right_of t)) then with_color red t else t

  unfoldable pub delete : NodeRef V → Bytes → Option (NodeRef V)
  delete t q = elim (get t q) [
    | none ↦ some t
    | some v ↦ (do root ← delete_go (size t) (redden t) q; some (with_color black root))
  ]

-- ===== src/RbTree/Rotate.antt =====
-- The rotations and the color flip where the code calls them: they return, keep the entries in their
-- order, and keep the hash invariant.
use mathlib.Core.List.{append_assoc}
use response_verification.Common.{◌≡◌, refl, sym, ◌∙◌, true, not, ◌&&◌, and_left, and_right}
use response_verification.Common.Options.{
  Returns, Returns-bind, Returns-some, Returns-if, Returns-imp,
}
use response_verification.Common.Sha.{Sha256}
use response_verification.RbTree.{
  AsHashTree, NodeRef, nil, node, is_red, left_of, right_of, flip_colors, rotate_left, rotate_right,
  lean_left, split_left, push_red, balance, compute_subtree_hash,
}
use response_verification.RbTree.Entries.{entries}
use response_verification.RbTree.Hashes.{IsHashed}

module _ {ℓ} {V : Type ℓ} ⦃sha : Sha256⦄ ⦃tr : AsHashTree V⦄ where
  -- `u` holds what `t` holds, in the same order, and its hashes are right if those of `t` are.
  pub record Rearranges (t u : NodeRef V) : Type ℓ where
    pub same : entries u ≡ entries t
    pub hashed : IsHashed t → IsHashed u

  pub Rearranges-refl : (t : NodeRef V) → Rearranges t t
  Rearranges-refl t = record { same = refl; hashed = λ h. h }

  pub Rearranges-trans : {s t u : NodeRef V} → Rearranges s t → Rearranges t u → Rearranges s u
  Rearranges-trans p q = record { same = q.same ∙ p.same; hashed = λ h. q.hashed (p.hashed h) }

  pub rotate_left-Rearranges :
      (t : NodeRef V) → is_red (right_of t) ≡ true → Returns (rotate_left t) (Rearranges t)
  unfolding rotate_left is_red
  rotate_left-Rearranges nil e = cc
  rotate_left-Rearranges (node k v l nil c h) e = cc
  rotate_left-Rearranges (node k v l (node xk xv xl xr xc xh) c h) e = Returns-some _ _ (record {
    same = append_assoc (entries l) _ _;
    hashed = λ p. (refl, p.3.1, (refl, p.1, p.2, p.3.2), p.3.3);
  })

  pub rotate_right-Rearranges :
      (t : NodeRef V) → is_red (left_of t) ≡ true → Returns (rotate_right t) (Rearranges t)
  unfolding rotate_right is_red
  rotate_right-Rearranges nil e = cc
  rotate_right-Rearranges (node k v nil r c h) e = cc
  rotate_right-Rearranges (node k v (node xk xv xl xr xc xh) r c h) e = Returns-some _ _ (record {
    same = sym (append_assoc (entries xl) _ _);
    hashed = λ p. (refl, p.2.1, p.2.2, (refl, p.1, p.2.3, p.3));
  })

  pub flip_colors-Rearranges :
      (t : NodeRef V)
      → is_red (left_of t) ≡ true
      → is_red (right_of t) ≡ true
      → Returns (flip_colors t) (Rearranges t)
  unfolding flip_colors is_red compute_subtree_hash
  flip_colors-Rearranges nil e f = cc
  flip_colors-Rearranges (node k v nil r c h) e f = cc
  flip_colors-Rearranges (node k v (node lk lv ll lr lc lh) nil c h) e f = cc
  flip_colors-Rearranges (node k v (node lk lv ll lr lc lh) (node rk rv rl rr rc rh) c h) e f =
      Returns-some _ _ (record { same = refl; hashed = λ p. p })

  lean_left-Rearranges : (t : NodeRef V) → Returns (lean_left t) (Rearranges t)
  lean_left-Rearranges t =
      Returns-if _ (is_red (right_of t) && not (is_red (left_of t))) _ _
        (λ e. rotate_left-Rearranges t (and_left _ _ e)) (λ e. Returns-some _ t (Rearranges-refl t))

  split_left-Rearranges : (t : NodeRef V) → Returns (split_left t) (Rearranges t)
  split_left-Rearranges t =
      Returns-if _ (is_red (left_of t) && is_red (left_of (left_of t))) _ _
        (λ e. rotate_right-Rearranges t (and_left _ _ e))
        (λ e. Returns-some _ t (Rearranges-refl t))

  push_red-Rearranges : (t : NodeRef V) → Returns (push_red t) (Rearranges t)
  push_red-Rearranges t =
      Returns-if _ (is_red (left_of t) && is_red (right_of t)) _ _
        (λ e. flip_colors-Rearranges t (and_left _ _ e) (and_right _ _ e))
        (λ e. Returns-some _ t (Rearranges-refl t))

  -- `balance` always returns, and only rearranges.
  pub balance-Rearranges : (t : NodeRef V) → Returns (balance t) (Rearranges t)
  unfolding balance
  balance-Rearranges t = Returns-bind _ (lean_left t) _ (lean_left-Rearranges t) λ x p.
      Returns-bind _ (split_left x) _
        (Returns-imp (λ y. Rearranges-trans p) (split_left-Rearranges x))
        λ y q. Returns-imp (λ z. Rearranges-trans q) (push_red-Rearranges y)

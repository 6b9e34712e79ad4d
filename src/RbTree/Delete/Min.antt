-- ===== src/RbTree/Delete/Min.antt =====
-- `delete_min` on the parts that `delete` gives to it: it returns, takes the leftmost entry away,
-- keeps the balance, and computes again each hash on its way.
use Prim.Native.Nat.{ℕ, zero, suc, ◌≤◌}
use mathlib.Core.List.{append_assoc}
use response_verification.Common.{◌≡◌, refl, ap, sym, ◌∙◌, ◌∷◌, ◌++◌, arith, inr}
use response_verification.Common.Bytes.{Bytes}
use response_verification.Common.Options.{
  Returns, Returns-bind, Returns-both, Returns-imp, Returns-some,
}
use response_verification.Common.Sha.{Sha256}
use response_verification.RbTree.{
  Color, red, black, AsHashTree, NodeRef, nil, node, is_red, is_empty, balance, with_hash,
  flip_colors, rotate_left, rotate_right,
}
use response_verification.RbTree.Entries.{entries}
use response_verification.RbTree.Hashes.{IsHashed, IsLawful}
use response_verification.RbTree.Rotate.{balance-Rearranges}
use response_verification.RbTree.Delete.{size, delete_min, move_red_left}
use response_verification.RbTree.Shape.{
  Shape, leaf_shape, red_shape, two_shape, three_shape, Fits, Shape-is_red, balance-red,
  balance-left, balance-turn,
}

-- A part from which an entry can go: its root or the root's left child is red. Below a red root the
-- removal may leave either color, below a black one the black height stays.
pub data Slack {ℓ} {V : Type ℓ} : Color → ℕ → NodeRef V → Type ℓ where
  loose : {n : ℕ} {t : NodeRef V} → Shape red n t → Slack red n t
  lean :
      {n : ℕ} {k : Bytes} {v : V} {l r : NodeRef V} {h : Bytes}
      → Shape red n l
      → Shape black n r
      → Slack black (suc n) (node k v l r black h)

module _ {ℓ} {V : Type ℓ} ⦃sha : Sha256⦄ ⦃tr : AsHashTree V⦄ where
  -- The hash invariant but for the hashes of the nodes on the left edge.
  abbrev pub IsSpine : NodeRef V → Type 0
  IsSpine nil = Unit
  IsSpine (node k v l r c h) = IsLawful v × IsSpine l × IsHashed r

  pub IsHashed-IsSpine : (t : NodeRef V) → IsHashed t → IsSpine t
  IsHashed-IsSpine nil h = tt
  IsHashed-IsSpine (node k v l r c s) h = (h.1, IsHashed-IsSpine l h.2, h.3)

  -- `u` is `t` without its leftmost entry, its hashes computed again.
  pub record TakesMin (t u : NodeRef V) : Type ℓ where
    pub head : Bytes × V
    pub same : entries t ≡ head ∷ entries u
    pub hashed : IsSpine t → IsHashed u

  -- The end of a step: the left part is put back and `balance` is called.
  take_left :
      {Fit : NodeRef V → Type ℓ} (t : NodeRef V) (k : Bytes) {v : V} {l u : NodeRef V}
      (r : NodeRef V) (c : Color)
      → TakesMin l u
      → entries l ++ ((k, v) ∷ entries r) ≡ entries t
      → (IsSpine t → IsLawful v × IsSpine l × IsHashed r)
      → Returns (balance (with_hash k v u r c)) Fit
      → Returns (balance (with_hash k v u r c)) (λ w. Fit w × TakesMin t w)
  unfolding with_hash
  take_left t k {v} {l} {u} r c p e spine fits = Returns-both fits (
      Returns-imp
        (λ w q. record {
          head = p.head;
          same =
              sym e
              ∙ ap (λ z. z ++ ((k, v) ∷ entries r)) p.same
              ∙ ap (λ z. p.head ∷ z) (sym q.same);
          hashed = λ s. q.hashed (refl, (spine s).0, p.hashed (spine s).1, (spine s).2);
        })
        (balance-Rearranges (with_hash k v u r c)))

  pub delete_min-TakesMin :
      (fuel : ℕ) (c : Color) (n : ℕ) (t : NodeRef V)
      → Slack c n t
      → size t ≤ fuel
      → Returns (delete_min fuel t) (λ u. Fits c n u × TakesMin t u)
  unfolding delete_min is_red move_red_left flip_colors rotate_left rotate_right with_hash is_empty
  delete_min-TakesMin zero c n t (loose (red_shape sl sr)) f = absurd (omega arith)
  delete_min-TakesMin zero c n t (lean sl sr) f = absurd (omega arith)
  delete_min-TakesMin (suc fuel) red n (node k v l r red h)
        (loose (red_shape leaf_shape leaf_shape)) f =
      Returns-some _ _ (inr leaf_shape, record { head = (k, v); same = refl; hashed = λ s. tt })
  delete_min-TakesMin (suc fuel) red n t (loose (red_shape (two_shape a b) (two_shape c d))) f =
      rw (Shape-is_red a) (
        rw (Shape-is_red c) (
          Returns-bind _ (delete_min fuel _) _
            (delete_min-TakesMin fuel red _ _ (loose (red_shape a b)) (omega arith))
            λ u p.
              take_left t _ _ black p.1 refl (λ s. s) (balance-turn _ _ _ p.0 (red_shape c d))))
  delete_min-TakesMin (suc fuel) red n t
        (loose (red_shape (two_shape a b) (three_shape (red_shape c d) e))) f =
      rw (Shape-is_red a) (
        Returns-bind _ (delete_min fuel _) _
          (delete_min-TakesMin fuel black _ _ (lean (red_shape a b) c) (omega arith))
          λ u p.
            take_left t _ _ red p.1 (simp append_assoc)
              (λ s. (s.2.2.1, (s.0, s.1, s.2.2.2), (refl, s.2.1, s.2.2.3, s.2.3)))
              (balance-red _ _ _ p.0 (two_shape d e)))
  delete_min-TakesMin (suc fuel) red n t (loose (red_shape (three_shape (red_shape a b) c) d)) f =
      (Returns-bind _ (delete_min fuel _) _
        (delete_min-TakesMin fuel black _ _ (lean (red_shape a b) c) (omega arith))
        λ u p. take_left t _ _ red p.1 refl (λ s. s) (balance-red _ _ _ p.0 d))
  delete_min-TakesMin (suc fuel) black n t (lean (red_shape a b) d) f =
      (Returns-bind _ (delete_min fuel _) _
        (delete_min-TakesMin fuel red _ _ (loose (red_shape a b)) (omega arith))
        λ u p. take_left t _ _ black p.1 refl (λ s. s) (balance-left _ _ _ p.0 d))

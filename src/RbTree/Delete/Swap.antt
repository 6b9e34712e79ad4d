-- ===== src/RbTree/Delete/Swap.antt =====
-- The leftmost node of the right part takes the deleted entry and gives its own.
use Prim.Native.Nat.{ℕ}
use response_verification.Common.{◌≡◌, refl, ap, List, ◌∷◌, ◌++◌, arith}
use response_verification.Common.Bytes.{Bytes}
use response_verification.Common.Options.{Returns, Returns-imp, Returns-some}
use response_verification.Common.Sha.{Sha256}
use response_verification.RbTree.{Color, AsHashTree, NodeRef, nil, node}
use response_verification.RbTree.Entries.{entries}
use response_verification.RbTree.Hashes.{IsHashed, IsLawful}
use response_verification.RbTree.Delete.{size, min, set_min}
use response_verification.RbTree.Shape.{Shape, leaf_shape, red_shape, two_shape, three_shape}
use response_verification.RbTree.Delete.Min.{Slack, loose, lean, IsSpine}

module _ {ℓ} {V : Type ℓ} (q : Bytes) (w : V) where
  pub size-set_min : (t : NodeRef V) → size (set_min q w t) ≡ size t
  unfolding set_min
  size-set_min nil = refl
  size-set_min (node k v nil r c h) = refl
  size-set_min (node k v (node lk lv ll lr lc lh) r c h) =
      omega (arith, size-set_min (node lk lv ll lr lc lh))

  set_min-Shape : {c : Color} {n : ℕ} {t : NodeRef V} → Shape c n t → Shape c n (set_min q w t)
  unfolding set_min
  set_min-Shape leaf_shape = leaf_shape
  set_min-Shape (red_shape leaf_shape b) = red_shape leaf_shape b
  set_min-Shape (red_shape (two_shape a b) c) = red_shape (set_min-Shape (two_shape a b)) c
  set_min-Shape (red_shape (three_shape a b) c) = red_shape (set_min-Shape (three_shape a b)) c
  set_min-Shape (two_shape leaf_shape b) = two_shape leaf_shape b
  set_min-Shape (two_shape (two_shape a b) c) = two_shape (set_min-Shape (two_shape a b)) c
  set_min-Shape (two_shape (three_shape a b) c) = two_shape (set_min-Shape (three_shape a b)) c
  set_min-Shape (three_shape (red_shape a b) c) = three_shape (set_min-Shape (red_shape a b)) c

  pub set_min-Slack : {c : Color} {n : ℕ} {t : NodeRef V} → Slack c n t → Slack c n (set_min q w t)
  unfolding set_min
  set_min-Slack (loose a) = loose (set_min-Shape a)
  set_min-Slack (lean (red_shape a b) c) = lean (set_min-Shape (red_shape a b)) c

module _ {ℓ} {V : Type ℓ} ⦃sha : Sha256⦄ ⦃tr : AsHashTree V⦄ (q : Bytes) (w : V) where
  -- `m` is the leftmost entry of `t`, and `(q, w)` can take its place.
  pub record Swaps (t : NodeRef V) (m : Bytes × V) : Type ℓ where
    pub tail : List (Bytes × V)
    pub before : entries t ≡ m ∷ tail
    pub after : entries (set_min q w t) ≡ (q, w) ∷ tail
    pub lawful : IsHashed t → IsLawful m.1
    pub spine : IsLawful w → IsHashed t → IsSpine (set_min q w t)

  min-Swaps :
      (k : Bytes) (v : V) (l r : NodeRef V) (c : Color) (h : Bytes)
      → Returns (min (node k v l r c h)) (Swaps (node k v l r c h))
  unfolding min set_min
  min-Swaps k v nil r c h = Returns-some _ _ (record {
    tail = entries r;
    before = refl;
    after = refl;
    lawful = λ s. s.1;
    spine = λ y s. (y, tt, s.3);
  })
  min-Swaps k v (node lk lv ll lr lc lh) r c h =
      Returns-imp
        (λ m p. record {
          tail = p.tail ++ ((k, v) ∷ entries r);
          before = ap (λ z. z ++ ((k, v) ∷ entries r)) p.before;
          after = ap (λ z. z ++ ((k, v) ∷ entries r)) p.after;
          lawful = λ s. p.lawful s.2;
          spine = λ y s. (s.1, p.spine y s.2, s.3);
        })
        (min-Swaps lk lv ll lr lc lh)

  pub Slack-Swaps : {c : Color} {n : ℕ} {t : NodeRef V} → Slack c n t → Returns (min t) (Swaps t)
  Slack-Swaps (loose (red_shape a b)) = min-Swaps _ _ _ _ _ _
  Slack-Swaps (lean a b) = min-Swaps _ _ _ _ _ _

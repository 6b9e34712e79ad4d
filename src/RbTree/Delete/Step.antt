-- ===== src/RbTree/Delete/Step.antt =====
-- One step of the removal: what the recursive call or `delete_min` makes of a part is put back, and
-- `balance` is called.
use Prim.Native.Nat.{ℕ, ◌≤◌}
use Prim.Native.Nat.Ordering.{eq, gt}
use response_verification.Common.{
  ◌≡◌, refl, ap, sym, ◌∙◌, Option, some, List, ◌∷◌, ◌++◌, arith, subst,
}
use response_verification.Common.Bytes.{Bytes, ◌≺◌, compare_bytes, bytes_eq}
use response_verification.Common.Options.{◌>>=◌, Returns, Returns-bind, Returns-both, Returns-imp}
use response_verification.Common.Sha.{Sha256}
use response_verification.RbTree.{Color, AsHashTree, NodeRef, node, balance, with_hash}
use response_verification.RbTree.Entries.{entries, IsSorted, IsSplit, IsSorted-IsSplit, find}
use response_verification.RbTree.Hashes.{IsHashed, IsLawful}
use response_verification.RbTree.Rotate.{balance-Rearranges}
use response_verification.RbTree.Delete.{size, min, set_min, delete_min, delete_below}
use response_verification.RbTree.Delete.Remove.{
  remove, remove-left, remove-right, remove-here, find-left, find-right,
}
use response_verification.RbTree.Shape.{Fits}
use response_verification.RbTree.Delete.Min.{Slack, delete_min-TakesMin}
use response_verification.RbTree.Delete.Swap.{size-set_min, set_min-Slack, Swaps}

module _ {ℓ} {V : Type ℓ} where
  cons_tail : {a b : Bytes × V} {xs ys : List (Bytes × V)} → a ∷ xs ≡ b ∷ ys → xs ≡ ys
  cons_tail e = cc

  -- The tree is ordered and has the key.
  pub record HasKey (q : Bytes) (w : V) (t : NodeRef V) : Type ℓ where
    pub sorted : IsSorted (entries t)
    pub found : find (entries t) q ≡ some w

module _ {ℓ} {V : Type ℓ} ⦃sha : Sha256⦄ ⦃tr : AsHashTree V⦄ where
  -- `u` is `t` without the key.
  pub record Deletes (q : Bytes) (t u : NodeRef V) : Type ℓ where
    pub entries_remove : entries u ≡ remove q (entries t)
    pub hashed : IsHashed t → IsHashed u

  settle :
      {Fit : NodeRef V → Type ℓ} (q : Bytes) (t x : NodeRef V)
      → entries x ≡ remove q (entries t)
      → (IsHashed t → IsHashed x)
      → Returns (balance x) Fit
      → Returns (balance x) (λ z. Fit z × Deletes q t z)
  settle q t x e f fits = Returns-both fits (
      Returns-imp (λ z p. record { entries_remove = p.same ∙ e; hashed = λ s. p.hashed (f s) })
        (balance-Rearranges x))

module _ {ℓ} {V : Type ℓ} ⦃sha : Sha256⦄ ⦃tr : AsHashTree V⦄ (q : Bytes) (w : V) where
  module _ (t : NodeRef V) (has : HasKey q w t) (k : Bytes) (v : V) (l r : NodeRef V) (c : Color)
      (e : entries l ++ ((k, v) ∷ entries r) ≡ entries t)
      (parts : IsHashed t → IsLawful v × IsHashed l × IsHashed r) where
    parted : IsSplit (entries l) k (entries r)
    parted = IsSorted-IsSplit (entries l) k v (entries r) (subst IsSorted (sym e) has.sorted)

    found : find (entries l ++ ((k, v) ∷ entries r)) q ≡ some w
    found = subst (λ z. find z q ≡ some w) (sym e) has.found

    removed :
        {z : List (Bytes × V)}
        → remove q (entries l ++ ((k, v) ∷ entries r)) ≡ z
        → z ≡ remove q (entries t)
    removed f = sym f ∙ ap (remove q) e

    pub step_left :
        {Part Fit : NodeRef V → Type ℓ} (go : NodeRef V → Option (NodeRef V))
        → q ≺ k
        → (HasKey q w l → Returns (go l) (λ u. Part u × Deletes q l u))
        → ((u : NodeRef V) (h : Bytes) → Part u → Returns (balance (node k v u r c h)) Fit)
        → Returns (go l >>= λ u. balance (with_hash k v u r c)) (λ z. Fit z × Deletes q t z)
    unfolding with_hash
    step_left go o run fits =
        Returns-bind _ (go l) _
          (run (record { sorted = parted.left; found = find-left _ k v _ q parted o found }))
          λ u p.
            settle q t (with_hash k v u r c)
              (ap (λ z. z ++ ((k, v) ∷ entries r)) p.1.entries_remove
                ∙ removed (remove-left _ k v _ q parted o))
              (λ s. let h = parts s in (refl, h.0, p.1.hashed h.1, h.2)) (fits u _ p.0)

    step_right :
        {Part Fit : NodeRef V → Type ℓ} (go : NodeRef V → Option (NodeRef V))
        → compare_bytes q k ≡ gt
        → (HasKey q w r → Returns (go r) (λ u. Part u × Deletes q r u))
        → ((u : NodeRef V) (h : Bytes) → Part u → Returns (balance (node k v l u c h)) Fit)
        → Returns (go r >>= λ u. balance (with_hash k v l u c)) (λ z. Fit z × Deletes q t z)
    unfolding with_hash
    step_right go o run fits =
        Returns-bind _ (go r) _
          (run (record { sorted = parted.right; found = find-right _ k v _ q parted o found }))
          λ u p.
            settle q t (with_hash k v l u c)
              (ap (λ z. entries l ++ ((k, v) ∷ z)) p.1.entries_remove
                ∙ removed (remove-right _ k v _ q parted o))
              (λ s. let h = parts s in (refl, h.0, h.1, p.1.hashed h.2)) (fits u _ p.0)

    -- `delete_below` at a node whose right part can lose an entry.
    module _ {Fit : NodeRef V → Type ℓ} (fuel : ℕ) (go : NodeRef V → Option (NodeRef V)) (d : Color)
        (n : ℕ) (h : Bytes)
        (fits : (k : Bytes) (v : V) (u : NodeRef V) (h : Bytes)
          → Fits d n u
          → Returns (balance (node k v l u c h)) Fit) where
      pub below-gt :
          compare_bytes q k ≡ gt
          → (HasKey q w r → Returns (go r) (λ u. Fits d n u × Deletes q r u))
          → Returns (delete_below fuel go q (node k v l r c h)) (λ z. Fit z × Deletes q t z)
      unfolding delete_below
      below-gt o run = rw (o, bytes_eq) (step_right go o run (fits k v))

      pub below-eq :
          compare_bytes q k ≡ eq
          → size r ≤ fuel
          → Slack d n r
          → Returns (min r) (Swaps k v r)
          → Returns (delete_below fuel go q (node k v l r c h)) (λ z. Fit z × Deletes q t z)
      unfolding delete_below with_hash
      below-eq o f slack swap =
          let m = swap.result in
          rw (o, bytes_eq)
            (rw (swap.returned, ◌>>=◌)
              (Returns-bind _ (delete_min fuel (set_min k v r)) _
                (delete_min-TakesMin fuel d n (set_min k v r) (set_min-Slack k v slack)
                  (omega (arith, size-set_min k v r)))
                λ u p.
                  settle q t (with_hash m.0 m.1 l u c)
                    (ap (λ z. entries l ++ z)
                        (ap (λ z. m ∷ z) (cons_tail (sym p.1.same ∙ swap.holds.after))
                          ∙ sym swap.holds.before)
                      ∙ removed (remove-here _ k v _ q parted o))
                    (λ s.
                      let h = parts s in
                      (refl, swap.holds.lawful h.2, h.1, p.1.hashed (swap.holds.spine h.0 h.2)))
                    (fits m.0 m.1 u _ p.0)))

-- ===== src/RbTree/Delete/Ready.antt =====
-- The parts on which the recursion of `delete` is called, and the keys that its rotations bring up.
use Prim.Native.Nat.{ℕ, Ordering, suc, ◌≤◌}
use Prim.Native.Nat.Ordering.{lt, eq, gt}
use response_verification.Common.{◌≡◌, ◌∙◌, sym, Option, arith, ◌⊎◌, inl, inr, ◌++◌, ◌∷◌}
use response_verification.Common.Bytes.{
  Bytes, ◌≺◌, compare_bytes, lt_trans, gt_of_lt, lt_of_gt, eq_of_compare_bytes,
}
use response_verification.Common.Options.{Returns}
use response_verification.Common.Sha.{Sha256}
use response_verification.RbTree.{Color, red, black, AsHashTree, NodeRef, nil, node}
use response_verification.RbTree.Entries.{entries, IsSorted-IsSplit, AllKeys-append, find}
use response_verification.RbTree.Delete.{size}
use response_verification.RbTree.Shape.{Shape, Fits}
use response_verification.RbTree.Delete.Min.{Slack}
use response_verification.RbTree.Delete.Step.{HasKey, Deletes}

-- The key against that of the root.
abbrev pub Root {ℓ} : {V : Type ℓ} → Ordering → Bytes → NodeRef V → Type 0
Root o q nil = ⊥
Root o q (node k v l r c h) = compare_bytes q k ≡ o

-- A part on which the recursion is called: one that can lose an entry, or one whose right child is
-- red, when the key is not on the left.
pub data Ready {ℓ} {V : Type ℓ} (q : Bytes) : Color → ℕ → NodeRef V → Type ℓ where
  slack : {c : Color} {n : ℕ} {t : NodeRef V} → Slack c n t → Ready q c n t
  turned :
      {n : ℕ} {k : Bytes} {v : V} {l r : NodeRef V} {h : Bytes}
      → (compare_bytes q k ≡ gt) ⊎ (compare_bytes q k ≡ eq)
      → Shape black n l
      → Shape red n r
      → Ready q black (suc n) (node k v l r black h)

pub lt_ne_eq : ◌≡◌ {A = Ordering} lt eq → ⊥
lt_ne_eq e = cc

pub gt_ne_lt : ◌≡◌ {A = Ordering} gt lt → ⊥
gt_ne_lt e = cc

module _ {ℓ} {V : Type ℓ} where
  pub Ready-Slack :
      {q : Bytes} {c : Color} {n : ℕ} {t : NodeRef V} → Ready q c n t → Root lt q t → Slack c n t
  Ready-Slack (slack s) e = s
  Ready-Slack (turned (inl g) a b) e = absurd (gt_ne_lt (sym g ∙ e))
  Ready-Slack (turned (inr g) a b) e = absurd (lt_ne_eq (sym e ∙ g))

module _ {ℓ} {V : Type ℓ} ⦃sha : Sha256⦄ ⦃tr : AsHashTree V⦄ (q : Bytes) (w : V) where
  -- What the recursive call does with the fuel that is left.
  abbrev pub Runs : ℕ → (NodeRef V → Option (NodeRef V)) → Type ℓ
  Runs fuel go =
      (c : Color) (n : ℕ) (t : NodeRef V)
      → Ready q c n t
      → size t ≤ fuel
      → HasKey q w t
      → Returns (go t) (λ u. Fits c n u × Deletes q t u)

  pub only_key :
      (k : Bytes) (v : V) (c : Color) (h : Bytes)
      → HasKey q w (node k v nil nil c h)
      → compare_bytes q k ≡ eq
  unfolding find
  only_key k v c h has = ground (arith, has.found)

  -- The keys of the roots that the rotations bring up.
  pub next_key :
      {k rk xk : Bytes} {v rv xv : V} {l rr xl xr : NodeRef V} {c rc xc : Color} {h rh xh : Bytes}
      → HasKey q w (node k v l (node rk rv (node xk xv xl xr xc xh) rr rc rh) c h)
      → k ≺ xk
  next_key {k} {rk} {xk} {v} {rv} {xv} {l} {rr} {xl} {xr} has =
      let s = IsSorted-IsSplit (entries l) k v _ has.sorted in
      (AllKeys-append (λ j. k ≺ j) (entries xl) _
        (AllKeys-append (λ j. k ≺ j) (entries xl ++ ((xk, xv) ∷ entries xr)) _ s.high).0).1.0

  pub last_key :
      {k xk : Bytes} {v xv : V} {r xl xr : NodeRef V} {c xc : Color} {h xh : Bytes}
      → HasKey q w (node k v (node xk xv xl xr xc xh) r c h)
      → (compare_bytes q k ≡ gt) ⊎ (compare_bytes q k ≡ eq)
      → compare_bytes q xk ≡ gt
  last_key {k} {xk} {v} {xv} {r} {xl} {xr} has o =
      let s = IsSorted-IsSplit (entries xl ++ ((xk, xv) ∷ entries xr)) k v (entries r) has.sorted in
      let below : xk ≺ k = (AllKeys-append (λ j. j ≺ k) (entries xl) _ s.low).1.0 in
      gt_of_lt xk q (elim o [
        | inl e ↦ lt_trans xk k q below (lt_of_gt q k e)
        | inr e ↦ rw (eq_of_compare_bytes q k e) below
      ])

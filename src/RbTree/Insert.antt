-- ===== src/RbTree/Insert.antt =====
-- `insert`, `get` and `modify` against the map of a tree's entries.
use Prim.Native.Nat.{Ordering}
use Prim.Native.Nat.Ordering.{lt, eq, gt}
use mathlib.Core.Option
use response_verification.Common.{
  ◌≡◌, refl, sym, ◌∙◌, ap, some, arith, inl, inr, ◌∷◌, ◌++◌, Ordering-cases, if◌then◌else◌,
}
use response_verification.Common.Bytes.{
  Bytes, compare_bytes, bytes_eq, eq_of_compare_bytes, compare_bytes_refl,
}
use response_verification.Common.Options.{Returns, Returns-bind, Returns-some, Returns-imp}
use response_verification.Common.Sha.{Sha256}
use response_verification.RbTree.{
  Color, AsHashTree, NodeRef, nil, node, get, balance, insert_go, insert, with_hash, with_color,
  black, modify, compute_subtree_hash, data_hash,
}
use response_verification.RbTree.Entries.{
  entries, IsSorted, IsSorted-IsSplit, find, put, put_split, put-IsSorted, find-put, get-eq-find,
}
use response_verification.RbTree.Hashes.{IsHashed, IsLawful, with_color-IsHashed}
use response_verification.RbTree.Rotate.{balance-Rearranges}

module _ {ℓ} {V : Type ℓ} where
  pub entries-with_color : (c : Color) (t : NodeRef V) → entries (with_color c t) ≡ entries t
  unfolding with_color
  entries-with_color c nil = refl
  entries-with_color c (node k v l r d h) = refl

module _ {ℓ} {V : Type ℓ} ⦃sha : Sha256⦄ ⦃tr : AsHashTree V⦄ where
  -- `u` is `t` with one entry put in.
  pub record Inserts (k : Bytes) (v : V) (t u : NodeRef V) : Type ℓ where
    pub entries_put : entries u ≡ put k v (entries t)
    pub hashed : IsHashed t → IsHashed u

  module _ (k : Bytes) (v : V) (lawful : IsLawful v) where
    insert_balance :
        (t u : NodeRef V)
        → entries u ≡ put k v (entries t)
        → (IsHashed t → IsHashed u)
        → Returns (balance u) (Inserts k v t)
    insert_balance t u e f =
        Returns-imp (λ w p. record { entries_put = p.same ∙ e; hashed = λ h. p.hashed (f h) })
          (balance-Rearranges u)

    insert_go-Inserts :
        (t : NodeRef V) → IsSorted (entries t) → Returns (insert_go t k v) (Inserts k v t)
    unfolding insert_go
    insert_go-Inserts nil s = Returns-some _ _ (record {
      entries_put = unfold put in refl;
      hashed = λ h. (unfold compute_subtree_hash data_hash in refl, lawful, tt, tt);
    })
    insert_go-Inserts (node hk hv l r c h) s =
        let parts = IsSorted-IsSplit (entries l) hk hv (entries r) s in
        let split = put_split (entries l) hk hv (entries r) k v parts in
        let choose = λ (o : Ordering) (e : compare_bytes k hk ≡ o).
          split
          ∙ ap
              (λ (o : Ordering). elim o [
                | lt ↦ put k v (entries l) ++ ((hk, hv) ∷ entries r)
                | eq ↦ entries l ++ ((hk, v) ∷ entries r)
                | gt ↦ entries l ++ ((hk, hv) ∷ put k v (entries r))
              ])
              e in
        elim (Ordering-cases (compare_bytes k hk)) [
          | inl e ↦
              rw (e, insert_go)
                (Returns-bind _ (insert_go l k v) _ (insert_go-Inserts l parts.left) λ u p.
                  insert_balance (node hk hv l r c h) _
                    (ap (λ z. z ++ ((hk, hv) ∷ entries r)) p.entries_put ∙ sym (choose _ e))
                    (λ q. (refl, q.1, p.hashed q.2, q.3)))
          | inr (inl e) ↦
              rw (e, insert_go)
                (insert_balance (node hk hv l r c h) _ (sym (choose _ e))
                  (λ q. (refl, lawful, q.2, q.3)))
          | inr (inr e) ↦
              rw (e, insert_go)
                (Returns-bind _ (insert_go r k v) _ (insert_go-Inserts r parts.right) λ u p.
                  insert_balance (node hk hv l r c h) _
                    (ap (λ z. entries l ++ ((hk, hv) ∷ z)) p.entries_put ∙ sym (choose _ e))
                    (λ q. (refl, q.1, q.2, p.hashed q.3)))
        ]

    -- Into an ordered tree `insert` never panics; the new tree is ordered, reads as the old one but
    -- for the key, which has the value, and its hashes are right if those of the old one are.
    pub insert_lem :
        (t : NodeRef V)
        → IsSorted (entries t)
        → Returns (insert t k v) (λ u.
          IsSorted (entries u)
          × ((q : Bytes) → get u q ≡ (if bytes_eq q k then some v else get t q))
          × (IsHashed t → IsHashed u))
    unfolding insert
    insert_lem t s = Returns-bind _ (insert_go t k v) _ (insert_go-Inserts t s) λ u p.
        let e = entries-with_color black u ∙ p.entries_put in
        let sorted : IsSorted (entries (with_color black u)) =
          rw e (put-IsSorted k v (entries t) s) in
        Returns-some _ (with_color black u) (
          sorted,
          λ q.
              get-eq-find _ q sorted
              ∙ ap (λ z. find z q) e
              ∙ find-put (entries t) k q v s
              ∙ rw (get-eq-find t q s),
          λ h. with_color-IsHashed black u (p.hashed h),
        )

module _ {ℓ} {V : Type ℓ} ⦃sha : Sha256⦄ ⦃tr : AsHashTree V⦄ where
  -- `modify` applies the function to the value of the key, if there is one, and keeps every other
  -- key, its value and the shape of the map; hashes stay right where the function keeps its values'.
  pub modify_lem :
      (t : NodeRef V) (k : Bytes) (f : V → V) (q : Bytes)
      → get (modify t k f) q ≡ (if bytes_eq q k then Option.map f (get t q) else get t q)
  unfolding modify get with_hash
  modify_lem nil k f q = ground arith
  modify_lem (node j v l r c h) k f q = ground (
    arith,
    modify_lem l k f q,
    modify_lem r k f q,
    eq_of_compare_bytes q k,
    eq_of_compare_bytes q j,
    eq_of_compare_bytes k j,
    compare_bytes_refl j,
  )

  pub modify-IsHashed :
      (t : NodeRef V) (k : Bytes) (f : V → V)
      → ((v : V) → IsLawful v → IsLawful (f v))
      → IsHashed t
      → IsHashed (modify t k f)
  unfolding modify
  modify-IsHashed nil k f keep h = tt
  modify-IsHashed (node j v l r c s) k f keep h = elim (Ordering-cases (compare_bytes k j)) [
    | inl e ↦ rw (e, IsHashed, modify) (refl, h.1, modify-IsHashed l k f keep h.2, h.3)
    | inr (inl e) ↦ rw (e, IsHashed, modify) (refl, keep v h.1, h.2, h.3)
    | inr (inr e) ↦ rw (e, IsHashed, modify) (refl, h.1, h.2, modify-IsHashed r k f keep h.3)
  ]

-- ===== src/Merge.antt =====
-- packages/ic-certification/src/nested_rb_tree.rs, `merge_hash_trees`: two witnesses of one tree
-- overlaid. A panic is `none`. The clauses stand in the order of the `match`.
use response_verification.Common.{◌≡◌, refl, sym, ◌∙◌, Option, none, some, if◌then◌else◌}
use response_verification.Common.Bytes.{Bytes, bytes_eq, bytes_eq_refl}
use response_verification.Common.Options.{◌>>=◌, Returns, Returns-bind, Returns-some}
use response_verification.Common.Sha.{Sha256}
use response_verification.HashTree.{HashTree, empty, fork, labeled, leaf, pruned, digest}
use response_verification.HashTree.Prunes.{
  Prunes, cut, empties, leaves, label, forks, digest-Prunes, Prunes-refl,
}

unfoldable pub merge_hash_trees : HashTree → HashTree → Option HashTree
merge_hash_trees (pruned l) (pruned r) = if bytes_eq l r then some (pruned l) else none
merge_hash_trees (pruned l) r = some r
merge_hash_trees l (pruned r) = some l
merge_hash_trees (fork a b) (fork c d) = do
  x ← merge_hash_trees a c
  y ← merge_hash_trees b d
  some (fork x y)
merge_hash_trees (labeled k s) (labeled l t) =
    let below = merge_hash_trees s t in
    if bytes_eq k l then (do m ← below; some (labeled k m)) else none
merge_hash_trees empty empty = some empty
merge_hash_trees empty r = some r
merge_hash_trees l empty = some l
merge_hash_trees (leaf v) (leaf w) = if bytes_eq v w then some (leaf v) else none
merge_hash_trees _ _ = none

module _ ⦃sha : Sha256⦄ where
  -- The merged tree shows whatever either witness shows, and is a witness of the same tree.
  pub record IsJoin (a b t m : HashTree) : Type 0 where
    pub of_full : Prunes m t
    pub left : Prunes a m
    pub right : Prunes b m

  merge-cut_left :
      (h : Bytes) (b t : HashTree)
      → h ≡ digest t
      → Prunes b t
      → Returns (merge_hash_trees (pruned h) b) (IsJoin (pruned h) b t)
  unfolding merge_hash_trees digest
  merge-cut_left h (pruned k) t e (cut f) =
      let same : h ≡ k = e ∙ sym f in
      rw (← same) (
        rw bytes_eq_refl (
          Returns-some _ (pruned h)
            (record { of_full = cut e; left = cut refl; right = cut refl })))
  merge-cut_left h b t e p =
      Returns-some _ b
        (record { of_full = p; left = cut (e ∙ sym (digest-Prunes p)); right = Prunes-refl b })

  merge-cut_right :
      (a t : HashTree) (k : Bytes)
      → Prunes a t
      → k ≡ digest t
      → Returns (merge_hash_trees a (pruned k)) (IsJoin a (pruned k) t)
  unfolding merge_hash_trees
  merge-cut_right (pruned h) t k (cut f) e = merge-cut_left h (pruned k) t f (cut e)
  merge-cut_right a t k p e =
      Returns-some _ a
        (record { of_full = p; left = Prunes-refl a; right = cut (e ∙ sym (digest-Prunes p)) })

  merge_parts :
      {a b t : HashTree} → Prunes a t → Prunes b t → Returns (merge_hash_trees a b) (IsJoin a b t)
  unfolding merge_hash_trees
  merge_parts (cut {h} {t} e) q = merge-cut_left h _ t e q
  merge_parts {a} {t = t} p (cut {h} e) = merge-cut_right a t h p e
  merge_parts empties empties =
      Returns-some _ empty (record { of_full = empties; left = empties; right = empties })
  merge_parts (leaves {v}) leaves =
      rw bytes_eq_refl
        (Returns-some _ (leaf v) (record { of_full = leaves; left = leaves; right = leaves }))
  merge_parts (label {l} {s} p) (label {s = r} q) = rw bytes_eq_refl (
      Returns-bind _ (merge_hash_trees s r) _ (merge_parts p q) λ m h.
        Returns-some _ (labeled l m)
          (record { of_full = label h.of_full; left = label h.left; right = label h.right }))
  merge_parts (forks {a} {b} p p') (forks {a = c} {b = d} q q') =
      Returns-bind _ (merge_hash_trees a c) _ (merge_parts p q) λ m h.
        Returns-bind _ (merge_hash_trees b d) _ (merge_parts p' q') λ n k.
          Returns-some _ (fork m n) (record {
            of_full = forks h.of_full k.of_full;
            left = forks h.left k.left;
            right = forks h.right k.right;
          })

  -- Two witnesses of one tree merge without a panic into a witness of that tree that shows all that
  -- either shows.
  pub merge_hash_trees-IsJoin :
      (a b t : HashTree) → Prunes a t → Prunes b t → Returns (merge_hash_trees a b) (IsJoin a b t)
  merge_hash_trees-IsJoin a b t p q = merge_parts p q

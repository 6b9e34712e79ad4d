-- ===== src/HashTree/Lookup.antt =====
-- What a lookup in a witness says of the tree that the witness was pruned from.
use Prim.Native.Nat.{Ordering}
use Prim.Native.Nat.Ordering.{lt, eq, gt}
use response_verification.Common.{◌≡◌, refl, ◌≢◌, List, [], ◌∷◌}
use response_verification.Common.Bytes.{Bytes, compare_bytes}
use response_verification.Common.Sha.{Sha256}
use response_verification.HashTree.{
  HashTree, labeled, LookupLabelResult, LookupResult, SubtreeLookupResult, fork_label, at_end,
  lookup_label, lookup_path, lookup_subtree, path_step, subtree_step,
}
use response_verification.HashTree.LookupLabelResult.{absent, unknown, less, greater, found}
use response_verification.HashTree.Order.{IsWellFormed, left_of_not_less}
use response_verification.HashTree.Prunes.{Prunes, cut, empties, leaves, label, forks}

module _ ⦃sha : Sha256⦄ where
  -- A witness's answer against the full tree's: `unknown` says nothing, anything else is the same.
  pub data Agrees : LookupLabelResult → LookupLabelResult → Type 0 where
    silent : {r : LookupLabelResult} → Agrees unknown r
    both_absent : Agrees absent absent
    both_less : Agrees less less
    both_greater : Agrees greater greater
    both_found : {n m : HashTree} → Prunes n m → IsWellFormed m → Agrees (found n) (found m)

  not_less_of_Agrees : {r s : LookupLabelResult} → Agrees r s → r ≢ less → r ≢ unknown → s ≢ less
  not_less_of_Agrees silent n u e = u refl
  not_less_of_Agrees both_absent n u e = n e
  not_less_of_Agrees both_less n u e = n refl
  not_less_of_Agrees both_greater n u e = n e
  not_less_of_Agrees (both_found p w) n u e = cc

  -- Where the left part of a fork is pruned and the right part answers, the left part passes.
  fork-Agrees_silent :
      {r s : LookupLabelResult} (left : LookupLabelResult)
      → (s ≢ less → left ≡ greater)
      → Agrees r s
      → Agrees (fork_label unknown r) (fork_label left s)
  fork-Agrees_silent left pass silent = silent
  fork-Agrees_silent left pass both_absent = rw (pass (λ e. cc)) both_absent
  fork-Agrees_silent left pass both_less = silent
  fork-Agrees_silent left pass both_greater = rw (pass (λ e. cc)) both_greater
  fork-Agrees_silent left pass (both_found p w) = rw (pass (λ e. cc)) (both_found p w)

  fork-Agrees_greater :
      {r s : LookupLabelResult} → Agrees r s → Agrees (fork_label greater r) (fork_label greater s)
  fork-Agrees_greater silent = silent
  fork-Agrees_greater both_absent = both_absent
  fork-Agrees_greater both_less = both_absent
  fork-Agrees_greater both_greater = both_greater
  fork-Agrees_greater (both_found p w) = both_found p w

  fork-Agrees :
      {r s r' s' : LookupLabelResult}
      → (s' ≢ less → s ≡ greater)
      → Agrees r s
      → Agrees r' s'
      → Agrees (fork_label r r') (fork_label s s')
  fork-Agrees {s = s} pass silent q = fork-Agrees_silent s pass q
  fork-Agrees pass both_absent q = both_absent
  fork-Agrees pass both_less q = both_less
  fork-Agrees pass both_greater q = fork-Agrees_greater q
  fork-Agrees pass (both_found p w) q = both_found p w

  label-Agrees :
      (l q : Bytes) (s t : HashTree)
      → Prunes s t
      → IsWellFormed t
      → Agrees (lookup_label (labeled l s) q) (lookup_label (labeled l t) q)
  unfolding lookup_label
  label-Agrees l q s t p w = elim (compare_bytes q l) as (λ c. Agrees (at c s) (at c t)) [
    | lt ↦ both_less
    | eq ↦ both_found p w
    | gt ↦ both_greater
  ]
    where
      at : Ordering → HashTree → LookupLabelResult
      at c n = elim c [ gt ↦ greater | eq ↦ found n | lt ↦ less ]

  -- A witness of a well-formed tree answers as the tree does, or not at all.
  pub lookup_label-Agrees :
      {s t : HashTree} (q : Bytes)
      → Prunes s t
      → IsWellFormed t
      → Agrees (lookup_label s q) (lookup_label t q)
  unfolding lookup_label
  lookup_label-Agrees q (cut e) w = silent
  lookup_label-Agrees q empties w = both_absent
  lookup_label-Agrees q leaves w = both_absent
  lookup_label-Agrees q (label {l} {s} {t} p) w = label-Agrees l q s t p w
  lookup_label-Agrees q (forks {c = c} {d = d} p p') w =
      fork-Agrees (left_of_not_less c d q w) (lookup_label-Agrees q p w.3)
        (lookup_label-Agrees q p' w.4)

  -- The results of a whole path, in the witness and in the full tree.
  pub data AgreesPath : LookupResult → LookupResult → Type 0 where
    silent_path : {r : LookupResult} → AgreesPath LookupResult.unknown r
    same_path : {r : LookupResult} → AgreesPath r r

  at_end-Agrees : {s t : HashTree} → Prunes s t → AgreesPath (at_end s) (at_end t)
  at_end-Agrees (cut e) = silent_path
  at_end-Agrees empties = same_path
  at_end-Agrees leaves = same_path
  at_end-Agrees (label p) = same_path
  at_end-Agrees (forks p q) = same_path

  path_step-Agrees :
      {r r' : LookupLabelResult} (next : HashTree → LookupResult)
      → Agrees r r'
      → ((n m : HashTree) → Prunes n m → IsWellFormed m → AgreesPath (next n) (next m))
      → AgreesPath (path_step r next) (path_step r' next)
  path_step-Agrees next silent below = silent_path
  path_step-Agrees next both_absent below = same_path
  path_step-Agrees next both_less below = same_path
  path_step-Agrees next both_greater below = same_path
  path_step-Agrees next (both_found {n} {m} p w) below = below n m p w

  -- The lookup of a path in a witness answers `Unknown`, or as the full tree does.
  pub lookup_path-Agrees :
      (path : List Bytes) (s t : HashTree)
      → Prunes s t
      → IsWellFormed t
      → AgreesPath (lookup_path s path) (lookup_path t path)
  unfolding lookup_path
  lookup_path-Agrees [] s t p w = at_end-Agrees p
  lookup_path-Agrees (q ∷ path) s t p w =
      path_step-Agrees (λ n. lookup_path n path) (lookup_label-Agrees q p w)
        (lookup_path-Agrees path)

  -- The subtrees found below a path, in the witness and in the full tree.
  pub data AgreesSubtree : SubtreeLookupResult → SubtreeLookupResult → Type 0 where
    silent_subtree : {r : SubtreeLookupResult} → AgreesSubtree SubtreeLookupResult.unknown r
    no_subtree : AgreesSubtree SubtreeLookupResult.absent SubtreeLookupResult.absent
    subtrees :
        {n m : HashTree}
        → Prunes n m
        → IsWellFormed m
        → AgreesSubtree (SubtreeLookupResult.found n) (SubtreeLookupResult.found m)

  subtree_step-Agrees :
      {r r' : LookupLabelResult} (next : HashTree → SubtreeLookupResult)
      → Agrees r r'
      → ((n m : HashTree) → Prunes n m → IsWellFormed m → AgreesSubtree (next n) (next m))
      → AgreesSubtree (subtree_step r next) (subtree_step r' next)
  subtree_step-Agrees next silent below = silent_subtree
  subtree_step-Agrees next both_absent below = no_subtree
  subtree_step-Agrees next both_less below = no_subtree
  subtree_step-Agrees next both_greater below = no_subtree
  subtree_step-Agrees next (both_found {n} {m} p w) below = below n m p w

  -- The lookup of a subtree in a witness answers `Unknown`, or `Absent` as the full tree does, or
  -- finds a witness of what the full tree has there.
  pub lookup_subtree-Agrees :
      (path : List Bytes) (s t : HashTree)
      → Prunes s t
      → IsWellFormed t
      → AgreesSubtree (lookup_subtree s path) (lookup_subtree t path)
  unfolding lookup_subtree
  lookup_subtree-Agrees [] s t p w = subtrees p w
  lookup_subtree-Agrees (q ∷ path) s t p w =
      subtree_step-Agrees (λ n. lookup_subtree n path) (lookup_label-Agrees q p w)
        (lookup_subtree-Agrees path)

-- ===== src/Examples/Trees.antt =====
-- Examples of the theorems on hash trees and their witnesses.
use response_verification.Common.{◌≡◌, refl, List, [], ◌∷◌, ◌⊎◌, ◌↔◌, In}
use response_verification.Common.Bytes.{Bytes, codes, compare_bytes}
use response_verification.Common.Options.{Returns}
use response_verification.Common.Sha.{Collision}
use response_verification.HashTree.{
  lookup_label, HashTree, fork, labeled, leaf, pruned, domain_sep, digest, LookupResult,
  lookup_path, lookup_subtree, list_paths,
}
use response_verification.HashTree.Order.{IsWellFormed}
use response_verification.HashTree.Prunes.{Prunes, cut, label, forks, leaves}
use response_verification.HashTree.Lookup.{AgreesSubtree}
use response_verification.HashTree.Binding.{IsSized}
use response_verification.HashTree.Certified.{lookup_path_certified, lookup_subtree_certified}
use response_verification.HashTree.Paths.{list_paths-lookup_path}
use response_verification.Merge.{merge_hash_trees, IsJoin, merge_hash_trees-IsJoin}
use response_verification.Examples.{toy_sha}

abbrev full_tree : HashTree
full_tree =
    fork (labeled (codes "a") (leaf (codes "one"))) (labeled (codes "b") (leaf (codes "two")))

abbrev path_a : List Bytes
path_a = codes "a" ∷ []

-- The full tree with either side hidden.
abbrev left_witness : HashTree
left_witness =
    fork (labeled (codes "a") (leaf (codes "one")))
      (pruned (digest (labeled (codes "b") (leaf (codes "two")))))

abbrev right_witness : HashTree
right_witness =
    fork (pruned (digest (labeled (codes "a") (leaf (codes "one")))))
      (labeled (codes "b") (leaf (codes "two")))

left_witness-IsSized : IsSized left_witness
unfolding digest domain_sep
left_witness-IsSized = (tt, refl)

full_tree-IsWellFormed : IsWellFormed full_tree
unfolding compare_bytes
full_tree-IsWellFormed = (tt, tt, refl, tt, tt)

left_witness-Prunes : Prunes left_witness full_tree
left_witness-Prunes = forks (label leaves) (cut refl)

right_witness-Prunes : Prunes right_witness full_tree
right_witness-Prunes = forks (cut refl) (label leaves)

left_witness-digest : digest left_witness ≡ digest full_tree
unfolding digest
left_witness-digest = refl

lookup_path_certified_example :
    (lookup_path left_witness path_a ≡ LookupResult.unknown)
    ⊎ (lookup_path left_witness path_a ≡ lookup_path full_tree path_a)
    ⊎ Collision toy_sha
lookup_path_certified_example =
    lookup_path_certified left_witness full_tree path_a left_witness-IsSized full_tree-IsWellFormed
      left_witness-digest

lookup_subtree_certified_example :
    AgreesSubtree (lookup_subtree left_witness path_a) (lookup_subtree full_tree path_a)
    ⊎ Collision toy_sha
lookup_subtree_certified_example =
    lookup_subtree_certified left_witness full_tree path_a left_witness-IsSized
      full_tree-IsWellFormed left_witness-digest

merge_hash_trees-IsJoin_example :
    Returns
      (merge_hash_trees left_witness right_witness)
      (IsJoin left_witness right_witness full_tree)
merge_hash_trees-IsJoin_example =
    merge_hash_trees-IsJoin left_witness right_witness full_tree left_witness-Prunes
      right_witness-Prunes

list_paths-lookup_path_example :
    In path_a (list_paths full_tree [])
    ↔ ((v : Bytes) × (lookup_path full_tree path_a ≡ LookupResult.found v))
list_paths-lookup_path_example = list_paths-lookup_path full_tree path_a full_tree-IsWellFormed

-- A tree that is not well formed: the label `y` stands beside an empty part.
abbrev beside_empty : HashTree
beside_empty =
    fork (fork (labeled (codes "x") (leaf (codes "hello"))) HashTree.empty)
      (labeled (codes "y") (leaf (codes "world")))

-- Its path is listed, and the lookup answers that it is absent.
beside_empty_run :
    (list_paths beside_empty [] ≡ (codes "x" ∷ []) ∷ (codes "y" ∷ []) ∷ [])
    × (lookup_path beside_empty (codes "y" ∷ []) ≡ LookupResult.absent)
unfolding list_paths lookup_path lookup_label compare_bytes
beside_empty_run = (refl, refl)

-- Beside an empty part a pruned part answers that a label is absent.
pruned_beside_empty_run :
    lookup_path (fork (pruned (codes "hash")) HashTree.empty) path_a ≡ LookupResult.absent
unfolding lookup_path lookup_label
pruned_beside_empty_run = refl

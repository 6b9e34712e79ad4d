-- ===== src/HashTree.antt =====
-- packages/ic-certification/src/hash_tree/mod.rs: hash trees, their digest, and the lookups. The
-- one-field struct `HashTree { root }` and its `HashTreeNode` are one type here, and so are the
-- constructors `empty`, `fork`, `label`, `leaf`, `pruned` of the module and those of the enum. Labels
-- and leaves are byte strings whatever their `Storage`. The proofs are in the modules below.
pub mod Order
pub mod Prunes
pub mod Carries
pub mod Clear
pub mod Lookup
pub mod Paths
pub mod Binding
pub mod Certified
use Prim.Native.Nat.Ordering.{lt, eq, gt}
use response_verification.Common.{String, List, [], ◌∷◌, ◌++◌, length}
use response_verification.Common.Bytes.{Bytes, codes, compare_bytes}
use response_verification.Common.Sha.{Sha256}

pub data HashTree : Type 0 where
  empty : HashTree
  fork : HashTree → HashTree → HashTree
  labeled : Bytes → HashTree → HashTree
  leaf : Bytes → HashTree
  pruned : Bytes → HashTree

-- The separators are shorter than 256 bytes, so that the length is its own `u8`.
unfoldable pub domain_sep : String → Bytes
domain_sep s = length (codes s) ∷ codes s

module _ ⦃sha : Sha256⦄ where
  -- Successive `update` calls hash the concatenation.
  unfoldable pub digest : HashTree → Bytes
  digest empty = sha.hash (domain_sep "ic-hashtree-empty")
  digest (fork l r) = sha.hash (domain_sep "ic-hashtree-fork" ++ (digest l ++ digest r))
  digest (labeled l t) = sha.hash (domain_sep "ic-hashtree-labeled" ++ (l ++ digest t))
  digest (leaf b) = sha.hash (domain_sep "ic-hashtree-leaf" ++ b)
  digest (pruned h) = h

  unfoldable pub fork_hash : Bytes → Bytes → Bytes
  fork_hash l r = sha.hash (domain_sep "ic-hashtree-fork" ++ (l ++ r))

  unfoldable pub leaf_hash : Bytes → Bytes
  leaf_hash d = sha.hash (domain_sep "ic-hashtree-leaf" ++ d)

  unfoldable pub labeled_hash : Bytes → Bytes → Bytes
  labeled_hash l h = sha.hash (domain_sep "ic-hashtree-labeled" ++ (l ++ h))

pub data LookupLabelResult : Type 0 where
  absent unknown less greater : LookupLabelResult
  found : HashTree → LookupLabelResult

-- The right result where the label lies beyond the left part, and where the left part is pruned.
abbrev pub after_greater : LookupLabelResult → LookupLabelResult
after_greater less = absent
after_greater r = r

abbrev pub after_unknown : LookupLabelResult → LookupLabelResult
after_unknown less = unknown
after_unknown r = r

abbrev pub fork_label : LookupLabelResult → LookupLabelResult → LookupLabelResult
fork_label greater right = after_greater right
fork_label unknown right = after_unknown right
fork_label left _ = left

unfoldable pub lookup_label : HashTree → Bytes → LookupLabelResult
lookup_label (labeled l n) q = elim (compare_bytes q l) [ gt ↦ greater | eq ↦ found n | lt ↦ less ]
lookup_label (fork a b) q = fork_label (lookup_label a q) (lookup_label b q)
lookup_label (pruned h) q = unknown
lookup_label empty q = absent
lookup_label (leaf b) q = absent

pub data LookupResult : Type 0 where
  absent unknown error : LookupResult
  found : Bytes → LookupResult

abbrev pub at_end : HashTree → LookupResult
at_end (leaf v) = LookupResult.found v
at_end empty = LookupResult.absent
at_end (pruned h) = LookupResult.unknown
at_end (labeled l n) = LookupResult.error
at_end (fork a b) = LookupResult.error

-- One label's result, and how the rest of the path goes on below a node that was found.
abbrev pub path_step : LookupLabelResult → (HashTree → LookupResult) → LookupResult
path_step (LookupLabelResult.found n) next = next n
path_step LookupLabelResult.unknown next = LookupResult.unknown
path_step LookupLabelResult.absent next = LookupResult.absent
path_step LookupLabelResult.greater next = LookupResult.absent
path_step LookupLabelResult.less next = LookupResult.absent

unfoldable pub lookup_path : HashTree → List Bytes → LookupResult
lookup_path t [] = at_end t
lookup_path t (q ∷ path) = path_step (lookup_label t q) (λ n. lookup_path n path)

pub data SubtreeLookupResult : Type 0 where
  absent unknown : SubtreeLookupResult
  found : HashTree → SubtreeLookupResult

abbrev pub subtree_step : LookupLabelResult → (HashTree → SubtreeLookupResult) → SubtreeLookupResult
subtree_step (LookupLabelResult.found n) next = next n
subtree_step LookupLabelResult.unknown next = SubtreeLookupResult.unknown
subtree_step LookupLabelResult.absent next = SubtreeLookupResult.absent
subtree_step LookupLabelResult.greater next = SubtreeLookupResult.absent
subtree_step LookupLabelResult.less next = SubtreeLookupResult.absent

unfoldable pub lookup_subtree : HashTree → List Bytes → SubtreeLookupResult
lookup_subtree t [] = SubtreeLookupResult.found t
lookup_subtree t (q ∷ path) = subtree_step (lookup_label t q) (λ n. lookup_subtree n path)

unfoldable pub list_paths : HashTree → List Bytes → List (List Bytes)
list_paths empty path = []
list_paths (fork a b) path = list_paths a path ++ list_paths b path
list_paths (leaf v) path = path ∷ []
list_paths (labeled l n) path = list_paths n (path ++ l ∷ [])
list_paths (pruned h) path = []

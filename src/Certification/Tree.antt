-- ===== src/Certification/Tree.antt =====
-- packages/ic-http-certification/src/tree/certification_tree.rs: `HttpCertificationTree`, a nested tree
-- of bytes. The value is the tree that the struct holds; a panic is `none`.
pub mod Reached
pub mod Shown
pub mod Witness
use response_verification.Common.{Option, none, some, List, [], ◌∷◌, length, ltb, if◌then◌else◌}
use response_verification.Common.Bytes.{Bytes}
use response_verification.Common.Options.{◌>>=◌}
use response_verification.Common.Results.{ok, err}
use response_verification.Common.Sha.{Sha256}
use response_verification.HashTree.{HashTree, labeled, labeled_hash}
use response_verification.RbTree.{bytes_as_hash_tree}
use response_verification.NestedTree
use response_verification.NestedTree.{NestedTree}
use response_verification.Merge.{merge_hash_trees}
use response_verification.Wildcard.{Segments, path_prefix, more_specific_wildcards_for}
use response_verification.Certification.{
  HttpCertificationResult, wildcard_path_not_valid_for_request_path,
}
use response_verification.Certification.TreePath.{
  HttpCertificationPath, exact, wildcard, to_tree_path, TreeEntry, entry_to_tree_path,
}

-- `CertificationTree`.
abbrev pub CertificationTree : Type 0
CertificationTree = NestedTree Bytes

-- `default()`.
abbrev pub empty_certification_tree : CertificationTree
empty_certification_tree = NestedTree.empty_tree

module _ ⦃sha : Sha256⦄ where
  unfoldable pub certification_root_hash : CertificationTree → Bytes
  certification_root_hash tree = labeled_hash path_prefix (NestedTree.root_hash tree)

  unfoldable pub insert_entry : CertificationTree → TreeEntry → Option CertificationTree
  insert_entry tree entry = NestedTree.insert tree (entry_to_tree_path entry) []

  unfoldable pub delete_entry : CertificationTree → TreeEntry → Option CertificationTree
  delete_entry tree entry = NestedTree.delete tree (entry_to_tree_path entry)

  unfoldable pub delete_by_path :
      CertificationTree → HttpCertificationPath → Option CertificationTree
  delete_by_path tree path = NestedTree.delete tree (to_tree_path path)

  unfoldable pub clear_entries : CertificationTree → CertificationTree
  clear_entries tree = NestedTree.clear tree

  -- The `fold` over the wildcard paths.
  unfoldable pub merge_witnesses : CertificationTree → HashTree → List Segments → Option HashTree
  merge_witnesses tree acc [] = some acc
  merge_witnesses tree acc (path ∷ paths) = do
    merged ← merge_hash_trees acc (NestedTree.witness tree path)
    merge_witnesses tree merged paths

  -- The witness for a wildcard that is not longer than what was requested.
  unfoldable pub wildcard_witness : CertificationTree → Segments → Segments → Option HashTree
  wildcard_witness tree requested responding = do
    let witness = NestedTree.witness tree requested
    merged ← merge_hash_trees witness (NestedTree.witness tree responding)
    paths ← more_specific_wildcards_for requested responding
    merge_witnesses tree merged paths

  unfoldable pub entry_witness :
      CertificationTree → TreeEntry → Bytes → Option (HttpCertificationResult HashTree)
  entry_witness tree entry request_url = elim entry.path [
    | exact path ↦
        some (ok (labeled path_prefix (NestedTree.witness tree (entry_to_tree_path entry))))
    | wildcard wildcard_path ↦
        let requested = to_tree_path (exact request_url) in
        let responding = to_tree_path (wildcard wildcard_path) in
        let merged = wildcard_witness tree requested responding in
        if ltb (length requested) (length responding)
        then some (err (wildcard_path_not_valid_for_request_path wildcard_path request_url))
        else (do witness ← merged; some (ok (labeled path_prefix witness)))
  ]

-- ===== src/Examples/Entries.antt =====
-- Examples of the theorems on the certification tree.
use response_verification.Common.{◌≡◌, refl, Option, none, some, []}
use response_verification.Common.Bytes.{codes, compare_bytes}
use response_verification.Common.Options.{Returns}
use response_verification.NestedTree
use response_verification.RbTree
use response_verification.RbTree.{bytes_as_hash_tree}
use response_verification.Certification.HttpCertification.{HttpCertification, certification_path}
use response_verification.Certification.TreePath.{
  exact, wildcard, TreeEntry, entry_to_tree_path, to_tree_path, path_to_segments,
}
use response_verification.Certification.Tree.{
  CertificationTree, empty_certification_tree, insert_entry, delete_entry, delete_by_path,
  entry_witness,
}
use response_verification.Certification.Tree.Reached.{
  Reached, start, next, inserted, Reached-certified, certified,
}
use response_verification.Certification.Tree.Witness.{entry_witness-Answers, Answers}
use response_verification.Examples.{toy_sha}

-- The certification of a fallback for all paths.
abbrev fallback : TreeEntry
fallback = record {
  path = wildcard (codes "/");
  certification = HttpCertification.skip (codes "cel");
}

abbrev image : TreeEntry
image = record {
  path = exact (codes "/a.png");
  certification = HttpCertification.response_only (codes "cel") (codes "hash");
}

abbrev or_empty : Option CertificationTree → CertificationTree
or_empty none = empty_certification_tree
or_empty (some t) = t

abbrev one_entry : CertificationTree
one_entry = or_empty (insert_entry empty_certification_tree fallback)

insert_fallback : insert_entry empty_certification_tree fallback ≡ some one_entry
unfolding insert_entry NestedTree.insert NestedTree.ensure_key RbTree.get RbTree.insert
    RbTree.modify RbTree.insert_go RbTree.new_node RbTree.with_hash RbTree.with_color
    RbTree.compute_subtree_hash RbTree.data_hash RbTree.balance RbTree.is_red entry_to_tree_path
    to_tree_path path_to_segments certification_path compare_bytes
insert_fallback = refl

one_entry-Reached : Reached one_entry
one_entry-Reached = next start (inserted fallback insert_fallback)

Reached-certified_example :
    Returns (insert_entry one_entry image) (λ u. Reached u × (certified u image ≡ some []))
    × Returns (delete_entry one_entry image) (λ u. Reached u × (certified u image ≡ none))
    × Returns (delete_by_path one_entry image.path) (λ u.
      Reached u × ((other : TreeEntry) → other.path ≡ image.path → certified u other ≡ none))
Reached-certified_example = Reached-certified one_entry image one_entry-Reached

entry_witness-Answers_example :
    Returns
      (entry_witness one_entry fallback (codes "/a/b"))
      (Answers one_entry fallback (codes "/a/b"))
entry_witness-Answers_example =
    entry_witness-Answers one_entry fallback (codes "/a/b") one_entry-Reached

-- ===== src/Examples/Deletes.antt =====
-- Examples of the theorems on insertion, deletion and balance, and a run of both.
use Prim.Native.Nat.{ℕ, ◌*◌, ◌^◌, ◌≤◌, ◌+◌}
use response_verification.Common.{◌≡◌, refl, if◌then◌else◌, some, none}
use response_verification.Common.Bytes.{Bytes, codes, compare_bytes, bytes_eq}
use response_verification.Common.Options.{Returns}
use response_verification.RbTree.{
  black, NodeRef, nil, with_hash, get, insert, insert_go, is_empty, new_node, compute_subtree_hash,
  data_hash, with_color, balance, is_red, bytes_as_hash_tree,
}
use response_verification.RbTree.Entries.{entries, IsSorted}
use response_verification.RbTree.Hashes.{IsHashed}
use response_verification.RbTree.Shape.{leaf_shape, red_shape, three_shape, IsBalanced}
use response_verification.RbTree.Balanced.{insert-IsBalanced}
use response_verification.RbTree.Built.{
  Built, fresh, inserted, deleted, IsValid, Built-IsValid, Built-height, height,
}
use response_verification.RbTree.Delete.{size, delete, delete_go, delete_left, delete_right}
use response_verification.RbTree.Delete.Go.{delete_lem}
use response_verification.Examples.{toy_sha}
use response_verification.Examples.Nodes.{sample, sample-IsSorted, lawful}

abbrev single : NodeRef Bytes
single = with_hash (codes "b") (codes "two") nil nil black

insert_first : insert nil (codes "b") (codes "two") ≡ some single
unfolding insert insert_go new_node with_hash with_color compute_subtree_hash data_hash
insert_first = refl

insert_second : insert single (codes "a") (codes "one") ≡ some sample
unfolding insert insert_go new_node with_hash with_color balance is_red compare_bytes
    compute_subtree_hash data_hash
insert_second = refl

delete_second : delete sample (codes "a") ≡ some single
unfolding delete get delete_go delete_left delete_right with_hash with_color balance is_red
    compare_bytes compute_subtree_hash data_hash is_empty
delete_second = refl

sample-IsBalanced : IsBalanced sample
unfolding with_hash
sample-IsBalanced = (1, three_shape (red_shape leaf_shape leaf_shape) leaf_shape)

sample-Built : Built sample
sample-Built =
    inserted (codes "a") (codes "one")
      (inserted (codes "b") (codes "two") fresh (lawful (codes "two")) insert_first)
      (lawful (codes "one")) insert_second

single-Built : Built single
single-Built = deleted (codes "a") sample-Built delete_second

insert-IsBalanced_example : Returns (insert sample (codes "c") (codes "three")) IsBalanced
insert-IsBalanced_example = insert-IsBalanced (codes "c") (codes "three") sample sample-IsBalanced

delete_lem_example : Returns (delete sample (codes "b")) (λ u.
    IsSorted (entries u)
    × IsBalanced u
    × ((j : Bytes) → get u j ≡ (if bytes_eq j (codes "b") then none else get sample j))
    × (IsHashed sample → IsHashed u))
delete_lem_example = delete_lem (codes "b") sample sample-IsSorted sample-IsBalanced

Built-IsValid_example : IsValid single
Built-IsValid_example = Built-IsValid single single-Built

Built-height_example : (n : ℕ) × (height sample ≤ 2 * n) × (2 ^ n ≤ size sample + 1)
Built-height_example = Built-height sample sample-Built

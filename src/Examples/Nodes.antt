-- ===== src/Examples/Nodes.antt =====
-- Examples of the theorems on red-black trees.
use mathlib.Core.Option
use response_verification.Common.{◌≡◌, refl, if◌then◌else◌, some}
use response_verification.Common.Bytes.{Bytes, codes, compare_bytes, bytes_eq}
use response_verification.Common.Options.{Returns}
use response_verification.HashTree.{digest, leaf_hash}
use response_verification.HashTree.Prunes.{Prunes}
use response_verification.RbTree.{
  red, black, NodeRef, nil, with_hash, get, insert, modify, bytes_as_hash_tree,
}
use response_verification.RbTree.Entries.{entries, IsSorted}
use response_verification.RbTree.Hashes.{IsHashed, IsLawful}
use response_verification.RbTree.Insert.{insert_lem, modify_lem}
use response_verification.RbTree.Witness.{
  root_hash, as_hash_tree, witness, keys, key_range, value_range, keys_with_prefix,
}
use response_verification.RbTree.Certify.{witnesses_certify}
use response_verification.Examples.{toy_sha}

abbrev sample_left : NodeRef Bytes
sample_left = with_hash (codes "a") (codes "one") nil nil red

abbrev pub sample : NodeRef Bytes
sample = with_hash (codes "b") (codes "two") sample_left nil black

pub sample-IsSorted : IsSorted (entries sample)
unfolding with_hash compare_bytes
sample-IsSorted = ((refl, tt), (tt, tt))

pub lawful : (v : Bytes) → IsLawful v
unfolding bytes_as_hash_tree digest leaf_hash
lawful v = refl

sample-IsHashed : IsHashed sample
unfolding with_hash
sample-IsHashed = (refl, lawful (codes "two"), (refl, lawful (codes "one"), tt, tt), tt)

insert_lem_example : Returns (insert sample (codes "c") (codes "three")) (λ u.
    IsSorted (entries u)
    × ((q : Bytes)
        → get u q ≡ (if bytes_eq q (codes "c") then some (codes "three") else get sample q))
    × (IsHashed sample → IsHashed u))
insert_lem_example =
    insert_lem (codes "c") (codes "three") (lawful (codes "three")) sample sample-IsSorted

modify_lem_example : get (modify sample (codes "a") (λ v. codes "x")) (codes "b") ≡ (
    if bytes_eq (codes "b") (codes "a")
    then Option.map (λ v. codes "x") (get sample (codes "b"))
    else get sample (codes "b"))
modify_lem_example = modify_lem sample (codes "a") (λ v. codes "x") (codes "b")

witnesses_certify_example :
    (Prunes (witness sample (codes "a")) (as_hash_tree sample)
      × (digest (witness sample (codes "a")) ≡ root_hash sample))
    × (Prunes (keys sample) (as_hash_tree sample) × (digest (keys sample) ≡ root_hash sample))
    × (Prunes (key_range sample (codes "a") (codes "b")) (as_hash_tree sample)
        × (digest (key_range sample (codes "a") (codes "b")) ≡ root_hash sample))
    × (Prunes (value_range sample (codes "a") (codes "b")) (as_hash_tree sample)
        × (digest (value_range sample (codes "a") (codes "b")) ≡ root_hash sample))
    × (Prunes (keys_with_prefix sample (codes "a")) (as_hash_tree sample)
        × (digest (keys_with_prefix sample (codes "a")) ≡ root_hash sample))
witnesses_certify_example = witnesses_certify sample (codes "a") (codes "b") sample-IsHashed

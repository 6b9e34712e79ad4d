-- ===== src/HashTree/Order.antt =====
-- Well-formed full trees: nothing is pruned, the parts of a fork are labels or forks, and the
-- labels of a fork increase from left to right.
use response_verification.Common.{◌≡◌, ◌≢◌, arith, ap}
use response_verification.Common.Bytes.{
  Bytes, ◌≺◌, eq_of_compare_bytes, lt_of_gt, gt_of_lt, lt_trans,
}
use response_verification.HashTree.{
  HashTree, empty, fork, labeled, leaf, pruned, fork_label, lookup_label,
}
use response_verification.HashTree.LookupLabelResult.{less, greater}

-- The labels that a lookup of one label compares with.
abbrev pub AllLabels : (Bytes → Type 0) → HashTree → Type 0
AllLabels P (labeled l n) = P l
AllLabels P (fork a b) = AllLabels P a × AllLabels P b
AllLabels P empty = Unit
AllLabels P (leaf b) = Unit
AllLabels P (pruned h) = Unit

abbrev pub IsBranch : HashTree → Type 0
IsBranch (labeled l n) = Unit
IsBranch (fork a b) = Unit
IsBranch empty = ⊥
IsBranch (leaf b) = ⊥
IsBranch (pruned h) = ⊥

abbrev pub IsBefore : HashTree → HashTree → Type 0
IsBefore a b = AllLabels (λ x. AllLabels (λ y. x ≺ y) b) a

abbrev pub IsWellFormed : HashTree → Type 0
IsWellFormed empty = Unit
IsWellFormed (leaf b) = Unit
IsWellFormed (labeled l n) = IsWellFormed n
IsWellFormed (fork a b) = IsBranch a × IsBranch b × IsBefore a b × IsWellFormed a × IsWellFormed b
IsWellFormed (pruned h) = ⊥

pub AllLabels-imp :
    {P Q : Bytes → Type 0}
    → ((x : Bytes) → P x → Q x)
    → (t : HashTree) → AllLabels P t
    → AllLabels Q t
AllLabels-imp f empty h = tt
AllLabels-imp f (leaf b) h = tt
AllLabels-imp f (pruned p) h = tt
AllLabels-imp f (labeled l n) h = f l h
AllLabels-imp f (fork a b) h = (AllLabels-imp f a h.0, AllLabels-imp f b h.1)

-- A label beyond every label of the tree.
pub lookup_label_beyond :
    (t : HashTree) (q : Bytes)
    → IsBranch t
    → IsWellFormed t
    → AllLabels (λ x. x ≺ q) t
    → lookup_label t q ≡ greater
unfolding lookup_label
lookup_label_beyond empty q b w h = absurd b
lookup_label_beyond (leaf v) q b w h = absurd b
lookup_label_beyond (pruned p) q b w h = absurd b
lookup_label_beyond (labeled l n) q b w h = ground (arith, gt_of_lt l q h)
lookup_label_beyond (fork x y) q b w h =
    ground (arith, lookup_label_beyond x q w.0 w.3 h.0, lookup_label_beyond y q w.1 w.4 h.1)

-- A label before every label of the tree.
pub lookup_label_before :
    (t : HashTree) (q : Bytes)
    → IsBranch t
    → IsWellFormed t
    → AllLabels (λ x. q ≺ x) t
    → lookup_label t q ≡ less
unfolding lookup_label
lookup_label_before empty q b w h = absurd b
lookup_label_before (leaf v) q b w h = absurd b
lookup_label_before (pruned p) q b w h = absurd b
lookup_label_before (labeled l n) q b w h = ground (arith, h)
lookup_label_before (fork x y) q b w h = ground (arith, lookup_label_before x q w.0 w.3 h.0)

-- A lookup that does not stop to the left of the tree is of a label beyond whatever lies before it.
pub beyond_of_not_less :
    (t : HashTree) (x q : Bytes)
    → IsBranch t
    → IsWellFormed t
    → AllLabels (λ y. x ≺ y) t
    → lookup_label t q ≢ less
    → x ≺ q
unfolding lookup_label
beyond_of_not_less empty x q b w h n = absurd b
beyond_of_not_less (leaf v) x q b w h n = absurd b
beyond_of_not_less (pruned p) x q b w h n = absurd b
beyond_of_not_less (labeled l m) x q b w h n =
    ground (arith, lt_of_gt q l, eq_of_compare_bytes q l, lt_trans x l q)
beyond_of_not_less (fork c d) x q b w h n =
    beyond_of_not_less c x q w.0 w.3 h.0 (λ e. n (ap (λ r. fork_label r (lookup_label d q)) e))

-- Where the right part of a fork does not stop the lookup, the left part lets it pass.
pub left_of_not_less :
    (a b : HashTree) (q : Bytes)
    → IsWellFormed (fork a b)
    → lookup_label b q ≢ less
    → lookup_label a q ≡ greater
left_of_not_less a b q w n =
    lookup_label_beyond a q w.0 w.3
      (AllLabels-imp (λ x h. beyond_of_not_less b x q w.1 w.4 h n) a w.2)

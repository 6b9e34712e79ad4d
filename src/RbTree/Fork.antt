-- ===== src/RbTree/Fork.antt =====
-- `three_way_fork` on witnesses and on the trees they are pruned from.
use response_verification.Common.{◌≡◌, refl}
use response_verification.Common.Bytes.{Bytes}
use response_verification.Common.Sha.{Sha256}
use response_verification.HashTree.{HashTree, empty, fork, labeled, leaf, pruned, fork_hash, digest}
use response_verification.HashTree.Order.{IsBranch}
use response_verification.HashTree.Prunes.{Prunes, cut, empties, label, forks}
use response_verification.RbTree.Witness.{three_way_fork}

-- A witness of a tree in the shapes that the code builds: nothing of nothing, a branch or its hash.
pub data Shows ⦃sha : Sha256⦄ : HashTree → HashTree → Type 0 where
  nothing : Shows empty empty
  hidden : {h : Bytes} {t : HashTree} → h ≡ digest t → IsBranch t → Shows (pruned h) t
  shown_label : {l : Bytes} {s t : HashTree} → Prunes s t → Shows (labeled l s) (labeled l t)
  shown_fork : {a b c d : HashTree} → Prunes a c → Prunes b d → Shows (fork a b) (fork c d)

module _ ⦃sha : Sha256⦄ where
  pub Shows-Prunes : {s t : HashTree} → Shows s t → Prunes s t
  Shows-Prunes nothing = empties
  Shows-Prunes (hidden e b) = cut e
  Shows-Prunes (shown_label p) = label p
  Shows-Prunes (shown_fork p q) = forks p q

  pub three_way_fork-branches :
      (a : HashTree) (k : Bytes) (n b : HashTree)
      → IsBranch a
      → IsBranch b
      → three_way_fork a (labeled k n) b ≡ fork a (fork (labeled k n) b)
  unfolding three_way_fork
  three_way_fork-branches (labeled l t) k n (labeled m u) p q = refl
  three_way_fork-branches (labeled l t) k n (fork c d) p q = refl
  three_way_fork-branches (fork x y) k n (labeled m u) p q = refl
  three_way_fork-branches (fork x y) k n (fork c d) p q = refl
  three_way_fork-branches (leaf v) k n b p q = absurd p
  three_way_fork-branches empty k n b p q = absurd p
  three_way_fork-branches (pruned h) k n b p q = absurd p
  three_way_fork-branches a k n (leaf v) p q = absurd q
  three_way_fork-branches a k n empty p q = absurd q
  three_way_fork-branches a k n (pruned h) p q = absurd q

  pub three_way_fork-left :
      (a : HashTree) (k : Bytes) (n : HashTree)
      → IsBranch a
      → three_way_fork a (labeled k n) empty ≡ fork a (labeled k n)
  unfolding three_way_fork
  three_way_fork-left (labeled l t) k n p = refl
  three_way_fork-left (fork x y) k n p = refl
  three_way_fork-left (leaf v) k n p = absurd p
  three_way_fork-left empty k n p = absurd p
  three_way_fork-left (pruned h) k n p = absurd p

  pub three_way_fork-right :
      (k : Bytes) (n b : HashTree)
      → IsBranch b
      → three_way_fork empty (labeled k n) b ≡ fork (labeled k n) b
  unfolding three_way_fork
  three_way_fork-right k n (labeled l t) p = refl
  three_way_fork-right k n (fork x y) p = refl
  three_way_fork-right k n (leaf v) p = absurd p
  three_way_fork-right k n empty p = absurd p
  three_way_fork-right k n (pruned h) p = absurd p

  -- What is shown of a branch, against the branch.
  pub data ShowsBranch : HashTree → HashTree → Type 0 where
    hidden_branch : {h : Bytes} {t : HashTree} → h ≡ digest t → ShowsBranch (pruned h) t
    label_branch :
        {l : Bytes} {s t : HashTree} → Prunes s t → ShowsBranch (labeled l s) (labeled l t)
    fork_branch : {a b c d : HashTree} → Prunes a c → Prunes b d → ShowsBranch (fork a b) (fork c d)

  ShowsBranch-Prunes : {s t : HashTree} → ShowsBranch s t → Prunes s t
  ShowsBranch-Prunes (hidden_branch e) = cut e
  ShowsBranch-Prunes (label_branch p) = label p
  ShowsBranch-Prunes (fork_branch p q) = forks p q

  pub hidden_fork :
      (lh rh : Bytes) (a b : HashTree)
      → lh ≡ digest a
      → rh ≡ digest b
      → fork_hash lh rh ≡ digest (fork a b)
  unfolding digest fork_hash
  hidden_fork lh rh a b e f = rw (e, f)

  shown_both :
      {l a m n r b : HashTree} {k : Bytes}
      → ShowsBranch l a
      → ShowsBranch m (labeled k n)
      → ShowsBranch r b
      → Shows (three_way_fork l m r) (fork a (fork (labeled k n) b))
  unfolding three_way_fork
  shown_both (hidden_branch e) (hidden_branch f) (hidden_branch g) =
      hidden (hidden_fork _ _ _ _ e (hidden_fork _ _ _ _ f g)) tt
  shown_both (label_branch p) (hidden_branch f) (hidden_branch g) =
      shown_fork (label p) (cut (hidden_fork _ _ _ _ f g))
  shown_both (fork_branch p q) (hidden_branch f) (hidden_branch g) =
      shown_fork (forks p q) (cut (hidden_fork _ _ _ _ f g))
  shown_both (hidden_branch e) (label_branch q) (hidden_branch g) =
      shown_fork (cut e) (forks (label q) (cut g))
  shown_both (label_branch p) (label_branch q) (hidden_branch g) =
      shown_fork (label p) (forks (label q) (cut g))
  shown_both (fork_branch p p') (label_branch q) (hidden_branch g) =
      shown_fork (forks p p') (forks (label q) (cut g))
  shown_both p q s =
      shown_fork (ShowsBranch-Prunes p) (forks (ShowsBranch-Prunes q) (ShowsBranch-Prunes s))

  shown_left :
      {l a m n : HashTree} {k : Bytes}
      → ShowsBranch l a
      → ShowsBranch m (labeled k n)
      → Shows (three_way_fork l m empty) (fork a (labeled k n))
  unfolding three_way_fork
  shown_left (hidden_branch e) q = shown_fork (cut e) (ShowsBranch-Prunes q)
  shown_left (label_branch p) q = shown_fork (label p) (ShowsBranch-Prunes q)
  shown_left (fork_branch p p') q = shown_fork (forks p p') (ShowsBranch-Prunes q)

  shown_right :
      {m n r b : HashTree} {k : Bytes}
      → ShowsBranch m (labeled k n)
      → ShowsBranch r b
      → Shows (three_way_fork empty m r) (fork (labeled k n) b)
  unfolding three_way_fork
  shown_right q (hidden_branch e) = shown_fork (ShowsBranch-Prunes q) (cut e)
  shown_right q (label_branch p) = shown_fork (ShowsBranch-Prunes q) (label p)
  shown_right q (fork_branch p p') = shown_fork (ShowsBranch-Prunes q) (forks p p')

  shown_middle :
      {m n : HashTree} {k : Bytes}
      → ShowsBranch m (labeled k n)
      → Shows (three_way_fork empty m empty) (three_way_fork empty (labeled k n) empty)
  unfolding three_way_fork
  shown_middle (hidden_branch e) = hidden e tt
  shown_middle (label_branch p) = shown_label p

  -- A part of a tree, shown: it is empty, or a branch.
  data Part : HashTree → HashTree → Type 0 where
    no_part : Part empty empty
    branch_part : {s t : HashTree} → IsBranch t → ShowsBranch s t → Part s t

  Shows-Part : {s t : HashTree} → Shows s t → Part s t
  Shows-Part nothing = no_part
  Shows-Part (hidden e b) = branch_part b (hidden_branch e)
  Shows-Part (shown_label p) = branch_part tt (label_branch p)
  Shows-Part (shown_fork p q) = branch_part tt (fork_branch p q)

  fork-parts :
      {l a m n r b : HashTree} {k : Bytes}
      → Part l a
      → ShowsBranch m (labeled k n)
      → Part r b
      → Shows (three_way_fork l m r) (three_way_fork a (labeled k n) b)
  fork-parts no_part q no_part = shown_middle q
  fork-parts {a = a} {n = n} {k = k} (branch_part i p) q no_part =
      rw (three_way_fork-left a k n i) (shown_left p q)
  fork-parts {n = n} {b = b} {k = k} no_part q (branch_part i p) =
      rw (three_way_fork-right k n b i) (shown_right q p)
  fork-parts {a = a} {n = n} {b = b} {k = k} (branch_part i p) q (branch_part j s) =
      rw (three_way_fork-branches a k n b i j) (shown_both p q s)

  -- Witnesses of the three parts fork into a witness of the forked parts.
  pub three_way_fork-Shows :
      {l a m n r b : HashTree} {k : Bytes}
      → Shows l a
      → ShowsBranch m (labeled k n)
      → Shows r b
      → Shows (three_way_fork l m r) (three_way_fork a (labeled k n) b)
  three_way_fork-Shows p q s = fork-parts (Shows-Part p) q (Shows-Part s)

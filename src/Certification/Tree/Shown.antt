-- ===== src/Certification/Tree/Shown.antt =====
-- certification_tree.rs: the paths that the witness of an entry has to show, and the overlay of their
-- witnesses.
use response_verification.Common.{◌≡◌, Option, some, List, [], ◌∷◌, In, here, there}
use response_verification.Common.Bytes.{Bytes}
use response_verification.Common.Options.{◌>>=◌, Returns, Returns-bind, Returns-some, Returns-imp}
use response_verification.Common.Sha.{Sha256}
use response_verification.HashTree.{HashTree}
use response_verification.HashTree.Prunes.{Prunes, Prunes-refl, Prunes-trans}
use response_verification.RbTree.{bytes_as_hash_tree}
use response_verification.Merge.{merge_hash_trees, merge_hash_trees-IsJoin}
use response_verification.NestedTree
use response_verification.NestedTree.{nested_as_hash_tree}
use response_verification.NestedTree.Valid.{IsValid}
use response_verification.NestedTree.Certify.{witness-certifies}
use response_verification.Wildcard.{Segments, more_specific_wildcards_for}
use response_verification.Certification.TreePath.{
  exact, wildcard, to_tree_path, TreeEntry, entry_to_tree_path,
}
use response_verification.Certification.Tree.{CertificationTree, merge_witnesses, wildcard_witness}

-- The paths that a witness has to show: the path of an exact entry; for a wildcard the path that was
-- requested, that of the wildcard, and those of all wildcards that are more specific.
abbrev pub shown_paths : TreeEntry → Bytes → Option (List Segments)
shown_paths entry request_url = elim entry.path [
  | exact path ↦ some (entry_to_tree_path entry ∷ [])
  | wildcard path ↦
      let requested = to_tree_path (exact request_url) in
      let responding = to_tree_path (wildcard path) in
      (do
        paths ← more_specific_wildcards_for requested responding
        some (requested ∷ responding ∷ paths))
]

module _ ⦃sha : Sha256⦄ where
  -- The tree `w` is a witness of the whole tree and shows what the witnesses of these paths show.
  pub record ShowsPaths (t : CertificationTree) (paths : List Segments) (w : HashTree)
      : Type 0 where
    pub of_full : Prunes w (NestedTree.as_hash_tree t)
    pub shows : (p : Segments) → In p paths → Prunes (NestedTree.witness t p) w

  merge_witnesses-ShowsPaths :
      (t : CertificationTree) (paths : List Segments) (acc : HashTree)
      → IsValid t
      → Prunes acc (NestedTree.as_hash_tree t)
      → Returns (merge_witnesses t acc paths) (λ w. ShowsPaths t paths w × Prunes acc w)
  unfolding merge_witnesses
  merge_witnesses-ShowsPaths t [] acc valid full =
      Returns-some _ acc (record { of_full = full; shows = λ p i. elim i [ ] }, Prunes-refl acc)
  merge_witnesses-ShowsPaths t (q ∷ paths) acc valid full =
      Returns-bind _ (merge_hash_trees acc (NestedTree.witness t q)) _
        (merge_hash_trees-IsJoin acc (NestedTree.witness t q) (NestedTree.as_hash_tree t) full
          (witness-certifies q t valid).0)
        λ m join.
          Returns-imp
            (λ w more.
              let (s, kept) = more in
              (
                record { of_full = s.of_full; shows = shows m w join.right s kept },
                Prunes-trans join.left kept,
              ))
            (merge_witnesses-ShowsPaths t paths m valid join.of_full)
    where
      shows :
          (m w : HashTree)
          → Prunes (NestedTree.witness t q) m
          → ShowsPaths t paths w
          → Prunes m w
          → (p : Segments) → In p (q ∷ paths)
          → Prunes (NestedTree.witness t p) w
      shows m w right s kept p (here e) = rw (e) (Prunes-trans right kept)
      shows m w right s kept p (there i) = s.shows p i

  pub wildcard_witness-ShowsPaths :
      (t : CertificationTree) (requested responding : Segments) (paths : List Segments)
      → IsValid t
      → more_specific_wildcards_for requested responding ≡ some paths
      → Returns
          (wildcard_witness t requested responding)
          (ShowsPaths t (requested ∷ responding ∷ paths))
  unfolding wildcard_witness
  wildcard_witness-ShowsPaths t requested responding paths valid e =
      let start = NestedTree.witness t requested in
      let merged =
        merge_witnesses-ShowsPaths t (responding ∷ paths) start valid
          (witness-certifies requested t valid).0 in
      rw e (
        unfold merge_witnesses in
        Returns-imp
          (λ w r. let (s, kept) = r in record { of_full = s.of_full; shows = shows w s kept })
          merged)
    where
      shows :
          (w : HashTree)
          → ShowsPaths t (responding ∷ paths) w
          → Prunes (NestedTree.witness t requested) w
          → (p : Segments) → In p (requested ∷ responding ∷ paths)
          → Prunes (NestedTree.witness t p) w
      shows w s kept p (here f) = rw (f) kept
      shows w s kept p (there i) = s.shows p i

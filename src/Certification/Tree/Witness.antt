-- ===== src/Certification/Tree/Witness.antt =====
-- certification_tree.rs: the witness of an entry, in a tree that a canister came to.
use response_verification.Common.{
  ◌≡◌, refl, ◌∙◌, ap, Bool, true, false, ltb, length, Option, none, some, List, [], ◌∷◌, In, here,
  there, if◌then◌else◌,
}
use response_verification.Common.Bytes.{Bytes}
use response_verification.Common.Options.{◌>>=◌, Returns, Returns-bind, Returns-some}
use response_verification.Common.Results.{ok, err}
use response_verification.Common.Sha.{Sha256}
use response_verification.HashTree.{HashTree, labeled, labeled_hash, digest}
use response_verification.HashTree.Prunes.{Prunes-refl, Prunes-trans, digest-Prunes}
use response_verification.RbTree.{bytes_as_hash_tree}
use response_verification.HashTree.Carries.{Carries, Carries-Prunes}
use response_verification.HashTree.Clear.{Excludes}
use response_verification.NestedTree.Carried.{subtree_at, witness-Carries}
use response_verification.NestedTree.Excluded.{witness-Excludes}
use response_verification.NestedTree
use response_verification.NestedTree.{nested_as_hash_tree}
use response_verification.NestedTree.Valid.{IsValid, IsValid-IsLawful}
use response_verification.NestedTree.Certify.{witness-certifies}
use response_verification.Wildcard.{Segments, path_prefix}
use response_verification.Wildcard.Halts.{more_specific_wildcards_for-returns}
use response_verification.Certification.{
  HttpCertificationResult, wildcard_path_not_valid_for_request_path,
}
use response_verification.Certification.HttpCertification.{HttpCertification}
use response_verification.Certification.TreePath.{
  HttpCertificationPath, exact, wildcard, to_tree_path, TreeEntry, entry_to_tree_path,
}
use response_verification.Certification.Tree.{
  CertificationTree, certification_root_hash, wildcard_witness, entry_witness,
}
use response_verification.Certification.Tree.Reached.{Reached, Reached-IsValid}
use response_verification.Certification.Tree.Shown.{
  shown_paths, ShowsPaths, wildcard_witness-ShowsPaths,
}

module _ ⦃sha : Sha256⦄ where
  -- The wildcard has more segments than the request.
  abbrev pub is_too_specific : TreeEntry → Bytes → Bool
  is_too_specific entry request_url = elim entry.path [
    | exact path ↦ false
    | wildcard path ↦
        ltb (length (to_tree_path (exact request_url))) (length (to_tree_path (wildcard path)))
  ]

  -- The tree `w` has, for a path at which something stands, the labels along the path and all of what
  -- stands there.
  abbrev pub Reveals : CertificationTree → Segments → HashTree → Type 0
  Reveals t p w =
      (u : CertificationTree) → subtree_at t p ≡ some u → Carries p (NestedTree.as_hash_tree u) w

  -- If nothing stands at the path, the tree `w` shows that: no well-formed tree it is a witness of has
  -- anything there.
  abbrev pub Denies : CertificationTree → Segments → HashTree → Type 0
  Denies t p w = subtree_at t p ≡ none → Excludes p w

  ShowsPaths-Denies :
      (t : CertificationTree) (paths : List Segments) (w : HashTree) (p : Segments)
      → IsValid t
      → ShowsPaths t paths w
      → In p paths
      → Denies t p w
  ShowsPaths-Denies t paths w p valid s i e full form prunes =
      witness-Excludes p t valid e full form (Prunes-trans (s.shows p i) prunes)

  ShowsPaths-Reveals :
      (t : CertificationTree) (paths : List Segments) (w : HashTree) (p : Segments)
      → ShowsPaths t paths w
      → In p paths
      → Reveals t p w
  ShowsPaths-Reveals t paths w p s i u e = Carries-Prunes (witness-Carries p t u e) (s.shows p i)

  -- The witness of an entry below the label, and its digest.
  pub record Witnesses (t : CertificationTree) (entry : TreeEntry) (request_url : Bytes)
      (w : HashTree) : Type 0 where
    pub paths : List Segments
    pub found : shown_paths entry request_url ≡ some paths
    pub below : HashTree
    pub is_labeled : w ≡ labeled path_prefix below
    pub shows : ShowsPaths t paths below
    pub reveals : (p : Segments) → In p paths → Reveals t p below
    pub denies : (p : Segments) → In p paths → Denies t p below
    pub certified : digest w ≡ certification_root_hash t

  -- A witness is given if the wildcard is not too specific, otherwise the error.
  abbrev pub Answers :
      CertificationTree → TreeEntry → Bytes → HttpCertificationResult HashTree → Type 0
  Answers t entry request_url (ok w) =
      (is_too_specific entry request_url ≡ false) × Witnesses t entry request_url w
  Answers t entry request_url (err e) =
      (is_too_specific entry request_url ≡ true)
      × ((path : Bytes) × (entry.path ≡ wildcard path)
          × (e ≡ wildcard_path_not_valid_for_request_path path request_url))

  label_witness :
      (t : CertificationTree) (entry : TreeEntry) (request_url : Bytes) (paths : List Segments)
      (v : HashTree)
      → IsValid t
      → shown_paths entry request_url ≡ some paths
      → ShowsPaths t paths v
      → Witnesses t entry request_url (labeled path_prefix v)
  unfolding certification_root_hash labeled_hash digest
  label_witness t entry request_url paths v valid e s = record {
    paths = paths;
    found = e;
    below = v;
    is_labeled = refl;
    shows = s;
    reveals = λ p i. ShowsPaths-Reveals t paths v p s i;
    denies = λ p i. ShowsPaths-Denies t paths v p valid s i;
    certified =
        ap (labeled_hash path_prefix)
          (digest-Prunes s.of_full ∙ unfold nested_as_hash_tree in IsValid-IsLawful valid);
  }

  too_specific :
      (b : Bool) (t : CertificationTree) (entry : TreeEntry) (url path : Bytes)
      (paths : List Segments) (merged : Option HashTree)
      → entry.path ≡ wildcard path
      → is_too_specific entry url ≡ b
      → IsValid t
      → shown_paths entry url ≡ some paths
      → Returns merged (ShowsPaths t paths)
      → Returns
          (if b
            then some (err (wildcard_path_not_valid_for_request_path path url))
            else (merged >>= λ w. some (ok (labeled path_prefix w))))
          (Answers t entry url)
  too_specific true t entry url path paths merged p e valid f r =
      Returns-some _ _ (e, (path, p, refl))
  too_specific false t entry url path paths merged p e valid f r =
      Returns-bind _ merged _ r
        λ w s. Returns-some _ _ (e, label_witness t entry url paths w valid f s)

  answer :
      (t : CertificationTree) (url : Bytes) (path : HttpCertificationPath)
      (certification : HttpCertification)
      → IsValid t
      → let entry : TreeEntry = record { path = path; certification = certification } in
        Returns (entry_witness t entry url) (Answers t entry url)
  unfolding entry_witness
  answer t url (exact path) certification valid =
      let entry : TreeEntry = record { path = exact path; certification = certification } in
      let p = entry_to_tree_path entry in
      Returns-some _ _ (
        refl,
        label_witness t entry url (p ∷ []) (NestedTree.witness t p) valid refl (record {
          of_full = (witness-certifies p t valid).0;
          shows = λ q i. elim i [
            | here e ↦ rw (e) (Prunes-refl (NestedTree.witness t p))
            | there j ↦ elim j [ ]
          ];
        }),
      )
  answer t url (wildcard path) certification valid =
      let entry : TreeEntry = record { path = wildcard path; certification = certification } in
      let requested = to_tree_path (exact url) in
      let responding = to_tree_path (wildcard path) in
      let (paths, e) = more_specific_wildcards_for-returns requested responding in
      too_specific (is_too_specific entry url) t entry url path (requested ∷ responding ∷ paths)
        (wildcard_witness t requested responding) refl refl valid (rw (e) refl)
        (wildcard_witness-ShowsPaths t requested responding paths valid e)

  -- In a tree that a canister came to, `witness` of any entry and URL never panics. It is the error
  -- that names both paths if the entry has a wildcard with more segments than the URL, and otherwise
  -- a witness whose digest is the root hash of the tree, and that is overlaid
  -- from the witnesses of the path of an exact entry, or of the requested path, that of the wildcard
  -- and those of all more specific wildcards: for each of them at which something stands, it has the
  -- labels along the path and all of what stands there, and for each of them at which nothing stands,
  -- no well-formed tree that it is a witness of has anything there.
  pub entry_witness-Answers :
      (t : CertificationTree) (entry : TreeEntry) (request_url : Bytes)
      → Reached t
      → Returns (entry_witness t entry request_url) (Answers t entry request_url)
  entry_witness-Answers t entry request_url r =
      answer t request_url entry.path entry.certification (Reached-IsValid r)

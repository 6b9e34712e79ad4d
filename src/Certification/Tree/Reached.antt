-- ===== src/Certification/Tree/Reached.antt =====
-- certification_tree.rs: the trees that a canister comes to by the operations of
-- `HttpCertificationTree`, from the empty one.
use response_verification.Common.{◌≡◌, refl, ◌∙◌, Option, none, some, [], List, ◌∷◌, ◌++◌, true}
use response_verification.Common.Bytes.{Bytes, bytes_eq_refl}
use response_verification.Common.Options.{Returns, Returns-at}
use response_verification.Common.Sha.{Sha256}
use response_verification.HashTree.{digest, leaf_hash}
use response_verification.RbTree.{bytes_as_hash_tree}
use response_verification.RbTree.Hashes.{IsLawful}
use response_verification.NestedTree
use response_verification.NestedTree.Valid.{IsValid, empty_tree-IsValid}
use response_verification.NestedTree.Insert.{insert-Inserted, Inserted, starts_with, after_insert}
use response_verification.NestedTree.Delete.{delete-Removed, Removed}
use response_verification.Certification.HttpCertification.{certification_path}
use response_verification.Certification.TreePath.{
  HttpCertificationPath, to_tree_path, TreeEntry, entry_to_tree_path,
}
use response_verification.Certification.Tree.{
  CertificationTree, empty_certification_tree, insert_entry, delete_entry, delete_by_path,
  clear_entries,
}

module _ ⦃sha : Sha256⦄ where
  -- One operation, which returns.
  pub data Step (t : CertificationTree) : CertificationTree → Type 0 where
    inserted :
        {u : CertificationTree} (entry : TreeEntry) → insert_entry t entry ≡ some u → Step t u
    deleted : {u : CertificationTree} (entry : TreeEntry) → delete_entry t entry ≡ some u → Step t u
    path_deleted :
        {u : CertificationTree} (path : HttpCertificationPath)
        → delete_by_path t path ≡ some u
        → Step t u
    cleared : Step t (clear_entries t)

  pub data Reached : CertificationTree → Type 0 where
    start : Reached empty_certification_tree
    next : {t u : CertificationTree} → Reached t → Step t u → Reached u

  empty_value-IsLawful : IsLawful {V = Bytes} []
  unfolding bytes_as_hash_tree digest leaf_hash
  empty_value-IsLawful = refl

  Step-IsValid : {t u : CertificationTree} → IsValid t → Step t u → IsValid u
  unfolding insert_entry delete_entry delete_by_path clear_entries NestedTree.clear
  Step-IsValid {t} valid (inserted entry e) =
      let i =
        Returns-at (insert-Inserted (entry_to_tree_path entry) [] t empty_value-IsLawful valid) e in
      i.valid
  Step-IsValid {t} valid (deleted entry e) =
      let r = Returns-at (delete-Removed (entry_to_tree_path entry) t valid) e in r.valid
  Step-IsValid {t} valid (path_deleted path e) =
      let r = Returns-at (delete-Removed (to_tree_path path) t valid) e in r.valid
  Step-IsValid valid cleared = empty_tree-IsValid

  pub Reached-IsValid : {t : CertificationTree} → Reached t → IsValid t
  Reached-IsValid start = empty_tree-IsValid
  Reached-IsValid (next r s) = Step-IsValid (Reached-IsValid r) s

  -- Whether the tree certifies an entry.
  abbrev pub certified : CertificationTree → TreeEntry → Option Bytes
  certified t entry = NestedTree.get t (entry_to_tree_path entry)

  starts_with-append : (p q : List Bytes) → starts_with p (p ++ q) ≡ true
  unfolding starts_with
  starts_with-append [] q = refl
  starts_with-append (k ∷ p) q = rw bytes_eq_refl (starts_with-append p q)

  starts_with_refl : (p : List Bytes) → starts_with p p ≡ true
  unfolding starts_with
  starts_with_refl [] = refl
  starts_with_refl (k ∷ p) = rw bytes_eq_refl (starts_with_refl p)

  after_insert_self :
      (p : List Bytes) (v : Bytes) (o : Option Bytes) → after_insert p v p o ≡ some v
  after_insert_self p v o = rw (starts_with_refl p) refl

  -- Of a tree that a canister came to by these operations, none of them panics: after `insert` the
  -- entry is certified, after `delete` it is not, and after `delete_by_path` no entry with that path
  -- is. The tree is then one that a canister comes to, too.
  pub Reached-certified :
      (t : CertificationTree) (entry : TreeEntry)
      → Reached t
      → Returns (insert_entry t entry) (λ u. Reached u × (certified u entry ≡ some []))
        × Returns (delete_entry t entry) (λ u. Reached u × (certified u entry ≡ none))
        × Returns (delete_by_path t entry.path) (λ u.
          Reached u × ((other : TreeEntry) → other.path ≡ entry.path → certified u other ≡ none))
  unfolding insert_entry delete_entry delete_by_path entry_to_tree_path
  Reached-certified t entry r = (
    record {
      result = i.result;
      returned = i.returned;
      holds = (
        next r (inserted entry i.returned),
        (let u = i.holds in u.reads p) ∙ after_insert_self p [] (NestedTree.get t p),
      );
    },
    record {
      result = d.result;
      returned = d.returned;
      holds = (
        next r (deleted entry d.returned),
        (let u = d.holds in u.reads p) ∙ rw (starts_with_refl p) refl,
      );
    },
    record {
      result = b.result;
      returned = b.returned;
      holds = (
        next r (path_deleted entry.path b.returned),
        λ other e.
            (let u = b.holds in u.reads (entry_to_tree_path other))
            ∙ rw
                (
                  e,
                  starts_with-append (to_tree_path entry.path)
                      (certification_path other.certification),
                )
                refl,
      );
    },
  )
    where
      p : List Bytes
      p = entry_to_tree_path entry

      valid : IsValid t
      valid = Reached-IsValid r

      i : Returns (NestedTree.insert t p []) (Inserted p [] t)
      i = insert-Inserted p [] t empty_value-IsLawful valid

      d : Returns (NestedTree.delete t p) (Removed p t)
      d = delete-Removed p t valid

      b :
          Returns
            (NestedTree.delete t (to_tree_path entry.path))
            (Removed (to_tree_path entry.path) t)
      b = delete-Removed (to_tree_path entry.path) t valid

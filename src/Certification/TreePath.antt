-- ===== src/Certification/TreePath.antt =====
-- packages/ic-http-certification/src/tree: `HttpCertificationPath` (certification_tree_path.rs) and
-- `HttpCertificationTreeEntry` (certification_tree_entry.rs). `split('/')` without its empty parts and
-- `ends_with('/')` are those of Response/ExprPath.
use response_verification.Common.{if◌then◌else◌, [], ◌∷◌, ◌++◌}
use response_verification.Common.Bytes.{Bytes}
use response_verification.Wildcard.{
  Segments, path_prefix, exact_path_terminator, wildcard_path_terminator,
}
use response_verification.Response.ExprPath.{split_go, ends_with_slash}
use response_verification.Certification.HttpCertification.{HttpCertification, certification_path}

pub data HttpCertificationPath : Type 0 where
  exact : Bytes → HttpCertificationPath
  wildcard : Bytes → HttpCertificationPath

unfoldable pub path_to_segments : Bytes → Bytes → Segments
path_to_segments path terminator =
    split_go [] path ++ ((if ends_with_slash path then [] ∷ [] else []) ++ (terminator ∷ []))

unfoldable pub path_to_string_segments : Bytes → Bytes → Segments
path_to_string_segments path terminator =
    (path_prefix ∷ split_go [] path)
    ++ ((if ends_with_slash path then [] ∷ [] else []) ++ (terminator ∷ []))

unfoldable pub to_tree_path : HttpCertificationPath → Segments
to_tree_path (exact path) = path_to_segments path exact_path_terminator
to_tree_path (wildcard path) = path_to_segments path wildcard_path_terminator

unfoldable pub to_expr_path : HttpCertificationPath → Segments
to_expr_path (exact path) = path_to_string_segments path exact_path_terminator
to_expr_path (wildcard path) = path_to_string_segments path wildcard_path_terminator

pub record TreeEntry : Type 0 where
  pub path : HttpCertificationPath
  pub certification : HttpCertification

unfoldable pub entry_to_tree_path : TreeEntry → Segments
entry_to_tree_path entry = to_tree_path entry.path ++ certification_path entry.certification

-- ===== src/Lib.antt =====
-- Certified HTTP responses of the Internet Computer: hash trees and their witnesses, the red-black
-- trees that canisters keep them in, and the verification of a response against a certificate.
--
-- A canister keeps what it certifies in a red-black tree whose nodes carry hashes, and answers with a
-- witness: the hash tree with parts replaced by their digests. A client checks the certificate, that
-- the certificate has the witness's digest, that the path in the response's header is the best one of
-- the witness for the request, and that the witness has the hashes of the request and the response.
--
-- Files, each with the part of packages/ that it models:
--   HashTree   ic-certification/src/hash_tree/mod.rs: nodes, `digest`, `lookup_label`, `lookup_path`,
--              `lookup_subtree`, `list_paths`. `HashTree` and `HashTreeNode` are one type.
--   Merge      ic-certification/src/nested_rb_tree.rs: `merge_hash_trees`.
--   RbTree     ic-certification/src/rb_tree/mod.rs: `insert` and its rotations, `get`, `modify`; in
--              RbTree/Delete `delete`, in RbTree/Bounds and RbTree/Witness the ranges of keys and
--              the witnesses. `RbTree`, `NodeRef` and `Box<Node>` are one type.
--   NestedTree  ic-certification/src/nested_rb_tree.rs: `NestedTree`.
--   Certificate  ic-certification/src/certificate.rs and
--              ic-certificate-verification/src/certificate_verification.rs: `verify`; in
--              Certificate/Cache ic-certificate-verification/src/signature_verification. `verify` calls
--              the check of a signature without the cache, whose state no other function sees.
--   Wildcard   ic-http-certification/src/utils/wildcard_paths.rs.
--   Response   ic-response-verification/src: in Response/ExprPath and Response/Hashes the directory
--              validation, in Response/CertificateHeader and Response/Pair the
--              directory verification; in Response/Headers
--              ic-http-certification/src/hash/response_hash.rs, `filter_response_headers`.
--   RepresentationHash  ic-representation-independent-hash/src/representation_independent_hash.rs.
--   Certification  ic-http-certification/src: hash/request_hash.rs, hash/response_hash.rs,
--              cel/create_cel_expr.rs, tree/certification.rs, tree/certification_tree_path.rs and
--              tree/certification_tree_entry.rs; in Certification/Tree tree/certification_tree.rs.
--   Cel        ic-response-verification/src/cel/ast_mapping.rs, with `CelValue` of cel/parser.rs and
--              the errors of cel/error.rs.
--   Common     shared names, byte strings with their order, options, results, SHA-256.
--   Examples   concrete parameters, and each theorem at a concrete input.
--
-- Byte strings, texts and hashes are lists of numbers. Mutation is a function to the new value. A
-- panic of `unwrap` or of `merge_hash_trees` is `none`. `u128` times saturate as in the code. SHA-256
-- is a parameter with 32 bytes of output; no theorem assumes that it has no collisions: those that
-- need it return one. Other crates are the fields of `Platform`, `Library` and
-- `Gateway`: BLS, LEB128 numbers (which fit a `u64`), principals, base64, URLs, compression; the
-- container of the cache of signatures is `SizedCache`. The parsers of this repository that stand on
-- the crates nom and serde are such fields, too: those of CBOR and of CEL, and the field parser of the
-- header; so is the path of a request's URL.
--
-- Every recursion is structural but the loop of `more_specific_wildcards_for`, which has fuel of
-- twice the length of the path and three, and `delete`, which has the size of the tree.
--
-- Not modelled: serialization, `Debug` and `Display`, the certification of
-- assets, the bindings for JavaScript, and the payloads of the errors of the verification.
pub mod Common
pub mod HashTree
pub mod Merge
pub mod RbTree
pub mod NestedTree
pub mod Certificate
pub mod Wildcard
pub mod RepresentationHash
pub mod Response
pub mod Certification
pub mod Cel
pub mod Examples

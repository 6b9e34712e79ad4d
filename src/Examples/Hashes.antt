-- ===== src/Examples/Hashes.antt =====
-- Examples of the theorems on what canisters certify.
use mathlib.Core.List.{Permᴰ}
use response_verification.Common.{ℕ, ◌≡◌, refl, none, some, [], ◌∷◌, ◌⊎◌, ◌↔◌, In, here, there, map}
use response_verification.Common.Bytes.{Bytes, codes, compare_bytes}
use response_verification.Common.Sha.{Collision}
use response_verification.RepresentationHash.{
  Leb128, Value, string, number, representation_independent_hash, hash_entry, hash_value,
  compare_pair, insert_pair, sort_unstable, concat_pairs,
}
use response_verification.RepresentationHash.Unordered.{representation_independent_hash-Perm}
use response_verification.RepresentationHash.Binding.{representation_independent_hash-inj}
use response_verification.Response.Headers.{
  Header, HttpResponse, ResponseCertification, response_header_exclusions, filter_response_headers,
  to_ascii_lowercase, any_eq_ignore_ascii_case, kept_header, kept_headers,
}
use response_verification.Certification.{Library}
use response_verification.Certification.ResponseHash.{response_hash, response_headers_hash}
use response_verification.Certification.SameResponse.{response_hash-inj, IsPlain}
use response_verification.Examples.{toy_sha}

pub toy_leb_inj : (m n : ℕ) → ◌≡◌ {A = Bytes} (m ∷ []) (n ∷ []) → m ≡ n
toy_leb_inj m n e = cc

abbrev pub toy_leb : Leb128
toy_leb = record { write_unsigned = λ n. n ∷ []; write_unsigned-inj = toy_leb_inj }

abbrev pub toy_library : Library
toy_library = record {
  leb128 = toy_leb;
  uri_query = λ url. some (some url);
  to_lowercase = λ text. text;
}

abbrev entry_a : Bytes × Value
entry_a = (codes "a", string (codes "x"))

abbrev entry_b : Bytes × Value
entry_b = (codes "b", number 7)

representation_independent_hash-Perm_example :
    representation_independent_hash toy_leb (entry_a ∷ entry_b ∷ [])
    ≡ representation_independent_hash toy_leb (entry_b ∷ entry_a ∷ [])
representation_independent_hash-Perm_example =
    representation_independent_hash-Perm toy_leb (entry_a ∷ entry_b ∷ []) (entry_b ∷ entry_a ∷ [])
      (Permᴰ.swap refl refl)

representation_independent_hash-inj_example :
    Permᴰ
      (map (hash_entry toy_leb) (entry_a ∷ entry_b ∷ []))
      (map (hash_entry toy_leb) (entry_b ∷ entry_a ∷ []))
    ⊎ Collision toy_sha
representation_independent_hash-inj_example =
    representation_independent_hash-inj toy_leb (entry_a ∷ entry_b ∷ []) (entry_b ∷ entry_a ∷ [])
      representation_independent_hash-Perm_example

abbrev pub every_header : ResponseCertification
every_header = response_header_exclusions []

abbrev reply : HttpResponse
reply = record {
  status_code = 200;
  headers = (codes "A", codes "1") ∷ (codes "B", codes "2") ∷ [];
  body = codes "hi";
}

abbrev reordered : HttpResponse
reordered = record {
  status_code = 200;
  headers = (codes "b", codes "2") ∷ (codes "a", codes "1") ∷ [];
  body = codes "hi";
}

reply-IsPlain : IsPlain (filter_response_headers reply every_header).headers
unfolding filter_response_headers kept_headers kept_header to_ascii_lowercase compare_bytes
    any_eq_ignore_ascii_case
reply-IsPlain value (here e) = cc e
reply-IsPlain value (there (here e)) = cc e
reply-IsPlain value (there (there h)) = elim h [ ]

reordered-IsPlain : IsPlain (filter_response_headers reordered every_header).headers
unfolding filter_response_headers kept_headers kept_header to_ascii_lowercase compare_bytes
    any_eq_ignore_ascii_case
reordered-IsPlain value (here e) = cc e
reordered-IsPlain value (there (here e)) = cc e
reordered-IsPlain value (there (there h)) = elim h [ ]

same_reply :
    response_hash toy_leb reply every_header none
    ≡ response_hash toy_leb reordered every_header none
unfolding response_hash response_headers_hash filter_response_headers kept_headers kept_header
    to_ascii_lowercase compare_bytes any_eq_ignore_ascii_case representation_independent_hash
    hash_entry hash_value sort_unstable insert_pair compare_pair concat_pairs
same_reply = refl

response_hash-inj_example :
    ((reply.status_code ≡ reordered.status_code)
      × ((a : Header)
          → In a (filter_response_headers reply every_header).headers
            ↔ In a (filter_response_headers reordered every_header).headers)
      × (reply.body ≡ reordered.body))
    ⊎ Collision toy_sha
response_hash-inj_example =
    response_hash-inj toy_leb reply reordered every_header reply-IsPlain reordered-IsPlain
      same_reply

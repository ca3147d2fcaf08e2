-- ===== src/Web/ContentType/Laws.antt =====
-- What is sent as a content type or as a compression is recognised, and Accept is read in order.
use trpc_proto.Base.{◌≡◌, refl, List, [], ◌∷◌, ◌++◌, none, some, inl, inr, All, Option-cases}
use trpc_proto.Base.Text.{Text, split, trim_start, trim_end, is_space}
use trpc_proto.Web.ContentType.{
  Encoding, raw, base64, grpc_web_content_type, first_part, grpc_web_encoding, first_supported,
  negotiate_response_encoding, Compression, identity, gzip, compression_name, parse_compression,
}

-- The content type that is sent for an encoding is recognised as that encoding, whatever parameters
-- follow it behind a semicolon.
pub grpc_web_encoding-content_type :
    (e : Encoding) (parameters : Text)
    → grpc_web_encoding (some (grpc_web_content_type e ++ b';' ∷ parameters)) ≡ some e
unfolding grpc_web_encoding first_part trim_start trim_end is_space
grpc_web_encoding-content_type raw parameters = refl
grpc_web_encoding-content_type base64 parameters = refl

-- The encoding of the first value that is supported, or else that of the request.
pub data FirstOf (request_encoding : Encoding) : List Text → Encoding → Type 0 where
  fallback :
      {values : List Text}
      → All (λ v. grpc_web_encoding (some v) ≡ none) values
      → FirstOf request_encoding values request_encoding
  found :
      (before after : List Text) (value : Text) {encoding : Encoding}
      → All (λ v. grpc_web_encoding (some v) ≡ none) before
      → grpc_web_encoding (some value) ≡ some encoding
      → FirstOf request_encoding (before ++ value ∷ after) encoding

FirstOf-cons :
    (request_encoding : Encoding) (value : Text) {values : List Text} {encoding : Encoding}
    → grpc_web_encoding (some value) ≡ none
    → FirstOf request_encoding values encoding
    → FirstOf request_encoding (value ∷ values) encoding
FirstOf-cons request_encoding value fails (fallback all_no) = fallback (fails, all_no)
FirstOf-cons request_encoding value fails (found before after v all_no holds) =
    found (value ∷ before) after v (fails, all_no) holds

first_supported-FirstOf :
    (values : List Text) (request_encoding : Encoding)
    → FirstOf request_encoding values (first_supported values request_encoding)
unfolding first_supported
first_supported-FirstOf [] request_encoding = fallback tt
first_supported-FirstOf (value ∷ values) request_encoding =
    elim (Option-cases (grpc_web_encoding (some value))) [
      | inl fails ↦
          rw (fails, first_supported)
            (FirstOf-cons request_encoding value fails
              (first_supported-FirstOf values request_encoding))
      | inr (encoding, holds) ↦ rw (holds, first_supported) (found [] values value tt holds)
    ]

-- The response has the encoding of the first value of the Accept header that is supported, and the
-- encoding of the request if none is.
pub negotiate-FirstOf :
    (accept : Text) (request_encoding : Encoding)
    → FirstOf request_encoding
        (split b',' accept)
        (negotiate_response_encoding (some accept) request_encoding)
unfolding negotiate_response_encoding
negotiate-FirstOf accept request_encoding =
    first_supported-FirstOf (split b',' accept) request_encoding

-- The name of a compression is parsed as that compression.
pub parse_compression-name :
    (c : Compression) → parse_compression (some (compression_name c)) ≡ some c
unfolding parse_compression trim_start trim_end is_space
parse_compression-name identity = refl
parse_compression-name gzip = refl

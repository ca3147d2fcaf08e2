-- ===== src/Web/ContentType.antt =====
-- packages/runtime/src/web/content_type.ts and the parser of packages/runtime/src/web/codec/compression.ts:
-- how the headers name the encoding of a body and the compression of its messages.
pub mod Laws
mod Examples
use trpc_proto.Base.{
  ℕ, Bool, true, false, ◌||◌, List, [], ◌∷◌, Option, none, some, ◌==◌, if◌then◌else◌,
}
use trpc_proto.Base.Text.{Text, codes, text_eq, to_lower, trim, split}

-- `GrpcWebEncoding`.
pub data Encoding : Type 0 where
  raw base64 : Encoding

abbrev pub grpc_web_content_type : Encoding → Text
grpc_web_content_type raw = codes "application/grpc-web+proto"
grpc_web_content_type base64 = codes "application/grpc-web-text+proto"

-- `value.split(sep, 1)[0]`.
unfoldable pub first_part : ℕ → Text → Text
first_part sep [] = []
first_part sep (c ∷ s) = if c == sep then [] else c ∷ first_part sep s

-- The switch of `grpcWebEncoding`.
abbrev pub media_type_encoding : Text → Option Encoding
media_type_encoding media_type =
    if text_eq media_type (codes "application/grpc-web-text")
      || text_eq media_type (codes "application/grpc-web-text+proto")
    then some base64
    else if text_eq media_type (codes "application/grpc-web")
        || text_eq media_type (codes "application/grpc-web+proto")
    then some raw
    else none

-- A value that is not there is `null` or `undefined`.
unfoldable pub grpc_web_encoding : Option Text → Option Encoding
unfolding first_part
grpc_web_encoding none = none
grpc_web_encoding (some value) = media_type_encoding (to_lower (trim (first_part b';' value)))

-- The loop over the values of the Accept header.
unfoldable pub first_supported : List Text → Encoding → Encoding
first_supported [] request_encoding = request_encoding
first_supported (value ∷ values) request_encoding = elim (grpc_web_encoding (some value)) [
  | some encoding ↦ encoding
  | none ↦ first_supported values request_encoding
]

unfoldable pub negotiate_response_encoding : Option Text → Encoding → Encoding
negotiate_response_encoding none request_encoding = request_encoding
negotiate_response_encoding (some accept) request_encoding =
    first_supported (split b',' accept) request_encoding

unfoldable pub is_grpc_web_content_type : Option Text → Bool
is_grpc_web_content_type value = elim (grpc_web_encoding value) [ some e ↦ true | none ↦ false ]

-- `GrpcWebCompressionEncoding`.
pub data Compression : Type 0 where
  identity gzip : Compression

abbrev pub compression_name : Compression → Text
compression_name identity = codes "identity"
compression_name gzip = codes "gzip"

-- The empty text counts as no value.
abbrev or_identity : Text → Text
or_identity [] = codes "identity"
or_identity (c ∷ s) = c ∷ s

-- `parseGrpcWebCompressionEncoding`; `none` is its error.
unfoldable pub parse_compression : Option Text → Option Compression
parse_compression none = some identity
parse_compression (some encoding) =
    let normalized = or_identity (to_lower (trim encoding)) in
    if text_eq normalized (codes "identity")
    then some identity
    else if text_eq normalized (codes "gzip")
    then some gzip
    else none

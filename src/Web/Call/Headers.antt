-- ===== src/Web/Call/Headers.antt =====
-- The headers between the client of fetch_call.ts and the server of http_handler.ts.
use trpc_proto.Base.{
  length, ℕ, ◌==◌, ◌&&◌, ◌||◌, leb, all, ◌≡◌, refl, All, Bool, true, false, List, [], ◌∷◌, map,
  Option, none, some, arith, if◌then◌else◌, Bool-cases, inl, inr,
}
use trpc_proto.Base.Text.{
  Text, codes, text_eq, insert, lookup, lookup-insert, split, is_space, trim_start, trim_end, trim,
}
use trpc_proto.Web.ContentType.{
  raw, Compression, gzip, grpc_web_content_type, grpc_web_encoding, first_part, parse_compression,
  negotiate_response_encoding, first_supported,
}
use trpc_proto.Web.Cors.{HeaderValue, one_value, Headers, grpc_web_headers}
use trpc_proto.Web.Frame.TrailerText.{Differ}
use trpc_proto.Web.Body.Trailers.{insert-Differ}
use trpc_proto.Web.Call.{CallOptions, call_headers, or_identity}

-- Headers as values of the server's kind.
abbrev pub values_of : Headers → List (Text × HeaderValue)
values_of headers = map (λ h. (h.0, one_value h.1)) headers

-- The characters of the names and of the values of metadata in gRPC.
abbrev is_name_char : ℕ → Bool
is_name_char c =
    (leb b'0' c && leb c b'9') || (leb b'a' c && leb c b'z') || c == b'_' || c == b'-' || c == b'.'

abbrev is_value_char : ℕ → Bool
is_value_char c = leb 0x20 c && leb c 0x7e

-- A header that is sent as it is.
pub record IsHeader (k v : Text) : Type 0 where
  pub not_empty : (length k == 0) ≡ false
  pub name : all is_name_char k ≡ true
  pub value : all is_value_char v ≡ true
  pub trimmed : trim v ≡ v

-- The names of the headers that the client sends and the server reads of its own.
abbrev pub own_names : List Text
own_names =
    codes "content-type"
    ∷ codes "accept"
    ∷ codes "grpc-accept-encoding"
    ∷ codes "grpc-encoding"
    ∷ []

-- Headers that are sent as they are, with names that differ, as those of an object do.
abbrev pub AreHeaders : Headers → Type 0
AreHeaders headers = All (λ h. IsHeader h.0 h.1) headers × Differ headers

insert-AreHeaders :
    (k v : Text) (headers : Headers)
    → IsHeader k v
    → AreHeaders headers
    → AreHeaders (insert k v headers)
insert-AreHeaders k v headers is (each, differ) =
    (insert-each headers each, insert-Differ k v headers differ)
  where
    insert-each :
        (hs : Headers)
        → All (λ h. IsHeader h.0 h.1) hs
        → All (λ h. IsHeader h.0 h.1) (insert k v hs)
    insert-each [] h = (is, tt)
    insert-each ((j, w) ∷ hs) (first, h) = elim (Bool-cases (text_eq j k)) [
      | inl same ↦ rw same (
        record {
          not_empty = first.not_empty;
          name = first.name;
          value = is.value;
          trimmed = is.trimmed;
        },
        h,
      )
      | inr other ↦ rw other (first, insert-each hs h)
    ]

pub lookup-values_of :
    (name : Text) (headers : Headers) {value : Text}
    → lookup name headers ≡ some value
    → lookup name (values_of headers) ≡ some (one_value value)
lookup-values_of name [] h = absurd (cc)
lookup-values_of name ((k, v) ∷ headers) h = elim (Bool-cases (text_eq k name)) [
  | inl same ↦ ground (arith, same)
  | inr other ↦ rw other (lookup-values_of name headers (ground (arith, other)))
]

pub lookup-values_of-none :
    (name : Text) (headers : Headers)
    → lookup name headers ≡ none
    → lookup name (values_of headers) ≡ none
lookup-values_of-none name [] h = refl
lookup-values_of-none name ((k, v) ∷ headers) h = elim (Bool-cases (text_eq k name)) [
  | inl same ↦ absurd (ground (arith, same))
  | inr other ↦ rw other (lookup-values_of-none name headers (ground (arith, other)))
]

abbrev pub raw_options : Text → Bool → CallOptions
raw_options base_url compress = record { base_url = base_url; encoding = raw; compress = compress }

abbrev pub sent_compression : Bool → Compression
sent_compression compress = or_identity (if compress then some gzip else none)

abbrev pub compression_header : Bool → Option Text
compression_header compress = if compress then some (codes "gzip") else none

pub call_headers-content :
    (base_url : Text) (compress : Bool) (metadata : Headers)
    → (lookup (codes "content-type") (call_headers (raw_options base_url compress) metadata)
        ≡ some (grpc_web_content_type raw))
      × (lookup (codes "accept") (call_headers (raw_options base_url compress) metadata)
          ≡ some (grpc_web_content_type raw))
      × (lookup
            (codes "grpc-accept-encoding")
            (call_headers (raw_options base_url compress) metadata)
          ≡ some (codes "gzip"))
unfolding call_headers
call_headers-content base_url true metadata =
    (simp (lookup-insert), simp (lookup-insert), simp (lookup-insert))
call_headers-content base_url false metadata =
    (simp (lookup-insert), simp (lookup-insert), simp (lookup-insert))

pub call_headers-compression :
    (base_url : Text) (compress : Bool) (metadata : Headers)
    → lookup (codes "grpc-encoding") metadata ≡ none
    → lookup (codes "grpc-encoding") (call_headers (raw_options base_url compress) metadata)
      ≡ compression_header compress
unfolding call_headers
call_headers-compression base_url true metadata h = simp (lookup-insert)
call_headers-compression base_url false metadata h = simp (lookup-insert) h

-- A reply's headers name the raw encoding and the compression.
pub grpc_web_headers-read :
    (origin : Option Text)
    → (lookup (codes "content-type") (grpc_web_headers raw (some gzip) origin)
        ≡ some (grpc_web_content_type raw))
      × (lookup (codes "grpc-encoding") (grpc_web_headers raw (some gzip) origin)
          ≡ some (codes "gzip"))
unfolding grpc_web_headers
grpc_web_headers-read origin = (refl, refl)

pub raw_content : grpc_web_encoding (some (grpc_web_content_type raw)) ≡ some raw
unfolding grpc_web_encoding first_part trim_start trim_end is_space
raw_content = refl

pub raw_accepted : negotiate_response_encoding (some (grpc_web_content_type raw)) raw ≡ raw
unfolding negotiate_response_encoding first_supported grpc_web_encoding first_part trim_start
    trim_end is_space split
raw_accepted = refl

pub compression_read :
    (compress : Bool)
    → parse_compression (compression_header compress) ≡ some (sent_compression compress)
unfolding parse_compression trim_start trim_end is_space
compression_read true = refl
compression_read false = refl

-- The client's (record { not_empty = refl; name = refl; value = refl; trimmed = refl }) headers are such.
pub call_headers-AreHeaders :
    (base_url : Text) (compress : Bool) (metadata : Headers)
    → AreHeaders metadata
    → AreHeaders (call_headers (raw_options base_url compress) metadata)
unfolding call_headers trim_start trim_end is_space
call_headers-AreHeaders base_url true metadata h =
    insert-AreHeaders _ _ _ (record { not_empty = refl; name = refl; value = refl; trimmed = refl })
      (insert-AreHeaders _ _ _
        (record { not_empty = refl; name = refl; value = refl; trimmed = refl })
        (insert-AreHeaders _ _ _
          (record { not_empty = refl; name = refl; value = refl; trimmed = refl })
          (insert-AreHeaders _ _ _
            (record { not_empty = refl; name = refl; value = refl; trimmed = refl })
            (insert-AreHeaders _ _ _
              (record { not_empty = refl; name = refl; value = refl; trimmed = refl })
              (insert-AreHeaders _ _ _
                (record { not_empty = refl; name = refl; value = refl; trimmed = refl }) h)))))
call_headers-AreHeaders base_url false metadata h =
    insert-AreHeaders _ _ _ (record { not_empty = refl; name = refl; value = refl; trimmed = refl })
      (insert-AreHeaders _ _ _
        (record { not_empty = refl; name = refl; value = refl; trimmed = refl })
        (insert-AreHeaders _ _ _
          (record { not_empty = refl; name = refl; value = refl; trimmed = refl })
          (insert-AreHeaders _ _ _
            (record { not_empty = refl; name = refl; value = refl; trimmed = refl })
            (insert-AreHeaders _ _ _
              (record { not_empty = refl; name = refl; value = refl; trimmed = refl }) h))))

-- ===== src/Web/Cors.antt =====
-- packages/runtime/src/web/http_handler.ts: requests and replies, the CORS policy and the preflight.
-- A request's headers are those of Node, under lower-case names.
pub mod Preflight
pub mod Metadata
mod Examples
use trpc_proto.Base.{
  ℕ, ◌-◌, ◌^◌, Bool, true, false, not, ◌&&◌, ◌||◌, List, [], ◌∷◌, ◌++◌, map, Option, none, some,
  leb, if◌then◌else◌, Bytes, any,
}
use trpc_proto.Base.Text.{
  Text, codes, text_eq, to_lower, to_upper, trim, split, join, starts_with, has_text, lookup,
  insert,
}
use trpc_proto.Base.Decimal.{decimal}
use trpc_proto.Utility.Case.{non_empty}
use trpc_proto.Web.ContentType.{
  Encoding, Compression, identity, gzip, grpc_web_content_type, grpc_web_encoding, compression_name,
}

pub data HeaderValue : Type 0 where
  undefined_value : HeaderValue
  one_value : Text → HeaderValue
  many_values : List Text → HeaderValue

abbrev pub Headers : Type 0
Headers = List (Text × Text)

pub record HttpRequest : Type 0 where
  pub method : Text
  pub headers : List (Text × HeaderValue)
  pub url_pathname : Option Text
  pub body : List Bytes

-- What has been written to a response, with the status 0 if no head was written, and whether the
-- handler has ended it.
pub record Reply : Type 0 where
  pub status : ℕ
  pub headers : Headers
  pub body : List Bytes
  pub ended : Bool

abbrev default_cors_request_headers : List Text
default_cors_request_headers =
    codes "accept"
    ∷ codes "authorization"
    ∷ codes "content-type"
    ∷ codes "grpc-accept-encoding"
    ∷ codes "grpc-encoding"
    ∷ codes "grpc-timeout"
    ∷ codes "x-grpc-web"
    ∷ codes "x-user-agent"
    ∷ []

abbrev cors_expose_headers : Text
cors_expose_headers =
    codes "grpc-status, grpc-message, grpc-accept-encoding, grpc-encoding, x-grpc-web"

-- `maxAgeSeconds`: a natural number, or some other one.
pub data AgeValue : Type 0 where
  whole_seconds : ℕ → AgeValue
  no_whole_number : AgeValue

-- `GrpcWebCorsOptions`; no additional headers are an empty list.
pub record CorsOptions : Type 0 where
  pub allowed_origins : List Text
  pub additional_allowed_headers : List Text
  pub max_age_seconds : Option AgeValue

pub record CorsPolicy : Type 0 where
  pub allowed_origins : List Text
  pub allowed_headers : List Text
  pub max_age_seconds : ℕ

abbrev pub skip_metadata_headers : List Text
skip_metadata_headers =
    codes "accept"
    ∷ codes "accept-encoding"
    ∷ codes "connection"
    ∷ codes "content-length"
    ∷ codes "content-type"
    ∷ codes "grpc-accept-encoding"
    ∷ codes "grpc-encoding"
    ∷ codes "host"
    ∷ codes "keep-alive"
    ∷ codes "origin"
    ∷ codes "proxy-authenticate"
    ∷ codes "proxy-authorization"
    ∷ codes "proxy-connection"
    ∷ codes "te"
    ∷ codes "trailer"
    ∷ codes "transfer-encoding"
    ∷ codes "upgrade"
    ∷ codes "user-agent"
    ∷ codes "x-grpc-web"
    ∷ codes "x-user-agent"
    ∷ []

unfoldable pub request_header : HttpRequest → Text → Option Text
request_header request name = elim (lookup name request.headers) [
  | none ↦ none
  | some value ↦ elim value [
    | undefined_value ↦ none
    | one_value text ↦ some text
    | many_values ts ↦ none
  ]
]

unfoldable pub request_encoding : HttpRequest → Option Encoding
request_encoding request = grpc_web_encoding (request_header request (codes "content-type"))

abbrev is_gzip : Text → Bool
is_gzip encoding = text_eq (to_lower (trim encoding)) (codes "gzip")

unfoldable pub negotiated_response_compression : HttpRequest → Option Compression
negotiated_response_compression request =
    elim (request_header request (codes "grpc-accept-encoding")) [
      | none ↦ none
      | some accepted ↦ if any is_gzip (split b',' accepted) then some gzip else none
    ]

-- One round of the loop of `metadataFromRequest`; the empty text is not set.
abbrev pub set_metadata : Text → Text → Headers → Headers
set_metadata name [] metadata = metadata
set_metadata name (c ∷ text) metadata = insert name (c ∷ text) metadata

unfoldable pub is_skipped : Text → Bool
is_skipped name = has_text skip_metadata_headers name || starts_with (codes ":") name

abbrev pub add_header : Text → HeaderValue → Headers → Headers
add_header key undefined_value metadata = metadata
add_header key (one_value text) metadata =
    if is_skipped (to_lower key) then metadata else set_metadata (to_lower key) text metadata
add_header key (many_values texts) metadata =
    if is_skipped (to_lower key)
    then metadata
    else set_metadata (to_lower key) (join (codes ",") texts) metadata

unfoldable pub add_headers : List (Text × HeaderValue) → Headers → Headers
add_headers [] metadata = metadata
add_headers ((key, value) ∷ headers) metadata = add_headers headers (add_header key value metadata)

unfoldable pub metadata_from_request : HttpRequest → Headers
metadata_from_request request = add_headers request.headers []

abbrev pub allow_origin : Text
allow_origin = codes "access-control-allow-origin"

abbrev pub cors_headers : Text → Headers
cors_headers origin =
    (allow_origin, origin)
    ∷ (codes "access-control-expose-headers", cors_expose_headers)
    ∷ (codes "vary", codes "Origin")
    ∷ []

abbrev origin_headers : Option Text → Headers
origin_headers none = []
origin_headers (some origin) = cors_headers origin

abbrev compression_headers : Option Compression → Headers
compression_headers none = []
compression_headers (some c) = (codes "grpc-encoding", compression_name c) ∷ []

unfoldable pub grpc_web_headers : Encoding → Option Compression → Option Text → Headers
grpc_web_headers encoding compression origin =
    (codes "content-type", grpc_web_content_type encoding)
    ∷ (codes "grpc-accept-encoding", codes "gzip")
    ∷ (compression_headers compression ++ origin_headers origin)

-- `new Set(texts)`.
abbrev pub text_set : List Text → List Text → List Text
text_set [] seen = seen
text_set (t ∷ ts) seen = text_set ts (if has_text seen t then seen else seen ++ (t ∷ []))

abbrev max_age_of : Option AgeValue → AgeValue
max_age_of none = whole_seconds 600
max_age_of (some age) = age

-- `none` is the `RangeError`.
unfoldable pub create_cors_policy : CorsOptions → Option CorsPolicy
create_cors_policy cors = elim (max_age_of cors.max_age_seconds) [
  | no_whole_number ↦ none
  | whole_seconds seconds ↦
      if leb seconds (2 ^ 53 - 1)
      then some (record {
        allowed_origins = text_set cors.allowed_origins [];
        allowed_headers =
            text_set
              (map to_lower (default_cors_request_headers ++ cors.additional_allowed_headers)) [];
        max_age_seconds = seconds;
      })
      else none
]

abbrev or_empty : Option Text → Text
or_empty none = []
or_empty (some text) = text

unfoldable pub requested_cors_headers : HttpRequest → List Text
requested_cors_headers request = non_empty (
    map (λ name. to_lower (trim name))
      (split b',' (or_empty (request_header request (codes "access-control-request-headers")))))

-- A header that is there and not empty.
unfoldable pub origin_of : HttpRequest → Option Text
origin_of request = elim (request_header request (codes "origin")) [
  | none ↦ none
  | some origin ↦ elim origin [ [] ↦ none | c ∷ s ↦ some (c ∷ s) ]
]

abbrev empty_reply : ℕ → Headers → Reply
empty_reply status headers = record { status = status; headers = headers; body = []; ended = true }

abbrev preflight_vary : Text
preflight_vary = codes "Origin, Access-Control-Request-Method, Access-Control-Request-Headers"

-- `{ ...corsHeaders(origin), vary, … }`.
unfoldable pub preflight_headers : Text → Headers
preflight_headers origin = insert (codes "vary") preflight_vary (cors_headers origin)

unfoldable pub asks_for_post : HttpRequest → Bool
asks_for_post request = elim (request_header request (codes "access-control-request-method")) [
  | none ↦ false
  | some method ↦ text_eq (to_upper method) (codes "POST")
]

unfoldable pub asks_for_other_headers : HttpRequest → CorsPolicy → Bool
asks_for_other_headers request cors =
    any (λ name. not (has_text cors.allowed_headers name)) (requested_cors_headers request)

-- The answer to a preflight from an allowed origin.
unfoldable pub allowed_preflight : HttpRequest → CorsPolicy → Text → Reply
allowed_preflight request cors origin =
    if not (asks_for_post request)
    then empty_reply 405 (
        preflight_headers origin
        ++ ((codes "allow", codes "POST")
            ∷ (codes "access-control-allow-methods", codes "POST")
            ∷ (codes "content-length", codes "0")
            ∷ []))
    else if asks_for_other_headers request cors
    then empty_reply 403 (preflight_headers origin ++ ((codes "content-length", codes "0") ∷ []))
    else empty_reply 204 (
        preflight_headers origin
        ++ ((codes "access-control-allow-methods", codes "POST")
            ∷ (codes "access-control-allow-headers", join (codes ", ") cors.allowed_headers)
            ∷ (codes "access-control-max-age", decimal cors.max_age_seconds)
            ∷ (codes "content-length", codes "0")
            ∷ []))

-- `handleCorsPreflight`; `none` where it returns false.
unfoldable pub handle_cors_preflight : HttpRequest → Option CorsPolicy → Option Reply
handle_cors_preflight request none = none
handle_cors_preflight request (some cors) =
    if not (text_eq request.method (codes "OPTIONS")) then none else elim (origin_of request) [
      | none ↦ none
      | some origin ↦
          if not (has_text cors.allowed_origins origin)
          then some (
              empty_reply 403
                ((codes "vary", preflight_vary) ∷ (codes "content-length", codes "0") ∷ []))
          else some (allowed_preflight request cors origin)
    ]

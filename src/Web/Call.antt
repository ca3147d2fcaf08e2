-- ===== src/Web/Call.antt =====
-- packages/runtime/src/web/fetch_call.ts: the client's call over `fetch`.
-- What `fetch` gives is a parameter; a call that is cancelled is not modelled.
pub mod Values
pub mod Headers
pub mod Replies
pub mod Server
mod Examples
use trpc_proto.Base.{
  ℕ, Bool, true, false, not, List, [], ◌∷◌, ◌++◌, Option, none, some, ◌==◌, if◌then◌else◌, Bytes,
  length, ltb,
}
use trpc_proto.Base.Text.{Text, codes, lookup, insert}
use trpc_proto.Base.Decimal.{decimal}
use trpc_proto.Grpc.Status as GrpcStatus
use trpc_proto.Schema.Types.{ProcedureType, query, mutation, subscription}
use trpc_proto.Web.ContentType.{
  Encoding, Compression, identity, gzip, grpc_web_content_type, grpc_web_encoding,
  parse_compression, compression_name,
}
use trpc_proto.Web.Protocol.{ProtocolValue, protocol_message, protocol_trailers}
use trpc_proto.Web.Body.{Platform, BodyError, encode_value, decode_values}

abbrev pub Headers : Type 0
Headers = List (Text × Text)

-- What is passed to `fetch`.
pub record FetchRequest : Type 0 where
  pub url : Text
  pub headers : Headers
  pub body : Bytes

-- `Response`: its header names are in lower case, and no body is `none`.
pub record Response : Type 0 where
  pub status : ℕ
  pub status_text : Text
  pub headers : Headers
  pub body : Option (List Bytes)

-- What a call throws: a `GrpcWebError`, or an error of another kind.
pub data CallError : Type 0 where
  grpc_web_error : ℕ → Text → CallError
  body_failed : BodyError → CallError
  path_required unsupported_encoding fetch_failed : CallError

-- A unary call gives a message; a subscription gives messages, and an error behind them if it
-- throws.
pub data CallResult : Type 0 where
  failed : CallError → CallResult
  replied : Bytes → CallResult
  streamed : List Bytes → Option CallError → CallResult

-- The options of `createGrpcWebFetchCall` with their defaults filled in.
pub record CallOptions : Type 0 where
  pub base_url : Text
  pub encoding : Encoding
  pub compress : Bool

pub record StubRequest : Type 0 where
  pub type : ProcedureType
  pub grpc_path : Text
  pub bytes : Option Bytes
  pub metadata : Headers

abbrev pub http_status_to_grpc_status : ℕ → Option ℕ
http_status_to_grpc_status status =
    if status == 400
    then some GrpcStatus.internal
    else if status == 401
    then some GrpcStatus.unauthenticated
    else if status == 403
    then some GrpcStatus.permission_denied
    else if status == 404
    then some GrpcStatus.unimplemented
    else if status == 429
    then some GrpcStatus.unavailable
    else if status == 502
    then some GrpcStatus.unavailable
    else if status == 503
    then some GrpcStatus.unavailable
    else if status == 504
    then some GrpcStatus.unavailable
    else none

abbrev or_unknown : Option ℕ → ℕ
or_unknown none = GrpcStatus.unknown
or_unknown (some status) = status

unfoldable pub missing_grpc_status : Response → CallError
missing_grpc_status res = grpc_web_error (or_unknown (http_status_to_grpc_status res.status)) (
    codes "missing grpc-status (HTTP "
    ++ (decimal res.status ++ (codes ") from gRPC-Web response: " ++ res.status_text)))

abbrev or_encoding : Option Encoding → Encoding → Encoding
or_encoding none fallback = fallback
or_encoding (some encoding) fallback = encoding

unfoldable pub response_encoding : Response → Encoding → Encoding
response_encoding res fallback =
    or_encoding (grpc_web_encoding (lookup (codes "content-type") res.headers)) fallback

-- `readResponseBody`: chunks with no bytes are left out.
unfoldable pub read_chunks : List Bytes → List Bytes
read_chunks [] = []
read_chunks (chunk ∷ chunks) =
    if ltb 0 (length chunk) then chunk ∷ read_chunks chunks else read_chunks chunks

-- `value.message || …`.
abbrev pub status_text : ℕ → Text → Text
status_text status [] = codes "grpc-status " ++ decimal status
status_text status (c ∷ text) = c ∷ text

-- The end of the values: what the decoder has thrown, or that they had no trailers.
abbrev pub end_of_values : Response → Option BodyError → CallError
end_of_values res none = missing_grpc_status res
end_of_values res (some e) = body_failed e

-- The loop of `readGrpcWebStream` over the values that the decoder yields and what it throws.
unfoldable pub stream_values :
    Response → List ProtocolValue → Option BodyError → List Bytes × Option CallError
stream_values res [] thrown = ([], some (end_of_values res thrown))
stream_values res (protocol_message payload ∷ values) thrown =
    let (payloads, e) = stream_values res values thrown in (payload ∷ payloads, e)
stream_values res (protocol_trailers status text metadata ∷ values) thrown =
    if status == GrpcStatus.ok
    then ([], none)
    else ([], some (grpc_web_error status (status_text status text)))

-- The variables of a unary call: the message, and the status with its text.
pub record Unary : Type 0 where
  pub message : Option Bytes
  pub status : Option (ℕ × Text)

abbrev pub or_payload : Option Bytes → Bytes → Option Bytes
or_payload none payload = some payload
or_payload (some first) payload = some first

-- The loop of a unary call.
unfoldable pub unary_values : Unary → List ProtocolValue → Unary
unary_values u [] = u
unary_values u (protocol_message payload ∷ values) =
    unary_values (record { message = or_payload u.message payload; status = u.status }) values
unary_values u (protocol_trailers status text metadata ∷ values) =
    unary_values (record { message = u.message; status = some (status, status_text status text) })
      values

abbrev pub no_values : Unary
no_values = record { message = none; status = none }

-- What a unary call does behind its loop.
unfoldable pub unary_end : Response → Unary → CallResult
unary_end res u = elim u.status [
  | none ↦ failed (missing_grpc_status res)
  | some (status, text) ↦
      if not (status == GrpcStatus.ok)
      then failed (grpc_web_error status text)
      else elim u.message [
        | none ↦ failed (grpc_web_error GrpcStatus.internal (codes "empty gRPC-Web response"))
        | some message ↦ replied message
      ]
]

unfoldable pub unary_result : Response → List ProtocolValue → Option BodyError → CallResult
unary_result res values (some e) = failed (body_failed e)
unary_result res values none = unary_end res (unary_values no_values values)

abbrev pub stream_result : List Bytes × Option CallError → CallResult
stream_result (payloads, e) = streamed payloads e

-- The switch over the type of a call.
abbrev pub result_of : ProcedureType → Response → List ProtocolValue × Option BodyError → CallResult
result_of subscription res (values, thrown) = stream_result (stream_values res values thrown)
result_of query res (values, thrown) = unary_result res values thrown
result_of mutation res (values, thrown) = unary_result res values thrown

abbrev empty_body : CallError
empty_body = grpc_web_error 13 (codes "empty gRPC-Web body")

-- A body that is not there is found out when it is read.
abbrev pub no_body : ProcedureType → CallResult
no_body subscription = streamed [] (some empty_body)
no_body query = failed empty_body
no_body mutation = failed empty_body

abbrev pub request_compression : CallOptions → Option Compression
request_compression options = if options.compress then some gzip else none

abbrev pub or_identity : Option Compression → Compression
or_identity none = identity
or_identity (some c) = c

abbrev add_compression : Option Compression → Headers → Headers
add_compression none headers = headers
add_compression (some c) headers = insert (codes "grpc-encoding") (compression_name c) headers

-- The object literal of the headers: a later key replaces an earlier one.
unfoldable pub call_headers : CallOptions → Headers → Headers
call_headers options metadata =
    let content_type = grpc_web_content_type options.encoding in
    insert (codes "x-user-agent") (codes "grpc-web-javascript/0.1") (
      insert (codes "x-grpc-web") (codes "1") (
        add_compression (request_compression options) (
          insert (codes "grpc-accept-encoding") (codes "gzip") (
            insert (codes "content-type") content_type
              (insert (codes "accept") content_type metadata)))))

abbrev pub or_no_bytes : Option Bytes → Bytes
or_no_bytes none = []
or_no_bytes (some bytes) = bytes

module _ (p : Platform) (options : CallOptions) where
  unfoldable pub fetch_request : StubRequest → FetchRequest
  fetch_request request = record {
    url = options.base_url ++ request.grpc_path;
    headers = call_headers options request.metadata;
    body =
        encode_value p options.encoding (or_identity (request_compression options))
          (protocol_message (or_no_bytes request.bytes));
  }

  -- From the response on.
  unfoldable pub read_response : ProcedureType → Response → CallResult
  read_response type res =
      if not (res.status == 200)
      then failed (missing_grpc_status res)
      else elim (parse_compression (lookup (codes "grpc-encoding") res.headers)) [
        | none ↦ failed unsupported_encoding
        | some compression ↦ elim res.body [
          | none ↦ no_body type
          | some chunks ↦ result_of type res (
              decode_values p (response_encoding res options.encoding) compression
                (read_chunks chunks))
        ]
      ]

  -- The call; an empty path counts as none.
  unfoldable pub fetch_call : (FetchRequest → Option Response) → StubRequest → CallResult
  fetch_call fetch request =
      if length request.grpc_path == 0
      then failed path_required
      else elim (fetch (fetch_request request)) [
        | none ↦ failed fetch_failed
        | some res ↦ read_response request.type res
      ]

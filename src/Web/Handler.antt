-- ===== src/Web/Handler.antt =====
-- packages/runtime/src/web/http_handler.ts: from a request to the reply that is written.
-- The environment is part of the input: what the dispatcher emits and how it ends, and at each write
-- whether the connection is still open.
pub mod Answers
pub mod Origins
mod Examples
use trpc_proto.Base.{
  ℕ, Bool, true, false, not, ◌&&◌, List, [], ◌∷◌, ◌++◌, map, Option, none, some, if◌then◌else◌,
  Bytes, concat, length, ◌≡◌, refl, ◌⊎◌, inl, inr,
}
use trpc_proto.Base.Text.{Text, codes, text_eq, has_text, insert}
use trpc_proto.Base.Decimal.{decimal}
use trpc_proto.Grpc.Status as GrpcStatus
use trpc_proto.Batch.Dispatch.{DispatchStatus}
use trpc_proto.Web.ContentType.{
  Encoding, Compression, identity, parse_compression, negotiate_response_encoding,
}
use trpc_proto.Web.Frame.{Trailers}
use trpc_proto.Web.Protocol.{ProtocolValue, protocol_message, protocol_trailers}
use trpc_proto.Web.Body.{Platform, BodyError, encode_value, decode_values}
use trpc_proto.Web.Cors.{
  Headers, HttpRequest, Reply, CorsPolicy, request_header, request_encoding,
  negotiated_response_compression, metadata_from_request, grpc_web_headers, origin_of,
  handle_cors_preflight,
}

-- How a dispatcher ends: with a status, or by a throw of which this is the message.
pub data DispatchEnd : Type 0 where
  returned : DispatchStatus → DispatchEnd
  failed : Text → DispatchEnd

-- The messages that a dispatcher emits, each with whether the connection is open then, its end, and
-- whether the connection is open then.
pub record Dispatching : Type 0 where
  pub emitted : List (Bytes × Bool)
  pub end : DispatchEnd
  pub open_at_end : Bool

abbrev pub HttpDispatcher : Type 0
HttpDispatcher = Text → Bytes → Headers → Dispatching

abbrev pub messages_of : List ProtocolValue → List Bytes
messages_of [] = []
messages_of (protocol_message payload ∷ values) = payload ∷ messages_of values
messages_of (protocol_trailers status text metadata ∷ values) = messages_of values

-- Why a request is not dispatched.
pub data RequestError : Type 0 where
  unsupported_encoding : RequestError
  body_error : BodyError → RequestError
  message_count : ℕ → RequestError

pub data OneMessage : Type 0 where
  no_message : RequestError → OneMessage
  one_message : Bytes → OneMessage

pub OneMessage-cases :
    (m : OneMessage)
    → ((e : RequestError) × (m ≡ no_message e)) ⊎ ((payload : Bytes) × (m ≡ one_message payload))
OneMessage-cases (no_message e) = inl (e, refl)
OneMessage-cases (one_message payload) = inr (payload, refl)

abbrev pub compression_or_identity : Option Compression → Compression
compression_or_identity none = identity
compression_or_identity (some c) = c

abbrev pub metadata_or_empty : Option Trailers → Trailers
metadata_or_empty none = []
metadata_or_empty (some metadata) = metadata

abbrev pub single : List Bytes → OneMessage
single [] = no_message (message_count 0)
single (payload ∷ []) = one_message payload
single (payload ∷ more) = no_message (message_count (length (payload ∷ more)))

-- An origin that is there and that the policy, if there is one, does not allow.
unfoldable pub is_refused : Option Text → Option CorsPolicy → Bool
is_refused none cors = false
is_refused (some origin) none = false
is_refused (some origin) (some cors) = not (has_text cors.allowed_origins origin)

-- `responseOrigin`.
unfoldable pub response_origin : Option Text → Option CorsPolicy → Option Text
response_origin none cors = none
response_origin (some origin) none = none
response_origin (some origin) (some cors) =
    if has_text cors.allowed_origins origin then some origin else none

module _ (p : Platform) (error_text : RequestError → Text) where
  -- The loop over the values of the request's body, and the count of its messages.
  unfoldable pub request_message : HttpRequest → Encoding → OneMessage
  request_message request encoding =
      elim (parse_compression (request_header request (codes "grpc-encoding"))) [
        | none ↦ no_message unsupported_encoding
        | some compression ↦
            let (values, thrown) =
              decode_values p encoding compression (concat request.body ∷ []) in
            elim thrown [ some e ↦ no_message (body_error e) | none ↦ single (messages_of values) ]
      ]

  abbrev pub status_block : Encoding → ℕ → Text → Trailers → Bytes
  status_block encoding status text metadata =
      encode_value p encoding identity (protocol_trailers status text metadata)

  abbrev pub message_block : Encoding → Option Compression → Bytes → Bytes
  message_block encoding compression payload =
      encode_value p encoding (compression_or_identity compression) (protocol_message payload)

  -- The writes of `emit`: none when the connection is closed.
  abbrev pub written : Encoding → Option Compression → List (Bytes × Bool) → List Bytes
  written encoding compression [] = []
  written encoding compression ((payload, is_open) ∷ emitted) =
      if is_open
      then message_block encoding compression payload ∷ written encoding compression emitted
      else written encoding compression emitted

  abbrev pub end_block : Encoding → DispatchEnd → Bytes
  end_block encoding (returned status) =
      status_block encoding status.code status.message (metadata_or_empty status.metadata)
  end_block encoding (failed text) = status_block encoding GrpcStatus.internal text []

  -- The catch clause before the head of the reply is written.
  unfoldable pub refuse : Encoding → Headers → Bool → Text → Reply
  refuse encoding headers is_open text =
      let block = status_block encoding GrpcStatus.internal text [] in
      if is_open
      then record {
        status = 200;
        headers = insert (codes "content-length") (decimal (length block)) headers;
        body = block ∷ [];
        ended = true;
      }
      else record { status = 0; headers = []; body = []; ended = false }

  -- From the head of the reply on: a path that is no URL throws.
  unfoldable pub respond : Encoding → Option Compression → Headers → Dispatching → Reply
  respond encoding compression headers d = record {
    status = 200;
    headers = headers;
    body =
        written encoding compression d.emitted
        ++ (if d.open_at_end then end_block encoding d.end ∷ [] else []);
    ended = d.open_at_end;
  }

  abbrev pub run_dispatch : HttpDispatcher → HttpRequest → Bytes → Bool → Dispatching
  run_dispatch dispatch request payload is_open = elim request.url_pathname [
    | some path ↦ dispatch path payload (metadata_from_request request)
    | none ↦ record { emitted = []; end = failed (codes "Invalid URL"); open_at_end = is_open }
  ]

  -- The catch clause for a request that is not dispatched, and all that follows one that is.
  unfoldable pub answer : HttpRequest → Encoding → Option Text → HttpDispatcher → Bool → Reply
  answer request encoding origin dispatch is_open =
      let response_encoding =
        negotiate_response_encoding (request_header request (codes "accept")) encoding in
      let compression = negotiated_response_compression request in
      let headers = grpc_web_headers response_encoding compression origin in
      elim (request_message request encoding) [
        | no_message e ↦ refuse response_encoding headers is_open (error_text e)
        | one_message payload ↦
            respond response_encoding compression headers
              (run_dispatch dispatch request payload is_open)
      ]

  -- `handleGrpcWebHttpRequest`; `none` where it returns false. `is_open` is the state of the
  -- connection when a request that is not dispatched is answered.
  unfoldable pub handle : HttpRequest → Option CorsPolicy → HttpDispatcher → Bool → Option Reply
  handle request cors dispatch is_open = elim (handle_cors_preflight request cors) [
    | some reply ↦ some reply
    | none ↦
        if not (text_eq request.method (codes "POST"))
        then none
        else elim (request_encoding request) [
          | none ↦ none
          | some encoding ↦
              if is_refused (origin_of request) cors
              then some (record {
                status = 403;
                headers = (codes "vary", codes "Origin") ∷ (codes "content-length", codes "0") ∷ [];
                body = [];
                ended = true;
              })
              else some (
                  answer request encoding (response_origin (origin_of request) cors) dispatch
                    is_open)
        ]
  ]

-- ===== src/Web/Protocol.antt =====
-- packages/runtime/src/web/codec/protocol_codec.ts: messages and final statuses as frames.
-- The compressor and `decodeURIComponent` belong to the platform and are parameters. A status is a
-- natural number. Errors keep the text that their message quotes.
pub mod Status
pub mod Values
mod Examples
use trpc_proto.Base.{
  ℕ, zero, suc, ◌+◌, ◌-◌, ◌*◌, ◌/◌, ◌%◌, ◌^◌, Bool, true, false, not, ◌&&◌, ◌||◌, List, [], ◌∷◌,
  ◌++◌, Option, none, some, ltb, leb, if◌then◌else◌, Bytes, all,
}
use trpc_proto.Base.Text.{Text, codes, text_eq, to_lower, is_digit, lookup, insert}
use trpc_proto.Base.Decimal.{decimal_value, is_decimal, decimal}
use trpc_proto.Web.ContentType.{Compression, identity, gzip}
use trpc_proto.Web.Frame.{Frame, message, trailers, Trailers}

abbrev pub grpc_status_header : Text
grpc_status_header = codes "grpc-status"

abbrev pub grpc_message_header : Text
grpc_message_header = codes "grpc-message"

-- `GrpcWebProtocolValue`; metadata that is not there is empty.
pub data ProtocolValue : Type 0 where
  protocol_message : Bytes → ProtocolValue
  protocol_trailers : ℕ → Text → Trailers → ProtocolValue

-- The errors of status UNKNOWN, and `failed_message` of status INTERNAL.
pub data ProtocolError : Type 0 where
  missing_status : ProtocolError
  invalid_status invalid_message failed_message : Text → ProtocolError

pub data Parsed {ℓ} (A : Type ℓ) : Type ℓ where
  rejected : ProtocolError → Parsed A
  parsed : A → Parsed A

abbrev max_safe_integer : ℕ
max_safe_integer = 2 ^ 53 - 1

-- A decimal that is no safe integer is above 16 in either reading.
unfoldable pub parse_grpc_status : Option Text → Parsed ℕ
unfolding decimal_value
parse_grpc_status none = rejected missing_status
parse_grpc_status (some encoded) =
    if not (is_decimal encoded)
    then rejected (invalid_status encoded)
    else let status = decimal_value 0 encoded in
      if not (leb status max_safe_integer) || ltb 16 status
      then rejected (invalid_status encoded)
      else parsed status

abbrev pub is_status_name : Text → Bool
is_status_name name = text_eq name grpc_status_header || text_eq name grpc_message_header

-- The loop over the metadata.
abbrev pub add_metadata : Trailers → Trailers → Trailers
add_metadata [] found = found
add_metadata ((key, value) ∷ metadata) found =
    if is_status_name (to_lower key)
    then add_metadata metadata found
    else add_metadata metadata (insert (to_lower key) value found)

abbrev pub trailer_entries : ℕ → Text → Trailers → Trailers
trailer_entries status text metadata =
    add_metadata metadata ((grpc_status_header, decimal status) ∷ (grpc_message_header, text) ∷ [])

-- `...metadata`: the entries but for the two.
abbrev pub other_entries : Trailers → Trailers
other_entries [] = []
other_entries ((name, value) ∷ entries) =
    if is_status_name name then other_entries entries else (name, value) ∷ other_entries entries

-- What the compression codec gives: one message, or its error.
pub data Inflated : Type 0 where
  inflated : Bytes → Inflated
  broken : Text → Inflated

module _ (compress : Bytes → Bytes) (decompress : Bytes → Inflated)
    (decode_uri_component : Text → Option Text) where
  -- The frame that `GrpcWebProtocolCodec.encode` makes; no compression is `identity`.
  unfoldable pub value_frame : Compression → ProtocolValue → Frame
  value_frame identity (protocol_message payload) = message false payload
  value_frame gzip (protocol_message payload) = message true (compress payload)
  value_frame compression (protocol_trailers status text metadata) =
      trailers (trailer_entries status text metadata)

  unfoldable pub decode_compressed_message : Compression → Bytes → Parsed Bytes
  decode_compressed_message identity payload =
      rejected (failed_message (codes "unsupported grpc-encoding for compressed message: identity"))
  decode_compressed_message gzip payload = elim (decompress payload) [
    | inflated decoded ↦ parsed decoded
    | broken text ↦ rejected (failed_message text)
  ]

  unfoldable pub decode_grpc_message : Text → Parsed Text
  decode_grpc_message encoded = elim (decode_uri_component encoded) [
    | some text ↦ parsed text
    | none ↦ rejected (invalid_message encoded)
  ]

  -- The text of the trailers, empty if there is none.
  abbrev pub message_entry : Trailers → Text
  message_entry entries = elim (lookup grpc_message_header entries) [ none ↦ [] | some text ↦ text ]

  -- One round of `GrpcWebProtocolCodec.decode`.
  unfoldable pub frame_value : Compression → Frame → Parsed ProtocolValue
  frame_value compression (message false payload) = parsed (protocol_message payload)
  frame_value compression (message true payload) =
      elim (decode_compressed_message compression payload) [
        | parsed decoded ↦ parsed (protocol_message decoded)
        | rejected e ↦ rejected e
      ]
  frame_value compression (trailers entries) =
      elim (parse_grpc_status (lookup grpc_status_header entries)) [
        | rejected e ↦ rejected e
        | parsed status ↦ elim (decode_grpc_message (message_entry entries)) [
          | rejected e ↦ rejected e
          | parsed text ↦ parsed (protocol_trailers status text (other_entries entries))
        ]
      ]

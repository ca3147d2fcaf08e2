-- ===== src/Web/Protocol/Values.antt =====
-- Values through frames: what the encoder of protocol_codec.ts makes, its decoder takes apart.
use trpc_proto.Base.{
  ℕ, ◌≤◌, ◌≡◌, ◌∙◌, refl, true, [], ◌∷◌, Option, some, arith, Bytes, Bool-cases, inl, inr,
}
use trpc_proto.Base.Text.{Text, text_eq_iff, to_lower, lookup, insert, lookup-insert}
use trpc_proto.Web.ContentType.{Compression, identity, gzip}
use trpc_proto.Web.Frame.{Trailers, trailers}
use trpc_proto.Base.Decimal.{decimal}
use trpc_proto.Web.Protocol.{
  grpc_status_header, grpc_message_header, protocol_message, protocol_trailers, parsed,
  parse_grpc_status, is_status_name, add_metadata, trailer_entries, other_entries, Inflated,
  inflated, value_frame, frame_value, decode_compressed_message, decode_grpc_message,
}
use trpc_proto.Web.Protocol.Status.{parse_grpc_status-decimal}

lookup-add_metadata :
    (name : Text) (metadata found : Trailers)
    → is_status_name name ≡ true
    → lookup name (add_metadata metadata found) ≡ lookup name found
lookup-add_metadata name [] found h = refl
lookup-add_metadata name ((key, value) ∷ metadata) found h =
    elim (Bool-cases (is_status_name (to_lower key))) [
      | inl skipped ↦ rw skipped (lookup-add_metadata name metadata found h)
      | inr kept ↦ rw kept (
          lookup-add_metadata name metadata (insert (to_lower key) value found) h
          ∙ ground (
            arith,
            lookup-insert (to_lower key) name value found,
            text_eq_iff (to_lower key) name,
          ))
    ]

-- No metadata replaces the status or the message of a trailer block.
pub lookup-trailer_entries :
    (status : ℕ) (text : Text) (metadata : Trailers)
    → (lookup grpc_status_header (trailer_entries status text metadata) ≡ some (decimal status))
      × (lookup grpc_message_header (trailer_entries status text metadata) ≡ some text)
lookup-trailer_entries status text metadata = (
  lookup-add_metadata grpc_status_header metadata _ refl,
  lookup-add_metadata grpc_message_header metadata _ refl,
)

module _ (compress : Bytes → Bytes) (decompress : Bytes → Inflated)
    (decode_uri_component : Text → Option Text) where
  -- A message comes back from its frame under the compression that made it, if the compressor's
  -- output for it decompresses to it.
  pub frame_value-message :
      (compression : Compression) (payload : Bytes)
      → decompress (compress payload) ≡ inflated payload
      → frame_value compress decompress decode_uri_component compression (
          value_frame compress decompress decode_uri_component compression
            (protocol_message payload))
        ≡ parsed (protocol_message payload)
  unfolding frame_value value_frame decode_compressed_message
  frame_value-message identity payload h = refl
  frame_value-message gzip payload h = rw (h, frame_value)

  pub frame_value-entries :
      (compression : Compression) (entries : Trailers) {status : ℕ} {encoded text decoded : Text}
      → lookup grpc_status_header entries ≡ some encoded
      → parse_grpc_status (some encoded) ≡ parsed status
      → lookup grpc_message_header entries ≡ some text
      → decode_uri_component text ≡ some decoded
      → frame_value compress decompress decode_uri_component compression (trailers entries)
        ≡ parsed (protocol_trailers status decoded (other_entries entries))
  unfolding frame_value decode_grpc_message
  frame_value-entries compression entries has_status is_status has_text decodes =
      ground (arith, has_status, is_status, has_text, decodes)

  -- Trailers with a status of at most 16 and any metadata are decoded to that status, to what the
  -- percent-decoder makes of the text, if it takes it, and to the entries that are not these two.
  pub frame_value-trailers :
      (compression : Compression) (status : ℕ) (text decoded : Text) (metadata : Trailers)
      → status ≤ 16
      → decode_uri_component text ≡ some decoded
      → frame_value compress decompress decode_uri_component compression
          (trailers (trailer_entries status text metadata))
        ≡ parsed (
            protocol_trailers status decoded (other_entries (trailer_entries status text metadata)))
  frame_value-trailers compression status text decoded metadata h d =
      let (has_status, has_text) = lookup-trailer_entries status text metadata in
      frame_value-entries compression (trailer_entries status text metadata) has_status
        (parse_grpc_status-decimal status h) has_text d

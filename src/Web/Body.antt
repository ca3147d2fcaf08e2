-- ===== src/Web/Body.antt =====
-- packages/runtime/src/web/codec/protocol_codec.ts: the body of a request or a response, which is
-- frames, as they are or as base64 text.
pub mod Messages
pub mod Percent
pub mod Plain
pub mod Trailers
mod Examples
use trpc_proto.Base.{List, [], ◌∷◌, ◌++◌, Option, none, some, Bytes}
use trpc_proto.Base.Text.{Text}
use trpc_proto.Web.ContentType.{Encoding, raw, base64, Compression}
use trpc_proto.Web.Frame.{Frame, FrameError, ok, err, Utf8, push, finish}
use trpc_proto.Web.Frame as FrameCodec
use trpc_proto.Web.Base64.{Base64Error, decode_base64, encode_base64}
use trpc_proto.Web.Protocol.{
  ProtocolValue, ProtocolError, parsed, rejected, Inflated, value_frame, frame_value,
}

-- What the platform does: text coding, gzip, `decodeURIComponent`, `atob`, `btoa`, and the texts of
-- a stream of chunks, by a `TextDecoder` that keeps incomplete characters.
pub record Platform : Type 0 where
  pub utf8 : Utf8
  pub compress : Bytes → Bytes
  pub decompress : Bytes → Inflated
  pub decode_uri_component : Text → Option Text
  pub atob : Text → Option Bytes
  pub btoa : Bytes → Text
  pub stream_texts : List Bytes → List Text

-- What a decoder of a body throws.
pub data BodyError : Type 0 where
  frame_error : FrameError → BodyError
  base64_error : Base64Error → BodyError
  protocol_error : ProtocolError → BodyError

module _ (p : Platform) where
  -- `GrpcWebProtocolCodec.encode`.
  unfoldable pub encode_value : Encoding → Compression → ProtocolValue → Bytes
  encode_value raw compression value =
      FrameCodec.encode p.utf8
        (value_frame p.compress p.decompress p.decode_uri_component compression value)
  encode_value base64 compression value = p.utf8.encode (
      encode_base64 p.btoa (
        FrameCodec.encode p.utf8
          (value_frame p.compress p.decompress p.decode_uri_component compression value)))

  -- The frames of a stream of chunks that ends, or fails in its source.
  unfoldable pub decode_source :
      Bytes → List Bytes → Option Base64Error → List Frame × Option BodyError
  decode_source buffer [] none = elim (finish p.utf8 buffer) [
    | ok frames ↦ (frames, none)
    | err e ↦ ([], some (frame_error e))
  ]
  decode_source buffer [] (some e) = ([], some (base64_error e))
  decode_source buffer (chunk ∷ chunks) source = elim (push p.utf8 buffer chunk) [
    | err e ↦ ([], some (frame_error e))
    | ok (left, frames) ↦
        let (later, thrown) = decode_source left chunks source in (frames ++ later, thrown)
  ]

  unfoldable pub decode_frames : Encoding → List Bytes → List Frame × Option BodyError
  decode_frames raw chunks = decode_source [] chunks none
  decode_frames base64 chunks =
      let (pieces, thrown) = decode_base64 p.atob (p.stream_texts chunks) in
      decode_source [] pieces thrown

  -- The loop over the frames; a value that is rejected ends it.
  unfoldable pub frame_values :
      Compression → List Frame → Option BodyError → List ProtocolValue × Option BodyError
  frame_values compression [] thrown = ([], thrown)
  frame_values compression (frame ∷ frames) thrown =
      let later = frame_values compression frames thrown in
      elim (frame_value p.compress p.decompress p.decode_uri_component compression frame) [
        | rejected e ↦ ([], some (protocol_error e))
        | parsed value ↦ (value ∷ later.0, later.1)
      ]

  -- `GrpcWebProtocolCodec.decode`.
  unfoldable pub decode_values :
      Encoding → Compression → List Bytes → List ProtocolValue × Option BodyError
  decode_values encoding compression chunks =
      let (frames, thrown) = decode_frames encoding chunks in frame_values compression frames thrown

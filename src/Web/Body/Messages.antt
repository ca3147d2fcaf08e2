-- ===== src/Web/Body/Messages.antt =====
-- Bodies of raw frames, from the encoder of protocol_codec.ts to its decoder.
use trpc_proto.Base.{
  ◌≡◌, ◌∙◌, ap, refl, List, [], ◌∷◌, map, Option, none, some, concat, All, Bytes, inl, inr,
}
use trpc_proto.Web.ContentType.{raw, Compression}
use trpc_proto.Web.Frame.{Frame, FrameError, push, finish, decode_from, decode, encode}
use trpc_proto.Web.Frame.Rounds.{Result-cases}
use trpc_proto.Web.Frame.RoundTrip.{returned, FitsHeader, decode-encode}
use trpc_proto.Web.Protocol.{ProtocolValue, parsed, value_frame, frame_value}
use trpc_proto.Web.Body.{
  Platform, BodyError, frame_error, encode_value, decode_source, decode_frames, frame_values,
  decode_values,
}

abbrev thrown_by : Option FrameError → Option BodyError
thrown_by none = none
thrown_by (some e) = some (frame_error e)

abbrev pub sent : List (ProtocolValue × ProtocolValue) → List ProtocolValue
sent pairs = map (λ e. e.0) pairs

module _ (p : Platform) where
  decode_source-decode_from :
      (buffer : Bytes) (chunks : List Bytes)
      → decode_source p buffer chunks none
        ≡ ((decode_from p.utf8 buffer chunks).0, thrown_by (decode_from p.utf8 buffer chunks).1)
  unfolding decode_source decode_from
  decode_source-decode_from buffer [] = elim (Result-cases (finish p.utf8 buffer)) [
    | inl (e, wrong) ↦ rw (wrong, decode_source, decode_from) refl
    | inr (frames, right) ↦ rw (right, decode_source, decode_from) refl
  ]
  decode_source-decode_from buffer (chunk ∷ chunks) =
      elim (Result-cases (push p.utf8 buffer chunk)) [
        | inl (e, wrong) ↦ rw (wrong, decode_source, decode_from) refl
        | inr ((left, frames), right) ↦
            rw (right, decode_source, decode_from, decode_source-decode_from left chunks) refl
      ]

  abbrev pub frame_of : Compression → ProtocolValue → Frame
  frame_of compression value =
      value_frame p.compress p.decompress p.decode_uri_component compression value

  -- The value that is read where `value` is sent.
  abbrev pub Comes : Compression → ProtocolValue → ProtocolValue → Type 0
  Comes compression value read =
      frame_value p.compress p.decompress p.decode_uri_component compression
        (returned p.utf8 (frame_of compression value))
      ≡ parsed read

  frame_values_all :
      (compression : Compression) (pairs : List (ProtocolValue × ProtocolValue))
      → All (λ e. Comes compression e.0 e.1) pairs
      → frame_values p compression
          (map (returned p.utf8) (map (frame_of compression) (sent pairs)))
          none
        ≡ (map (λ e. e.1) pairs, none)
  unfolding frame_values
  frame_values_all compression [] comes = refl
  frame_values_all compression ((value, read) ∷ pairs) (first, comes) =
      rw (first, frame_values_all compression pairs comes, frame_values) refl

  encoded_frames :
      (compression : Compression) (values : List ProtocolValue)
      → map (encode_value p raw compression) values
        ≡ map (encode p.utf8) (map (frame_of compression) values)
  unfolding encode_value
  encoded_frames compression [] = refl
  encoded_frames compression (value ∷ values) =
      ap (◌∷◌ (encode p.utf8 (frame_of compression value))) (encoded_frames compression values)

  decode_from_framed :
      (chunks : List Bytes) {result : List Frame × Option FrameError}
      → decode p.utf8 chunks ≡ result
      → decode_from p.utf8 [] chunks ≡ result
  unfolding decode
  decode_from_framed chunks e = e

  -- However a body of raw frames is cut into chunks, the values are read in their order, each as its frame is.
  pub decode_values-encode_value :
      (compression : Compression) (pairs : List (ProtocolValue × ProtocolValue))
      (chunks : List Bytes)
      → All (λ e. Comes compression e.0 e.1) pairs
      → All (FitsHeader p.utf8) (map (frame_of compression) (sent pairs))
      → concat chunks ≡ concat (map (encode_value p raw compression) (sent pairs))
      → decode_values p raw compression chunks ≡ (map (λ e. e.1) pairs, none)
  unfolding decode_values decode_frames
  decode_values-encode_value compression pairs chunks comes fits same =
      let framed : decode p.utf8 chunks
          ≡ (map (returned p.utf8) (map (frame_of compression) (sent pairs)), none) =
        decode-encode p.utf8 (map (frame_of compression) (sent pairs)) chunks fits
          (same ∙ ap concat (encoded_frames compression (sent pairs))) in
      let source : decode_source p [] chunks none
          ≡ (map (returned p.utf8) (map (frame_of compression) (sent pairs)), none) =
        decode_source-decode_from [] chunks
        ∙ ap (λ r. (r.0, thrown_by r.1)) (decode_from_framed chunks framed) in
      rw source (frame_values_all compression pairs comes)

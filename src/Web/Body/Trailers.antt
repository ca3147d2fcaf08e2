-- ===== src/Web/Body/Trailers.antt =====
-- Bodies of messages and a final status, as protocol_codec.ts writes and reads them.
use trpc_proto.Base.{
  ℕ, ◌<◌, ◌≡◌, refl, List, [], ◌∷◌, ◌++◌, map, some, arith, All, Bytes, Bool-cases, inl, inr,
}
use trpc_proto.Base.Text.{Text, text_eq, text_eq_iff, insert, lookup-insert}
use trpc_proto.Base.Decimal.{decimal}
use trpc_proto.Web.ContentType.{Compression, identity, gzip}
use trpc_proto.Web.Frame.{trailers, Trailers, join_lines, trailer_line, trailer_block}
use trpc_proto.Web.Frame.RoundTrip.{FitsHeader}
use trpc_proto.Web.Frame.TrailerText.{IsName, Differ, received}
use trpc_proto.Web.Protocol.{
  ProtocolValue, protocol_message, inflated, value_frame, trailer_entries, other_entries,
}
use trpc_proto.Web.Protocol.Values.{frame_value-message}
use trpc_proto.Web.Body.{Platform}
use trpc_proto.Web.Body.Percent.{unescape, IsUnpadded}
use trpc_proto.Web.Body.Messages.{frame_of, Comes}

pub insert-Differ :
    (name value : Text) (found : Trailers) → Differ found → Differ (insert name value found)
insert-Differ name value [] h = (refl, tt)
insert-Differ name value ((n, v) ∷ found) (new, h) = elim (Bool-cases (text_eq n name)) [
  | inl same ↦ rw same (new, h)
  | inr other ↦ rw other (
    ground (arith, lookup-insert name n value found, text_eq_iff n name, text_eq_iff name n),
    insert-Differ name value found h,
  )
]

-- The values of a reply: its messages, and its trailers last.
abbrev pub reply_values : List Bytes → ProtocolValue → List ProtocolValue
reply_values payloads last = map protocol_message payloads ++ (last ∷ [])

module _ (p : Platform) where
  -- The trailers of a call can be sent: the platform's coder returns their block, their names are read
  -- as they are written, the text of the status has no space at its ends, and `decodeURIComponent`
  -- gives that text for whatever percent-encodes its bytes.
  pub record CanBeSent (status : ℕ) (text : Text) (metadata : Trailers) : Type 0 where
    pub names : All (λ e. IsName e.0) (trailer_entries status text metadata)
    pub digits : p.utf8.encode (decimal status) ≡ decimal status
    pub block :
        p.utf8.decode (trailer_block p.utf8 (trailer_entries status text metadata))
        ≡ join_lines (map (trailer_line p.utf8) (trailer_entries status text metadata))
    pub bytes : All (λ b. b < 256) (p.utf8.encode text)
    pub unpadded : IsUnpadded (p.utf8.encode text)
    pub percent :
        (s : Text) → unescape s ≡ some (p.utf8.encode text) → p.decode_uri_component s ≡ some text
    pub fits : FitsHeader p.utf8 (trailers (trailer_entries status text metadata))

  -- The metadata behind a status, as it is read.
  abbrev pub metadata_read : ℕ → Text → Trailers → Trailers
  metadata_read status text metadata =
      other_entries (map (received p.utf8) (trailer_entries status text metadata))

  pub message-Comes :
      (compression : Compression) (payload : Bytes)
      → p.decompress (p.compress payload) ≡ inflated payload
      → Comes p compression (protocol_message payload) (protocol_message payload)
  unfolding value_frame
  message-Comes identity payload h =
      frame_value-message p.compress p.decompress p.decode_uri_component identity payload h
  message-Comes gzip payload h =
      frame_value-message p.compress p.decompress p.decode_uri_component gzip payload h

  abbrev pairs_of :
      List Bytes → ProtocolValue × ProtocolValue → List (ProtocolValue × ProtocolValue)
  pairs_of [] last = last ∷ []
  pairs_of (payload ∷ payloads) last =
      (protocol_message payload, protocol_message payload) ∷ pairs_of payloads last

  -- A payload that comes back from the compressor, and whose frame fits its header.
  abbrev pub Carries : Compression → Bytes → Type 0
  Carries compression payload =
      (p.decompress (p.compress payload) ≡ inflated payload)
      × FitsHeader p.utf8 (frame_of p compression (protocol_message payload))

-- ===== src/Web/Base64.antt =====
-- packages/runtime/src/web/codec/base64_codec.ts: base64 text that arrives in pieces, and how a body
-- becomes such text. `atob` and `btoa` belong to the platform and are parameters: `none` is what
-- `atob` throws.
pub mod Segments
mod Examples
use trpc_proto.Base.{
  ℕ, zero, suc, ◌+◌, ◌-◌, ◌*◌, ◌/◌, ◌%◌, Bool, true, false, ◌||◌, List, [], ◌∷◌, ◌++◌, Option, none,
  some, ltb, ◌==◌, if◌then◌else◌, Bytes, length, take, drop, concat,
}
use trpc_proto.Base.Text.{Text, is_space, index_of}

abbrev pub padding : ℕ
padding = b'='

abbrev pub binary_string_chunk_size : ℕ
binary_string_chunk_size = 0x4000

-- `chunk.replace(/\s/g, '')`.
unfoldable pub strip_spaces : Text → Text
strip_spaces [] = []
strip_spaces (c ∷ s) = if is_space c then strip_spaces s else c ∷ strip_spaces s

-- `encodedLength` in a round of the loop.
unfoldable pub encoded_length : Text → ℕ
encoded_length pending = elim (index_of padding pending) [
  | none ↦ length pending - length pending % 4
  | some padding_index ↦ (padding_index + 1 + 3) / 4 * 4
]

-- The loop of `#decodeCompleteSegments`: the segments to decode, and the text that is left. A
-- segment takes four characters at least.
unfoldable pub complete_segments : ℕ → Text → List Text × Text
complete_segments zero pending = ([], pending)
complete_segments (suc fuel) pending =
    let n = encoded_length pending in
    let later = complete_segments fuel (drop n pending) in
    if ltb (length pending) 4 || (n == 0 || ltb (length pending) n)
    then ([], pending)
    else (take n pending ∷ later.0, later.1)

-- What `push` does to the pending text.
unfoldable pub push_text : Text → Text → List Text × Text
push_text pending chunk =
    complete_segments (length (pending ++ strip_spaces chunk)) (pending ++ strip_spaces chunk)

-- The segments that the calls of `push` and `finish` take out of a stream of chunks, and what is pending
-- then.
unfoldable pub segments_from : Text → List Text → List Text × Text
segments_from pending [] = complete_segments (length pending) pending
segments_from pending (chunk ∷ chunks) =
    let pushed = push_text pending chunk in
    let later = segments_from pushed.1 chunks in (pushed.0 ++ later.0, later.1)

pub data Base64Error : Type 0 where
  invalid_character truncated_body : Base64Error

module _ (atob : Text → Option Bytes) where
  -- The segments of one call of `push` or `finish`, which are lost if `atob` throws at one of them.
  abbrev pub decode_segments : List Text → Option (List Bytes)
  decode_segments [] = some []
  decode_segments (segment ∷ segments) =
      let later = decode_segments segments in
      elim (atob segment) [
        | none ↦ none
        | some bytes ↦ elim later [ none ↦ none | some decoded ↦ some (bytes ∷ decoded) ]
      ]

  -- `finish` throws at a truncated body before it returns what it has decoded.
  abbrev pub finish_text : List Text × Text → List Bytes × Option Base64Error
  finish_text (segments, left) = elim (decode_segments segments) [
    | none ↦ ([], some invalid_character)
    | some decoded ↦ if ltb 0 (length left) then ([], some truncated_body) else (decoded, none)
  ]

  -- The loop of `GrpcWebBase64Codec.decode` over the chunks.
  unfoldable pub decode_text : Text → List Text → List Bytes × Option Base64Error
  decode_text pending [] = finish_text (complete_segments (length pending) pending)
  decode_text pending (chunk ∷ chunks) =
      let pushed = push_text pending chunk in
      let later = decode_text pushed.1 chunks in
      elim (decode_segments pushed.0) [
        | none ↦ ([], some invalid_character)
        | some decoded ↦ (decoded ++ later.0, later.1)
      ]

  unfoldable pub decode_base64 : List Text → List Bytes × Option Base64Error
  decode_base64 chunks = decode_text [] chunks

-- The slices that become binary strings.
unfoldable pub binary_chunks : ℕ → Bytes → List Bytes
binary_chunks zero body = []
binary_chunks (suc fuel) body =
    let later = binary_chunks fuel (drop binary_string_chunk_size body) in
    elim body [ [] ↦ [] | b ∷ bs ↦ take binary_string_chunk_size (b ∷ bs) ∷ later ]

-- `GrpcWebBase64Codec.encode`.
unfoldable pub encode_base64 : (Bytes → Text) → Bytes → Text
encode_base64 btoa body = btoa (concat (binary_chunks (length body) body))

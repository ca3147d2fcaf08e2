-- ===== src/Web/Frame/RoundTrip.antt =====
-- What `GrpcWebFrameCodec.encode` of frame_codec.ts writes, its decoder reads back.
use trpc_proto.Base.{
  ℕ, zero, suc, ◌+◌, ◌*◌, ◌/◌, ◌%◌, ◌^◌, ◌<◌, ◌≡◌, refl, ap, ◌∙◌, true, false, List, [], ◌∷◌, ◌++◌,
  map, append-nil, none, some, arith, Bytes, length, length-append, concat, take-length_append,
  drop-length_append, All,
}
use trpc_proto.Base.Bits.{bit_or-add, bit_and_byte}
use trpc_proto.Web.Frame.{
  Frame, message, trailers, ok, Utf8, word, write_length, encode_raw_frame, encode, make_frame,
  next_frame, drain, push, finish, decode_from, decode, decode_trailers, trailer_block,
}
use trpc_proto.Web.Frame.Rounds.{
  next_frame_short, next_frame_header, next_frame_shrinks, drain_step, drain_ends,
}
use trpc_proto.Web.Frame.Chunks.{decode_from_goes_on, decode-concat}

abbrev u32 : ℕ
u32 = 2 ^ 32

-- The bytes of a word stand in disjoint bits.
word-sum :
    (a b c d : ℕ)
    → a < 256
    → b < 256
    → c < 256
    → d < 256
    → word a b c d ≡ ((a * 256 + b) * 256 + c) * 256 + d
unfolding word
word-sum a b c d ha hb hc hd = ground (
  arith,
  bit_or-add 24 a (b * 2 ^ 16),
  bit_or-add 16 (a * 256 + b) (c * 2 ^ 8),
  bit_or-add 8 ((a * 256 + b) * 256 + c) d,
)

abbrev length_bytes : ℕ → Bytes
length_bytes n = n / 2 ^ 24 % 256 ∷ n / 2 ^ 16 % 256 ∷ n / 2 ^ 8 % 256 ∷ n % 256 ∷ []

write_length-bytes : (n : ℕ) → n < u32 → write_length n ≡ length_bytes n
unfolding write_length
write_length-bytes n h = ground (
  arith,
  bit_and_byte (n / 2 ^ 24),
  bit_and_byte (n / 2 ^ 16),
  bit_and_byte (n / 2 ^ 8),
  bit_and_byte n,
)

-- The four bytes of a length below 2 ^ 32 give it back.
word-bytes :
    (n : ℕ) → n < u32 → word (n / 2 ^ 24 % 256) (n / 2 ^ 16 % 256) (n / 2 ^ 8 % 256) (n % 256) ≡ n
word-bytes n h = omega (
  arith,
  word-sum (n / 2 ^ 24 % 256) (n / 2 ^ 16 % 256) (n / 2 ^ 8 % 256) (n % 256) (omega arith)
      (omega arith) (omega arith) (omega arith),
)

module _ (utf8 : Utf8) where
  next_frame-raw :
      (payload rest : Bytes) (flags : ℕ)
      → length payload < u32
      → flags < 256
      → next_frame utf8 (encode_raw_frame payload flags ++ rest)
        ≡ make_frame utf8 flags payload rest
  unfolding encode_raw_frame
  next_frame-raw payload rest flags h small =
      let n = length payload in
      rw (write_length-bytes n h) (
        next_frame_header utf8 (flags % 256) _ _ _ _ (payload ++ rest)
        ∙ rw (word-bytes n h, take-length_append payload rest, drop-length_append payload rest)
            (ground (arith, length-append payload rest)))

  -- What a frame comes back as: a message as it is, trailers as their text is read.
  abbrev pub returned : Frame → Frame
  returned (message compressed payload) = message compressed payload
  returned (trailers entries) = trailers (decode_trailers utf8 (trailer_block utf8 entries))

  -- The payload's length fits the four bytes of the header.
  abbrev pub FitsHeader : Frame → Type 0
  FitsHeader (message compressed payload) = length payload < u32
  FitsHeader (trailers entries) = length (trailer_block utf8 entries) < u32

  next_frame-encode :
      (frame : Frame) (rest : Bytes)
      → FitsHeader frame
      → next_frame utf8 (encode utf8 frame ++ rest) ≡ ok (some (returned frame, rest))
  unfolding encode
  next_frame-encode (message true payload) rest h =
      next_frame-raw payload rest 1 h (omega arith) ∙ unfold make_frame in refl
  next_frame-encode (message false payload) rest h =
      next_frame-raw payload rest 0 h (omega arith) ∙ unfold make_frame in refl
  next_frame-encode (trailers entries) rest h =
      next_frame-raw (trailer_block utf8 entries) rest 128 h (omega arith)
      ∙ unfold make_frame in refl

  drain-encode :
      (k : ℕ) (frames : List Frame)
      → All FitsHeader frames
      → length (concat (map (encode utf8) frames)) < k
      → drain utf8 k (concat (map (encode utf8) frames)) ≡ ok ([], map returned frames)
  drain-encode zero frames h enough = absurd (omega arith)
  drain-encode (suc k) [] h enough = drain_ends utf8 k [] (next_frame_short utf8 [] (omega arith))
  drain-encode (suc k) (frame ∷ frames) (fits, h) enough =
      let more = concat (map (encode utf8) frames) in
      let found = next_frame-encode frame more fits in
      rw (
        drain_step utf8 k (encode utf8 frame ++ more) found,
        drain-encode k frames h
            (omega (arith, next_frame_shrinks utf8 (encode utf8 frame ++ more) found)),
      )

decode_whole :
    (utf8 : Utf8) (frames : List Frame)
    → All (FitsHeader utf8) frames
    → decode utf8 (concat (map (encode utf8) frames) ∷ []) ≡ (map (returned utf8) frames, none)
unfolding decode
decode_whole utf8 frames h =
    let body = concat (map (encode utf8) frames) in
    let pushed : push utf8 [] body ≡ ok ([], map (returned utf8) frames) =
      unfold push in drain-encode utf8 (suc (length body)) frames h (omega arith) in
    decode_from_goes_on utf8 [] body [] pushed
    ∙ unfold decode_from finish in ap (λ fs. (fs, none)) (append-nil (map (returned utf8) frames))

-- However the encoded frames are cut into chunks, the decoder yields them in order and throws
-- nothing: messages as they were, trailers as their text is read. The payloads must be
-- shorter than 2 ^ 32 bytes.
pub decode-encode :
    (utf8 : Utf8) (frames : List Frame) (chunks : List Bytes)
    → All (FitsHeader utf8) frames
    → concat chunks ≡ concat (map (encode utf8) frames)
    → decode utf8 chunks ≡ (map (returned utf8) frames, none)
decode-encode utf8 frames chunks h same =
    let whole = decode_whole utf8 frames h in
    let one : decode utf8 (concat chunks ∷ []) ≡ (map (returned utf8) frames, none) =
      rw same whole in
    decode-concat utf8 chunks (ap (λ r. r.1) one) ∙ one

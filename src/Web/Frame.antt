-- ===== src/Web/Frame.antt =====
-- packages/runtime/src/web/codec/frame_codec.ts: binary gRPC-Web frames, each a flags byte, a
-- length of four bytes and a payload.
pub mod TrailerText
pub mod Rounds
pub mod Chunks
pub mod RoundTrip
mod Examples
use Prim.Native.Nat.{bit_and, bit_or}
use trpc_proto.Base.{
  ℕ, zero, suc, ◌+◌, ◌-◌, ◌*◌, ◌/◌, ◌%◌, ◌^◌, Bool, not, ◌&&◌, ◌||◌, List, [], ◌∷◌, ◌++◌, map,
  Option, none, some, ltb, ◌==◌, if◌then◌else◌, Bytes, length, take, drop,
}
use trpc_proto.Base.Text.{Text, codes, to_lower, trim, index_of, insert}

abbrev pub trailer_flag : ℕ
trailer_flag = 0x80

abbrev pub compressed_flag : ℕ
compressed_flag = 0x01

abbrev pub Trailers : Type 0
Trailers = List (Text × Text)

pub data Frame : Type 0 where
  message : Bool → Bytes → Frame
  trailers : Trailers → Frame

-- What the codec throws. `out_of_fuel` is no error of the program.
pub data FrameError : Type 0 where
  truncated truncated_header compressed_trailers out_of_fuel : FrameError

pub data Result {ℓ} (A : Type ℓ) : Type ℓ where
  err : FrameError → Result A
  ok : A → Result A

infixl 5 ◌>>=◌
abbrev pub ◌>>=◌ {ℓ κ} : {A : Type ℓ} {B : Type κ} (m : Result A) (f : A → Result B) → Result B
err e >>= f = err e
ok a >>= f = f a

-- `TextEncoder` and `TextDecoder` of the platform.
pub record Utf8 : Type 0 where
  pub encode : Text → Bytes
  pub decode : Bytes → Text

-- `x << k`, `x >>> k` on 32-bit words.
abbrev shift_left : ℕ → ℕ → ℕ
shift_left x k = x * 2 ^ k % 2 ^ 32

abbrev shift_right : ℕ → ℕ → ℕ
shift_right x k = x % 2 ^ 32 / 2 ^ k

-- `out[1]` to `out[4]`.
unfoldable pub write_length : ℕ → Bytes
write_length n =
    bit_and (shift_right n 24) 255
    ∷ bit_and (shift_right n 16) 255
    ∷ bit_and (shift_right n 8) 255
    ∷ bit_and n 255
    ∷ []

unfoldable pub byte : Bytes → ℕ → Result ℕ
byte [] offset = err truncated
byte (b ∷ buf) zero = ok b
byte (b ∷ buf) (suc offset) = byte buf offset

-- Four bytes, the highest first.
unfoldable pub word : ℕ → ℕ → ℕ → ℕ → ℕ
word b0 b1 b2 b3 =
    bit_or (bit_or (bit_or (shift_left b0 24) (shift_left b1 16)) (shift_left b2 8)) b3 % 2 ^ 32

unfoldable pub read_length : Bytes → ℕ → Result ℕ
unfolding byte
read_length buf offset = do
  b0 ← byte buf offset
  b1 ← byte buf (offset + 1)
  b2 ← byte buf (offset + 2)
  b3 ← byte buf (offset + 3)
  ok (word b0 b1 b2 b3)

-- A `Uint8Array` keeps the low byte of the flags.
unfoldable pub encode_raw_frame : Bytes → ℕ → Bytes
encode_raw_frame payload flags = flags % 256 ∷ (write_length (length payload) ++ payload)

-- `text.split('\r\n')`.
unfoldable pub split_lines : Text → List Text
split_lines [] = [] ∷ []
split_lines (c ∷ []) = (c ∷ []) ∷ []
split_lines (c ∷ d ∷ s) =
    let here = split_lines s in
    let later = split_lines (d ∷ s) in
    if c == b'\r' && d == b'\n'
    then [] ∷ here
    else elim later [ [] ↦ (c ∷ []) ∷ [] | part ∷ parts ↦ (c ∷ part) ∷ parts ]

-- One round of the loop over the lines: a line with no name before its colon is skipped.
unfoldable pub add_line : Trailers → Text → Trailers
unfolding index_of
add_line found line = elim (index_of b':' line) [
  | none ↦ found
  | some colon ↦
      if colon == 0
      then found
      else insert (to_lower (trim (take colon line))) (trim (drop (colon + 1) line)) found
]

abbrev add_lines : Trailers → List Text → Trailers
add_lines found [] = found
add_lines found (line ∷ lines) = add_lines (add_line found line) lines

unfoldable pub hex_digit : ℕ → ℕ
hex_digit n = if ltb n 10 then n + b'0' else n - 10 + b'A'

-- One byte of a value: percent-encoded outside printable ASCII, and `%` itself.
unfoldable pub escape_byte : ℕ → Text
unfolding hex_digit
escape_byte b =
    if b == 0x25 || ltb b 0x20 || ltb 0x7e b
    then b'%' ∷ hex_digit (b / 16) ∷ hex_digit (b % 16) ∷ []
    else b ∷ []

abbrev pub escape_bytes : Bytes → Text
escape_bytes [] = []
escape_bytes (b ∷ bs) = escape_byte b ++ escape_bytes bs

-- `lines.join('\r\n')` with the `\r\n` behind it.
abbrev pub join_lines : List Text → Text
join_lines [] = b'\r' ∷ b'\n' ∷ []
join_lines (line ∷ []) = line ++ (b'\r' ∷ b'\n' ∷ [])
join_lines (line ∷ next ∷ lines) = line ++ (b'\r' ∷ b'\n' ∷ join_lines (next ∷ lines))

module _ (utf8 : Utf8) where
  unfoldable pub decode_trailers : Bytes → Trailers
  decode_trailers payload = add_lines [] (split_lines (utf8.decode payload))

  unfoldable pub encode_grpc_message : Text → Text
  encode_grpc_message value = escape_bytes (utf8.encode value)

  abbrev pub trailer_line : Text × Text → Text
  trailer_line (name, value) = to_lower name ++ (codes ": " ++ encode_grpc_message value)

  -- The payload of a trailer frame.
  abbrev pub trailer_block : Trailers → Bytes
  trailer_block entries = utf8.encode (join_lines (map trailer_line entries))

  -- `GrpcWebFrameCodec.encode`.
  unfoldable pub encode : Frame → Bytes
  encode (message compressed payload) =
      encode_raw_frame payload (if compressed then compressed_flag else 0)
  encode (trailers entries) = encode_raw_frame (trailer_block entries) trailer_flag

  -- One frame that is complete in the buffer.
  unfoldable pub make_frame : ℕ → Bytes → Bytes → Result (Option (Frame × Bytes))
  make_frame flags payload rest =
      let trailer = not (bit_and flags trailer_flag == 0) in
      let compressed = not (bit_and flags compressed_flag == 0) in
      if trailer && compressed
      then err compressed_trailers
      else ok (
          some (
            if trailer then trailers (decode_trailers payload) else message compressed payload,
            rest,
          ))

  -- One round of the loop of `push`; `none` is its end.
  unfoldable pub next_frame : Bytes → Result (Option (Frame × Bytes))
  unfolding byte read_length make_frame
  next_frame buffer = if ltb (length buffer) 5 then ok none else do
    flags ← byte buffer 0
    len ← read_length buffer 1
    if ltb (length buffer) (5 + len)
        then ok none
        else make_frame flags (take len (drop 5 buffer)) (drop (5 + len) buffer)

  -- The loop of `push`: the buffer that is left, and the frames. A throw leaves the generator
  -- that owns the decoder, so the buffer behind it is not read again.
  unfoldable pub drain : ℕ → Bytes → Result (Bytes × List Frame)
  drain zero buffer = err out_of_fuel
  drain (suc fuel) buffer = next_frame buffer >>= λ found. elim found [
    | none ↦ ok (buffer, [])
    | some (frame, rest) ↦ drain fuel rest >>= λ out. ok (out.0, frame ∷ out.1)
  ]

  -- `FrameDecoder.push`: a frame takes five bytes at least.
  unfoldable pub push : Bytes → Bytes → Result (Bytes × List Frame)
  push buffer chunk = drain (suc (length (buffer ++ chunk))) (buffer ++ chunk)

  -- `FrameDecoder.finish`.
  unfoldable pub finish : Bytes → Result (List Frame)
  finish buffer =
      if ltb 0 (length buffer)
      then if ltb (length buffer) 5 then err truncated_header else err truncated
      else ok []

  -- `GrpcWebFrameCodec.decode`: the frames yielded for a stream of chunks, and the error thrown
  -- after them, if there is one.
  unfoldable pub decode_from : Bytes → List Bytes → List Frame × Option FrameError
  decode_from buffer [] = elim (finish buffer) [ ok frames ↦ (frames, none) | err e ↦ ([], some e) ]
  decode_from buffer (chunk ∷ chunks) = elim (push buffer chunk) [
    | err e ↦ ([], some e)
    | ok (left, frames) ↦ let (later, thrown) = decode_from left chunks in (frames ++ later, thrown)
  ]

  unfoldable pub decode : List Bytes → List Frame × Option FrameError
  decode chunks = decode_from [] chunks

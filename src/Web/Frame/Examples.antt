-- ===== src/Web/Frame/Examples.antt =====
-- Concrete bodies: a compressed message of two bytes and a trailer block, cut within a header.
use trpc_proto.Base.{
  ◌≡◌, refl, sym, true, false, List, [], ◌∷◌, map, none, some, arith, Bytes, concat, All,
}
use trpc_proto.Base.Text.{codes, trim_end, trim_start, is_space}
use trpc_proto.Web.Frame.{
  Frame, message, trailers, compressed_trailers, truncated_header, Utf8, write_length,
  encode_raw_frame, encode, byte, word, read_length, make_frame, next_frame, drain, push, finish,
  decode_from, decode, decode_trailers, split_lines, add_line, encode_grpc_message, escape_byte,
}
use trpc_proto.Web.Frame.Chunks.{decode-concat}
use trpc_proto.Web.Frame.RoundTrip.{returned, FitsHeader, decode-encode}

-- ASCII is UTF-8.
abbrev ascii : Utf8
ascii = record { encode = λ s. s; decode = λ bs. bs }

abbrev frames : List Frame
frames = message true (7 ∷ 8 ∷ []) ∷ trailers ((codes "grpc-status", codes "0") ∷ []) ∷ []

abbrev body : Bytes
body = 1 ∷ 0 ∷ 0 ∷ 0 ∷ 2 ∷ 7 ∷ 8 ∷ 128 ∷ 0 ∷ 0 ∷ 0 ∷ 16 ∷ codes "grpc-status: 0\r\n"

abbrev pieces : List Bytes
pieces =
    (1 ∷ 0 ∷ 0 ∷ [])
    ∷ []
    ∷ (0 ∷ 2 ∷ 7 ∷ 8 ∷ 128 ∷ 0 ∷ [])
    ∷ (0 ∷ 0 ∷ 16 ∷ codes "grpc-status: 0\r\n")
    ∷ []

encoded_body : concat (map (encode ascii) frames) ≡ body
unfolding encode encode_raw_frame write_length encode_grpc_message escape_byte
encoded_body = refl

decoded_body : decode ascii (body ∷ []) ≡ (frames, none)
unfolding decode decode_from push drain next_frame byte read_length word make_frame finish
    decode_trailers split_lines add_line trim_end trim_start is_space
decoded_body = refl

bad_trailers : decode ascii ((129 ∷ 0 ∷ 0 ∷ 0 ∷ 0 ∷ []) ∷ []) ≡ ([], some compressed_trailers)
unfolding decode decode_from push drain next_frame byte read_length word make_frame finish
bad_trailers = refl

cut_off :
    decode ascii ((0 ∷ 0 ∷ 0 ∷ 0 ∷ 0 ∷ 0 ∷ 0 ∷ []) ∷ [])
    ≡ (message false [] ∷ [], some truncated_header)
unfolding decode decode_from push drain next_frame byte read_length word make_frame finish
cut_off = refl

decode-concat_example : decode ascii pieces ≡ decode ascii (concat pieces ∷ [])
decode-concat_example = decode-concat ascii pieces (cc decoded_body)

frames-FitsHeader : All (FitsHeader ascii) frames
unfolding encode_grpc_message escape_byte
frames-FitsHeader = (omega arith, (omega arith, tt))

decode-encode_example : decode ascii pieces ≡ (map (returned ascii) frames, none)
decode-encode_example = decode-encode ascii frames pieces frames-FitsHeader (sym encoded_body)

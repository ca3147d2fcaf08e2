-- ===== src/Web/Handler/Examples.antt =====
-- A call over HTTP with two replies, on a platform where texts are ASCII.
use trpc_proto.Base.{◌≡◌, refl, ap, true, List, [], ◌∷◌, none, some, Bytes}
use trpc_proto.Base.Text.{Text, codes, trim_end, trim_start, is_space}
use trpc_proto.Base.Decimal.{decimal, decimal_digits}
use trpc_proto.Web.ContentType.{
  raw, parse_compression, grpc_web_encoding, first_part, negotiate_response_encoding,
}
use trpc_proto.Web.Frame.{encode, encode_raw_frame, write_length, encode_grpc_message, escape_byte}
use trpc_proto.Web.Frame as FrameCodec
use trpc_proto.Web.Protocol.{value_frame, frame_value, decode_compressed_message}
use trpc_proto.Web.Body.Plain.{plain}
use trpc_proto.Web.Body.{encode_value, decode_source, decode_frames, frame_values, decode_values}
use trpc_proto.Web.Cors.{
  HttpRequest, CorsPolicy, Headers, Reply, one_value, request_header, request_encoding,
  negotiated_response_compression, grpc_web_headers, origin_of, handle_cors_preflight,
}
use trpc_proto.Web.Handler.{
  failed, Dispatching, HttpDispatcher, RequestError, body_error, message_count,
  unsupported_encoding, one_message, request_message, is_refused, response_origin, respond, answer,
  handle,
}
use trpc_proto.Web.Handler.Origins.{IsLetIn, handle-IsLetIn}
use trpc_proto.Web.Handler.Answers.{Outcome, Answered, body_of, answer-body}

abbrev error_text : RequestError → Text
error_text unsupported_encoding = codes "Unsupported gRPC encoding"
error_text (body_error e) = codes "Bad body"
error_text (message_count n) = codes "gRPC-Web requires one message"

abbrev policy : CorsPolicy
policy = record {
  allowed_origins = codes "https://a.test" ∷ [];
  allowed_headers = [];
  max_age_seconds = 600;
}

abbrev request : HttpRequest
request = record {
  method = codes "POST";
  headers =
      (codes "origin", one_value (codes "https://a.test"))
      ∷ (codes "content-type", one_value (codes "application/grpc-web+proto"))
      ∷ [];
  url_pathname = some (codes "/a.B/c");
  body = (0 ∷ 0 ∷ 0 ∷ []) ∷ (0 ∷ 2 ∷ 7 ∷ 8 ∷ []) ∷ [];
}

abbrev dispatching : Dispatching
dispatching = record {
  emitted = ((1 ∷ []), true) ∷ ((2 ∷ []), true) ∷ [];
  end = failed (codes "gone");
  open_at_end = true;
}

abbrev dispatch : HttpDispatcher
dispatch path payload metadata = dispatching

abbrev blocks : List Bytes
blocks =
    (0 ∷ 0 ∷ 0 ∷ 0 ∷ 1 ∷ 1 ∷ [])
    ∷ (0 ∷ 0 ∷ 0 ∷ 0 ∷ 1 ∷ 2 ∷ [])
    ∷ (128 ∷ 0 ∷ 0 ∷ 0 ∷ 37 ∷ codes "grpc-status: 13\r\ngrpc-message: gone\r\n")
    ∷ []

abbrev headers : Headers
headers = grpc_web_headers raw none (some (codes "https://a.test"))

abbrev reply : Reply
reply = record { status = 200; headers = headers; body = blocks; ended = true }

parsed_request : request_message plain error_text request raw ≡ one_message (7 ∷ 8 ∷ [])
unfolding request_message request_header parse_compression decode_values decode_frames decode_source
    frame_values frame_value decode_compressed_message FrameCodec.push FrameCodec.drain
    FrameCodec.next_frame FrameCodec.byte FrameCodec.read_length FrameCodec.word
    FrameCodec.make_frame FrameCodec.finish
parsed_request = refl

answered : answer plain error_text request raw (some (codes "https://a.test")) dispatch true ≡ reply
unfolding answer respond request_header negotiate_response_encoding negotiated_response_compression
    encode_value value_frame encode encode_raw_frame write_length encode_grpc_message escape_byte
    decimal decimal_digits
answered = rw (parsed_request, answer) refl

handled : handle plain error_text request (some policy) dispatch true ≡ some reply
unfolding handle handle_cors_preflight request_encoding grpc_web_encoding request_header first_part
    trim_end trim_start is_space is_refused origin_of response_origin
handled = ap some answered

handle-IsLetIn_example : IsLetIn request (some policy) (codes "https://a.test")
unfolding grpc_web_headers
handle-IsLetIn_example =
    handle-IsLetIn plain error_text request (some policy) dispatch true handled refl

answer-body_example :
    (outcome : Outcome) × Answered plain error_text request raw dispatch outcome
    × ((answer plain error_text request raw none dispatch true).status ≡ 200)
    × ((answer plain error_text request raw none dispatch true).ended ≡ true)
    × ((answer plain error_text request raw none dispatch true).body
        ≡ body_of plain error_text
            (negotiate_response_encoding (request_header request (codes "accept")) raw)
            (negotiated_response_compression request)
            outcome)
answer-body_example =
    answer-body plain error_text request raw none dispatch
      (λ path payload. ((refl, (refl, tt)), refl))

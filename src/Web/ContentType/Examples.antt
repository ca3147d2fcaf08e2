-- ===== src/Web/ContentType/Examples.antt =====
-- Headers that browsers and proxies send.
use trpc_proto.Base.{◌≡◌, refl, some}
use trpc_proto.Base.Text.{codes, split, trim_start, trim_end, is_space}
use trpc_proto.Web.ContentType.{
  raw, base64, first_part, grpc_web_encoding, first_supported, negotiate_response_encoding,
  parse_compression, gzip,
}

with_spaces : grpc_web_encoding (some (codes " Application/gRPC-Web ; q=1")) ≡ some raw
unfolding grpc_web_encoding first_part trim_start trim_end is_space
with_spaces = refl

second_value :
    negotiate_response_encoding (some (codes "text/html, application/grpc-web-text")) raw ≡ base64
unfolding negotiate_response_encoding first_supported grpc_web_encoding first_part trim_start
    trim_end is_space split
second_value = refl

upper_case : parse_compression (some (codes " GZIP")) ≡ some gzip
unfolding parse_compression trim_start trim_end is_space
upper_case = refl

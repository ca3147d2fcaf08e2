-- ===== src/Web/Body/Plain.antt =====
-- A platform for tests: texts are ASCII, and nothing is compressed.
use trpc_proto.Base.{some}
use trpc_proto.Web.Protocol.{inflated}
use trpc_proto.Web.Body.{Platform}
use trpc_proto.Web.Body.Percent.{unescape}

abbrev pub plain : Platform
plain = record {
  utf8 = record { encode = λ s. s; decode = λ bs. bs };
  compress = λ bs. bs;
  decompress = inflated;
  decode_uri_component = unescape;
  atob = some;
  btoa = λ bs. bs;
  stream_texts = λ chunks. chunks;
}

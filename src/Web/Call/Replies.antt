-- ===== src/Web/Call/Replies.antt =====
-- A reply of http_handler.ts as fetch_call.ts reads it, over raw frames.
use trpc_proto.Base.{ℕ, ◌≤◌, ◌≡◌, ◌∙◌, ap, refl, Bool, true, List, [], ◌∷◌, map, none, some, Bytes}
use trpc_proto.Base.Text.{Text, codes, lookup}
use trpc_proto.Schema.Types.{ProcedureType}
use trpc_proto.Web.ContentType.{raw, gzip, grpc_web_content_type, parse_compression}
use trpc_proto.Web.Frame.{Trailers}
use trpc_proto.Web.Protocol.{value_frame, ProtocolValue, protocol_message, protocol_trailers}
use trpc_proto.Web.Body.{Platform, encode_value, decode_values}
use trpc_proto.Web.Body.Trailers.{CanBeSent, reply_values}
use trpc_proto.Web.Handler.{RequestError}
use trpc_proto.Web.Handler.Answers.{body_of}
use trpc_proto.Web.Call.{Response, read_chunks, read_response, response_encoding, result_of}
use trpc_proto.Web.Call.Headers.{raw_options, raw_content, compression_read}

-- What a dispatcher's end has to be for its trailers to arrive.
abbrev pub EndArrives : Platform → ℕ × Text × Trailers → Type 0
EndArrives p (status, text, metadata) = (status ≤ 16) × CanBeSent p status text metadata

module _ (p : Platform) (error_text : RequestError → Text) where
  pub encoding_read :
      (res : Response)
      → lookup (codes "content-type") res.headers ≡ some (grpc_web_content_type raw)
      → response_encoding res raw ≡ raw
  unfolding response_encoding
  encoding_read res content = rw (content, raw_content) refl

  pub read_response_values :
      (base_url : Text) (compress : Bool) (type : ProcedureType) (res : Response)
      {chunks : List Bytes} {values : List ProtocolValue}
      → res.status ≡ 200
      → lookup (codes "content-type") res.headers ≡ some (grpc_web_content_type raw)
      → lookup (codes "grpc-encoding") res.headers ≡ some (codes "gzip")
      → res.body ≡ some chunks
      → decode_values p raw gzip (read_chunks chunks) ≡ (values, none)
      → read_response p (raw_options base_url compress) type res ≡ result_of type res (values, none)
  unfolding read_response
  read_response_values base_url compress type res ok content compression body decodes =
      let parses : parse_compression (lookup (codes "grpc-encoding") res.headers) ≡ some gzip =
        ap parse_compression compression ∙ compression_read true in
      simp (ok, read_response, parses, body, encoding_read res content, decodes)

  pub body_of-reply_values :
      (payloads : List Bytes) (status : ℕ) (text : Text) (metadata : Trailers)
      → body_of p error_text raw (some gzip) (payloads, status, text, metadata)
        ≡ map
            (encode_value p raw gzip)
            (reply_values payloads (protocol_trailers status text metadata))
  unfolding encode_value value_frame
  body_of-reply_values [] status text metadata = refl
  body_of-reply_values (payload ∷ payloads) status text metadata =
      ap (◌∷◌ (encode_value p raw gzip (protocol_message payload)))
        (body_of-reply_values payloads status text metadata)

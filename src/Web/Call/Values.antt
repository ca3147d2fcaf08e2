-- ===== src/Web/Call/Values.antt =====
-- What fetch_call.ts makes of the values of a reply.
use trpc_proto.Base.{
  ℕ, ◌≡◌, refl, List, [], ◌∷◌, map, Option, none, some, arith, ◌==◌, if◌then◌else◌, concat, Bytes,
}
use trpc_proto.Base.Text.{Text, codes}
use trpc_proto.Schema.Types.{ProcedureType, query, mutation, subscription}
use trpc_proto.Grpc.Status as GrpcStatus
use trpc_proto.Web.Frame.{Trailers}
use trpc_proto.Web.Protocol.{protocol_message, protocol_trailers}
use trpc_proto.Web.Body.Trailers.{reply_values}
use trpc_proto.Web.Call.{
  Response, CallError, grpc_web_error, CallResult, failed, replied, streamed, Unary, no_values,
  or_payload, status_text, stream_values, unary_values, unary_end, unary_result, result_of,
  read_chunks,
}

abbrev first_of : List Bytes → Option Bytes
first_of [] = none
first_of (payload ∷ payloads) = some payload

abbrev error_of : ℕ → Text → Option CallError
error_of status text =
    if status == GrpcStatus.ok then none else some (grpc_web_error status (status_text status text))

abbrev unary_expected : Option Bytes → Option CallError → CallResult
unary_expected message (some e) = failed e
unary_expected (some payload) none = replied payload
unary_expected none none =
    failed (grpc_web_error GrpcStatus.internal (codes "empty gRPC-Web response"))

-- What a call gives for the messages and the status of a reply.
abbrev pub expected : ProcedureType → List Bytes → ℕ → Text → CallResult
expected subscription payloads status text = streamed payloads (error_of status text)
expected query payloads status text = unary_expected (first_of payloads) (error_of status text)
expected mutation payloads status text = unary_expected (first_of payloads) (error_of status text)

stream_values-reply_values :
    (res : Response) (payloads : List Bytes) (status : ℕ) (text : Text) (metadata : Trailers)
    → stream_values res (reply_values payloads (protocol_trailers status text metadata)) none
      ≡ (payloads, error_of status text)
unfolding stream_values
stream_values-reply_values res [] status text metadata = ground arith
stream_values-reply_values res (payload ∷ payloads) status text metadata =
    rw (stream_values-reply_values res payloads status text metadata) refl

unary_values-reply_values :
    (u : Unary) (payloads : List Bytes) (status : ℕ) (text : Text) (metadata : Trailers)
    → unary_values u (reply_values payloads (protocol_trailers status text metadata)) ≡ record {
      message = (unary_values u (map protocol_message payloads)).message;
      status = some (status, status_text status text);
    }
unfolding unary_values
unary_values-reply_values u [] status text metadata = refl
unary_values-reply_values u (payload ∷ payloads) status text metadata =
    unary_values-reply_values (record { message = or_payload u.message payload; status = u.status })
      payloads status text metadata

first_kept :
    (payload : Bytes) (payloads : List Bytes)
    → (unary_values
        (record { message = some payload; status = none })
        (map protocol_message payloads)).message
      ≡ some payload
unfolding unary_values
first_kept payload [] = refl
first_kept payload (next ∷ payloads) = first_kept payload payloads

message_found :
    (payloads : List Bytes)
    → (unary_values no_values (map protocol_message payloads)).message ≡ first_of payloads
unfolding unary_values
message_found [] = refl
message_found (payload ∷ payloads) = first_kept payload payloads

unary_result-reply_values :
    (res : Response) (payloads : List Bytes) (status : ℕ) (text : Text) (metadata : Trailers)
    → unary_result res (reply_values payloads (protocol_trailers status text metadata)) none
      ≡ unary_expected (first_of payloads) (error_of status text)
unfolding unary_result unary_end
unary_result-reply_values res payloads status text metadata =
    rw (unary_values-reply_values no_values payloads status text metadata, message_found payloads)
      (ground arith)

-- A call is given the first message of a reply, a subscription all of them, if the status is OK, and
-- the status and its text else.
pub result_of-reply_values :
    (type : ProcedureType) (res : Response) (payloads : List Bytes) (status : ℕ) (text : Text)
    (metadata : Trailers)
    → result_of type res (reply_values payloads (protocol_trailers status text metadata), none)
      ≡ expected type payloads status text
result_of-reply_values query res payloads status text metadata =
    unary_result-reply_values res payloads status text metadata
result_of-reply_values mutation res payloads status text metadata =
    unary_result-reply_values res payloads status text metadata
result_of-reply_values subscription res payloads status text metadata =
    rw (stream_values-reply_values res payloads status text metadata) refl

pub concat-read_chunks : (chunks : List Bytes) → concat (read_chunks chunks) ≡ concat chunks
unfolding read_chunks
concat-read_chunks [] = refl
concat-read_chunks ([] ∷ chunks) = concat-read_chunks chunks
concat-read_chunks ((b ∷ bs) ∷ chunks) = ground (arith, concat-read_chunks chunks)

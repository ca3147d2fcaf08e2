-- ===== src/Batch/Dispatch/Examples.antt =====
-- A batch of two calls, one to a method and one to a path that has none.
use trpc_proto.Base.{ℕ, ◌≡◌, refl, ◌↔◌, false, List, [], ◌∷◌, map, none, some, arith, Bytes}
use trpc_proto.Base.Text.{Text, codes}
use trpc_proto.Grpc.Status as GrpcStatus
use trpc_proto.Schema.Types.{query, ProtoSchema, no_messages}
use trpc_proto.Batch.Wire.{
  BatchWireCall, BatchWireResult, success, error, Decoded, array, calls, decode_batch_calls,
}
use trpc_proto.Batch.Wire.Calls.{value_of, AreValid, decode_batch_calls_iff}
use trpc_proto.Batch.Dispatch.{
  DispatchRequest, Dispatcher, BatchRoute, batch_routes, Messages, execute_call,
}
use trpc_proto.Batch.Dispatch.Results.{result_id, Succeeds, execute_call-success_iff}

abbrev two_calls : List BatchWireCall
two_calls =
    record { id = 1; path = codes "user.get"; input = some (5 ∷ []) }
    ∷ record { id = 2; path = codes "gone"; input = none }
    ∷ []

abbrev get_call : BatchWireCall
get_call = record { id = 1; path = codes "user.get"; input = some (5 ∷ []) }

abbrev gone_call : BatchWireCall
gone_call = record { id = 2; path = codes "gone"; input = none }

-- An inner dispatcher that answers with the input.
abbrev echo : Dispatcher ℕ
echo request options =
    (request.message ∷ [], record { code = GrpcStatus.ok; message = []; metadata = none })

abbrev texts : Messages
texts = record {
  no_mapping = λ path. codes "no gRPC mapping";
  subscription = λ path. codes "subscription";
  wrong_count = λ outputs path. codes "wrong count";
}

abbrev decode_any : Bytes → Decoded
decode_any body = array (map value_of two_calls)

abbrev encode_ids : List BatchWireResult → Bytes
encode_ids results = map result_id results

abbrev batch_path : Text
batch_path = codes "/batch/execute"

abbrev schema : ProtoSchema
schema = record {
  package_name = codes "app";
  services =
      record {
        name = codes "User";
        methods =
            record {
              name = codes "Get";
              path = codes "user.get";
              type = query;
              request_type = codes "GetRequest";
              response_type = codes "GetResponse";
              is_response_streaming = false;
            }
            ∷ [];
      }
      ∷ [];
  message_list = no_messages;
  enums = [];
  options = [];
  generate_cache = none;
}

abbrev request : DispatchRequest
request = record { grpc_path = batch_path; message = 1 ∷ []; metadata = []; aborted = false }

abbrev user_route : BatchRoute
user_route = record { grpc_path = codes "/app.User/Get"; response_stream = false }

routes_of_schema : batch_routes schema ≡ (codes "user.get", user_route) ∷ []
unfolding batch_routes
routes_of_schema = refl

abbrev routes : List (Text × BatchRoute)
routes = (codes "user.get", user_route) ∷ []

two_calls-valid : AreValid [] two_calls
two_calls-valid = (omega arith, refl, λ e. cc e, (omega arith, refl, λ e. cc e, tt))

decode_batch_calls_iff_example :
    (decode_batch_calls (decode_any []) ≡ calls two_calls)
    ↔ ((decode_any [] ≡ array (map value_of two_calls)) × AreValid [] two_calls)
decode_batch_calls_iff_example = decode_batch_calls_iff (decode_any []) two_calls

execute_call-success_iff_example :
    (execute_call echo texts decode_any encode_ids batch_path routes get_call request none
      ≡ success 1 (some (5 ∷ [])))
    ↔ Succeeds echo texts decode_any encode_ids batch_path routes get_call request none (5 ∷ [])
execute_call-success_iff_example =
    execute_call-success_iff echo texts decode_any encode_ids batch_path routes get_call request
      none (5 ∷ [])

no_route :
    execute_call echo texts decode_any encode_ids batch_path routes gone_call request none
    ≡ error 2 GrpcStatus.unimplemented (codes "no gRPC mapping")
unfolding execute_call
no_route = refl

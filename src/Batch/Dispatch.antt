-- ===== src/Batch/Dispatch.antt =====
-- packages/runtime/src/batch/grpcweb/direct_dispatcher.ts and forwarding_dispatcher.ts: a batch
-- request becomes one call of the inner dispatcher for each of its calls.
-- An inner dispatcher is a function from a request and its options to the messages that it emits
-- and its status: it does not reject, and the calls, which the source starts together, do not see
-- one another. `aborted` is the state of the request's signal when all calls have ended.
pub mod Results
mod Examples
use trpc_proto.Base.{
  ℕ, Bool, true, false, not, List, [], ◌∷◌, ◌++◌, map, Option, none, some, ◌==◌, if◌then◌else◌,
  Bytes,
}
use trpc_proto.Base.Text.{Text, codes, text_eq, lookup, insert}
use trpc_proto.Grpc.Status as GrpcStatus
use trpc_proto.Schema.Types.{ProtoMethod, ProtoService, ProtoSchema}
use trpc_proto.Batch.Wire.{
  BatchWireCall, BatchWireResult, success, error, Decoded, BatchValidation, calls, invalid,
  decode_batch_calls,
}

-- dispatchers/types.ts
pub record DispatchRequest : Type 0 where
  pub grpc_path : Text
  pub message : Bytes
  pub metadata : List (Text × Text)
  pub aborted : Bool

pub record DispatchStatus : Type 0 where
  pub code : ℕ
  pub message : Text
  pub metadata : Option (List (Text × Text))

-- `directContext` of the options, if it is there.
abbrev pub DispatchOptions : Type 0 → Type 0
DispatchOptions Context = Option Context

abbrev pub Dispatcher : Type 0 → Type 0
Dispatcher Context = DispatchRequest → DispatchOptions Context → List Bytes × DispatchStatus

pub record BatchRoute : Type 0 where
  pub grpc_path : Text
  pub response_stream : Bool

abbrev pub method_path : Text → Text → Text → Text
method_path package_name service method =
    codes "/" ++ (package_name ++ (codes "." ++ (service ++ (codes "/" ++ method))))

-- The inner and the outer loop of `batchRoutes`.
abbrev pub add_methods :
    Text → Text → List ProtoMethod → List (Text × BatchRoute) → List (Text × BatchRoute)
add_methods package_name service [] routes = routes
add_methods package_name service (m ∷ ms) routes = add_methods package_name service ms (
    insert m.path
      (record {
        grpc_path = method_path package_name service m.name;
        response_stream = m.is_response_streaming;
      })
      routes)

abbrev pub add_services :
    Text → List ProtoService → List (Text × BatchRoute) → List (Text × BatchRoute)
add_services package_name [] routes = routes
add_services package_name (s ∷ ss) routes =
    add_services package_name ss (add_methods package_name s.name s.methods routes)

unfoldable pub batch_routes : ProtoSchema → List (Text × BatchRoute)
batch_routes schema = add_services schema.package_name schema.services []

abbrev pub item_error : BatchWireCall → ℕ → Text → BatchWireResult
item_error c code message = error c.id code message

-- `call.input ?? new Uint8Array()`.
abbrev pub input_of : BatchWireCall → Bytes
input_of c = elim c.input [ none ↦ [] | some body ↦ body ]

-- The end of `executeCall`, after the inner dispatcher has answered.
abbrev pub item_result : Text → BatchWireCall → List Bytes × DispatchStatus → BatchWireResult
item_result wrong_count c (outputs, status) =
    if not (status.code == GrpcStatus.ok)
    then item_error c status.code status.message
    else elim outputs [
      | [] ↦ item_error c GrpcStatus.internal wrong_count
      | output ∷ more ↦ elim more [
        | [] ↦ success c.id (some output)
        | _ ↦ item_error c GrpcStatus.internal wrong_count
      ]
    ]

-- `directContext` of `createDirectBatchDispatcher`: the one of the options, or what `createContext`
-- returns, if it is there, or `{}`.
abbrev pub shared_context :
    {Context : Type 0} → Option Context → Context → DispatchOptions Context → Context
shared_context create_context empty_context (some given) = given
shared_context (some made) empty_context none = made
shared_context none empty_context none = empty_context

-- The texts of the errors are parameters: `wrong_count` is the one place where the two files differ.
pub record Messages : Type 0 where
  pub no_mapping : Text → Text
  pub subscription : Text → Text
  pub wrong_count : List Bytes → Text → Text

module _ {Context : Type 0} (dispatch : Dispatcher Context) (texts : Messages)
    (decode : Bytes → Decoded) (encode_response : List BatchWireResult → Bytes)
    (batch_grpc_path : Text) where
  unfoldable pub execute_call :
      List (Text × BatchRoute)
      → BatchWireCall
      → DispatchRequest
      → DispatchOptions Context
      → BatchWireResult
  execute_call routes c request options = elim (lookup c.path routes) [
    | none ↦ item_error c GrpcStatus.unimplemented (texts.no_mapping c.path)
    | some route ↦
        if route.response_stream
        then item_error c GrpcStatus.unimplemented (texts.subscription c.path)
        else let answer =
            dispatch (record request { grpc_path = route.grpc_path; message = input_of c })
              options in
          item_result (texts.wrong_count answer.0 c.path) c answer
  ]

  -- What both dispatchers do with the calls of a valid batch.
  unfoldable pub run_calls :
      List (Text × BatchRoute)
      → List BatchWireCall
      → DispatchRequest
      → DispatchOptions Context
      → List Bytes × DispatchStatus
  run_calls routes cs request options =
      let results = map (λ c. execute_call routes c request options) cs in
      if request.aborted
      then (
        [],
        record { code = GrpcStatus.cancelled; message = codes "batch cancelled"; metadata = none },
      )
      else (
        encode_response results ∷ [],
        record { code = GrpcStatus.ok; message = []; metadata = none },
      )

  -- `createForwardingBatchDispatcher`.
  unfoldable pub forwarding_batch_dispatcher : ProtoSchema → Dispatcher Context
  forwarding_batch_dispatcher schema request options =
      if not (text_eq request.grpc_path batch_grpc_path)
      then dispatch request options
      else elim (decode_batch_calls (decode request.message)) [
        | invalid e ↦
            ([], record { code = GrpcStatus.invalid_argument; message = e; metadata = none })
        | calls cs ↦ run_calls (batch_routes schema) cs request options
      ]

  -- `createDirectBatchDispatcher`.
  unfoldable pub direct_batch_dispatcher :
      ProtoSchema → Option Context → Context → Dispatcher Context
  direct_batch_dispatcher schema create_context empty_context request options =
      if not (text_eq request.grpc_path batch_grpc_path)
      then dispatch request options
      else elim (decode_batch_calls (decode request.message)) [
        | invalid e ↦
            ([], record { code = GrpcStatus.invalid_argument; message = e; metadata = none })
        | calls cs ↦
            run_calls (batch_routes schema) cs request
              (some (shared_context create_context empty_context options))
      ]

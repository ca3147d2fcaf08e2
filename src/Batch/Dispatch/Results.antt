-- ===== src/Batch/Dispatch/Results.antt =====
-- What a batch answers: one result for each call, in order, under the call's id.
use trpc_proto.Base.{
  ℕ, ◌≡◌, ◌≢◌, refl, ◌↔◌, true, false, List, [], ◌∷◌, Option, some, arith, if◌then◌else◌, Bytes,
  Option-cases, Bool-cases, inl, inr,
}
use trpc_proto.Base.Text.{Text, text_eq, lookup}
use trpc_proto.Grpc.Status as GrpcStatus
use trpc_proto.Schema.Types.{ProtoSchema}
use trpc_proto.Batch.Wire.{
  BatchWireCall, BatchWireResult, success, error, Decoded, calls, decode_batch_calls,
}
use trpc_proto.Batch.Dispatch.{
  DispatchRequest, DispatchStatus, Dispatcher, DispatchOptions, BatchRoute, input_of, item_result,
  Messages, shared_context, execute_call, forwarding_batch_dispatcher, direct_batch_dispatcher,
}

abbrev pub result_id : BatchWireResult → ℕ
result_id (success id output) = id
result_id (error id code message) = id

module _ {Context : Type 0} (dispatch : Dispatcher Context) (texts : Messages)
    (decode : Bytes → Decoded) (encode_response : List BatchWireResult → Bytes)
    (batch_grpc_path : Text) where
  -- The request that the inner dispatcher sees for a call.
  abbrev pub inner_request : BatchRoute → BatchWireCall → DispatchRequest → DispatchRequest
  inner_request route c request = record request {
    grpc_path = route.grpc_path;
    message = input_of c;
  }

  abbrev execute :
      List (Text × BatchRoute)
      → BatchWireCall
      → DispatchRequest
      → DispatchOptions Context
      → BatchWireResult
  execute = execute_call dispatch texts decode encode_response batch_grpc_path

  item_result-success :
      (wrong : Text) (c : BatchWireCall) (answer : List Bytes × DispatchStatus) {id : ℕ}
      {out : Option Bytes}
      → item_result wrong c answer ≡ success id out
      → (id ≡ c.id)
        × (answer.1.code ≡ 0)
        × ((output : Bytes) × (out ≡ some output) × (answer.0 ≡ output ∷ []))
  item_result-success wrong c ([], status) e = absurd (ground arith)
  item_result-success wrong c (output ∷ [], status) e =
      (ground arith, ground arith, (output, ground arith, refl))
  item_result-success wrong c (output ∷ o ∷ more, status) e = absurd (ground arith)

  -- What a successful answer for a call comes from.
  pub record Succeeds (routes : List (Text × BatchRoute)) (c : BatchWireCall)
      (request : DispatchRequest) (options : DispatchOptions Context) (output : Bytes)
      : Type 0 where
    pub route : BatchRoute
    pub mapped : lookup c.path routes ≡ some route
    pub unary : route.response_stream ≡ false
    pub one_output : (dispatch (inner_request route c request) options).0 ≡ output ∷ []
    pub fine : (dispatch (inner_request route c request) options).1.code ≡ GrpcStatus.ok

  execute-Succeeds :
      (routes : List (Text × BatchRoute)) (c : BatchWireCall) (request : DispatchRequest)
      (options : DispatchOptions Context) {id : ℕ} {out : Option Bytes}
      → execute routes c request options ≡ success id out
      → (id ≡ c.id)
        × ((output : Bytes) × (out ≡ some output) × Succeeds routes c request options output)
  unfolding execute_call
  execute-Succeeds routes c request options e = elim (Option-cases (lookup c.path routes)) [
    | inl missing ↦ absurd (ground arith)
    | inr (route, found) ↦ elim (Bool-cases route.response_stream) [
      | inl streams ↦ absurd (ground arith)
      | inr unary ↦
          let answer = dispatch (inner_request route c request) options in
          let (same, fine, (output, is_output, one)) =
            item_result-success (texts.wrong_count answer.0 c.path) c answer (ground arith) in
          (
            same,
            (
              output,
              is_output,
              record {
                route = route;
                mapped = found;
                unary = unary;
                one_output = one;
                fine = fine;
              },
            ),
          )
    ]
  ]

  Succeeds-execute :
      (routes : List (Text × BatchRoute)) (c : BatchWireCall) (request : DispatchRequest)
      (options : DispatchOptions Context) {output : Bytes}
      → Succeeds routes c request options output
      → execute routes c request options ≡ success c.id (some output)
  unfolding execute_call
  Succeeds-execute routes c request options s =
      ground (arith, s.mapped, s.unary, s.one_output, s.fine)

  -- A call succeeds with an output exactly if its path has a unary route, and the inner dispatcher
  -- answers the call's input on that route with the status OK and the output as its one message.
  pub execute_call-success_iff :
      (routes : List (Text × BatchRoute)) (c : BatchWireCall) (request : DispatchRequest)
      (options : DispatchOptions Context) (output : Bytes)
      → (execute_call dispatch texts decode encode_response batch_grpc_path routes c request options
          ≡ success c.id (some output))
        ↔ Succeeds routes c request options output
  execute_call-success_iff routes c request options output =
      (forth, Succeeds-execute routes c request options)
    where
      forth :
          execute routes c request options ≡ success c.id (some output)
          → Succeeds routes c request options output
      forth e =
          let (_, (o, same, s)) = execute-Succeeds routes c request options e in
          let equal : o ≡ output = ground arith in rw equal at s

  -- An error never carries the status OK.
  pub execute_call-error_code :
      (routes : List (Text × BatchRoute)) (c : BatchWireCall) (request : DispatchRequest)
      (options : DispatchOptions Context) {id code : ℕ} {message : Text}
      → execute_call dispatch texts decode encode_response batch_grpc_path routes c request options
        ≡ error id code message
      → code ≢ GrpcStatus.ok
  unfolding execute_call
  execute_call-error_code routes c request options e = λ z. ground arith

  -- A request on the path of batches whose envelope is valid.
  pub record IsBatch (request : DispatchRequest) (cs : List BatchWireCall) : Type 0 where
    pub addressed : request.grpc_path ≡ batch_grpc_path
    pub valid : decode_batch_calls (decode request.message) ≡ calls cs

  -- One answer for each call, in order: under the call's id, a success exactly if the call succeeds,
  -- and never an error with the status OK.
  pub data Answers (routes : List (Text × BatchRoute)) (request : DispatchRequest)
      (options : DispatchOptions Context) : List BatchWireCall → List BatchWireResult → Type 0 where
    all_answered : Answers routes request options [] []
    answered :
        {c : BatchWireCall} {r : BatchWireResult} {cs : List BatchWireCall}
        {rs : List BatchWireResult}
        → result_id r ≡ c.id
        → ((output : Bytes)
            → (r ≡ success c.id (some output)) ↔ Succeeds routes c request options output)
        → ((id code : ℕ) (message : Text) → r ≡ error id code message → code ≢ GrpcStatus.ok)
        → Answers routes request options cs rs
        → Answers routes request options (c ∷ cs) (r ∷ rs)

  abbrev direct : ProtoSchema → Option Context → Context → Dispatcher Context
  direct = direct_batch_dispatcher dispatch texts decode encode_response batch_grpc_path

  abbrev forwarding : ProtoSchema → Dispatcher Context
  forwarding = forwarding_batch_dispatcher dispatch texts decode encode_response batch_grpc_path

  direct_batch :
      (schema : ProtoSchema) (create : Option Context) (empty : Context) (request : DispatchRequest)
      (options : DispatchOptions Context)
      → text_eq request.grpc_path batch_grpc_path ≡ true
      → direct schema create empty request options
        ≡ forwarding schema request (some (shared_context create empty options))
  unfolding direct_batch_dispatcher forwarding_batch_dispatcher
  direct_batch schema create empty request options batch = rw batch

  direct_other :
      (schema : ProtoSchema) (create : Option Context) (empty : Context) (request : DispatchRequest)
      (options : DispatchOptions Context)
      → text_eq request.grpc_path batch_grpc_path ≡ false
      → direct schema create empty request options ≡ forwarding schema request options
  unfolding direct_batch_dispatcher forwarding_batch_dispatcher
  direct_other schema create empty request options other = rw other

  -- The direct dispatcher answers every request as the forwarding one does that is given, for a
  -- batch, the one context that all its calls share, and for another request the options as they are.
  pub direct-forwarding :
      (schema : ProtoSchema) (create : Option Context) (empty : Context) (request : DispatchRequest)
      (options : DispatchOptions Context)
      → direct_batch_dispatcher dispatch texts decode encode_response batch_grpc_path schema create
          empty request options
        ≡ forwarding_batch_dispatcher dispatch texts decode encode_response batch_grpc_path schema
            request
            (if text_eq request.grpc_path batch_grpc_path
              then some (shared_context create empty options)
              else options)
  direct-forwarding schema create empty request options =
      elim (Bool-cases (text_eq request.grpc_path batch_grpc_path)) [
        | inl batch ↦ rw batch (direct_batch schema create empty request options batch)
        | inr other ↦ rw other (direct_other schema create empty request options other)
      ]

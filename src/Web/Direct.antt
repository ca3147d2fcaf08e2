-- ===== src/Web/Direct.antt =====
-- packages/runtime/src/web/dispatchers/direct.ts: the dispatcher that calls the router itself.
-- The codec and the router are parameters. What the router returns for a subscription is its items,
-- each with whether the call is aborted by then, and what it throws behind them.
pub mod Laws
mod Examples
use trpc_proto.Base.{
  ℕ, Bool, true, false, List, [], ◌∷◌, ◌++◌, Option, none, some, ◌⊎◌, inl, inr, if◌then◌else◌,
  Bytes,
}
use trpc_proto.Base.Text.{Text, codes, lookup, insert}
use trpc_proto.Grpc.Status as GrpcStatus
use trpc_proto.Grpc.Status.{TrpcCode, grpc_status}
use trpc_proto.Schema.Types.{ProtoMethod, ProtoService, ProtoSchema}
use trpc_proto.Batch.Dispatch.{DispatchRequest, DispatchStatus, DispatchOptions, method_path}

pub record GrpcWebRoute : Type 0 where
  pub procedure_path : Text
  pub request_type : Text
  pub response_type : Text
  pub response_stream : Bool

abbrev pub add_route_methods :
    Text → Text → List ProtoMethod → List (Text × GrpcWebRoute) → List (Text × GrpcWebRoute)
add_route_methods package_name service [] routes = routes
add_route_methods package_name service (m ∷ ms) routes = add_route_methods package_name service ms (
    insert (method_path package_name service m.name)
      (record {
        procedure_path = m.path;
        request_type = m.request_type;
        response_type = m.response_type;
        response_stream = m.is_response_streaming;
      })
      routes)

abbrev pub add_route_services :
    Text → List ProtoService → List (Text × GrpcWebRoute) → List (Text × GrpcWebRoute)
add_route_services package_name [] routes = routes
add_route_services package_name (s ∷ ss) routes =
    add_route_services package_name ss (add_route_methods package_name s.name s.methods routes)

unfoldable pub grpc_web_routes : ProtoSchema → List (Text × GrpcWebRoute)
grpc_web_routes schema = add_route_services schema.package_name schema.services []

-- A `TRPCError`, or another error.
pub data Thrown : Type 0 where
  trpc_error : TrpcCode → Text → Thrown
  other_error : Text → Thrown

-- The catch clause.
abbrev pub thrown_status : Thrown → DispatchStatus
thrown_status (trpc_error code text) = record {
  code = grpc_status code;
  message = text;
  metadata = none;
}
thrown_status (other_error text) = record {
  code = GrpcStatus.unknown;
  message = text;
  metadata = none;
}

abbrev pub end_status : Bool → DispatchStatus
end_status aborted = record {
  code = if aborted then GrpcStatus.cancelled else GrpcStatus.ok;
  message = [];
  metadata = none;
}

-- What the dispatcher calls.
pub record Router (Value : Type 0) (Context : Type 0) : Type 0 where
  pub decode : Text → Bytes → Thrown ⊎ Value
  pub encode : Text → Value → Thrown ⊎ Bytes
  pub invoke : Text → Value → Option Context → Thrown ⊎ Value
  pub items : Value → List (Value × Bool) × Option Thrown

module _ {Value : Type 0} {Context : Type 0} (router : Router Value Context) where
  -- The loop over the items, from an item on: one that comes when the call is aborted ends it.
  unfoldable pub emit_items :
      Text → Bool → List (Value × Bool) → Option Thrown → List Bytes × DispatchStatus
  emit_items type aborted [] none = ([], end_status aborted)
  emit_items type aborted [] (some e) = ([], thrown_status e)
  emit_items type aborted ((item, stops) ∷ items) thrown =
      let (later, status) = emit_items type aborted items thrown in
      if stops then ([], end_status true) else elim (router.encode type item) [
        | inl e ↦ ([], thrown_status e)
        | inr message ↦ (message ∷ later, status)
      ]

  abbrev pub emit_result : GrpcWebRoute → Bool → Value → List Bytes × DispatchStatus
  emit_result route aborted result =
      if route.response_stream
      then emit_items route.response_type aborted (router.items result).0 (router.items result).1
      else elim (router.encode route.response_type result) [
        | inl e ↦ ([], thrown_status e)
        | inr message ↦ (message ∷ [], end_status aborted)
      ]

  abbrev pub no_route : Text → DispatchStatus
  no_route grpc_path = record {
    code = GrpcStatus.unimplemented;
    message = codes "no gRPC mapping for " ++ grpc_path;
    metadata = none;
  }

  -- The inner dispatcher of `createDirectDispatcher`; `aborted` is the state of the signal at its end.
  unfoldable pub direct_dispatch :
      ProtoSchema → DispatchRequest → DispatchOptions Context → List Bytes × DispatchStatus
  direct_dispatch schema request options =
      elim (lookup request.grpc_path (grpc_web_routes schema)) [
        | none ↦ ([], no_route request.grpc_path)
        | some route ↦ elim (router.decode route.request_type request.message) [
          | inl e ↦ ([], thrown_status e)
          | inr input ↦ elim (router.invoke route.procedure_path input options) [
            | inl e ↦ ([], thrown_status e)
            | inr result ↦ emit_result route request.aborted result
          ]
        ]
      ]

-- ===== src/Grpc/Status.antt =====
-- packages/runtime/src/grpc/status.ts: tRPC error codes as gRPC status codes.
pub mod Laws
mod Examples
use trpc_proto.Base.{ℕ}

-- The status codes of gRPC.
abbrev pub ok : ℕ
ok = 0

abbrev pub cancelled : ℕ
cancelled = 1

abbrev pub unknown : ℕ
unknown = 2

abbrev pub invalid_argument : ℕ
invalid_argument = 3

abbrev pub deadline_exceeded : ℕ
deadline_exceeded = 4

abbrev pub not_found : ℕ
not_found = 5

abbrev pub already_exists : ℕ
already_exists = 6

abbrev pub permission_denied : ℕ
permission_denied = 7

abbrev pub resource_exhausted : ℕ
resource_exhausted = 8

abbrev pub failed_precondition : ℕ
failed_precondition = 9

abbrev pub unimplemented : ℕ
unimplemented = 12

abbrev pub internal : ℕ
internal = 13

abbrev pub unavailable : ℕ
unavailable = 14

abbrev pub unauthenticated : ℕ
unauthenticated = 16

-- `TRPCError.code`; `OTHER` stands for any code that the switch does not name.
pub data TrpcCode : Type 0 where
  parse_error bad_request unprocessable_content unsupported_media_type : TrpcCode
  unauthorized forbidden payment_required trpc_not_found conflict : TrpcCode
  precondition_failed precondition_required payload_too_large too_many_requests : TrpcCode
  timeout gateway_timeout client_closed_request method_not_supported not_implemented : TrpcCode
  service_unavailable bad_gateway internal_server_error other : TrpcCode

unfoldable pub grpc_status : TrpcCode → ℕ
grpc_status parse_error = invalid_argument
grpc_status bad_request = invalid_argument
grpc_status unprocessable_content = invalid_argument
grpc_status unsupported_media_type = invalid_argument
grpc_status unauthorized = unauthenticated
grpc_status forbidden = permission_denied
grpc_status payment_required = permission_denied
grpc_status trpc_not_found = not_found
grpc_status conflict = already_exists
grpc_status precondition_failed = failed_precondition
grpc_status precondition_required = failed_precondition
grpc_status payload_too_large = resource_exhausted
grpc_status too_many_requests = resource_exhausted
grpc_status timeout = deadline_exceeded
grpc_status gateway_timeout = deadline_exceeded
grpc_status client_closed_request = cancelled
grpc_status method_not_supported = unimplemented
grpc_status not_implemented = unimplemented
grpc_status service_unavailable = unavailable
grpc_status bad_gateway = unavailable
grpc_status internal_server_error = internal
grpc_status other = unknown

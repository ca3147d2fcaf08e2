-- ===== src/Grpc/Status/Laws.antt =====
-- An error never becomes a success, and fits what the trailer parser accepts.
use trpc_proto.Base.{◌≤◌, arith}
use trpc_proto.Grpc.Status.{TrpcCode, parse_error, grpc_status}

-- Whatever its code, a tRPC error is reported as a failure, by one of the 16 failure codes of gRPC.
pub grpc_status_range : (c : TrpcCode) → (1 ≤ grpc_status c) × (grpc_status c ≤ 16)
unfolding grpc_status
grpc_status_range parse_error = omega arith
grpc_status_range _ = omega arith

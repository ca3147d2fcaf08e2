-- ===== src/Grpc/Status/Examples.antt =====
-- The status of some tRPC error codes of status.ts.
use trpc_proto.Base.{◌≡◌, refl}
use trpc_proto.Grpc.Status.{timeout, other, deadline_exceeded, unknown, grpc_status}

timed_out : grpc_status timeout ≡ deadline_exceeded
unfolding grpc_status
timed_out = refl

not_named : grpc_status other ≡ unknown
unfolding grpc_status
not_named = refl

-- ===== src/Grpc.antt =====
-- packages/runtime/src/grpc: native gRPC.
pub mod Status

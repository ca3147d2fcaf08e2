-- ===== src/Batch.antt =====
-- packages/runtime/src/batch: many procedure calls in one gRPC-Web call.
pub mod Wire
pub mod Dispatch
pub mod Link

-- ===== src/Proto.antt =====
-- packages/runtime/src/proto_codec: values as protobuf messages.
pub mod Timestamp
pub mod Lookup
pub mod Values
pub mod Convert

-- ===== src/Web.antt =====
-- packages/runtime/src/web: gRPC-Web over HTTP.
pub mod Call
pub mod Frame
pub mod ContentType
pub mod Protocol
pub mod Base64
pub mod Body
pub mod Cors
pub mod Handler
pub mod Direct

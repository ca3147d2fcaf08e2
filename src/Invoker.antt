-- ===== src/Invoker.antt =====
-- packages/runtime/src/router_invoker.ts: how the router's results become streams.
pub mod Stream

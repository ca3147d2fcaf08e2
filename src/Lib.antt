-- ===== src/Lib.antt =====
-- trpc-proto serves a tRPC router over gRPC and gRPC-Web: a generator translates the router's Zod
-- types into a protobuf schema, and a runtime carries calls in that schema over HTTP. This library
-- models the logic of packages/schema_ir and packages/runtime in which a mistake changes a wire
-- format, and proves what it has to keep.
--
--   Base           shared tests, lists, bits, decimals and texts (JavaScript strings as lists of code
--                  units)
--   Utility/Case   packages/utility/src/case.ts: the case conversions of names
--   Web/Frame      packages/runtime/src/web/codec/frame_codec.ts: GrpcWebFrameCodec. The decoder's
--                  state is its buffer; `push` and `finish` are the methods of FrameDecoder, and
--                  `decode` runs them over the chunks of a body
--   Web/ContentType
--                  packages/runtime/src/web/content_type.ts and, of codec/compression.ts, the parser
--                  of the grpc-encoding header
--   Web/Protocol   packages/runtime/src/web/codec/protocol_codec.ts: the frame of a value
--                  (`value_frame`), the value of a frame (`frame_value`), statuses and metadata
--   Web/Base64     packages/runtime/src/web/codec/base64_codec.ts: the decoder's state is its pending
--                  text, and `segments_from` runs it over the chunks of a body
--   Web/Body       the rest of protocol_codec.ts: a body as frames, raw or base64, and its values
--   Web/Cors, Web/Handler
--                  packages/runtime/src/web/http_handler.ts: the CORS policy, the preflight and the
--                  metadata of a request (Cors); `handle` is `handleGrpcWebHttpRequest` and `answer`
--                  what it does from the negotiation of the encoding on (Handler)
--   Web/Call       packages/runtime/src/web/fetch_call.ts: `fetch_call` is the call that
--                  `createGrpcWebFetchCall` returns. Call/Server puts it in front of `handle`
--   Web/Direct     packages/runtime/src/web/dispatchers/direct.ts: `direct_dispatch` is the dispatcher
--                  inside `createDirectDispatcher`, which Batch/Dispatch wraps
--   Schema/Types   packages/schema_ir/src/ir/types.ts: the schema, which batches are routed by
--   Schema/Allocator
--                  packages/schema_ir/src/translate/field_allocator.ts: the generator of field
--                  numbers as a state (used tags, next tag) and a step `next`
--   Schema/Numbering
--                  packages/schema_ir/src/translate/trpc_schema.ts, `#convertObject` and
--                  `#convertDiscriminatedUnion`: the numbers of a message's fields, from the cache
--                  of earlier generations and from the allocator
--   Schema/Zod     packages/schema_ir/src/translate/zod_node.ts and the functions at the end of
--                  trpc_schema.ts: what the generator reads of Zod schemas
--   Schema/Translate
--                  packages/schema_ir/src/translate/trpc_schema.ts: `Translator` has the fields of
--                  TrpcSchemaTranslator; Objects, Variants, Fields and Rpc have its
--                  methods, Run its `run` and `translate`, Router `schemaFromRouter` and the
--                  reading of a router
--   Schema/Reserved, Schema/Text
--                  packages/schema_ir/src/ir/text.ts: the reserved numbers of a message, and the
--                  proto file, whose lines the functions return that those of the source push
--   Schema/WellKnown
--                  packages/schema_ir/src/ir/wellknown.ts
--   Schema/Validate
--                  packages/schema_ir/src/validate/prevalidate.ts
--   Proto          packages/runtime/src/proto_codec/proto_codec.ts: dates as timestamps (Timestamp),
--                  how a procedure and a message are found by name (Lookup), the values of
--                  JavaScript (Values), and `toProtoObject` and `fromProtoObject` (Convert)
--   Invoker/Stream packages/runtime/src/router_invoker.ts, `toAsyncIterable`: the queue between an
--                  observable and the consumer of the generator
--   Grpc/Status    packages/runtime/src/grpc/status.ts
--   Batch/Wire     packages/runtime/src/batch/proto/wire.ts: the check of a decoded batch
--   Batch/Dispatch packages/runtime/src/batch/grpcweb/direct_dispatcher.ts and
--                  forwarding_dispatcher.ts: the two dispatchers that open a batch
--   Batch/Link     packages/runtime/src/batch/link/web_link.ts, the queue and its groups, and in
--                  Link/Execute `#execute`, which sends a group and tells each operation its result
--
-- The translator walks the graph of Zod nodes and makes messages, and the allocator numbers their
-- fields; the runtime looks a procedure up under the names that the translator gave it, and turns
-- values into the messages of the schema and back; the batch dispatchers read the schema to route
-- the calls of a batch that the wire check has accepted; their answers travel in the frames. The
-- client's call writes a message as frames, the HTTP handler reads it, hands it to a dispatcher
-- and writes the answers and a status as frames, which the client reads. The printed proto file
-- reserves the numbers that the generation cache has recorded.
--
-- Fuel: `drain` of Web/Frame takes one unit more than the buffer has bytes, and a frame takes five
-- bytes. `advance` of Schema/Allocator takes one unit for each tag up to the largest, and the tag
-- grows in each round.
--
-- `groups_from` of Batch/Link takes one unit for each operation, and a group has one at least.
-- `complete_segments` of Web/Base64 takes one unit for each code unit of the text, and a segment
-- has four at least. The chunks of the encoder take one unit for each byte. The digits of
-- `decimal` of Base/Decimal take one unit for each digit, of which a number has at most as many as
-- its value and one.
--
-- `unwrap_loop`, `comment_loop` and `oneof_loop` of Schema/Zod take one unit for each node of the
-- graph, since each round sees another one. The depth of `map_field` in Schema/Translate is how
-- far calls may nest before the engine throws `too_deep`; a depth above the rank of every schema
-- is enough where the schemas have a rank, which falls to the parts that are read of them.
--
-- `to_proto_object` and `from_proto_object` of Proto/Convert/Objects take one unit for each call
-- of them that is inside another. A value that fits its message needs as many as it has messages
-- inside each other; a message that is its own wrapped value has no bound, and the source has none
-- for it either.
--
-- Parameters, because their code is not in the repository: the platform, which is its UTF-8 coder,
-- its compressor, its percent-decoder, `atob`, `btoa` and `TextDecoder` (Web/Frame, Web/Protocol,
-- Web/Body); `fetch` and the network (Web/Call); what the connection of a response does while it
-- is written (Web/Handler); the protobuf coder of the batch envelope, the inner dispatcher, the
-- texts of errors, and the codec of the application behind the link (Batch). Their laws are
-- hypotheses where a theorem needs one: a compressor's output decompresses to its input, the
-- percent-decoder gives the text whose bytes are encoded, the coder returns a block of trailers, a
-- network delivers all bytes in order and the headers that the client sends of its own, and adds
-- no grpc-encoding.
--
-- Not modelled: the parser of proto files, the class ZodNode, which repeats functions of
-- trpc_schema.ts and which nothing uses, the Zod schema for async iterables, router invocation but
-- for the streaming of observables, calls of protobufjs and grpc-js (the reflected root and the
-- bytes of messages, and the links and interceptors of packages/runtime/src/grpc), HTTP servers
-- and sockets, cancelling a call on the client, certificates, the command line, file access, the
-- examples and the benchmarks.
pub mod Base
pub mod Web
pub mod Proto
pub mod Schema
pub mod Grpc
pub mod Invoker
pub mod Batch
pub mod Utility

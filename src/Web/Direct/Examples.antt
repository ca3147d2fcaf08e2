-- ===== src/Web/Direct/Examples.antt =====
-- A router that echoes bytes, and streams each of them.
use trpc_proto.Base.{◌≡◌, ◌↔◌, refl, true, false, [], ◌∷◌, map, none, inr, Bytes}
use trpc_proto.Base.Text.{Text, codes}
use trpc_proto.Schema.Types.{ProtoSchema, no_messages, query, subscription}
use trpc_proto.Batch.Dispatch.{DispatchRequest}
use trpc_proto.Web.Direct.{end_status, Router, grpc_web_routes, emit_items, direct_dispatch}
use trpc_proto.Web.Direct.Laws.{IsComplete, emit_items_iff}

abbrev router : Router Bytes Bytes
router = record {
  decode = λ type message. inr message;
  encode = λ type value. inr value;
  invoke = λ path input context. inr (9 ∷ input);
  items = λ value. (map (λ b. (b ∷ [], false)) value, none);
}

abbrev schema : ProtoSchema
schema = record {
  package_name = codes "a";
  services =
      record {
        name = codes "B";
        methods =
            record {
              name = codes "Get";
              path = codes "get";
              type = query;
              request_type = [];
              response_type = [];
              is_response_streaming = false;
            }
            ∷ record {
              name = codes "Watch";
              path = codes "watch";
              type = subscription;
              request_type = [];
              response_type = [];
              is_response_streaming = true;
            }
            ∷ [];
      }
      ∷ [];
  message_list = no_messages;
  enums = [];
  options = [];
  generate_cache = none;
}

abbrev request : Text → DispatchRequest
request path = record { grpc_path = path; message = 7 ∷ []; metadata = []; aborted = false }

one_message :
    direct_dispatch router schema (request (codes "/a.B/Get")) none
    ≡ ((9 ∷ 7 ∷ []) ∷ [], end_status false)
unfolding direct_dispatch grpc_web_routes
one_message = refl

two_messages :
    direct_dispatch router schema (request (codes "/a.B/Watch")) none
    ≡ ((9 ∷ []) ∷ (7 ∷ []) ∷ [], end_status false)
unfolding direct_dispatch grpc_web_routes emit_items
two_messages = refl

emit_items_iff_example :
    (emit_items router [] false ((5 ∷ [], false) ∷ []) none ≡ ((5 ∷ []) ∷ [], end_status false))
    ↔ IsComplete router [] false ((5 ∷ [], false) ∷ []) none ((5 ∷ []) ∷ [])
emit_items_iff_example = emit_items_iff router [] false ((5 ∷ [], false) ∷ []) none ((5 ∷ []) ∷ [])

-- ===== src/Schema/Translate/Examples.antt =====
-- A router with one query, whose input is an object with a name and nested tags, and without an output.
use trpc_proto.Base.{
  ℕ, zero, suc, ◌<◌, ◌≤◌, ◌≡◌, ◌≢◌, ◌⊎◌, refl, true, false, List, [], ◌∷◌, none, some, arith, All,
}
use trpc_proto.Base.Text.{Text, codes}
use trpc_proto.Base.Text.{split, split_by, trim_start, is_space, ends_with}
use trpc_proto.Utility.Case.{to_pascal_case, to_snake_case}
use trpc_proto.Schema.WellKnown.{proto_service_name}
use trpc_proto.Schema.Allocator.{
  create_field_allocator, next, advance, advance_loop, is_reserved, assert_valid_tag, record_tag,
}
use trpc_proto.Schema.Numbering.{assignments_of, set_used, number_field}
use trpc_proto.Schema.Zod.{
  unwrap_step, unwrap_loop, unwrap, comment_loop, zod_comment, oneof_loop, proto_oneof_of,
  is_proto_object_meta, extract_proto_object_meta, proto_use_known_type_of, proto_message_name_of,
}
use trpc_proto.Schema.Zod.Scalars.{proto_type_name, is_empty_type, map_scalar, object_of}
use trpc_proto.Schema.Translate.{continue_with, message_name}
use trpc_proto.Schema.Translate.Objects.{
  open_cache, number_entry, convert_field, convert_fields, convert_message, convert_object,
}
use trpc_proto.Schema.Translate.Fields.{named_object, map_object, map_kind, map_field}
use trpc_proto.Schema.Translate.Rpc.{rpc_kind, rpc_named, rpc_message_type}
use trpc_proto.Schema.Translate.Run.{
  service_name, method_name, add_method, run_procedure, run, proto_services,
}
use trpc_proto.Schema.Types.{
  query, string, scalar, message, ProtoField, ProtoMessage, proto_message, no_messages, messages,
  property, Properties, empty, entry, ProtoMethod, ProtoSchema,
}
use trpc_proto.Schema.Zod.Errors.{too_deep, ok, err}
use trpc_proto.Schema.Zod.{
  z_string, z_array, z_set, z_record, z_map, z_intersection, z_void, ZodGraph, get_or,
}
use trpc_proto.Schema.Zod.Examples.{of_kind, graph_of, object_node}
use trpc_proto.Schema.Translate.Run.{RuntimeProcedure, TranslateOptions, translate}
use trpc_proto.Schema.Translate.Closed.Run.{IsClosed, translate-IsClosed}
use trpc_proto.Schema.Translate.Names.{Served, translate-Served}
use trpc_proto.Schema.Validate.{
  ProtoFileHeader, Stringify, lacks_package, other_syntax, overrides, prevalidate,
  assert_prevalidate,
}
use trpc_proto.Schema.Translate.Sound.{
  Promises, schema_from_router-Promises, schema_from_router-no_header,
}
use trpc_proto.Schema.Translate.Router.{
  zod_parser, a_procedure, no_procedure, Router, procedure_input, procedure_output, list_procedures,
  procedure_checks, no_header, generated, schema_from_router,
}
use trpc_proto.Schema.Translate.Depth.{Ranked}
use trpc_proto.Schema.Translate.Depth.Run.{translate-NotDeep}

abbrev graph : ZodGraph
graph = graph_of (
    object_node ((codes "fullName", 2) ∷ (codes "tags", 1) ∷ [])
    ∷ object_node ((codes "x", 2) ∷ [])
    ∷ of_kind z_string
    ∷ of_kind z_void
    ∷ [])

abbrev procedures : List RuntimeProcedure
procedures = record { path = codes "user.get"; type = query; input = some 0; output = none } ∷ []

abbrev options : TranslateOptions
options = record { proto = none; package_name = some (codes "a.v1"); generate_cache = none }

abbrev text_field : Text → ProtoField
text_field name = record {
  name = name;
  number = 1;
  type = scalar string;
  repeated = false;
  optional = true;
  comment = [];
  oneof = none;
  discriminator_value = none;
}

abbrev tags : ProtoMessage
tags = proto_message (codes "Tags") (text_field (codes "x") ∷ []) no_messages [] none

abbrev request : ProtoMessage
request =
    proto_message (codes "UserGetRequest")
      (text_field (codes "full_name")
        ∷ record (text_field (codes "tags")) { number = 2; type = message (codes "Tags") }
        ∷ [])
      (messages tags no_messages) [] none

abbrev get : ProtoMethod
get = record {
  name = codes "Get";
  path = codes "user.get";
  type = query;
  request_type = codes "UserGetRequest";
  response_type = codes "google.protobuf.Empty";
  is_response_streaming = false;
}

abbrev last_cache : Properties
last_cache =
    entry (codes "UserGetRequest")
      (property none none
        (entry (codes "full_name") (property (some 1) (some (codes "string")) empty [])
          (entry (codes "tags") (property (some 2) (some (codes "Tags")) empty []) empty))
        ((1, codes "full_name") ∷ (2, codes "tags") ∷ []))
      (entry (codes "UserGetRequest.Tags")
        (property none none
          (entry (codes "x") (property (some 1) (some (codes "string")) empty []) empty)
          ((1, codes "x") ∷ []))
        empty)

abbrev schema : ProtoSchema
schema = record {
  package_name = codes "a.v1";
  services = record { name = codes "UserService"; methods = get ∷ [] } ∷ [];
  message_list = messages request no_messages;
  enums = [];
  options = [];
  generate_cache = some last_cache;
}

translated : translate 3 graph procedures options ≡ ok schema
unfolding translate split split_by trim_start is_space ends_with to_pascal_case to_snake_case
    proto_service_name create_field_allocator next advance advance_loop is_reserved assert_valid_tag
    record_tag assignments_of set_used number_field unwrap_step unwrap_loop unwrap comment_loop
    zod_comment oneof_loop proto_oneof_of is_proto_object_meta extract_proto_object_meta
    proto_use_known_type_of proto_message_name_of proto_type_name is_empty_type map_scalar object_of
    continue_with message_name open_cache number_entry convert_field convert_fields convert_message
    convert_object named_object map_object map_kind map_field rpc_kind rpc_named rpc_message_type
    service_name method_name add_method run_procedure run proto_services
translated = refl

translate-IsClosed_example : IsClosed schema
translate-IsClosed_example = translate-IsClosed 3 graph procedures options translated

translate-Served_example : All (Served schema) procedures
translate-Served_example = translate-Served 3 graph procedures options translated

-- The request has rank 2, the object in it 1.
abbrev rank : ℕ → ℕ
rank zero = 2
rank (suc zero) = 1
rank (suc (suc i)) = 0

graph-wrapped : (i j : ℕ) → unwrap_step graph i ≡ some j → rank j ≤ rank i
unfolding unwrap_step
graph-wrapped zero j h = absurd (cc)
graph-wrapped (suc zero) j h = absurd (cc)
graph-wrapped (suc (suc zero)) j h = absurd (cc)
graph-wrapped (suc (suc (suc zero))) j h = absurd (cc)
graph-wrapped (suc (suc (suc (suc i)))) j h = absurd (cc)

graph-element :
    (i : ℕ)
    → ((graph.node i).type ≡ z_array) ⊎ ((graph.node i).type ≡ z_set)
    → rank (get_or (graph.node i).element i) < rank i
graph-element zero h = absurd (ground arith)
graph-element (suc zero) h = absurd (ground arith)
graph-element (suc (suc zero)) h = absurd (ground arith)
graph-element (suc (suc (suc zero))) h = absurd (ground arith)
graph-element (suc (suc (suc (suc i)))) h = absurd (ground arith)

graph-value :
    (i : ℕ)
    → ((graph.node i).type ≡ z_record) ⊎ ((graph.node i).type ≡ z_map)
    → rank (get_or (graph.node i).value_type i) < rank i
graph-value zero h = absurd (ground arith)
graph-value (suc zero) h = absurd (ground arith)
graph-value (suc (suc zero)) h = absurd (ground arith)
graph-value (suc (suc (suc zero))) h = absurd (ground arith)
graph-value (suc (suc (suc (suc i)))) h = absurd (ground arith)

graph-sides :
    (i : ℕ)
    → (graph.node i).type ≡ z_intersection
    → (rank (get_or (graph.node i).left i) < rank i)
      × (rank (get_or (graph.node i).right i) < rank i)
graph-sides zero h = absurd (cc)
graph-sides (suc zero) h = absurd (cc)
graph-sides (suc (suc zero)) h = absurd (cc)
graph-sides (suc (suc (suc zero))) h = absurd (cc)
graph-sides (suc (suc (suc (suc i)))) h = absurd (cc)

graph-shape : (i : ℕ) → All (λ f. rank f.1 < rank i) (graph.node i).shape
graph-shape zero = (omega arith, (omega arith, tt))
graph-shape (suc zero) = (omega arith, tt)
graph-shape (suc (suc zero)) = tt
graph-shape (suc (suc (suc zero))) = tt
graph-shape (suc (suc (suc (suc i)))) = tt

graph-items : (i : ℕ) → All (λ j. rank j < rank i) (graph.node i).items
graph-items zero = tt
graph-items (suc zero) = tt
graph-items (suc (suc zero)) = tt
graph-items (suc (suc (suc zero))) = tt
graph-items (suc (suc (suc (suc i)))) = tt

graph-options : (i : ℕ) → All (λ j. rank j < rank i) (graph.node i).options
graph-options zero = tt
graph-options (suc zero) = tt
graph-options (suc (suc zero)) = tt
graph-options (suc (suc (suc zero))) = tt
graph-options (suc (suc (suc (suc i)))) = tt

graph-Ranked : Ranked graph rank
graph-Ranked = record {
  of_wrapped = graph-wrapped;
  of_element = graph-element;
  of_value = graph-value;
  of_sides = graph-sides;
  of_shape = graph-shape;
  of_items = graph-items;
  of_options = graph-options;
}

rank-low : (i : ℕ) → rank i < 3
rank-low zero = omega arith
rank-low (suc zero) = omega arith
rank-low (suc (suc i)) = omega arith

translate-NotDeep_example : translate 3 graph procedures options ≢ err too_deep
translate-NotDeep_example = translate-NotDeep graph-Ranked 3 rank-low procedures options

-- The router of the procedures, with an output that is an empty type.
abbrev quoted : Stringify
quoted = record { header = λ (h : ProtoFileHeader). get_or h.package_name []; text = λ t. t }

abbrev header : ProtoFileHeader
header = record {
  package_name = some (codes "a.v1");
  syntax = none;
  schema_path = none;
  cache = none;
  options = none;
}

abbrev router : Router
router = record {
  proto = some header;
  procedures =
      (
        codes "user.get",
        a_procedure (record {
          type = query;
          inputs = zod_parser 0 ∷ [];
          output = some (zod_parser 3);
          proto = none;
        }),
      )
      ∷ (codes "other", no_procedure)
      ∷ [];
}

router-generated : schema_from_router quoted 3 graph router ≡ generated schema
unfolding schema_from_router assert_prevalidate prevalidate lacks_package other_syntax overrides
    procedure_checks procedure_input procedure_output list_procedures translate split split_by
    trim_start is_space ends_with to_pascal_case to_snake_case proto_service_name
    create_field_allocator next advance advance_loop is_reserved assert_valid_tag record_tag
    assignments_of set_used number_field unwrap_step unwrap_loop unwrap comment_loop zod_comment
    oneof_loop proto_oneof_of is_proto_object_meta extract_proto_object_meta proto_use_known_type_of
    proto_message_name_of proto_type_name is_empty_type map_scalar object_of continue_with
    message_name open_cache number_entry convert_field convert_fields convert_message convert_object
    named_object map_object map_kind map_field rpc_kind rpc_named rpc_message_type service_name
    method_name add_method run_procedure run proto_services
router-generated = refl

schema_from_router-Promises_example : Promises quoted router schema
schema_from_router-Promises_example =
    schema_from_router-Promises quoted 3 graph router router-generated

schema_from_router-no_header_example : schema_from_router quoted 3 graph router ≢ no_header
schema_from_router-no_header_example = schema_from_router-no_header quoted 3 graph router

-- ===== src/Schema/Translate/Numbers/Examples.antt =====
-- A message with two texts, of which the cache knows the second one.
use trpc_proto.Base.{List, ℕ, ◌≡◌, refl, [], ◌∷◌, none, some, arith, map, Distinct, true, false}
use trpc_proto.Base.Text.{Text, codes, text_eq_iff}
use trpc_proto.Utility.Case.{to_snake_case}
use trpc_proto.Schema.Allocator.{
  create_field_allocator, next, advance, advance_loop, is_reserved, assert_valid_tag, record_tag,
}
use trpc_proto.Schema.Types.{
  string, scalar, ProtoField, ProtoMessage, proto_message, no_messages, PropertyGenCache, property,
  Properties, empty, entry, UsedIds, nested_in, used_in,
}
use trpc_proto.Schema.Numbering.{assignments_of, set_used, number_field}
use trpc_proto.Schema.Numbering.Sound.{IsSound}
use trpc_proto.Schema.Zod.Errors.{Translated, ok, err}
use trpc_proto.Schema.Zod.{
  z_string, ZodGraph, unwrap, unwrap_loop, unwrap_step, comment_loop, zod_comment, oneof_loop,
  proto_oneof_of,
}
use trpc_proto.Schema.Zod.{
  proto_use_known_type_of, proto_message_name_of, extract_proto_object_meta, is_proto_object_meta,
}
use trpc_proto.Schema.Zod.Examples.{of_kind, graph_of, object_node}
use trpc_proto.Schema.Zod.Scalars.{object_of}
use trpc_proto.Schema.Translate.Fields.{map_object, named_object}
use trpc_proto.Utility.Case.{to_pascal_case}
use trpc_proto.Base.Text.{split_by}
use trpc_proto.Schema.Zod.Scalars.{ZodObject, map_scalar, proto_type_name}
use trpc_proto.Schema.Translate.{Translator, continue_with}
use trpc_proto.Schema.Translate.Objects.{
  cache_entry, open_cache, number_entry, convert_field, convert_fields, convert_message,
}
use trpc_proto.Schema.Translate.Fields.{map_kind, map_field}
use trpc_proto.Schema.Translate.Post.{returns}
use trpc_proto.Schema.Translate.Numbers.{
  Leaves, numbered, fields_of, NumberedFrom, convert_message-Distinct,
}

abbrev graph : ZodGraph
graph =
    graph_of (of_kind z_string ∷ object_node ((codes "fullName", 0) ∷ (codes "email", 0) ∷ []) ∷ [])

abbrev name : Text
name = codes "User"

abbrev user : ZodObject
user = object_of graph 1

map_field-Leaves : Leaves (map_field 1 graph) name name user.shape
unfolding map_field map_kind unwrap unwrap_loop unwrap_step map_scalar object_of
map_field-Leaves = (λ s. returns refl, (λ s. returns refl, tt))

abbrev children : Properties
children = entry (codes "email") (property (some 1) (some (codes "bytes")) empty []) empty

abbrev used : UsedIds
used = (1, codes "email") ∷ []

abbrev state : PropertyGenCache → Translator
state p = record {
  messages = [];
  enums = [];
  cache = entry name p empty;
  seen_messages = [];
  seen_enums = [];
  building = [];
}

abbrev before : Translator
before = state (property none none children used)

abbrev after : Translator
after = state (
    property none none
      (entry (codes "email") (property (some 1) (some (codes "string")) empty [])
        (entry (codes "full_name") (property (some 2) (some (codes "string")) empty []) empty))
      ((1, codes "email") ∷ (2, codes "full_name") ∷ []))

abbrev text_field : Text → ℕ → ProtoField
text_field field_name number = record {
  name = field_name;
  number = number;
  type = scalar string;
  repeated = false;
  optional = true;
  comment = [];
  oneof = none;
  discriminator_value = none;
}

abbrev converted : ProtoMessage
converted =
    proto_message name (text_field (codes "full_name") 2 ∷ text_field (codes "email") 1 ∷ [])
      no_messages [] none

conversion : convert_message graph (map_field 1 graph) user name name before ≡ ok (converted, after)
unfolding convert_message open_cache convert_fields convert_field number_entry continue_with
    map_field map_kind unwrap unwrap_loop unwrap_step map_scalar to_snake_case proto_type_name
    comment_loop zod_comment oneof_loop proto_oneof_of create_field_allocator next advance
    advance_loop is_reserved assert_valid_tag record_tag assignments_of set_used number_field
    object_of
conversion = refl

children-IsSound : IsSound children used
unfolding is_reserved
children-IsSound = record {
  unique = (refl, tt);
  valid = λ j tag h. ground arith;
  injective =
      λ j k tag h h'. ground (arith, text_eq_iff (codes "email") j, text_eq_iff (codes "email") k);
  recorded = λ id j h. ground (arith, text_eq_iff (codes "email") j);
}

convert_message-Distinct_example :
    Distinct (map (λ f. f.1) (numbered (fields_of converted)))
    × NumberedFrom children used converted (cache_entry name after)
    × IsSound (nested_in (cache_entry name after)) (used_in (cache_entry name after))
convert_message-Distinct_example =
    convert_message-Distinct graph (map_field 1 graph) name user name before after converted none
      none children used map_field-Leaves refl children-IsSound conversion
      ((λ e. cc e, tt), (tt, tt))

-- A message named A in a message named A, as the type of a field a, shares the entry A.A of the cache with
-- the message around it: the fields a and r of that one get the same number.
abbrev clash_graph : ZodGraph
clash_graph = graph_of (
    object_node ((codes "p", 2) ∷ (codes "a", 1) ∷ (codes "r", 2) ∷ [])
    ∷ object_node ((codes "r", 2) ∷ [])
    ∷ of_kind z_string
    ∷ [])

abbrev numbers_of : Translated (ProtoMessage × Translator) → List (Text × ℕ)
numbers_of (ok (m, s)) = numbered (fields_of m)
numbers_of (err e) = []

clash :
    numbers_of (
      convert_message clash_graph
        (map_field 2 clash_graph)
        (object_of clash_graph 0)
        (codes "A")
        (codes "A.A")
        (record before { cache = empty }))
    ≡ (codes "p", 1) ∷ (codes "a", 2) ∷ (codes "r", 2) ∷ []
unfolding convert_message open_cache convert_fields convert_field number_entry continue_with
    map_field map_kind unwrap unwrap_loop unwrap_step map_scalar to_snake_case proto_type_name
    comment_loop zod_comment oneof_loop proto_oneof_of create_field_allocator next advance
    advance_loop is_reserved assert_valid_tag record_tag assignments_of set_used number_field
    map_object named_object object_of to_pascal_case split_by proto_use_known_type_of
    proto_message_name_of extract_proto_object_meta is_proto_object_meta
clash = refl

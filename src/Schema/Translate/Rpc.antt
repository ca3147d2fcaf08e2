-- ===== src/Schema/Translate/Rpc.antt =====
-- packages/schema_ir/src/translate/trpc_schema.ts: `#wrapScalar` and `#rpcMessageType`.
use trpc_proto.Base.{ℕ, true, List, [], ◌∷◌, Option, none, some, if◌then◌else◌}
use trpc_proto.Base.Text.{Text, codes}
use trpc_proto.Schema.Allocator.{create_field_allocator}
use trpc_proto.Schema.Types.{
  ProtoType, enum, message, ProtoMessage, proto_message, no_messages, property, empty,
}
use trpc_proto.Schema.WellKnown.{is_well_known_type}
use trpc_proto.Schema.Numbering
use trpc_proto.Schema.Numbering.{set_property, set_used, tag_of, Numbering, number_for}
use trpc_proto.Schema.Zod.Errors.{allocator_error, no_number, Translated, ok, err}
use trpc_proto.Schema.Zod.{
  ZodKind, z_object, z_union, z_literal, ZodNode, ZodGraph, get_or, truthy, unwrap, zod_comment,
  proto_use_known_type_of,
}
use trpc_proto.Schema.Zod.Scalars.{
  proto_type_name, is_empty_type, map_scalar, map_literal, object_of,
}
use trpc_proto.Schema.Translate.{
  Translation, pure, lift, modify, ◌>>=◌, has_message, push_message, message_name,
}
use trpc_proto.Schema.Translate.Objects.{Mapped, cache_entry, convert_object}
use trpc_proto.Schema.Translate.Variants.{convert_discriminated_union}
use trpc_proto.Schema.Translate.Fields.{map_field}

abbrev pub value_name : Text
value_name = codes "value"

abbrev wrapper_tags : Option ℕ → List (Text × ℕ)
wrapper_tags none = []
wrapper_tags (some tag) = (value_name, tag) ∷ []

-- `#wrapScalar`. An old entry for the field loses what is nested in it.
unfoldable pub wrapper_number : Text → Text → Translation ℕ
wrapper_number name type_name s = elim (cache_entry name s) [
  | property tag type children used ↦
      elim (number_for value_name (record {
        properties = children;
        used_ids = used;
        allocator = create_field_allocator (wrapper_tags (tag_of value_name children));
      })) [
        | Numbering.undefined_tag ↦ err no_number
        | Numbering.err e ↦ err (allocator_error e)
        | Numbering.ok (number, allocator) ↦ ok (
          number,
          record s {
            cache =
                set_property name
                  (property tag type
                    (set_property value_name (property (some number) (some type_name) empty [])
                      children)
                    (set_used number value_name used))
                  s.cache;
          },
        )
      ]
]

abbrev pub wrapper : ZodGraph → Text → ℕ → Mapped → ℕ → ProtoMessage
wrapper g name zod mapped number =
    proto_message name
      (record {
        name = value_name;
        number = number;
        type = mapped.type;
        repeated = mapped.repeated;
        optional = true;
        comment = zod_comment g zod;
        oneof = none;
        discriminator_value = none;
      }
        ∷ [])
      no_messages (zod_comment g zod) none

abbrev pub wrap_new : ℕ → ZodGraph → Text → ℕ → Translation (Unit {0})
wrap_new depth g name zod = do
  mapped ← map_field depth g zod name value_name
  number ← wrapper_number name (proto_type_name mapped.type)
  modify (push_message (wrapper g name zod mapped number))

unfoldable pub wrap_scalar : ℕ → ZodGraph → Text → ℕ → Translation (Unit {0})
unfolding wrapper_number
wrap_scalar depth g name zod s =
    if has_message name s.messages then ok (tt, s) else wrap_new depth g name zod s

-- The name of a mapped type that is well known.
abbrev pub known_name : Option ProtoType → Option Text
known_name (some (message name)) = if is_well_known_type name then some name else none
known_name (some (enum name)) = if is_well_known_type name then some name else none
known_name _ = none

abbrev pub map_single : ZodNode → Translated (Option ProtoType)
map_single n = elim (n.type) [
  | z_literal ↦ elim (map_literal n) [ ok type ↦ ok (some type) | err e ↦ err e ]
  | _ ↦ ok (map_scalar n)
]

-- The end of `#rpcMessageType`, for what is no object and no discriminated union.
unfoldable pub rpc_scalar : ℕ → ZodGraph → ℕ → ℕ → Text → Translation Text
unfolding wrap_scalar
rpc_scalar depth g zod inner fallback = do
  mapped ← lift (map_single (g.node inner))
  elim (known_name mapped) [
    | some name ↦ pure name
    | none ↦ (do wrapped ← wrap_scalar depth g fallback zod; pure fallback)
  ]

abbrev pub rpc_object : ℕ → ZodGraph → ℕ → Text → Translation Text
rpc_object depth g inner fallback = do
  name ← message_name g inner fallback
  converted ← convert_object g (map_field depth g) (object_of g inner) name
  pure name

abbrev pub rpc_union : ℕ → ZodGraph → ℕ → Text → Text → Translation Text
rpc_union depth g inner discriminator fallback = do
  name ← message_name g inner fallback
  converted ← convert_discriminated_union g (map_field depth g) inner name discriminator
  pure name

-- `#rpcMessageType` behind the tests for no schema, an empty one and a known type.
unfoldable pub rpc_kind : ℕ → ZodGraph → ZodKind → ℕ → ℕ → Text → Translation Text
unfolding rpc_scalar
rpc_kind depth g z_object zod inner fallback = rpc_object depth g inner fallback
rpc_kind depth g z_union zod inner fallback =
    if truthy (g.node inner).discriminator
    then rpc_union depth g inner (get_or (g.node inner).discriminator []) fallback
    else rpc_scalar depth g zod inner fallback
rpc_kind depth g _ zod inner fallback = rpc_scalar depth g zod inner fallback

unfoldable pub rpc_named : ℕ → ZodGraph → ℕ → ℕ → Text → Translation Text
unfolding rpc_kind
rpc_named depth g zod inner fallback = do
  known ← lift (proto_use_known_type_of (g.node inner))
  if truthy known
      then pure (get_or known [])
      else rpc_kind depth g (g.node inner).type zod inner fallback

unfoldable pub rpc_message_type : ℕ → ZodGraph → Option ℕ → Text → Translation Text
unfolding rpc_named
rpc_message_type depth g none fallback = pure (codes "google.protobuf.Empty")
rpc_message_type depth g (some zod) fallback =
    if is_empty_type (g.node (unwrap g zod))
    then pure (codes "google.protobuf.Empty")
    else rpc_named depth g zod (unwrap g zod) fallback

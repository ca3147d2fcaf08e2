-- ===== src/Schema/Translate/Variants.antt =====
-- packages/schema_ir/src/translate/trpc_schema.ts: the messages of discriminated unions.
use trpc_proto.Base.{ℕ, false, List, [], ◌∷◌, ◌++◌, Option, none, some, if◌then◌else◌}
use trpc_proto.Base.Text.{Text, has_text, lookup}
use trpc_proto.Utility.Case.{to_pascal_case, to_snake_case}
use trpc_proto.Schema.Allocator.{Allocator}
use trpc_proto.Schema.Types.{message, ProtoField, ProtoMessage, proto_message}
use trpc_proto.Schema.Zod.Errors.{
  arm_not_object, arm_without_tag, duplicate_arm, Translated, ok, err,
}
use trpc_proto.Schema.Zod.{z_object, ZodGraph, get_or, truthy, unwrap, zod_comment}
use trpc_proto.Schema.Zod.Scalars.{string_literal, object_shape, omit_shape_key}
use trpc_proto.Schema.Translate.{
  Translation, pure, lift, modify, ◌>>=◌, has_message, push_message, of_list,
}
use trpc_proto.Schema.Translate.Objects.{
  FieldMapper, Converted, open_cache, number_entry, convert_message,
}

-- `tagField ? stringLiteral(unwrap(tagField).inner) : undefined`.
abbrev arm_tag : ZodGraph → ℕ → Text → Option Text
arm_tag g arm discriminator = elim (lookup discriminator (object_shape (g.node arm))) [
  | none ↦ none
  | some tag_field ↦ string_literal (g.node (unwrap g tag_field))
]

-- The tag of an arm, or what is wrong with the arm.
unfoldable pub check_arm : ZodGraph → Text → Text → List Text → ℕ → Translated Text
check_arm g parent discriminator seen arm = elim ((g.node arm).type) [
  | z_object ↦
      let tag = arm_tag g arm discriminator in
      if truthy tag
      then (if has_text seen (to_pascal_case (get_or tag []))
          then err (duplicate_arm (get_or tag []) parent)
          else ok (get_or tag []))
      else err (arm_without_tag discriminator parent)
  | _ ↦ err (arm_not_object discriminator parent)
]

abbrev pub arm_field : ZodGraph → ℕ → Text → Text → ℕ → ProtoField
arm_field g option discriminator tag number = record {
  name = to_snake_case tag;
  number = number;
  type = message (to_pascal_case tag);
  repeated = false;
  optional = false;
  comment = zod_comment g option;
  oneof = some (to_snake_case discriminator);
  discriminator_value = some tag;
}

-- One round of the loop over the arms of a union, after the tests.
unfoldable pub convert_arm :
    ZodGraph
    → FieldMapper
    → Text
    → Text
    → ℕ
    → Text
    → Allocator
    → Translation (ProtoField × ProtoMessage × Allocator)
unfolding number_entry convert_message
convert_arm g map_field cache_name discriminator option tag allocator = do
  variant ←
      convert_message g map_field (omit_shape_key g (unwrap g option) discriminator)
        (to_pascal_case tag) (cache_name ++ (b'.' ∷ to_pascal_case tag))
  (number, rest) ← number_entry cache_name (to_snake_case tag) (to_pascal_case tag) allocator
  pure (arm_field g option discriminator tag number, variant, rest)

unfoldable pub convert_arms :
    ZodGraph
    → FieldMapper
    → Text
    → Text
    → Text
    → List Text
    → List ℕ
    → Allocator
    → Translation Converted
convert_arms g map_field parent cache_name discriminator seen [] allocator = pure ([], [])
convert_arms g map_field parent cache_name discriminator seen (option ∷ options) allocator = do
  tag ← lift (check_arm g parent discriminator seen (unwrap g option))
  (field, variant, rest) ← convert_arm g map_field cache_name discriminator option tag allocator
  (fields, subs) ←
      convert_arms g map_field parent cache_name discriminator (to_pascal_case tag ∷ seen) options
        rest
  pure (field ∷ fields, variant ∷ subs)

-- `#convertDiscriminatedUnion` of a message that is not hoisted.
unfoldable pub convert_variants :
    ZodGraph → FieldMapper → ℕ → Text → Text → Text → Translation ProtoMessage
unfolding open_cache
convert_variants g map_field zod message_name discriminator cache_name = do
  allocator ← open_cache cache_name
  (fields, subs) ←
      convert_arms g map_field message_name cache_name discriminator [] (g.node zod).options
        allocator
  pure (proto_message message_name fields (of_list subs) (zod_comment g zod) (some discriminator))

-- `#convertDiscriminatedUnion` of a hoisted message.
unfoldable pub convert_discriminated_union :
    ZodGraph → FieldMapper → ℕ → Text → Text → Translation (Unit {0})
convert_discriminated_union g map_field zod message_name discriminator s =
    if has_message message_name s.messages
    then ok (tt, s)
    else (convert_variants g map_field zod message_name discriminator message_name
          >>= λ (m : ProtoMessage). modify (push_message m))
        s

-- ===== src/Schema/Translate/Fields.antt =====
-- packages/schema_ir/src/translate/trpc_schema.ts: `#mapField`. The
-- depth is how far calls of `#mapField` may nest before the engine throws.
use trpc_proto.Base.{
  ℕ, zero, suc, Bool, true, false, ◌&&◌, List, [], ◌∷◌, ◌++◌, none, some, if◌then◌else◌, all,
}
use trpc_proto.Base.Text.{Text, codes, insert}
use trpc_proto.Base.Decimal.{decimal}
use trpc_proto.Utility.Case.{to_pascal_case}
use trpc_proto.Schema.Types.{ProtoType, enum, message, map_of, ProtoMessage}
use trpc_proto.Schema.WellKnown.{well_known_kind, enum_kind, message_kind}
use trpc_proto.Schema.Zod.Errors.{unsupported_type, too_deep}
use trpc_proto.Schema.Zod.{
  ZodKind, z_array, z_set, z_object, z_enum, z_record, z_map, z_tuple, z_intersection, z_union,
  z_literal, z_any, z_unknown, ZodGraph, get_or, truthy, unwrap, copy_comment,
  proto_use_known_type_of, proto_message_name_of,
}
use trpc_proto.Schema.Zod.Scalars.{
  is_empty_type, map_scalar, map_literal, map_key_scalar, ZodObject, object_shape, object_of,
}
use trpc_proto.Schema.Translate.{Translation, pure, throw, lift, ◌>>=◌, message_name, convert_enum}
use trpc_proto.Schema.Translate.Objects.{Mapped, FieldMapper, convert_message, convert_object}
use trpc_proto.Schema.Translate.Variants.{convert_variants, convert_discriminated_union}

abbrev pub singular : ProtoType → Mapped
singular type = record { type = type; repeated = false; nested = [] }

-- A field of a nested message, which is pushed to `nested`.
abbrev pub nest : Text → ProtoMessage → Mapped
nest name m = record { type = message name; repeated = false; nested = m ∷ [] }

abbrev pub repeat : Mapped → Mapped
repeat mapped = record mapped { repeated = true }

-- The value of a map: `repeated` is dropped.
abbrev pub map_value : ProtoType → Mapped → Mapped
map_value type mapped = record { type = type; repeated = false; nested = mapped.nested }

abbrev pub known_type : Text → ProtoType
known_type known = elim (well_known_kind known) [
  | enum_kind ↦ enum known
  | message_kind ↦ message known
]

abbrev nested_key : Text → Text → Text
nested_key parent name = parent ++ (b'.' ∷ name)

-- An object under its own name or, without one, as a message of the parent's.
unfoldable pub named_object :
    ZodGraph → FieldMapper → ℕ → ZodObject → Text → Text → Translation Mapped
named_object g map_field inner zod parent field_name =
    let named = proto_message_name_of (g.node inner) in
    if truthy named
    then (do
      name ← message_name g inner (get_or named [])
      converted ← convert_object g map_field zod name
      pure (singular (message name)))
    else (do
      m ←
          convert_message g map_field zod (to_pascal_case field_name)
            (nested_key parent (to_pascal_case field_name))
      pure (nest (to_pascal_case field_name) m))

unfoldable pub map_object : ZodGraph → FieldMapper → ℕ → Text → Text → Translation Mapped
unfolding named_object
map_object g map_field inner parent field_name = do
  known ← lift (proto_use_known_type_of (g.node inner))
  if truthy known
      then pure (singular (known_type (get_or known [])))
      else named_object g map_field inner (object_of g inner) parent field_name

unfoldable pub map_enum : ZodGraph → ℕ → Text → Text → Translation Mapped
map_enum g inner parent field_name = do
  type ← convert_enum g inner (parent ++ to_pascal_case field_name)
  pure (singular type)

abbrev pub is_any : ZodKind → Bool
is_any z_any = true
is_any z_unknown = true
is_any _ = false

-- `record` and `map`.
unfoldable pub map_map : ZodGraph → FieldMapper → ℕ → Text → Text → Translation Mapped
map_map g map_field inner parent field_name =
    let value_type = get_or (g.node inner).value_type inner in
    if is_any (g.node (unwrap g value_type)).type
    then pure (singular (message (codes "google.protobuf.Struct")))
    else (do
      key ← lift (map_key_scalar g (get_or (g.node inner).key_type inner))
      value ← map_field value_type parent field_name
      pure (map_value (map_of key value.type) value))

abbrev pub indexed : ℕ → List ℕ → List (Text × ℕ)
indexed i [] = []
indexed i (item ∷ items) = (b'f' ∷ decimal i, item) ∷ indexed (suc i) items

-- A tuple is an object with the fields f0, f1, ….
unfoldable pub map_tuple : ZodGraph → FieldMapper → ℕ → Text → Text → Translation Mapped
map_tuple g map_field inner parent field_name = do
  let fake : ZodObject = record {
    shape = indexed 0 (g.node inner).items;
    comment = copy_comment g (g.node inner);
  }
  m ←
      convert_message g map_field fake (to_pascal_case field_name)
        (nested_key parent (to_pascal_case field_name))
  pure (nest (to_pascal_case field_name) m)

-- `{ ...left, ...right }`.
abbrev pub spread : List (Text × ℕ) → List (Text × ℕ) → List (Text × ℕ)
spread left [] = left
spread left ((key, zod) ∷ right) = spread (insert key zod left) right

abbrev pub merged : ZodGraph → ℕ → ℕ → ZodObject
merged g left right = record {
  shape = spread (object_shape (g.node left)) (object_shape (g.node right));
  comment = copy_comment g (g.node left);
}

abbrev pub is_object : ZodKind → Bool
is_object z_object = true
is_object _ = false

unfoldable pub map_intersection : ZodGraph → FieldMapper → ℕ → Text → Text → Translation Mapped
unfolding named_object
map_intersection g map_field inner parent field_name =
    let left = get_or (g.node inner).left inner in
    let right = get_or (g.node inner).right inner in
    if is_object (g.node left).type && is_object (g.node right).type
    then named_object g map_field inner (merged g left right) parent field_name
    else throw (unsupported_type parent field_name)

unfoldable pub map_variants : ZodGraph → FieldMapper → ℕ → Text → Text → Text → Translation Mapped
map_variants g map_field inner discriminator parent field_name =
    let named = proto_message_name_of (g.node inner) in
    if truthy named
    then (do
      name ← message_name g inner (get_or named [])
      converted ← convert_discriminated_union g map_field inner name discriminator
      pure (singular (message name)))
    else (do
      m ←
          convert_variants g map_field inner (to_pascal_case field_name) discriminator
            (nested_key parent (to_pascal_case field_name))
      pure (nest (to_pascal_case field_name) m))

-- The options of a union that are not empty, without their wrappers.
abbrev pub meaningful : ZodGraph → List ℕ → List ℕ
meaningful g [] = []
meaningful g (option ∷ options) =
    if is_empty_type (g.node (unwrap g option))
    then meaningful g options
    else unwrap g option ∷ meaningful g options

abbrev pub is_literal : ZodKind → Bool
is_literal z_literal = true
is_literal _ = false

abbrev pub map_options : ZodGraph → FieldMapper → ℕ → List ℕ → Text → Text → Translation Mapped
map_options g map_field inner [] parent field_name = throw (unsupported_type parent field_name)
map_options g map_field inner (option ∷ []) parent field_name = map_field option parent field_name
map_options g map_field inner (option ∷ next ∷ options) parent field_name =
    if all (λ o. is_literal (g.node o).type) (option ∷ next ∷ options)
    then map_enum g inner parent field_name
    else throw (unsupported_type parent field_name)

unfoldable pub map_union : ZodGraph → FieldMapper → ℕ → Text → Text → Translation Mapped
unfolding map_variants map_enum
map_union g map_field inner parent field_name =
    let discriminator = (g.node inner).discriminator in
    if truthy discriminator
    then map_variants g map_field inner (get_or discriminator []) parent field_name
    else map_options g map_field inner (meaningful g (g.node inner).options) parent field_name

abbrev pub map_leaf : ZodGraph → ℕ → Text → Text → Translation Mapped
map_leaf g inner parent field_name = elim (map_scalar (g.node inner)) [
  | some type ↦ pure (singular type)
  | none ↦ throw (unsupported_type parent field_name)
]

-- `{ ...mapped, repeated: true }` of an element.
unfoldable pub map_element : ZodGraph → FieldMapper → ℕ → Text → Text → Translation Mapped
map_element g map_field inner parent field_name = do
  mapped ← map_field (get_or (g.node inner).element inner) parent field_name
  pure (repeat mapped)

-- The switch of `#mapField` at a kind, with the recursive calls as an argument.
unfoldable pub map_kind : ZodGraph → FieldMapper → ZodKind → ℕ → Text → Text → Translation Mapped
unfolding map_element map_object map_enum map_map map_tuple map_intersection map_union
map_kind g map_field z_array = map_element g map_field
map_kind g map_field z_set = map_element g map_field
map_kind g map_field z_object = map_object g map_field
map_kind g map_field z_enum = map_enum g
map_kind g map_field z_record = map_map g map_field
map_kind g map_field z_map = map_map g map_field
map_kind g map_field z_tuple = map_tuple g map_field
map_kind g map_field z_intersection = map_intersection g map_field
map_kind g map_field z_union = map_union g map_field
map_kind g map_field z_literal =
    λ inner parent field_name. (do type ← lift (map_literal (g.node inner)); pure (singular type))
map_kind g map_field _ = map_leaf g

unfoldable pub map_field : ℕ → ZodGraph → ℕ → Text → Text → Translation Mapped
unfolding map_kind
map_field zero g zod parent field_name = throw too_deep
map_field (suc depth) g zod parent field_name =
    map_kind g (map_field depth g) (g.node (unwrap g zod)).type (unwrap g zod) parent field_name

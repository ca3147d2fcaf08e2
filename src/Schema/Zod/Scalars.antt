-- ===== src/Schema/Zod/Scalars.antt =====
-- packages/schema_ir/src/translate/trpc_schema.ts: what single Zod nodes become, and the views of
-- their definitions.
use trpc_proto.Base.{
  ℕ, Bool, true, false, not, List, [], ◌∷◌, ◌++◌, Option, none, some, if◌then◌else◌, all, any,
}
use trpc_proto.Base.Text.{Text, codes, text_eq}
use trpc_proto.Schema.Types.{
  ProtoScalar, double, int32, int64, bool, string, bytes, ProtoType, scalar, enum, message, map_of,
}
use trpc_proto.Schema.Text.{scalar_name}
use trpc_proto.Schema.Zod.Errors.{
  Translated, ok, err, mixed_literal_types, mixed_literal_numbers, map_key_not_scalar,
}
use trpc_proto.Schema.Zod.{
  z_literal, z_string, z_template_literal, z_any, z_unknown, z_boolean, z_bigint, z_number, z_int,
  z_nan, z_date, z_file, z_void, z_undefined, z_never, z_null, safeint_format, int32_format,
  int64_format, uint64_format, other_format, LiteralValue, string_value, boolean_value,
  bigint_value, number_value, null_value, undefined_value, ZodNode, ZodGraph, unwrap, copy_comment,
  zod_comment,
}

unfoldable pub proto_type_name : ProtoType → Text
proto_type_name (scalar type) = scalar_name type
proto_type_name (enum name) = name
proto_type_name (message name) = name
proto_type_name (map_of key value) =
    codes "map<" ++ (scalar_name key ++ (codes ", " ++ (proto_type_name value ++ codes ">")))

unfoldable pub is_empty_type : ZodNode → Bool
is_empty_type n = elim (n.type) [
  | z_void ↦ true
  | z_undefined ↦ true
  | z_never ↦ true
  | z_null ↦ true
  | _ ↦ false
]

-- The case of numbers.
abbrev map_number : ZodNode → ProtoType
map_number n = elim (n.format) [
  | safeint_format ↦ scalar int32
  | int32_format ↦ scalar int32
  | int64_format ↦ scalar int64
  | uint64_format ↦ scalar int64
  | other_format ↦ if n.is_int then scalar int32 else scalar double
]

unfoldable pub map_scalar : ZodNode → Option ProtoType
map_scalar n = elim (n.type) [
  | z_string ↦ some (scalar string)
  | z_template_literal ↦ some (scalar string)
  | z_any ↦ some (message (codes "google.protobuf.Value"))
  | z_unknown ↦ some (message (codes "google.protobuf.Value"))
  | z_boolean ↦ some (scalar bool)
  | z_bigint ↦ some (scalar int64)
  | z_number ↦ some (map_number n)
  | z_int ↦ some (map_number n)
  | z_nan ↦ some (scalar double)
  | z_date ↦ some (message (codes "google.protobuf.Timestamp"))
  | z_file ↦ some (scalar bytes)
  | _ ↦ none
]

-- `typeof value`.
abbrev type_of : LiteralValue → Text
type_of (string_value s) = codes "string"
type_of (boolean_value b) = codes "boolean"
type_of (bigint_value s) = codes "bigint"
type_of (number_value i s) = codes "number"
type_of null_value = codes "object"
type_of undefined_value = codes "undefined"

abbrev is_integer : LiteralValue → Bool
is_integer (number_value i s) = i
is_integer _ = false

abbrev is_float : LiteralValue → Bool
is_float (number_value i s) = not i
is_float _ = false

unfoldable pub map_literal : ZodNode → Translated ProtoType
map_literal n = elim (n.values) [
  | [] ↦ ok (scalar string)
  | value ∷ values ↦
      if any (λ item. not (text_eq (type_of value) (type_of item))) values
      then err mixed_literal_types
      else elim value [
        | string_value s ↦ ok (scalar string)
        | boolean_value b ↦ ok (scalar bool)
        | bigint_value s ↦ ok (scalar int64)
        | number_value i s ↦
            if all is_integer (number_value i s ∷ values)
            then ok (scalar int32)
            else if all is_float (number_value i s ∷ values)
            then ok (scalar double)
            else err mixed_literal_numbers
        | null_value ↦ ok (scalar string)
        | undefined_value ↦ ok (scalar string)
      ]
]

-- A scalar that cannot be a key becomes a string.
abbrev key_scalar : ProtoScalar → ProtoScalar
key_scalar string = string
key_scalar int32 = int32
key_scalar int64 = int64
key_scalar bool = bool
key_scalar _ = string

unfoldable pub map_key_scalar : ZodGraph → ℕ → Translated ProtoScalar
map_key_scalar g zod = elim (map_scalar (g.node (unwrap g zod))) [
  | some (scalar type) ↦ ok (key_scalar type)
  | _ ↦ err map_key_not_scalar
]

unfoldable pub string_literal : ZodNode → Option Text
string_literal n = elim (n.type) [
  | z_literal ↦ elim (n.values) [ string_value s ∷ [] ↦ some s | _ ↦ none ]
  | _ ↦ none
]

abbrev pub object_shape : ZodNode → List (Text × ℕ)
object_shape n = n.shape

-- What `#convertObject` reads of its argument: the shape, and the comment.
pub record ZodObject : Type 0 where
  pub shape : List (Text × ℕ)
  pub comment : Text

unfoldable pub object_of : ZodGraph → ℕ → ZodObject
object_of g zod = record { shape = object_shape (g.node zod); comment = zod_comment g zod }

-- `delete shape[key]`.
abbrev pub without_key : Text → List (Text × ℕ) → List (Text × ℕ)
without_key key [] = []
without_key key ((k, zod) ∷ shape) =
    if text_eq k key then without_key key shape else (k, zod) ∷ without_key key shape

unfoldable pub omit_shape_key : ZodGraph → ℕ → Text → ZodObject
omit_shape_key g zod key = record {
  shape = without_key key (object_shape (g.node zod));
  comment = copy_comment g (g.node zod);
}

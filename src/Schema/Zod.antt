-- ===== src/Schema/Zod.antt =====
-- packages/schema_ir/src/translate/zod_node.ts and trpc_schema.ts: what the generator reads of Zod
-- schemas, and the loops that look through their wrappers. Zod itself is not modelled: a node is what
-- its properties give. Nodes refer to one another by number, so a schema may refer to itself.
pub mod Errors
pub mod Scalars
pub mod Unwrap
pub mod Examples
use trpc_proto.Base.{
  ℕ, zero, suc, Bool, true, false, not, ◌&&◌, ◌||◌, List, [], ◌∷◌, Option, none, some,
  if◌then◌else◌, has,
}
use trpc_proto.Base.Text.{Text, trim}
use trpc_proto.Utility.Case.{to_snake_case}
use trpc_proto.Schema.WellKnown.{is_well_known_type}
use trpc_proto.Schema.Zod.Errors.{TranslateError, not_well_known, empty_oneof, Translated, ok, err}

-- The values of `type`; `z_other` is any that the generator does not name.
pub data ZodKind : Type 0 where
  z_optional z_nullable z_default z_prefault z_catch z_nonoptional z_readonly : ZodKind
  z_pipe z_lazy z_promise : ZodKind
  z_array z_set z_object z_enum z_record z_map z_tuple z_intersection z_union z_literal : ZodKind
  z_string z_template_literal z_any z_unknown z_boolean z_bigint z_number z_int z_nan : ZodKind
  z_date z_file z_void z_undefined z_never z_null : ZodKind
  z_other : Text → ZodKind

-- The values of `format` that are told apart.
pub data ZodFormat : Type 0 where
  safeint_format int32_format int64_format uint64_format other_format : ZodFormat

-- A value of a literal. A number is whether it is an integer, and its text.
pub data LiteralValue : Type 0 where
  string_value : Text → LiteralValue
  boolean_value : Bool → LiteralValue
  bigint_value : Text → LiteralValue
  number_value : Bool → Text → LiteralValue
  null_value undefined_value : LiteralValue

-- What `meta()` returns.
pub record ZodMeta : Type 0 where
  pub proto_message_name : Option Text
  pub proto_enum_name : Option Text
  pub proto_use_known_type : Option Text
  pub proto_oneof : Option Text
  pub description : Option Text

-- `unwrapped` is what `unwrap()` returns, `getter` what `def.getter()` does, and `yield_schema` the node's
-- `YIELD_SCHEMA`.
pub record ZodNode : Type 0 where
  pub type : ZodKind
  pub inner_type : Option ℕ
  pub unwrapped : Option ℕ
  pub out : Option ℕ
  pub input : Option ℕ
  pub getter : Option ℕ
  pub element : Option ℕ
  pub key_type : Option ℕ
  pub value_type : Option ℕ
  pub left : Option ℕ
  pub right : Option ℕ
  pub shape : List (Text × ℕ)
  pub entries : List Text
  pub values : List LiteralValue
  pub options : List ℕ
  pub items : List ℕ
  pub discriminator : Option Text
  pub format : ZodFormat
  pub is_int : Bool
  pub meta : Option ZodMeta
  pub description : Option Text
  pub yield_schema : Option ℕ

-- The nodes that can be reached, numbered below `size`.
pub record ZodGraph : Type 0 where
  pub size : ℕ
  pub node : ℕ → ZodNode

-- `a ?? b`.
abbrev pub or_else {ℓ} : {A : Type ℓ} → Option A → Option A → Option A
or_else none other = other
or_else (some a) other = some a

abbrev pub get_or {ℓ} : {A : Type ℓ} → Option A → A → A
get_or none other = other
get_or (some a) other = a

-- A text that is neither missing nor empty.
abbrev pub truthy : Option Text → Bool
truthy none = false
truthy (some []) = false
truthy (some (c ∷ s)) = true

-- One round of the loop of `unwrap`: the node behind a wrapper, and `none` at any other node. A
-- wrapper around nothing stands for itself.
unfoldable pub unwrap_step : ZodGraph → ℕ → Option ℕ
unwrap_step g zod =
    let n = g.node zod in
    let inner = some (get_or (or_else n.inner_type n.unwrapped) zod) in
    elim (n.type) [
      | z_optional ↦ inner
      | z_nullable ↦ inner
      | z_default ↦ inner
      | z_prefault ↦ inner
      | z_catch ↦ inner
      | z_nonoptional ↦ inner
      | z_readonly ↦ inner
      | z_pipe ↦ some (get_or (or_else n.out n.input) zod)
      | z_lazy ↦ some (get_or (or_else n.unwrapped (or_else n.getter n.inner_type)) zod)
      | z_promise ↦ some (get_or (or_else n.unwrapped (or_else n.getter n.inner_type)) zod)
      | _ ↦ none
    ]

-- The loop stops at a node that it has seen.
unfoldable pub unwrap_loop : ℕ → ZodGraph → List ℕ → ℕ → ℕ
unwrap_loop zero g seen inner = inner
unwrap_loop (suc fuel) g seen inner = if has seen inner then inner else elim (unwrap_step g inner) [
  | none ↦ inner
  | some next ↦ unwrap_loop fuel g (inner ∷ seen) next
]

-- `unwrap(zod).inner`. Each round sees another node.
unfoldable pub unwrap : ZodGraph → ℕ → ℕ
unwrap g zod = unwrap_loop (suc g.size) g [] zod

-- The next node of the loops of `zodComment` and `protoOneofOf`.
abbrev pub next_inside : ZodNode → Option ℕ
next_inside n = or_else n.inner_type (or_else n.unwrapped (or_else n.out n.input))

abbrev meta_description : Option ZodMeta → Option Text
meta_description none = none
meta_description (some m) = m.description

abbrev own_comment : ZodNode → Text
own_comment n = get_or (or_else n.description (meta_description n.meta)) []

unfoldable pub comment_loop : ℕ → ZodGraph → List ℕ → Option ℕ → Text
comment_loop zero g seen current = []
comment_loop (suc fuel) g seen none = []
comment_loop (suc fuel) g seen (some current) =
    let inside = comment_loop fuel g (current ∷ seen) (next_inside (g.node current)) in
    if has seen current
    then []
    else elim (own_comment (g.node current)) [ [] ↦ inside | c ∷ s ↦ c ∷ s ]

unfoldable pub zod_comment : ZodGraph → ℕ → Text
zod_comment g zod = comment_loop (suc (suc g.size)) g [] (some zod)

-- The comment of a copy `{ ...zod }`, which no node refers to.
unfoldable pub copy_comment : ZodGraph → ZodNode → Text
copy_comment g n = elim (own_comment n) [
  | [] ↦ comment_loop (suc (suc g.size)) g [] (next_inside n)
  | c ∷ s ↦ c ∷ s
]

abbrev meta_oneof : Option ZodMeta → Option Text
meta_oneof none = none
meta_oneof (some m) = m.proto_oneof

unfoldable pub oneof_loop : ℕ → ZodGraph → List ℕ → Option ℕ → Translated (Option Text)
oneof_loop zero g seen current = ok none
oneof_loop (suc fuel) g seen none = ok none
oneof_loop (suc fuel) g seen (some current) =
    let inside = oneof_loop fuel g (current ∷ seen) (next_inside (g.node current)) in
    if has seen current then ok none else elim (meta_oneof (g.node current).meta) [
      | none ↦ inside
      | some value ↦ elim (trim value) [
        | [] ↦ err empty_oneof
        | c ∷ s ↦ ok (some (to_snake_case value))
      ]
    ]

unfoldable pub proto_oneof_of : ZodGraph → ℕ → Translated (Option Text)
proto_oneof_of g zod = oneof_loop (suc (suc g.size)) g [] (some zod)

unfoldable pub is_proto_object_meta : ZodMeta → Bool
is_proto_object_meta m =
    truthy m.proto_message_name
    || truthy m.proto_enum_name
    || truthy m.proto_use_known_type
    || truthy m.proto_oneof

abbrev no_meta : ZodMeta
no_meta = record {
  proto_message_name = none;
  proto_enum_name = none;
  proto_use_known_type = none;
  proto_oneof = none;
  description = none;
}

unfoldable pub extract_proto_object_meta : ZodNode → ZodMeta
unfolding is_proto_object_meta
extract_proto_object_meta n = elim (n.meta) [
  | none ↦ no_meta
  | some m ↦ if is_proto_object_meta m then m else no_meta
]

unfoldable pub proto_use_known_type_of : ZodNode → Translated (Option Text)
unfolding extract_proto_object_meta
proto_use_known_type_of n = elim ((extract_proto_object_meta n).proto_use_known_type) [
  | none ↦ ok none
  | some value ↦ if is_well_known_type value then ok (some value) else err (not_well_known value)
]

unfoldable pub proto_message_name_of : ZodNode → Option Text
unfolding extract_proto_object_meta
proto_message_name_of n = (extract_proto_object_meta n).proto_message_name

unfoldable pub proto_enum_name_of : ZodNode → Option Text
unfolding extract_proto_object_meta
proto_enum_name_of n = (extract_proto_object_meta n).proto_enum_name

-- ===== src/Schema/Translate.antt =====
-- packages/schema_ir/src/translate/trpc_schema.ts: the translator's state, and how objects,
-- discriminated unions and enums become messages. What maps the fields of a message is an argument
-- here: Schema/Translate/Fields.antt calls these functions and is called by them.
pub mod Objects
pub mod Variants
pub mod Fields
pub mod Rpc
pub mod Post
pub mod Closed
pub mod Run
pub mod Router
pub mod Paths
pub mod Names
pub mod Sound
pub mod Depth
pub mod Numbers
mod Examples
use trpc_proto.Base.{
  ℕ, suc, Bool, true, false, not, ◌&&◌, ◌||◌, List, [], ◌∷◌, ◌++◌, map, Option, none, some, ◌==◌,
  if◌then◌else◌, concat,
}
use trpc_proto.Base.Text.{Text, codes, text_eq, has_text, lookup}
use trpc_proto.Utility.Case.{to_pascal_case, to_snake_case}
use trpc_proto.Schema.Allocator.{Allocator, create_field_allocator}
use trpc_proto.Schema.Types.{
  ProtoType, scalar, enum, message, map_of, ProtoField, ProtoMessage, proto_message, ProtoMessages,
  no_messages, messages, ProtoEnum,
}
use trpc_proto.Schema.Numbering
use trpc_proto.Schema.Numbering.{
  UsedIds, PropertyGenCache, property, Properties, empty, get_property, set_property, tag_in,
  nested_in, used_in, Numbered, undefined_tag, assignments_of, Numbering, number_field,
}
use trpc_proto.Schema.Zod.Errors.{
  TranslateError, message_name_case, enum_name_case, oneof_repeated, arm_not_object,
  arm_without_tag, duplicate_arm, allocator_error, no_number, Translated, ok, err,
}
use trpc_proto.Schema.Zod.{
  z_object, z_union, LiteralValue, string_value, boolean_value, bigint_value, number_value,
  null_value, undefined_value, ZodNode, ZodGraph, get_or, truthy, unwrap, zod_comment,
  proto_oneof_of, proto_use_known_type_of, proto_message_name_of, proto_enum_name_of,
}
use trpc_proto.Schema.Zod.Scalars.{proto_type_name, string_literal, ZodObject, omit_shape_key}

-- The fields of the class. `building` has the names only: a message that is being built is looked up
-- for its name.
pub record Translator : Type 0 where
  pub messages : List ProtoMessage
  pub enums : List ProtoEnum
  pub cache : Properties
  pub seen_messages : List (ℕ × Text)
  pub seen_enums : List (ℕ × Text)
  pub building : List Text

-- A call of a method: an error ends the whole translation.
abbrev pub Translation {ℓ} : Type ℓ → Type ℓ
Translation A = Translator → Translated (A × Translator)

module _ {ℓ} {A : Type ℓ} where
  abbrev pub pure : A → Translation A
  pure a s = ok (a, s)

  abbrev pub throw : TranslateError → Translation A
  throw e s = err e

  abbrev pub lift : Translated A → Translation A
  lift (ok a) s = ok (a, s)
  lift (err e) s = err e

abbrev pub modify : (Translator → Translator) → Translation (Unit {0})
modify f s = ok (tt, f s)

unfoldable pub continue_with {ℓ κ} :
    {A : Type ℓ} {B : Type κ}
    → Translated (A × Translator)
    → (A → Translation B)
    → Translated (B × Translator)
continue_with (ok (a, s)) f = f a s
continue_with (err e) f = err e

infixl 5 ◌>>=◌
abbrev pub ◌>>=◌ {ℓ κ} :
    {A : Type ℓ} {B : Type κ} → Translation A → (A → Translation B) → Translation B
◌>>=◌ m f s = continue_with (m s) f

-- A `WeakMap` from nodes to names.
abbrev pub seen_name : ℕ → List (ℕ × Text) → Option Text
seen_name zod [] = none
seen_name zod ((i, name) ∷ seen) = if i == zod then some name else seen_name zod seen

abbrev see_message : ℕ → Text → Translator → Translator
see_message zod name s = record s { seen_messages = (zod, name) ∷ s.seen_messages }

abbrev pub name_of : ProtoMessage → Text
name_of (proto_message name fields subs comment discriminator) = name

-- Whether some message of the list has the name.
abbrev pub has_message : Text → List ProtoMessage → Bool
has_message name [] = false
has_message name (m ∷ ms) = text_eq (name_of m) name || has_message name ms

abbrev pub push_message : ProtoMessage → Translator → Translator
push_message m s = record s { messages = s.messages ++ (m ∷ []) }

-- `subMessages` of a list.
abbrev pub of_list : List ProtoMessage → ProtoMessages
of_list [] = no_messages
of_list (m ∷ ms) = messages m (of_list ms)

-- The name of a message that is asked for the first time.
abbrev fresh_message_name : ZodNode → Text → Translated Text
fresh_message_name n fallback =
    let named = proto_message_name_of n in
    let given = get_or named [] in
    if truthy named && not (text_eq (to_pascal_case given) given)
    then err (message_name_case (to_pascal_case given) given)
    else ok (to_pascal_case (get_or named fallback))

unfoldable pub message_name : ZodGraph → ℕ → Text → Translation Text
message_name g zod fallback s =
    let cached = seen_name zod s.seen_messages in
    if truthy cached
    then ok (get_or cached [], s)
    else elim (proto_use_known_type_of (g.node zod)) [
      | err e ↦ err e
      | ok known ↦
          if truthy known
          then ok (get_or known [], see_message zod (get_or known []) s)
          else elim (fresh_message_name (g.node zod) fallback) [
            | err e ↦ err e
            | ok name ↦ ok (name, see_message zod name s)
          ]
    ]

unfoldable pub enum_name : ZodNode → Translated (Option Text)
enum_name n =
    let named = proto_enum_name_of n in
    let given = get_or named [] in
    if truthy named && not (text_eq (to_pascal_case given) given)
    then err (enum_name_case (to_pascal_case given) given)
    else ok named

-- `String(value)`.
abbrev literal_text : LiteralValue → Text
literal_text (string_value s) = s
literal_text (boolean_value b) = if b then codes "true" else codes "false"
literal_text (bigint_value s) = s
literal_text (number_value i s) = s
literal_text null_value = codes "null"
literal_text undefined_value = codes "undefined"

abbrev with_index : ℕ → List Text → List (Text × ℕ)
with_index i [] = []
with_index i (name ∷ names) = (name, i) ∷ with_index (suc i) names

abbrev union_values : ZodGraph → List ℕ → List Text
union_values g [] = []
union_values g (option ∷ options) =
    map literal_text (g.node (unwrap g option)).values ++ union_values g options

abbrev pub value_names : ZodGraph → ZodNode → List Text
value_names g n = elim (n.entries) [
  | [] ↦ elim (n.type) [ z_union ↦ union_values g n.options | _ ↦ [] ]
  | name ∷ names ↦ name ∷ names
]

abbrev pub has_enum : Text → List ProtoEnum → Bool
has_enum name [] = false
has_enum name (e ∷ es) = text_eq e.name name || has_enum name es

-- `#enums.push`, unless there is one of the name.
abbrev pub add_enum : ProtoEnum → List ProtoEnum → List ProtoEnum
add_enum e es = if has_enum e.name es then es else es ++ (e ∷ [])

abbrev pub new_enum : ZodGraph → ℕ → Text → ProtoEnum
new_enum g zod name = record {
  name = name;
  values = with_index 0 (value_names g (g.node zod));
  comment = zod_comment g zod;
}

-- The rest of `#convertEnum`, at a name.
abbrev pub declare_enum : ZodGraph → ℕ → Text → Translator → Translator
declare_enum g zod name s = record s {
  enums = add_enum (new_enum g zod name) s.enums;
  seen_enums = (zod, name) ∷ s.seen_enums;
}

unfoldable pub convert_enum : ZodGraph → ℕ → Text → Translation ProtoType
convert_enum g zod synthesized_name s =
    let cached = seen_name zod s.seen_enums in
    if truthy cached then ok (enum (get_or cached []), s) else elim (enum_name (g.node zod)) [
      | err e ↦ err e
      | ok named ↦
          let name = get_or named (to_pascal_case synthesized_name) in
          ok (enum name, declare_enum g zod name s)
    ]

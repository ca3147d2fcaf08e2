-- ===== src/Schema/Text.antt =====
-- packages/schema_ir/src/ir/text.ts: the schema as a proto file, line by line. The functions return
-- the lines that those of the source push.
pub mod Comments
pub mod Oneofs
pub mod File
pub mod Imports
mod Examples
use trpc_proto.Base.{
  ℕ, Bool, true, false, not, ◌&&◌, ◌||◌, List, [], ◌∷◌, ◌++◌, map, Option, none, some, ◌==◌,
  if◌then◌else◌, concat,
}
use trpc_proto.Base.Text.{Text, codes, text_eq, starts_with, join, lookup, insert, has_text}
use trpc_proto.Base.Decimal.{decimal}
use trpc_proto.Utility.Case.{to_pascal_case, to_screaming_snake}
use trpc_proto.Schema.Types.{
  ProtoScalar, double, float, int32, int64, uint32, uint64, sint32, sint64, fixed32, fixed64,
  sfixed32, sfixed64, bool, string, bytes, ProtoType, scalar, enum, message, map_of, ProtoField,
  ProtoMessage, proto_message, ProtoMessages, no_messages, messages, ProtoEnum, ProcedureType,
  query, mutation, subscription, ProtoMethod, ProtoService, ProtoSchema, PropertyGenCache,
  Properties, get_property, OptionValue, text_value, bool_value, number_value,
}
use trpc_proto.Schema.WellKnown.{well_known_import}
use trpc_proto.Schema.Reserved.{reserved_numbers, format_reserved_numbers}

unfoldable pub proto_enum_value : Text → Text → Text
proto_enum_value enum_name value_name =
    let prefix = to_screaming_snake enum_name ++ codes "_" in
    let value = to_screaming_snake value_name in
    if starts_with prefix value then value else prefix ++ value

-- `comment.split(/\r?\n/)`: there is one line at least.
unfoldable pub comment_lines : Text → List Text
comment_lines [] = [] ∷ []
comment_lines (c ∷ s) = elim (comment_lines s) [
  | [] ↦ []
  | line ∷ lines ↦
      if c == b'\n'
      then [] ∷ line ∷ lines
      else if c == b'\r' && starts_with (codes "\n") s
      then line ∷ lines
      else (c ∷ line) ∷ lines
]

unfoldable pub emit_comment : Text → Text → List Text
emit_comment [] indent = []
emit_comment (c ∷ s) indent = map (λ line. indent ++ (codes "// " ++ line)) (comment_lines (c ∷ s))

abbrev pub scalar_name : ProtoScalar → Text
scalar_name double = codes "double"
scalar_name float = codes "float"
scalar_name int32 = codes "int32"
scalar_name int64 = codes "int64"
scalar_name uint32 = codes "uint32"
scalar_name uint64 = codes "uint64"
scalar_name sint32 = codes "sint32"
scalar_name sint64 = codes "sint64"
scalar_name fixed32 = codes "fixed32"
scalar_name fixed64 = codes "fixed64"
scalar_name sfixed32 = codes "sfixed32"
scalar_name sfixed64 = codes "sfixed64"
scalar_name bool = codes "bool"
scalar_name string = codes "string"
scalar_name bytes = codes "bytes"

unfoldable pub render_type : ProtoType → Text
render_type (scalar s) = scalar_name s
render_type (enum name) = name
render_type (message name) = name
render_type (map_of key value) =
    codes "map<" ++ (scalar_name key ++ (codes ", " ++ (render_type value ++ codes ">")))

abbrev pub field_label : ProtoType → Bool → Bool → Text
field_label (map_of key value) repeated optional = []
field_label type repeated optional =
    if repeated then codes "repeated " else if optional then codes "optional " else []

unfoldable pub field_line : ProtoField → Text → Bool → Text
field_line field indent in_oneof =
    indent
    ++ ((if in_oneof then [] else field_label field.type field.repeated field.optional)
        ++ (render_type field.type
            ++ (codes " " ++ (field.name ++ (codes " = " ++ (decimal field.number ++ codes ";"))))))

unfoldable pub emit_field : ProtoField → Text → Bool → List Text
emit_field field indent in_oneof =
    emit_comment field.comment indent ++ (field_line field indent in_oneof ∷ [])

abbrev pub Groups : Type 0
Groups = List (Text × List ProtoField)

-- `grouped.get(field.oneof) ?? []`.
abbrev pub group_of : Text → Groups → List ProtoField
group_of name groups = elim (lookup name groups) [ none ↦ [] | some fields ↦ fields ]

-- One round of the loop over the fields; an empty name counts as none.
abbrev pub place_field :
    ProtoField → Option Text → Groups × List ProtoField → Groups × List ProtoField
place_field field none (grouped, rest) = (grouped, rest ++ (field ∷ []))
place_field field (some []) (grouped, rest) = (grouped, rest ++ (field ∷ []))
place_field field (some (c ∷ name)) (grouped, rest) =
    (insert (c ∷ name) (group_of (c ∷ name) grouped ++ (field ∷ [])) grouped, rest)

unfoldable pub group_fields : List ProtoField → Groups × List ProtoField → Groups × List ProtoField
group_fields [] placed = placed
group_fields (field ∷ fields) placed = group_fields fields (place_field field field.oneof placed)

abbrev pub emit_fields : List ProtoField → Text → Bool → List Text
emit_fields [] indent in_oneof = []
emit_fields (field ∷ fields) indent in_oneof =
    emit_field field indent in_oneof ++ emit_fields fields indent in_oneof

abbrev pub emit_oneofs : Groups → Text → List Text
emit_oneofs [] indent = []
emit_oneofs ((name, fields) ∷ groups) indent =
    (indent ++ (codes "  oneof " ++ (name ++ codes " {")))
    ∷ (emit_fields fields (indent ++ codes "    ") true
        ++ ((indent ++ codes "  }") ∷ emit_oneofs groups indent))

-- `cache?.propertyGenCache[cacheKey]`.
abbrev pub cached_message : Option Properties → Text → Option PropertyGenCache
cached_message none key = none
cached_message (some ps) key = get_property key ps

abbrev pub reserved_lines : Text → Text → List Text
reserved_lines [] indent = []
reserved_lines (c ∷ reserved) indent =
    (indent ++ (codes "  reserved " ++ ((c ∷ reserved) ++ codes ";"))) ∷ []

-- The lines of a message behind those of the messages in it.
unfoldable pub emit_body : Option Properties → List ProtoField → Text → Text → List Text
emit_body cache fields indent key =
    let (grouped, rest) = group_fields fields ([], []) in
    emit_fields rest (indent ++ codes "  ") false
    ++ (emit_oneofs grouped indent
        ++ (reserved_lines
              (format_reserved_numbers (reserved_numbers fields (cached_message cache key))) indent
            ++ ((indent ++ codes "}") ∷ [] ∷ [])))

unfoldable mutual
  pub emit_message : Option Properties → ProtoMessage → Text → Text → List Text
  emit_message cache (proto_message name fields subs comment discriminator) indent key =
      emit_comment comment indent
      ++ ((indent ++ (codes "message " ++ (name ++ codes " {")))
          ∷ (emit_messages cache subs (indent ++ codes "  ") (key ++ codes ".")
              ++ emit_body cache fields indent key))

  -- The cache's key of a message is its name behind `prefix`.
  pub emit_messages : Option Properties → ProtoMessages → Text → Text → List Text
  emit_messages cache no_messages indent prefix = []
  emit_messages cache (messages (proto_message name fields subs comment discriminator) rest) indent
        prefix =
      emit_message cache (proto_message name fields subs comment discriminator) indent
        (prefix ++ name)
      ++ emit_messages cache rest indent prefix

-- ===== src/Schema/Text/File.antt =====
-- `toString` of text.ts: the head of a proto file, its enums, its messages and its services.
use trpc_proto.Base.{
  ℕ, Bool, true, false, List, [], ◌∷◌, ◌++◌, map, none, some, ltb, ◌==◌, if◌then◌else◌, concat,
}
use trpc_proto.Base.Text.{Text, codes, text_eq, join, has_text}
use trpc_proto.Base.Decimal.{decimal}
use trpc_proto.Utility.Case.{to_pascal_case}
use trpc_proto.Schema.Types.{
  ProtoType, scalar, enum, message, map_of, ProtoField, proto_message, ProtoMessages, no_messages,
  messages, ProtoEnum, ProcedureType, query, mutation, subscription, ProtoMethod, ProtoService,
  ProtoSchema, OptionValue, text_value, bool_value, number_value,
}
use trpc_proto.Schema.WellKnown.{well_known_import}
use trpc_proto.Schema.Text.{proto_enum_value, emit_comment, emit_messages}

abbrev pub type_names_of : ProtoType → List Text
type_names_of (message name) = name ∷ []
type_names_of (enum name) = name ∷ []
type_names_of (map_of key value) = type_names_of value
type_names_of (scalar s) = []

abbrev pub field_type_names : List ProtoField → List Text
field_type_names [] = []
field_type_names (field ∷ fields) = type_names_of field.type ++ field_type_names fields

-- `collectTypeNames`, without the names that it starts with.
unfoldable pub collect_type_names : ProtoMessages → List Text
collect_type_names no_messages = []
collect_type_names (messages (proto_message name fields subs comment discriminator) rest) =
    field_type_names fields ++ (collect_type_names subs ++ collect_type_names rest)

-- The imports of the names, those with none left out.
abbrev pub import_paths : List Text → List Text
import_paths [] = []
import_paths (name ∷ names) = elim (well_known_import name) [
  | none ↦ import_paths names
  | some path ↦ path ∷ import_paths names
]

abbrev pub unique_texts : List Text → List Text → List Text
unique_texts [] seen = seen
unique_texts (t ∷ ts) seen = unique_texts ts (if has_text seen t then seen else seen ++ (t ∷ []))

-- The order of `sort`: by code units.
abbrev pub text_le : Text → Text → Bool
text_le [] t = true
text_le (c ∷ s) [] = false
text_le (c ∷ s) (d ∷ t) = if c == d then text_le s t else ltb c d

abbrev pub insert_text : Text → List Text → List Text
insert_text t [] = t ∷ []
insert_text t (u ∷ us) = if text_le t u then t ∷ u ∷ us else u ∷ insert_text t us

abbrev pub sort_texts : List Text → List Text
sort_texts [] = []
sort_texts (t ∷ ts) = insert_text t (sort_texts ts)

unfoldable pub imports_of : List Text → List Text
imports_of names = sort_texts (unique_texts (import_paths names) [])

-- `text.replaceAll(c, by)`.
abbrev pub replace_all : ℕ → Text → Text → Text
replace_all c by [] = []
replace_all c by (d ∷ s) = if d == c then by ++ replace_all c by s else d ∷ replace_all c by s

abbrev pub backslash : ℕ
backslash = 0x5c

abbrev pub quote : ℕ
quote = 0x22

unfoldable pub escape_text : Text → Text
escape_text value =
    replace_all quote (backslash ∷ quote ∷ [])
      (replace_all backslash (backslash ∷ backslash ∷ []) value)

unfoldable pub format_option_value : Text → OptionValue → Text
format_option_value key (bool_value true) = codes "true"
format_option_value key (bool_value false) = codes "false"
format_option_value key (number_value n) = decimal n
format_option_value key (text_value value) =
    if text_eq key (codes "optimize_for")
    then value
    else quote ∷ (escape_text value ++ (quote ∷ []))

-- An empty line behind lines, if there are some.
abbrev pub blank_after : List Text → List Text
blank_after [] = []
blank_after (line ∷ lines) = (line ∷ lines) ++ ([] ∷ [])

abbrev pub import_line : Text → Text
import_line path = codes "import \"" ++ (path ++ codes "\";")

abbrev pub option_line : Text × OptionValue → Text
option_line (key, value) =
    codes "option " ++ (key ++ (codes " = " ++ (format_option_value key value ++ codes ";")))

abbrev pub value_line : Text → Text × ℕ → Text
value_line enum_name (name, number) =
    codes "  "
    ++ (proto_enum_value enum_name name ++ (codes " = " ++ (decimal number ++ codes ";")))

unfoldable pub emit_enum : ProtoEnum → List Text
emit_enum en =
    let enum_name = to_pascal_case en.name in
    emit_comment en.comment []
    ++ ((codes "enum " ++ (enum_name ++ codes " {"))
        ∷ (map (value_line enum_name) en.values ++ (codes "}" ∷ [] ∷ [])))

abbrev pub procedure_name : ProcedureType → Text
procedure_name query = codes "query"
procedure_name mutation = codes "mutation"
procedure_name subscription = codes "subscription"

unfoldable pub emit_method : ProtoMethod → List Text
emit_method m =
    (codes "  // tRPC " ++ (procedure_name m.type ++ (codes " " ++ m.path)))
    ∷ (codes "  rpc "
        ++ (m.name
            ++ (codes " ("
                ++ (m.request_type
                    ++ (codes ") returns ("
                        ++ ((if m.is_response_streaming then codes "stream " else [])
                            ++ (m.response_type ++ codes ");")))))))
    ∷ []

unfoldable pub emit_service : ProtoService → List Text
emit_service service =
    (codes "service " ++ (service.name ++ codes " {"))
    ∷ (concat (map emit_method service.methods) ++ (codes "}" ∷ [] ∷ []))

abbrev pub schema_methods : ProtoSchema → List ProtoMethod
schema_methods schema = concat (map (λ (s : ProtoService). s.methods) schema.services)

abbrev pub schema_type_names : ProtoSchema → List Text
schema_type_names schema =
    map (λ (m : ProtoMethod). m.request_type) (schema_methods schema)
    ++ (map (λ (m : ProtoMethod). m.response_type) (schema_methods schema)
        ++ (map (λ (e : ProtoEnum). e.name) schema.enums ++ collect_type_names schema.message_list))

unfoldable pub to_string : ProtoSchema → Text
to_string schema = join (codes "\n") (
    codes "syntax = \"proto3\";"
    ∷ []
    ∷ (codes "package " ++ (schema.package_name ++ codes ";"))
    ∷ []
    ∷ (blank_after (map import_line (imports_of (schema_type_names schema)))
        ++ (blank_after (map option_line schema.options)
            ++ (concat (map emit_enum schema.enums)
                ++ (emit_messages schema.generate_cache schema.message_list [] []
                    ++ concat (map emit_service schema.services))))))

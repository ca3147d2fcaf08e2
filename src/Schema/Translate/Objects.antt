-- ===== src/Schema/Translate/Objects.antt =====
-- packages/schema_ir/src/translate/trpc_schema.ts: the messages of objects,
-- and their entries of the cache of field numbers. An entry is read and written under its name, as the
-- source's reference to it reads and writes it: one that is in the cache is not replaced.
use trpc_proto.Base.{
  ℕ, Bool, true, false, ◌||◌, List, [], ◌∷◌, ◌++◌, Option, none, some, if◌then◌else◌,
}
use trpc_proto.Base.Text.{Text, text_eq, has_text}
use trpc_proto.Utility.Case.{to_snake_case}
use trpc_proto.Schema.Allocator.{Allocator, create_field_allocator}
use trpc_proto.Schema.Types.{ProtoType, map_of, ProtoField, ProtoMessage, proto_message}
use trpc_proto.Schema.Numbering.{
  UsedIds, PropertyGenCache, property, Properties, empty, get_property, set_property, Numbered,
  undefined_tag, assignments_of, Numbering, number_field,
}
use trpc_proto.Schema.Numbering
use trpc_proto.Schema.Zod.Errors.{oneof_repeated, allocator_error, no_number, Translated, ok, err}
use trpc_proto.Schema.Zod.{ZodGraph, get_or, zod_comment, proto_oneof_of}
use trpc_proto.Schema.Zod.Scalars.{proto_type_name, ZodObject}
use trpc_proto.Schema.Translate.{
  Translator, Translation, pure, throw, lift, modify, ◌>>=◌, has_message, push_message, of_list,
}

-- What `#mapField` returns, with the messages that it adds to `nested`.
pub record Mapped : Type 0 where
  pub type : ProtoType
  pub repeated : Bool
  pub nested : List ProtoMessage

-- `#mapField` at a node, the message that the field is in, and the field's name.
abbrev pub FieldMapper : Type 0
FieldMapper = ℕ → Text → Text → Translation Mapped

abbrev pub empty_prop_cache : PropertyGenCache
empty_prop_cache = property none none empty []

abbrev pub cache_entry : Text → Translator → PropertyGenCache
cache_entry name s = get_or (get_property name s.cache) empty_prop_cache

-- `messageCache(this.#cache, name)`, and the allocator that is created with the tags of the entry.
unfoldable pub open_cache : Text → Translation Allocator
open_cache name s = elim (cache_entry name s) [
  | property tag type children used ↦ ok (
    create_field_allocator (assignments_of children used),
    record s { cache = set_property name (property tag type children used) s.cache },
  )
]

-- `cache.usedIds[number] = fieldName` and `cache.propertyGenCache[fieldName] = …`, where the field has
-- got a number.
abbrev pub write_entry :
    Text
    → Option ℕ
    → Option Text
    → Translator
    → Numbered (Numbering × ℕ)
    → Translated ((ℕ × Allocator) × Translator)
write_entry cache_name tag type s Numbering.undefined_tag = err no_number
write_entry cache_name tag type s (Numbering.err e) = err (allocator_error e)
write_entry cache_name tag type s (Numbering.ok (n, number)) = ok (
  (number, n.allocator),
  record s { cache = set_property cache_name (property tag type n.properties n.used_ids) s.cache },
)

unfoldable pub number_entry : Text → Text → Text → Allocator → Translation (ℕ × Allocator)
number_entry cache_name field_name type_name allocator s = elim (cache_entry cache_name s) [
  | property tag type children used ↦ write_entry cache_name tag type s (
      number_field field_name type_name
        (record { properties = children; used_ids = used; allocator = allocator }))
]

abbrev is_map : ProtoType → Bool
is_map (map_of key value) = true
is_map _ = false

abbrev pub check_oneof : Option Text → Mapped → Text → Text → Translation (Unit {0})
check_oneof none mapped parent field_name = pure tt
check_oneof (some oneof) mapped parent field_name =
    if mapped.repeated || is_map mapped.type
    then throw (oneof_repeated parent field_name)
    else pure tt

abbrev is_none : Option Text → Bool
is_none none = true
is_none (some a) = false

abbrev pub object_field : ZodGraph → Text → ℕ → Mapped → Option Text → ℕ → ProtoField
object_field g field_name value mapped oneof number = record {
  name = field_name;
  number = number;
  type = mapped.type;
  repeated = mapped.repeated;
  optional = is_none oneof;
  comment = zod_comment g value;
  oneof = oneof;
  discriminator_value = none;
}

-- The fields of a message, and its sub messages.
abbrev pub Converted : Type 0
Converted = List ProtoField × List ProtoMessage

-- One round of the loop over the fields of an object.
unfoldable pub convert_field :
    ZodGraph
    → FieldMapper
    → Text
    → Text
    → Text
    → ℕ
    → Allocator
    → Translation (ProtoField × List ProtoMessage × Allocator)
unfolding number_entry
convert_field g map_field parent cache_name key value allocator = do
  mapped ← map_field value parent (to_snake_case key)
  oneof ← lift (proto_oneof_of g value)
  checked ← check_oneof oneof mapped parent (to_snake_case key)
  (number, rest) ←
      number_entry cache_name (to_snake_case key) (proto_type_name mapped.type) allocator
  pure (object_field g (to_snake_case key) value mapped oneof number, mapped.nested, rest)

unfoldable pub convert_fields :
    ZodGraph → FieldMapper → Text → Text → List (Text × ℕ) → Allocator → Translation Converted
convert_fields g map_field parent cache_name [] allocator = pure ([], [])
convert_fields g map_field parent cache_name ((key, value) ∷ shape) allocator = do
  (field, nested, rest) ← convert_field g map_field parent cache_name key value allocator
  (fields, subs) ← convert_fields g map_field parent cache_name shape rest
  pure (field ∷ fields, nested ++ subs)

-- `#convertObject` of a message that is not hoisted.
unfoldable pub convert_message :
    ZodGraph → FieldMapper → ZodObject → Text → Text → Translation ProtoMessage
unfolding open_cache
convert_message g map_field zod message_name cache_name = do
  allocator ← open_cache cache_name
  (fields, subs) ← convert_fields g map_field message_name cache_name zod.shape allocator
  pure (proto_message message_name fields (of_list subs) zod.comment none)

abbrev pub without : Text → List Text → List Text
without name [] = []
without name (n ∷ names) = if text_eq n name then without name names else n ∷ without name names

abbrev pub start_building : Text → Translator → Translator
start_building name s = record s { building = name ∷ s.building }

abbrev pub finish_building : Text → Translator → Translator
finish_building name s = record s { building = without name s.building }

abbrev pub build_object : ZodGraph → FieldMapper → ZodObject → Text → Translation (Unit {0})
build_object g map_field zod message_name = do
  started ← modify (start_building message_name)
  m ← convert_message g map_field zod message_name message_name
  finished ← modify (finish_building message_name)
  modify (push_message m)

-- `#convertObject` of a hoisted message, of which the callers do not use the value.
unfoldable pub convert_object : ZodGraph → FieldMapper → ZodObject → Text → Translation (Unit {0})
convert_object g map_field zod message_name s =
    if has_message message_name s.messages || has_text s.building message_name
    then ok (tt, s)
    else build_object g map_field zod message_name s

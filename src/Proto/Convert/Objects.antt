-- ===== src/Proto/Convert/Objects.antt =====
-- packages/runtime/src/proto_codec/proto_codec.ts: `toProtoObject`, `fromProtoObject`, and what `ProtoCodec`
-- does with them around protobufjs. A discriminator is not empty.
pub mod Rows
pub mod Wire
use trpc_proto.Base.{
  ℕ, zero, suc, Bool, true, false, not, ◌&&◌, ◌||◌, List, [], ◌∷◌, Option, none, some,
  if◌then◌else◌,
}
use trpc_proto.Base.Text.{Text, codes, text_eq}
use trpc_proto.Utility.Case.{to_camel}
use trpc_proto.Schema.Types.{
  ProtoType, scalar, enum, message, map_of, ProtoField, ProtoMessage, proto_message, ProtoSchema,
}
use trpc_proto.Proto.Lookup.{is_wrapper, resolve_message}
use trpc_proto.Proto.Values.{
  Value, undefined, invalid_date, string, date, array, object, no_entries, entry, Entries,
  is_nullish, is_object, get, set, remove, spread_entries, own_entries, member,
}
use trpc_proto.Proto.Convert.{
  Converted, ok, stack_overflow, after, Conversion, empty_name, timestamp_name, from_date, to_date,
  to_proto_value, from_proto_value, field_value, convert_raw_fields,
}

-- What a wrapper wraps: no object, an array or a date.
abbrev pub is_wrapped : Value → Bool
is_wrapped invalid_date = true
is_wrapped (date ms) = true
is_wrapped (array items) = true
is_wrapped value = not (is_object value)

abbrev pub value_entry : Value → Entries
value_entry v = entry (codes "value") v no_entries

abbrev pub payload_of : ProtoMessage → Value → Value
payload_of m value = if is_wrapper m && is_wrapped value then object (value_entry value) else value

-- `text === tag`.
abbrev pub is_text : Text → Value → Bool
is_text s (string t) = text_eq s t
is_text s _ = false

-- `field.discriminatorValue === tag`, where both can be undefined.
abbrev pub is_tag_value : Option Text → Value → Bool
is_tag_value none undefined = true
is_tag_value none _ = false
is_tag_value (some s) tag = is_text s tag

abbrev pub is_arm : Value → ProtoField → Bool
is_arm tag field =
    is_tag_value field.discriminator_value tag
    || is_text field.name tag
    || is_text (to_camel field.name) tag

abbrev pub find_arm : Value → List ProtoField → Option ProtoField
find_arm tag [] = none
find_arm tag (field ∷ fields) = if is_arm tag field then some field else find_arm tag fields

-- `[arm.name]: toProtoObject(…)`, for an arm whose type is a message.
abbrev pub to_arm : Conversion → ProtoMessage → Value → Option ProtoField → Converted
to_arm to m rest none = ok (object no_entries)
to_arm to m rest (some arm) = elim arm.type [
  | message name ↦ after (to name rest (some m)) λ w. ok (object (entry arm.name w no_entries))
  | _ ↦ ok (object no_entries)
]

abbrev pub to_fields : Conversion → ProtoMessage → Value → Converted
to_fields to (proto_message name fields subs comment none) src =
    convert_raw_fields (λ field. field.name)
      (λ type v. to_proto_value to type v (some (proto_message name fields subs comment none)))
      fields src no_entries
to_fields to (proto_message name fields subs comment (some discriminator)) src =
    to_arm to (proto_message name fields subs comment (some discriminator))
      (object (remove discriminator (own_entries src))) (find_arm (member discriminator src) fields)

abbrev pub to_message : Conversion → Value → Option ProtoMessage → Converted
to_message to value none = ok value
to_message to value (some m) =
    let payload = payload_of m value in
    if is_object payload then to_fields to m payload else ok payload

-- `decoded`, when it is an object and no array, behind the tag of the arm.
abbrev pub tag_of : ProtoField → Text
tag_of field = elim field.discriminator_value [ none ↦ field.name | some s ↦ s ]

abbrev pub tagged : Text → ProtoField → Value → Value
tagged discriminator field (array items) =
    object (entry discriminator (string (tag_of field)) no_entries)
tagged discriminator field decoded =
    object (
      spread_entries (entry discriminator (string (tag_of field)) no_entries) (own_entries decoded))

-- The first field with a value.
abbrev pub from_arm : Text → (ProtoType → Value → Converted) → List ProtoField → Value → Converted
from_arm discriminator convert [] src = ok (object no_entries)
from_arm discriminator convert (field ∷ fields) src =
    let raw = field_value field src in
    if is_nullish raw
    then from_arm discriminator convert fields src
    else after (convert field.type raw) λ decoded. ok (tagged discriminator field decoded)

abbrev pub from_fields : Conversion → ProtoMessage → Value → Converted
from_fields from (proto_message name fields subs comment none) src =
    let m = proto_message name fields subs comment none in
    after
      (convert_raw_fields (λ field. to_camel field.name)
        (λ type v. from_proto_value from type v (some m)) fields src no_entries)
      λ out. if is_wrapper m then ok (member (codes "value") out) else ok out
from_fields from (proto_message name fields subs comment (some discriminator)) src =
    from_arm discriminator
      (λ type v.
        from_proto_value from type v
          (some (proto_message name fields subs comment (some discriminator))))
      fields src

abbrev pub from_message : Conversion → Value → Option ProtoMessage → Converted
from_message from value none = ok value
from_message from value (some m) = if is_object value then from_fields from m value else ok value

module _ (schema : ProtoSchema) where
  unfoldable pub to_proto_object : ℕ → Conversion
  to_proto_object zero name value scope = stack_overflow
  to_proto_object (suc n) name value scope =
      if text_eq name empty_name
      then ok (object no_entries)
      else if text_eq name timestamp_name
      then ok (from_date value)
      else to_message (to_proto_object n) value (resolve_message schema name scope)

  unfoldable pub from_proto_object : ℕ → Conversion
  from_proto_object zero name value scope = stack_overflow
  from_proto_object (suc n) name value scope =
      if text_eq name empty_name
      then ok (object no_entries)
      else if text_eq name timestamp_name
      then ok (to_date value)
      else from_message (from_proto_object n) value (resolve_message schema name scope)

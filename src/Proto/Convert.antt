-- ===== src/Proto/Convert.antt =====
-- packages/runtime/src/proto_codec/proto_codec.ts: `toProtoObject` and `fromProtoObject` with the functions
-- that they call. An exception is a result. The fuel counts the calls of the two that are inside each
-- other: a message can be its own arm or wrapped value, and without an end to that the stack overflows.
pub mod Objects
pub mod Fits
mod Examples
use trpc_proto.Base.{
  ℕ, zero, suc, ◌*◌, Bool, true, false, not, ◌&&◌, ◌||◌, List, [], ◌∷◌, Option, none, some, leb,
  if◌then◌else◌,
}
use trpc_proto.Base.Text.{Text, codes, text_eq}
use trpc_proto.Utility.Case.{to_camel}
use trpc_proto.Schema.Types.{
  ProtoScalar, int64, uint64, sint64, ProtoType, scalar, enum, message, map_of, ProtoField,
  ProtoMessage, proto_message, ProtoSchema,
}
use trpc_proto.Proto.Lookup.{is_wrapper, resolve_message}
use trpc_proto.Proto.Timestamp.{ℤ, pos, negsuc, Timestamp, date_to_timestamp, timestamp_to_date}
use trpc_proto.Proto.Values.{
  Value, undefined, null, nan, invalid_date, boolean, number, bigint, string, date, uint8_array,
  array, object, Items, no_items, item, Entries, no_entries, entry, is_nullish, is_object, coalesce,
  get, set, remove, spread_entries, own_entries, member, integer, text_of, parse_integer, number_of,
}

pub data Converted : Type 0 where
  ok : Value → Converted
  syntax_error stack_overflow : Converted

-- The rest of a computation, unless it threw.
abbrev pub after : Converted → (Value → Converted) → Converted
after (ok v) k = k v
after syntax_error k = syntax_error
after stack_overflow k = stack_overflow

-- How a message of a name is converted, in a scope.
abbrev pub Conversion : Type 0
Conversion = Text → Value → Option ProtoMessage → Converted

abbrev pub empty_name : Text
empty_name = codes "google.protobuf.Empty"

abbrev pub timestamp_name : Text
timestamp_name = codes "google.protobuf.Timestamp"

abbrev timestamp_entries : Value → Value → Value
timestamp_entries s n = object (entry (codes "seconds") s (entry (codes "nanos") n no_entries))

abbrev pub from_date : Value → Value
from_date (date ms) =
    let t = date_to_timestamp ms in timestamp_entries (number t.seconds) (number t.nanos)
from_date invalid_date = timestamp_entries nan nan
from_date value = value

-- Dates reach a hundred million days to either side of 1970.
abbrev pub in_range : ℤ → Bool
in_range (pos ms) = leb ms 8640000000000000
in_range (negsuc n) = leb (suc n) 8640000000000000

abbrev pub new_date : ℤ → Value
new_date ms = if in_range ms then date ms else invalid_date

abbrev joined : Option ℤ → Option ℤ → Value
joined none n = invalid_date
joined (some s) none = invalid_date
joined (some s) (some n) = new_date (timestamp_to_date (record { seconds = s; nanos = n }))

-- `timestampToDate`.
abbrev pub to_date : Value → Value
to_date (date ms) = date ms
to_date value =
    if is_object value
    then joined (number_of (coalesce (member (codes "seconds") value) (number (pos 0))))
        (number_of (coalesce (member (codes "nanos") value) (number (pos 0))))
    else invalid_date

-- `raw.map(…)`.
abbrev pub each_item : (Value → Converted) → Items → (Items → Converted) → Converted
each_item convert no_items k = k no_items
each_item convert (item v items) k =
    after (convert v) λ w. each_item convert items λ ws. k (item w ws)

-- The loop over `Object.entries(value)`.
abbrev pub each_entry : (Value → Converted) → Entries → Entries → Converted
each_entry convert no_entries out = ok (object out)
each_entry convert (entry n v es) out = after (convert v) λ w. each_entry convert es (set n w out)

abbrev pub is_long : ProtoScalar → Bool
is_long int64 = true
is_long uint64 = true
is_long sint64 = true
is_long _ = false

abbrev pub is_long_result : ProtoScalar → Bool
is_long_result int64 = true
is_long_result sint64 = true
is_long_result _ = false

abbrev pub long_text : Value → Value
long_text (bigint z) = string (integer z)
long_text value = value

abbrev pub big_int : Value → Converted
big_int (bigint z) = ok (bigint z)
big_int value = elim (text_of value) [
  | none ↦ syntax_error
  | some s ↦ elim (parse_integer s) [ none ↦ syntax_error | some z ↦ ok (bigint z) ]
]

-- `toProtoValue` and `fromProtoValue`, with the function for objects that they call.
unfoldable pub to_proto_value : Conversion → ProtoType → Value → Option ProtoMessage → Converted
to_proto_value to (scalar kind) value scope =
    if is_nullish value then ok value else ok (if is_long kind then long_text value else value)
to_proto_value to (enum name) value scope = ok value
to_proto_value to (message name) value scope =
    if is_nullish value
    then ok value
    else if text_eq name timestamp_name
    then ok (from_date value)
    else to name value scope
to_proto_value to (map_of key type) value scope =
    if is_object value
    then each_entry (λ v. to_proto_value to type v scope) (own_entries value) no_entries
    else ok value

unfoldable pub from_proto_value : Conversion → ProtoType → Value → Option ProtoMessage → Converted
from_proto_value from (scalar kind) value scope =
    if is_nullish value then ok value else if is_long_result kind then big_int value else ok value
from_proto_value from (enum name) value scope = ok value
from_proto_value from (message name) value scope =
    if is_nullish value
    then ok value
    else if text_eq name timestamp_name
    then ok (to_date value)
    else from name value scope
from_proto_value from (map_of key type) value scope =
    if is_object value
    then each_entry (λ v. from_proto_value from type v scope) (own_entries value) no_entries
    else ok value

-- `src[field.name] ?? src[toCamel(field.name)]`.
abbrev pub field_value : ProtoField → Value → Value
field_value field src = coalesce (member field.name src) (member (to_camel field.name) src)

-- A field's value, or the items of a repeated one.
abbrev pub convert_raw_field : (ProtoType → Value → Converted) → ProtoField → Value → Converted
convert_raw_field convert field (array items) =
    if field.repeated
    then each_item (convert field.type) items (λ ws. ok (array ws))
    else convert field.type (array items)
convert_raw_field convert field raw = convert field.type raw

abbrev pub is_undefined : Value → Bool
is_undefined undefined = true
is_undefined _ = false

-- The loop over the fields, which sets each under a key.
unfoldable pub convert_raw_fields :
    (ProtoField → Text)
    → (ProtoType → Value → Converted)
    → List ProtoField
    → Value
    → Entries
    → Converted
convert_raw_fields key_of convert [] src out = ok (object out)
convert_raw_fields key_of convert (field ∷ fields) src out =
    let raw = field_value field src in
    if is_undefined raw
    then convert_raw_fields key_of convert fields src out
    else after (convert_raw_field convert field raw)
        λ w. convert_raw_fields key_of convert fields src (set (key_of field) w out)

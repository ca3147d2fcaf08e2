-- ===== src/Proto/Convert/Examples.antt =====
-- packages/runtime/src/proto_codec/proto_codec.ts: an order with a shape, and what does not come back.
use trpc_proto.Base.{arith, ◌≡◌, refl, true, false, List, [], ◌∷◌, none, some, here}
use trpc_proto.Base.Text.{Text, codes, trim_start, trim_end, is_space}
use trpc_proto.Base.Decimal.{decimal, decimal_digits, decimal_value}
use trpc_proto.Utility.Case.{to_camel}
use trpc_proto.Schema.Types.{
  ProtoType, int64, string, double, bytes, scalar, message, map_of, ProtoField, ProtoMessage,
  proto_message, ProtoMessages, no_messages, messages, ProtoSchema,
}
use trpc_proto.Proto.Lookup.{is_wrapper, find_message, resolve_message}
use trpc_proto.Proto.Timestamp.{timestamp_to_date, pos, negsuc, date_to_timestamp}
use trpc_proto.Proto.Values.{
  invalid_date, Value, undefined, null, number, bigint, date, uint8_array, array, object, Items,
  no_items, item, Entries, no_entries, entry, text_of, parse_integer,
}
use trpc_proto.Proto.Values
use trpc_proto.Proto.Convert.{
  to_date, ok, stack_overflow, after, syntax_error, timestamp_name, convert_raw_fields,
  to_proto_value, from_proto_value,
}
use trpc_proto.Proto.Convert.Objects.{to_proto_object, from_proto_object}
use trpc_proto.Proto.Convert.Fits.{
  a_long, a_scalar, a_date, a_message, a_map, no_more, one_more, none_left, one_left,
  singular_field, repeated_field, no_fields, without, with_field, Resolves, with_fields, an_arm,
  FitsMessage,
}
use trpc_proto.Proto.Convert.Fits.RoundTrip.{
  from_proto_object-to_proto_object, from_proto_object-value,
}
use trpc_proto.Proto.Convert.Objects.Wire.{Overflows, Message, to_proto_object-Message}

abbrev field_of : Text → ProtoType → ProtoField
field_of name type = record {
  name = name;
  number = 1;
  type = type;
  repeated = false;
  optional = false;
  comment = [];
  oneof = none;
  discriminator_value = none;
}

abbrev plain_message : Text → List ProtoField → ProtoMessages → ProtoMessage
plain_message name fields subs = proto_message name fields subs [] none

abbrev circle : ProtoMessage
circle = plain_message (codes "Circle") (field_of (codes "radius") (scalar double) ∷ []) no_messages

abbrev square_arm : ProtoField
square_arm = field_of (codes "square") (message (codes "Square"))

abbrev circle_arm : ProtoField
circle_arm = record (field_of (codes "round") (message (codes "Circle"))) {
  discriminator_value = some (codes "circle");
}

abbrev shape : ProtoMessage
shape =
    proto_message (codes "Shape") (circle_arm ∷ square_arm ∷ []) (messages circle no_messages) []
      (some (codes "kind"))

abbrev tags : ProtoField
tags = record (field_of (codes "tags") (scalar string)) { repeated = true }

abbrev order_fields : List ProtoField
order_fields =
    field_of (codes "created_at") (message timestamp_name)
    ∷ field_of (codes "note") (scalar string)
    ∷ tags
    ∷ field_of (codes "prices") (map_of string (scalar int64))
    ∷ field_of (codes "shape") (message (codes "Shape"))
    ∷ []

abbrev order : ProtoMessage
order = plain_message (codes "Order") order_fields (messages shape no_messages)

abbrev wrapper_of : Text → ProtoType → ProtoMessage
wrapper_of name type = plain_message name (field_of (codes "value") type ∷ []) no_messages

abbrev sample : ProtoSchema
sample = record {
  package_name = codes "app";
  services = [];
  message_list = messages order (
      messages (wrapper_of (codes "Name") (scalar string)) (
        messages (wrapper_of (codes "Prices") (map_of string (scalar int64))) (
          messages (wrapper_of (codes "File") (scalar bytes))
            (messages (wrapper_of (codes "Endless") (message (codes "Endless"))) no_messages))));
  enums = [];
  options = [];
  generate_cache = none;
}

abbrev text : Text → Value
text = Values.string

abbrev radius : Entries
radius = entry (codes "radius") (number (pos 2)) no_entries

abbrev an_order : Value
an_order = object (
    entry (codes "createdAt") (date (pos 1500)) (
      entry (codes "tags") (array (item (text (codes "new")) no_items)) (
        entry (codes "prices") (object (entry (codes "eur") (bigint (negsuc 4)) no_entries)) (
          entry (codes "shape") (object (entry (codes "kind") (text (codes "circle")) radius))
            no_entries))))

circle-Resolves : Resolves sample (codes "Circle") (some shape) circle
unfolding resolve_message find_message
circle-Resolves = record { not_empty = refl; not_timestamp = refl; resolved = refl }

shape-Resolves : Resolves sample (codes "Shape") (some order) shape
unfolding resolve_message find_message
shape-Resolves = record { not_empty = refl; not_timestamp = refl; resolved = refl }

order-Resolves : Resolves sample (codes "Order") none order
unfolding resolve_message find_message
order-Resolves = record { not_empty = refl; not_timestamp = refl; resolved = refl }

circle-fits : FitsMessage sample 1 (codes "Circle") (some shape) (object radius)
unfolding to_camel is_wrapper
circle-fits =
    with_fields circle-Resolves refl refl
      (with_field (singular_field refl (a_scalar refl refl)) no_fields)

shape-fits :
    FitsMessage sample 2
      (codes "Shape")
      (some order)
      (object (entry (codes "kind") (text (codes "circle")) radius))
unfolding to_camel
shape-fits = an_arm shape-Resolves refl here refl refl refl refl circle-fits

order-fits : FitsMessage sample 3 (codes "Order") none an_order
unfolding to_camel is_wrapper
order-fits = with_fields order-Resolves refl refl (
    with_field (singular_field refl (a_date tt refl)) (
      without (
        with_field (repeated_field refl (one_left (a_scalar refl refl) none_left)) (
          with_field (singular_field refl (a_map refl (one_more (a_long refl) no_more)))
            (with_field (singular_field refl (a_message refl shape-fits)) no_fields)))))

from_proto_object-to_proto_object_example :
    after
      (to_proto_object sample 9 (codes "Order") an_order none)
      (λ w. from_proto_object sample 9 (codes "Order") w none)
    ≡ ok an_order
from_proto_object-to_proto_object_example =
    from_proto_object-to_proto_object sample 3 9 (codes "Order") none an_order (omega arith)
      order-fits

to_proto_object-Message_example :
    Overflows
      (Message order_fields (number (pos 1)))
      (to_proto_object sample 3 (codes "Order") (number (pos 1)) none)
to_proto_object-Message_example =
    to_proto_object-Message sample 2 (codes "Order") (number (pos 1)) none order order-Resolves

name-Resolves : Resolves sample (codes "Name") none (wrapper_of (codes "Name") (scalar string))
unfolding resolve_message find_message
name-Resolves = record { not_empty = refl; not_timestamp = refl; resolved = refl }

name-is_wrapper : is_wrapper (wrapper_of (codes "Name") (scalar string)) ≡ true
unfolding is_wrapper
name-is_wrapper = refl

from_proto_object-value_example :
    after
      (to_proto_object sample 1
        (codes "Name")
        (object (entry (codes "value") (text (codes "x")) no_entries))
        none)
      (λ w. from_proto_object sample 1 (codes "Name") w none)
    ≡ ok (text (codes "x"))
from_proto_object-value_example =
    from_proto_object-value sample 0 (codes "Name") none (field_of (codes "value") (scalar string))
      (text (codes "x")) (codes "Name") [] no_messages name-Resolves name-is_wrapper
      (singular_field refl (a_scalar refl refl))

abbrev prepared : Value
prepared = object (
    entry (codes "created_at")
      (object (
        entry (codes "seconds") (number (pos 1))
          (entry (codes "nanos") (number (pos 500000000)) no_entries)))
      (entry (codes "tags") (array (item (text (codes "new")) no_items)) (
        entry (codes "prices") (object (entry (codes "eur") (text (codes "-5")) no_entries)) (
          entry (codes "shape") (object (entry (codes "round") (object radius) no_entries))
            no_entries))))

to_proto_object_test : to_proto_object sample 3 (codes "Order") an_order none ≡ ok prepared
unfolding to_proto_object to_proto_value convert_raw_fields resolve_message find_message is_wrapper
    to_camel date_to_timestamp decimal decimal_digits
to_proto_object_test = refl

-- A message with a single field `value` comes back as the field's value, whether its value was
-- wrapped or not; the value of a record or a file is not wrapped, and gets lost.
lost_tests :
    (after
        (to_proto_object sample 1
          (codes "Name")
          (object (entry (codes "value") (text (codes "x")) no_entries))
          none)
        (λ w. from_proto_object sample 1 (codes "Name") w none)
      ≡ ok (text (codes "x")))
    × (to_proto_object sample 1
          (codes "Prices")
          (object (entry (codes "eur") (bigint (pos 3)) no_entries))
          none
        ≡ ok (object no_entries))
    × (to_proto_object sample 1 (codes "File") (uint8_array (1 ∷ 2 ∷ [])) none
        ≡ ok (object no_entries))
unfolding to_proto_object from_proto_object to_proto_value from_proto_value convert_raw_fields
    resolve_message find_message is_wrapper to_camel
lost_tests = (refl, refl, refl)

-- A text that is no integer, and a message that wraps itself.
error_tests :
    (from_proto_value (from_proto_object sample 1) (scalar int64) (text (codes "1.5")) none
      ≡ syntax_error)
    × (from_proto_value (from_proto_object sample 1) (scalar int64) (text (codes " 0x1F ")) none
        ≡ ok (bigint (pos 31)))
    × (from_proto_value (from_proto_object sample 1) (scalar int64) (array no_items) none
        ≡ ok (bigint (pos 0)))
    × (to_proto_object sample 9 (codes "Endless") (text (codes "x")) none ≡ stack_overflow)
unfolding to_proto_object from_proto_value to_proto_value convert_raw_fields resolve_message
    find_message is_wrapper to_camel text_of parse_integer trim_start trim_end is_space
    decimal_value
error_tests = (refl, refl, refl, refl)

-- protobufjs gives the seconds as a text, and leaves out what is zero.
date_tests :
    (to_date (
        object (
          entry
            (codes "seconds")
            (text (codes "-2"))
            (entry (codes "nanos") (number (pos 500000000)) no_entries)))
      ≡ date (negsuc 1499))
    × (to_date (object no_entries) ≡ date (pos 0))
    × (to_date (text (codes "now")) ≡ invalid_date)
unfolding parse_integer timestamp_to_date trim_start trim_end is_space decimal_value text_of
date_tests = (refl, refl, refl)

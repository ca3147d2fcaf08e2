-- ===== src/Schema/Reserved/Examples.antt =====
-- A message that has the fields 1 and 6, and had more.
use trpc_proto.Base.{ℕ, ◌≡◌, refl, false, not, ◌&&◌, ◌||◌, List, [], ◌∷◌, none, some, has}
use trpc_proto.Base.Decimal.{decimal, decimal_digits}
use trpc_proto.Base.Text.{codes}
use trpc_proto.Schema.Types.{
  ProtoField, scalar, bool, PropertyGenCache, property, empty, entry, nested_in, used_in,
}
use trpc_proto.Schema.Reserved.{
  unique_tags, sort_tags, ranges_from, reserved_ranges, format_reserved_numbers, field_numbers,
  add_used_tags, add_child_tags, reserved_numbers,
}
use trpc_proto.Schema.Reserved.Ranges.{in_ranges}
use trpc_proto.Schema.Reserved.Numbers.{is_recorded, is_dropped, in_ranges-reserved_numbers}

abbrev field : ℕ → ProtoField
field n = record {
  name = codes "f";
  number = n;
  type = scalar bool;
  repeated = false;
  optional = false;
  comment = [];
  oneof = none;
  discriminator_value = none;
}

abbrev fields : List ProtoField
fields = field 1 ∷ field 6 ∷ []

abbrev cache : PropertyGenCache
cache =
    property none none (entry (codes "old") (property (some 9) none empty []) empty)
      ((1, codes "f") ∷ (2, codes "a") ∷ (3, codes "b") ∷ (5, codes "c") ∷ (6, codes "f") ∷ [])

reserved_example : reserved_numbers fields (some cache) ≡ 2 ∷ 3 ∷ 5 ∷ 9 ∷ []
unfolding reserved_numbers add_used_tags add_child_tags
reserved_example = refl

printed_example : format_reserved_numbers (5 ∷ 3 ∷ 9 ∷ 2 ∷ 3 ∷ []) ≡ codes "2 to 3, 5, 9"
unfolding format_reserved_numbers reserved_ranges unique_tags sort_tags ranges_from decimal
    decimal_digits
printed_example = refl

in_ranges-reserved_numbers_example :
    in_ranges 5 (reserved_ranges (reserved_numbers fields (some cache)))
    ≡ not (has (field_numbers fields) 5)
      && (is_recorded 5 (used_in cache) || is_dropped 5 fields (nested_in cache))
in_ranges-reserved_numbers_example = in_ranges-reserved_numbers fields cache 5

-- ===== src/Schema/WellKnown.antt =====
-- packages/schema_ir/src/ir/wellknown.ts: the types that come with protobuf.
use trpc_proto.Base.{Bool, true, false, List, [], ◌∷◌, ◌++◌, Option, none, some, if◌then◌else◌}
use trpc_proto.Base.Text.{Text, codes, lookup, has_text, ends_with}

unfoldable pub well_known_imports : List (Text × Text)
well_known_imports =
    (codes "google.protobuf.Any", codes "google/protobuf/any.proto")
    ∷ (codes "google.protobuf.Api", codes "google/protobuf/api.proto")
    ∷ (codes "google.protobuf.Method", codes "google/protobuf/api.proto")
    ∷ (codes "google.protobuf.Mixin", codes "google/protobuf/api.proto")
    ∷ (codes "google.protobuf.Duration", codes "google/protobuf/duration.proto")
    ∷ (codes "google.protobuf.Empty", codes "google/protobuf/empty.proto")
    ∷ (codes "google.protobuf.FieldMask", codes "google/protobuf/field_mask.proto")
    ∷ (codes "google.protobuf.Struct", codes "google/protobuf/struct.proto")
    ∷ (codes "google.protobuf.Value", codes "google/protobuf/struct.proto")
    ∷ (codes "google.protobuf.ListValue", codes "google/protobuf/struct.proto")
    ∷ (codes "google.protobuf.NullValue", codes "google/protobuf/struct.proto")
    ∷ (codes "google.protobuf.Timestamp", codes "google/protobuf/timestamp.proto")
    ∷ (codes "google.protobuf.Type", codes "google/protobuf/type.proto")
    ∷ (codes "google.protobuf.Field", codes "google/protobuf/type.proto")
    ∷ (codes "google.protobuf.Field.Kind", codes "google/protobuf/type.proto")
    ∷ (codes "google.protobuf.Field.Cardinality", codes "google/protobuf/type.proto")
    ∷ (codes "google.protobuf.Enum", codes "google/protobuf/type.proto")
    ∷ (codes "google.protobuf.EnumValue", codes "google/protobuf/type.proto")
    ∷ (codes "google.protobuf.Option", codes "google/protobuf/type.proto")
    ∷ (codes "google.protobuf.Syntax", codes "google/protobuf/type.proto")
    ∷ (codes "google.protobuf.SourceContext", codes "google/protobuf/source_context.proto")
    ∷ (codes "google.protobuf.DoubleValue", codes "google/protobuf/wrappers.proto")
    ∷ (codes "google.protobuf.FloatValue", codes "google/protobuf/wrappers.proto")
    ∷ (codes "google.protobuf.Int32Value", codes "google/protobuf/wrappers.proto")
    ∷ (codes "google.protobuf.Int64Value", codes "google/protobuf/wrappers.proto")
    ∷ (codes "google.protobuf.UInt32Value", codes "google/protobuf/wrappers.proto")
    ∷ (codes "google.protobuf.UInt64Value", codes "google/protobuf/wrappers.proto")
    ∷ (codes "google.protobuf.BoolValue", codes "google/protobuf/wrappers.proto")
    ∷ (codes "google.protobuf.StringValue", codes "google/protobuf/wrappers.proto")
    ∷ (codes "google.protobuf.BytesValue", codes "google/protobuf/wrappers.proto")
    ∷ []

unfoldable pub well_known_import : Text → Option Text
unfolding well_known_imports
well_known_import name = lookup name well_known_imports

unfoldable pub is_well_known_type : Text → Bool
unfolding well_known_import
is_well_known_type name = elim (well_known_import name) [ some path ↦ true | none ↦ false ]

abbrev well_known_enums : List Text
well_known_enums =
    codes "google.protobuf.NullValue"
    ∷ codes "google.protobuf.Syntax"
    ∷ codes "google.protobuf.Field.Kind"
    ∷ codes "google.protobuf.Field.Cardinality"
    ∷ []

pub data NamedKind : Type 0 where
  enum_kind message_kind : NamedKind

unfoldable pub well_known_kind : Text → NamedKind
well_known_kind name = if has_text well_known_enums name then enum_kind else message_kind

unfoldable pub proto_service_name : Text → Text
unfolding ends_with
proto_service_name name = if ends_with (codes "Service") name then name else name ++ codes "Service"

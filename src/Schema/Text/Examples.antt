-- ===== src/Schema/Text/Examples.antt =====
-- A small schema as a proto file.
use mathlib.Core.List.{Perm}
use trpc_proto.Base.{◌≡◌, refl, true, false, List, [], ◌∷◌, ◌++◌, none, some, All}
use trpc_proto.Base.Text.{Text, codes, split_by}
use trpc_proto.Base.Decimal.{decimal, decimal_digits}
use trpc_proto.Utility.Case.{to_pascal_case, to_screaming_snake}
use trpc_proto.Schema.Types.{
  scalar, message, string, ProtoField, proto_message, no_messages, messages, query, ProtoSchema,
  property, empty, entry, text_value,
}
use trpc_proto.Schema.WellKnown.{well_known_imports, well_known_import}
use trpc_proto.Schema.Reserved.{
  unique_tags, sort_tags, ranges_from, reserved_ranges, format_reserved_numbers, add_used_tags,
  add_child_tags, reserved_numbers,
}
use trpc_proto.Schema.Text.{
  proto_enum_value, comment_lines, emit_comment, render_type, field_line, emit_field, group_fields,
  emit_body, emit_message,
}
use trpc_proto.Schema.Text.File.{
  collect_type_names, imports_of, escape_text, format_option_value, emit_enum, emit_method,
  emit_service, to_string,
}
use trpc_proto.Schema.Text.Comments.{IsCommentLine, emit_comment-IsCommentLine}
use trpc_proto.Schema.Text.Oneofs.{all_fields, AreAlone, IsOf, HasUniqueGroups, group_fields-perm}

abbrev timestamp : Text
timestamp = codes "google.protobuf.Timestamp"

abbrev id_field : ProtoField
id_field = record {
  name = codes "id";
  number = 1;
  type = scalar string;
  repeated = false;
  optional = true;
  comment = codes "The id.";
  oneof = none;
  discriminator_value = none;
}

abbrev at_field : ProtoField
at_field = record {
  name = codes "at";
  number = 4;
  type = message timestamp;
  repeated = false;
  optional = false;
  comment = [];
  oneof = some (codes "kind");
  discriminator_value = none;
}

abbrev fields : List ProtoField
fields = at_field ∷ id_field ∷ []

abbrev schema : ProtoSchema
schema = record {
  package_name = codes "app";
  services =
      record {
        name = codes "User";
        methods =
            record {
              name = codes "Get";
              path = codes "user.get";
              type = query;
              request_type = codes "Req";
              response_type = codes "Res";
              is_response_streaming = false;
            }
            ∷ [];
      }
      ∷ [];
  message_list = messages (proto_message (codes "Res") fields no_messages [] none) no_messages;
  enums = record { name = codes "role"; values = (codes "admin", 0) ∷ []; comment = [] } ∷ [];
  options = (codes "go_package", text_value (codes "x/y")) ∷ [];
  generate_cache =
      some (
        entry (codes "Res") (property none none empty ((2, codes "a") ∷ (3, codes "b") ∷ []))
          empty);
}

abbrev printed : Text
printed =
    codes "syntax = \"proto3\";\n\npackage app;\n\nimport \"google/protobuf/timestamp.proto\";\n\n"
    ++ (codes "option go_package = \"x/y\";\n\nenum Role {\n  ROLE_ADMIN = 0;\n}\n\n"
        ++ (codes "message Res {\n  // The id.\n  optional string id = 1;\n  oneof kind {\n"
            ++ (codes "    google.protobuf.Timestamp at = 4;\n  }\n  reserved 2 to 3;\n}\n\n"
                ++ codes
                    "service User {\n  // tRPC query user.get\n  rpc Get (Req) returns (Res);\n}\n")))

whole_file : to_string schema ≡ printed
unfolding to_string emit_enum emit_method emit_service format_option_value escape_text imports_of
    collect_type_names emit_message emit_body group_fields emit_field field_line render_type
    emit_comment comment_lines proto_enum_value to_pascal_case to_screaming_snake split_by decimal
    decimal_digits well_known_import well_known_imports format_reserved_numbers reserved_ranges
    unique_tags sort_tags ranges_from reserved_numbers add_used_tags add_child_tags
whole_file = refl

emit_comment-IsCommentLine_example :
    All (IsCommentLine (codes "  ")) (emit_comment (codes "one\r\n}\nthree") (codes "  "))
emit_comment-IsCommentLine_example =
    emit_comment-IsCommentLine (codes "one\r\n}\nthree") (codes "  ") refl

group_fields-perm_example :
    Perm (all_fields (group_fields fields ([], []))) fields
    × AreAlone (group_fields fields ([], [])).1
    × All IsOf (group_fields fields ([], [])).0
    × HasUniqueGroups (group_fields fields ([], [])).0
group_fields-perm_example = group_fields-perm fields

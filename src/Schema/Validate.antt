-- ===== src/Schema/Validate.antt =====
-- packages/schema_ir/src/validate/prevalidate.ts: what is checked before a schema is generated.
-- `stringify` stands for `JSON.stringify`, of a header and of a text.
pub mod Laws
mod Examples
use trpc_proto.Base.{
  Bool, true, false, not, ◌&&◌, ◌||◌, List, [], ◌∷◌, ◌++◌, Option, none, some, any, if◌then◌else◌,
}
use trpc_proto.Base.Text.{Text, codes, text_eq, split, join, trim_end}
use trpc_proto.Schema.Types.{OptionValue}

pub data ProtoIssueLevel : Type 0 where
  error_level warning_level : ProtoIssueLevel

pub data ProtoIssueCode : Type 0 where
  missing_output proto_override bad_syntax missing_package : ProtoIssueCode

pub record ProtoIssue : Type 0 where
  pub level : ProtoIssueLevel
  pub code : ProtoIssueCode
  pub message : Text
  pub path : Option Text

-- `ProtoFileHeader`, as a router's metadata has it: any text may stand for the syntax.
pub record ProtoFileHeader : Type 0 where
  pub package_name : Option Text
  pub syntax : Option Text
  pub schema_path : Option Text
  pub cache : Option Text
  pub options : Option (List (Text × OptionValue))

pub record ProtoProcedureCheck : Type 0 where
  pub path : Text
  pub has_output : Bool
  pub proto : Option ProtoFileHeader

pub record ProtoPrevalidateInput : Type 0 where
  pub default_proto : Option ProtoFileHeader
  pub procedures : List ProtoProcedureCheck

pub record Stringify : Type 0 where
  pub header : ProtoFileHeader → Text
  pub text : Text → Text

abbrev issue : ProtoIssueCode → Text → Option Text → ProtoIssue
issue code message path = record {
  level = error_level;
  code = code;
  message = message;
  path = path;
}

-- `!header?.package`.
unfoldable pub lacks_package : Option ProtoFileHeader → Bool
lacks_package none = true
lacks_package (some header) = elim header.package_name [
  | none ↦ true
  | some name ↦ elim name [ [] ↦ true | c ∷ s ↦ false ]
]

-- `header?.syntax`, if it is there and not proto3.
unfoldable pub other_syntax : Option ProtoFileHeader → Option Text
other_syntax none = none
other_syntax (some header) = elim header.syntax [
  | none ↦ none
  | some syntax ↦ if text_eq syntax (codes "proto3") then none else some syntax
]

module _ (stringify : Stringify) where
  -- Nothing is not a text.
  abbrev pub same_proto : ProtoFileHeader → Option ProtoFileHeader → Bool
  same_proto left none = false
  same_proto left (some right) = text_eq (stringify.header left) (stringify.header right)

  unfoldable pub overrides : ProtoProcedureCheck → Option ProtoFileHeader → Bool
  overrides procedure header = elim procedure.proto [
    | none ↦ false
    | some proto ↦ not (same_proto proto header)
  ]

  abbrev pub package_issues : Option ProtoFileHeader → List ProtoIssue
  package_issues header =
      if lacks_package header
      then issue missing_package (codes "proto.package is required") none ∷ []
      else []

  abbrev pub syntax_issues : Option ProtoFileHeader → List ProtoIssue
  syntax_issues header = elim (other_syntax header) [
    | none ↦ []
    | some syntax ↦
        issue bad_syntax
          (codes "defaultMeta.proto.syntax must be \"proto3\", got " ++ stringify.text syntax) none
        ∷ []
  ]

  -- One round of the loop over the procedures.
  abbrev pub procedure_issues : ProtoProcedureCheck → Option ProtoFileHeader → List ProtoIssue
  procedure_issues procedure header =
      (if not procedure.has_output
        then issue missing_output
            (codes "procedure " ++ (procedure.path ++ codes " missing required output"))
            (some procedure.path)
          ∷ []
        else [])
      ++ (if overrides procedure header
          then issue proto_override
              (codes "procedure " ++ (procedure.path ++ codes " overrides proto meta"))
              (some procedure.path)
            ∷ []
          else [])

  abbrev pub all_procedure_issues :
      List ProtoProcedureCheck → Option ProtoFileHeader → List ProtoIssue
  all_procedure_issues [] header = []
  all_procedure_issues (procedure ∷ procedures) header =
      procedure_issues procedure header ++ all_procedure_issues procedures header

  unfoldable pub prevalidate : ProtoPrevalidateInput → List ProtoIssue
  prevalidate input =
      package_issues input.default_proto
      ++ (syntax_issues input.default_proto
          ++ all_procedure_issues input.procedures input.default_proto)

abbrev last_part : List Text → Text
last_part [] = []
last_part (part ∷ []) = part
last_part (part ∷ next ∷ parts) = last_part (next ∷ parts)

abbrev procedure_key : Text → Text
procedure_key path = last_part (split b'.' path)

-- A path that is missing or empty prints as `undefined`.
abbrev key_of : Option Text → Text
key_of none = codes "undefined"
key_of (some []) = codes "undefined"
key_of (some (c ∷ path)) = procedure_key (c ∷ path)

-- The lines of `exampleFor`.
abbrev pub example_for : ProtoIssue → List Text
example_for i = elim i.code [
  | missing_output ↦
      (codes "  " ++ (key_of i.path ++ codes ": t.procedure"))
      ∷ codes "    .output(z.object({ ok: z.boolean() }))"
      ∷ codes "    .query(...)"
      ∷ []
  | proto_override ↦
      codes "  initTRPC.meta<ProtoMeta>().create({"
      ∷ codes "    defaultMeta: { proto: { package: 'your.package.v1' } },"
      ∷ codes "  })"
      ∷ []
  | bad_syntax ↦ codes "  proto: { syntax: 'proto3' }" ∷ []
  | missing_package ↦ codes "  defaultMeta: { proto: { package: 'your.package.v1' } }" ∷ []
]

abbrev level_name : ProtoIssueLevel → Text
level_name error_level = codes "error"
level_name warning_level = codes "warning"

abbrev pub issue_lines : List ProtoIssue → List Text
issue_lines [] = []
issue_lines (i ∷ issues) =
    (level_name i.level ++ (codes ": " ++ i.message)) ∷ (example_for i ++ ([] ∷ issue_lines issues))

abbrev file_lines : Option Text → List Text
file_lines none = []
file_lines (some []) = []
file_lines (some (c ∷ file)) = (c ∷ file) ∷ []

unfoldable pub format_issues : List ProtoIssue → Option Text → Text
format_issues issues file = trim_end (join (codes "\n") (file_lines file ++ issue_lines issues))

abbrev pub is_error : ProtoIssue → Bool
is_error i = elim i.level [ error_level ↦ true | warning_level ↦ false ]

-- The message of the `PrevalidateError`, if it is thrown.
unfoldable pub assert_prevalidate : List ProtoIssue → Option Text → Option Text
assert_prevalidate issues file =
    if not (any is_error issues) then none else some (format_issues issues file)

-- ===== src/Schema/Translate/Router.antt =====
-- packages/schema_ir/src/translate/trpc_schema.ts: what is read of a tRPC router. A procedure comes with the
-- input parsers and the output parser of its definition, each a Zod node or not one, and with the
-- proto part of its metadata.
use trpc_proto.Base.{Bool, true, false, List, [], ◌∷◌, Option, none, some}
use trpc_proto.Base.Text.{Text}
use trpc_proto.Base.{ℕ}
use trpc_proto.Schema.Types.{ProcedureType, ProtoSchema}
use trpc_proto.Schema.Validate.{
  ProtoFileHeader, ProtoProcedureCheck, ProtoPrevalidateInput, Stringify, prevalidate,
  assert_prevalidate,
}
use trpc_proto.Schema.Zod.Errors.{TranslateError, chained_inputs, not_zod, Translated, ok, err}
use trpc_proto.Schema.Zod.{ZodGraph}
use trpc_proto.Schema.Translate.Run.{RuntimeProcedure, TranslateOptions, translate}

-- A value that should be a Zod schema.
pub data Parser : Type 0 where
  zod_parser : ℕ → Parser
  other_parser : Parser

pub record Procedure : Type 0 where
  pub type : ProcedureType
  pub inputs : List Parser
  pub output : Option Parser
  pub proto : Option ProtoFileHeader

-- A value in the router's record of procedures; `isProcedure` tells them apart.
pub data RouterValue : Type 0 where
  a_procedure : Procedure → RouterValue
  no_procedure : RouterValue

-- `requireZod`, at the path of the procedure.
abbrev require_zod : Parser → Text → Translated ℕ
require_zod (zod_parser zod) path = ok zod
require_zod other_parser path = err (not_zod path)

abbrev some_of : Translated ℕ → Translated (Option ℕ)
some_of (ok zod) = ok (some zod)
some_of (err e) = err e

unfoldable pub procedure_input : Procedure → Text → Translated (Option ℕ)
procedure_input p path = elim (p.inputs) [
  | [] ↦ ok none
  | parser ∷ [] ↦ some_of (require_zod parser path)
  | parser ∷ next ∷ parsers ↦ err (chained_inputs path)
]

unfoldable pub procedure_output : Procedure → Text → Translated (Option ℕ)
procedure_output p path = elim (p.output) [
  | none ↦ ok none
  | some parser ↦ some_of (require_zod parser path)
]

abbrev list_procedure : Procedure → Text → Translated RuntimeProcedure
list_procedure p path = elim (procedure_input p path) [
  | err e ↦ err e
  | ok input ↦ elim (procedure_output p path) [
    | err e ↦ err e
    | ok output ↦ ok (record { path = path; type = p.type; input = input; output = output })
  ]
]

unfoldable pub list_procedures : List (Text × RouterValue) → Translated (List RuntimeProcedure)
unfolding procedure_input procedure_output
list_procedures [] = ok []
list_procedures ((path, no_procedure) ∷ values) = list_procedures values
list_procedures ((path, a_procedure p) ∷ values) = elim (list_procedure p path) [
  | err e ↦ err e
  | ok first ↦ elim (list_procedures values) [
    | err e ↦ err e
    | ok procedures ↦ ok (first ∷ procedures)
  ]
]

-- The proto part of the default metadata, and the record of procedures in its order.
pub record Router : Type 0 where
  pub proto : Option ProtoFileHeader
  pub procedures : List (Text × RouterValue)

abbrev has_value : Option Parser → Bool
has_value none = false
has_value (some parser) = true

unfoldable pub procedure_checks : List (Text × RouterValue) → List ProtoProcedureCheck
procedure_checks [] = []
procedure_checks ((path, no_procedure) ∷ values) = procedure_checks values
procedure_checks ((path, a_procedure p) ∷ values) =
    record { path = path; has_output = has_value p.output; proto = p.proto }
    ∷ procedure_checks values

abbrev pub checked : Router → ProtoPrevalidateInput
checked router = record {
  default_proto = router.proto;
  procedures = procedure_checks router.procedures;
}

-- The message of the error, if one is thrown.
unfoldable pub prevalidate_router : Stringify → Router → Option Text → Option Text
prevalidate_router stringify router file =
    assert_prevalidate (prevalidate stringify (checked router)) file

-- How `schemaFromRouter` ends; `no_header` is the `TypeError` at a router without a header.
pub data Generated : Type 0 where
  prevalidate_error : Text → Generated
  no_header : Generated
  translate_error : TranslateError → Generated
  generated : ProtoSchema → Generated

abbrev pub generated_of : Translated ProtoSchema → Generated
generated_of (ok schema) = generated schema
generated_of (err e) = translate_error e

abbrev pub options_of : ProtoFileHeader → TranslateOptions
options_of header = record {
  proto = some header;
  package_name = header.package_name;
  generate_cache = none;
}

abbrev pub translate_listed :
    ℕ → ZodGraph → ProtoFileHeader → Translated (List RuntimeProcedure) → Generated
translate_listed depth g header (err e) = translate_error e
translate_listed depth g header (ok procedures) =
    generated_of (translate depth g procedures (options_of header))

abbrev pub translate_router : ℕ → ZodGraph → ProtoFileHeader → Router → Generated
translate_router depth g header router =
    translate_listed depth g header (list_procedures router.procedures)

unfoldable pub schema_from_router : Stringify → ℕ → ZodGraph → Router → Generated
unfolding prevalidate_router list_procedures
schema_from_router stringify depth g router = elim (prevalidate_router stringify router none) [
  | some message ↦ prevalidate_error message
  | none ↦ elim router.proto [
    | none ↦ no_header
    | some header ↦ translate_router depth g header router
  ]
]

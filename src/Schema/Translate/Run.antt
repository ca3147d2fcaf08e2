-- ===== src/Schema/Translate/Run.antt =====
-- packages/schema_ir/src/translate/trpc_schema.ts: from the procedures, with the Zod nodes of their inputs
-- and outputs, to the services and the schema.
use trpc_proto.Base.{
  ℕ, Bool, true, false, List, [], ◌∷◌, ◌++◌, Option, none, some, if◌then◌else◌, concat,
}
use trpc_proto.Base.Text.{Text, codes, text_eq, split}
use trpc_proto.Utility.Case.{to_pascal_case}
use trpc_proto.Schema.Types.{
  ProcedureType, query, mutation, subscription, ProtoMethod, ProtoService, Properties, empty,
  ProtoSchema, OptionValue,
}
use trpc_proto.Schema.WellKnown.{proto_service_name}
use trpc_proto.Schema.Validate.{ProtoFileHeader}
use trpc_proto.Schema.Zod.Errors.{Translated, ok, err}
use trpc_proto.Schema.Zod.{ZodGraph, or_else, get_or}
use trpc_proto.Schema.Translate.{Translator, Translation, pure, ◌>>=◌, of_list}
use trpc_proto.Schema.Translate.Rpc.{rpc_message_type}

pub record RuntimeProcedure : Type 0 where
  pub path : Text
  pub type : ProcedureType
  pub input : Option ℕ
  pub output : Option ℕ

-- All but the last part of a path, in Pascal case.
abbrev pub service_parts : List Text → List Text
service_parts [] = []
service_parts (part ∷ []) = []
service_parts (part ∷ next ∷ parts) = to_pascal_case part ∷ service_parts (next ∷ parts)

unfoldable pub service_name : Text → Text
service_name path = elim (split b'.' path) [
  | part ∷ [] ↦ codes "App"
  | parts ↦ concat (service_parts parts)
]

-- `path.split('.').at(-1) ?? path`.
abbrev pub last_or : Text → List Text → Text
last_or path [] = path
last_or path (part ∷ parts) = last_or part parts

unfoldable pub method_name : Text → Text
method_name path = to_pascal_case (last_or path (split b'.' path))

-- A `Map` from services to their methods, in the order of insertion.
abbrev pub Services : Type 0
Services = List (Text × List ProtoMethod)

unfoldable pub add_method : Text → ProtoMethod → Services → Services
add_method service method [] = (service, method ∷ []) ∷ []
add_method service method ((name, methods) ∷ services) =
    if text_eq name service
    then (name, methods ++ (method ∷ [])) ∷ services
    else (name, methods) ∷ add_method service method services

abbrev pub is_subscription : ProcedureType → Bool
is_subscription subscription = true
is_subscription query = false
is_subscription mutation = false

-- packages/schema_ir/src/zod/async_iterable.ts.
unfoldable pub async_iterable_yield_schema : ZodGraph → ℕ → Option ℕ
async_iterable_yield_schema g zod = (g.node zod).yield_schema

-- The schema of what a subscription yields, where its output has one.
abbrev streamed_output : ZodGraph → RuntimeProcedure → Option ℕ
streamed_output g p = elim (p.output) [
  | none ↦ none
  | some zod ↦
      if is_subscription p.type
      then elim (async_iterable_yield_schema g zod) [ some inner ↦ some inner | none ↦ some zod ]
      else some zod
]

-- One round of the loop of `run`.
unfoldable pub run_procedure : ℕ → ZodGraph → RuntimeProcedure → Translation ProtoMethod
run_procedure depth g p = do
  let rpc : Text = service_name p.path ++ method_name p.path
  request_type ← rpc_message_type depth g p.input (rpc ++ codes "Request")
  response_type ← rpc_message_type depth g (streamed_output g p) (rpc ++ codes "Response")
  pure (record {
    name = method_name p.path;
    path = p.path;
    type = p.type;
    request_type = request_type;
    response_type = response_type;
    is_response_streaming = is_subscription p.type;
  })

unfoldable pub run : ℕ → ZodGraph → List RuntimeProcedure → Services → Translation Services
run depth g [] services = pure services
run depth g (p ∷ procedures) services = do
  method ← run_procedure depth g p
  run depth g procedures (add_method (service_name p.path) method services)

unfoldable pub proto_services : Services → List ProtoService
proto_services [] = []
proto_services ((name, methods) ∷ services) =
    record { name = proto_service_name name; methods = methods } ∷ proto_services services

pub record TranslateOptions : Type 0 where
  pub proto : Option ProtoFileHeader
  pub package_name : Option Text
  pub generate_cache : Option Properties

-- `options.proto?.package`.
abbrev header_package : Option ProtoFileHeader → Option Text
header_package none = none
header_package (some header) = header.package_name

-- `options.proto?.options`, none of them if they are missing.
abbrev header_options : Option ProtoFileHeader → List (Text × OptionValue)
header_options none = []
header_options (some header) = get_or header.options []

abbrev pub new_translator : Properties → Translator
new_translator cache = record {
  messages = [];
  enums = [];
  cache = cache;
  seen_messages = [];
  seen_enums = [];
  building = [];
}

abbrev pub schema_of : TranslateOptions → Services × Translator → ProtoSchema
schema_of options (services, s) = record {
  package_name =
      get_or (or_else (header_package options.proto) options.package_name) (codes "trpc");
  services = proto_services services;
  message_list = of_list s.messages;
  enums = s.enums;
  options = header_options options.proto;
  generate_cache = some s.cache;
}

abbrev pub finish_schema :
    TranslateOptions → Translated (Services × Translator) → Translated ProtoSchema
finish_schema options (err e) = err e
finish_schema options (ok (services, s)) = ok (schema_of options (services, s))

unfoldable pub translate :
    ℕ → ZodGraph → List RuntimeProcedure → TranslateOptions → Translated ProtoSchema
unfolding run
translate depth g procedures options =
    finish_schema options
      (run depth g procedures [] (new_translator (get_or options.generate_cache empty)))

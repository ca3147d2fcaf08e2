-- ===== src/Schema/Validate/Examples.antt =====
-- A router that passes, and one that does not.
use trpc_proto.Base.{all, ◌≡◌, ◌↔◌, refl, Bool, true, false, [], ◌∷◌, ◌++◌, Option, none, some}
use trpc_proto.Base.Text.{Text, codes, split, trim_end, is_space}
use trpc_proto.Schema.Validate.{
  ProtoFileHeader, ProtoProcedureCheck, ProtoPrevalidateInput, Stringify, lacks_package,
  other_syntax, overrides, prevalidate, is_error, format_issues, assert_prevalidate,
}
use trpc_proto.Schema.Validate.Laws.{IsValid, assert_prevalidate_iff}

-- Stands for JSON: the package in quotes.
abbrev name_of : Option Text → Text
name_of none = []
name_of (some name) = name

abbrev quoted : Stringify
quoted = record {
  header = λ (h : ProtoFileHeader). name_of h.package_name;
  text = λ t. codes "\"" ++ (t ++ codes "\"");
}

abbrev header : ProtoFileHeader
header = record {
  package_name = some (codes "a.v1");
  syntax = none;
  schema_path = none;
  cache = none;
  options = none;
}

abbrev procedure : Bool → ProtoProcedureCheck
procedure has_output = record {
  path = codes "user.get";
  has_output = has_output;
  proto = some header;
}

abbrev input : Bool → ProtoPrevalidateInput
input has_output = record { default_proto = some header; procedures = procedure has_output ∷ [] }

refused_text :
    assert_prevalidate (prevalidate quoted (input false)) (some (codes "r.ts"))
    ≡ some (
        codes
          "r.ts\nerror: procedure user.get missing required output\n  get: t.procedure\n    .output(z.object({ ok: z.boolean() }))\n    .query(...)")
unfolding assert_prevalidate prevalidate lacks_package other_syntax overrides format_issues trim_end
    is_space split
refused_text = refl

assert_prevalidate_iff_example :
    ((assert_prevalidate (prevalidate quoted (input true)) none ≡ none)
      ↔ IsValid quoted (input true))
    × ((prevalidate quoted (input true) ≡ []) ↔ IsValid quoted (input true))
    × (all is_error (prevalidate quoted (input true)) ≡ true)
assert_prevalidate_iff_example = assert_prevalidate_iff quoted (input true) none

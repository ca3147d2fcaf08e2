-- ===== src/Schema/Translate/Sound.antt =====
-- What a schema that is generated from a router promises.
use trpc_proto.Base.{ℕ, ◌≡◌, ◌≢◌, refl, List, none, some, arith, Option-cases, inl, inr, All}
use trpc_proto.Schema.Types.{ProtoSchema}
use trpc_proto.Schema.Validate.{ProtoFileHeader, Stringify}
use trpc_proto.Schema.Validate.Laws.{IsValid, assert_prevalidate_iff}
use trpc_proto.Schema.Zod.Errors.{Translated, ok, err}
use trpc_proto.Schema.Zod.{ZodGraph}
use trpc_proto.Schema.Translate.Run.{RuntimeProcedure, translate}
use trpc_proto.Schema.Translate.Router.{
  Router, list_procedures, checked, prevalidate_router, no_header, generated, generated_of,
  translate_router, schema_from_router, translate_listed, options_of,
}
use trpc_proto.Schema.Translate.Closed.Run.{IsClosed, translate-IsClosed}
use trpc_proto.Schema.Translate.Names.{Served, translate-Served}

-- The schema of a router that passed the checks.
pub record Promises (stringify : Stringify) (router : Router) (schema : ProtoSchema) : Type 0 where
  pub valid : IsValid stringify (checked router)
  pub procedures : List RuntimeProcedure
  pub listed : list_procedures router.procedures ≡ ok procedures
  pub served : All (Served schema) procedures
  pub closed : IsClosed schema

module _ (stringify : Stringify) (depth : ℕ) (g : ZodGraph) where
  generated-ok :
      (r : Translated ProtoSchema) {schema : ProtoSchema}
      → generated_of r ≡ generated schema
      → r ≡ ok schema
  generated-ok r e = ground arith

  ended-header : (r : Translated ProtoSchema) → generated_of r ≢ no_header
  ended-header (ok schema) e = cc
  ended-header (err x) e = cc

  translate_router-Promises :
      (header : ProtoFileHeader) (router : Router) {schema : ProtoSchema}
      → IsValid stringify (checked router)
      → translate_router depth g header router ≡ generated schema
      → Promises stringify router schema
  translate_router-Promises header router {schema} valid e =
      go (list_procedures router.procedures) refl e
    where
      go :
          (r : Translated (List RuntimeProcedure))
          → list_procedures router.procedures ≡ r
          → translate_listed depth g header r ≡ generated schema
          → Promises stringify router schema
      go (err x) l h = absurd (cc)
      go (ok procedures) l h =
          let translated = generated-ok (translate depth g procedures (options_of header)) h in
          record {
            valid = valid;
            procedures = procedures;
            listed = l;
            served = translate-Served depth g procedures (options_of header) translated;
            closed = translate-IsClosed depth g procedures (options_of header) translated;
          }

  validated-header :
      (router : Router)
      → IsValid stringify (checked router)
      → (header : ProtoFileHeader) × (router.proto ≡ some header)
  validated-header router valid = (valid.header, valid.there)

  -- If generating from a router returns a schema, then the router passed the validation, its procedures
  -- could be listed, each of them has a method in the schema under the names that the runtime looks it
  -- up by, and the types that it names are there: of the schema, of protobuf, or sub messages of the
  -- message that names them. Exempt from that are the fields of a top-level message whose one field is
  -- `value`, which can name a type that is missing.
  pub schema_from_router-Promises :
      (router : Router) {schema : ProtoSchema}
      → schema_from_router stringify depth g router ≡ generated schema
      → Promises stringify router schema
  unfolding schema_from_router
  schema_from_router-Promises router e =
      elim (Option-cases (prevalidate_router stringify router none)) [
        | inl passed ↦
            let valid = (assert_prevalidate_iff stringify (checked router) none).0.0 passed in
            let (header, there) = validated-header router valid in
            translate_router-Promises header router valid (ground (arith, passed, there))
        | inr (message, refused) ↦ absurd (ground (arith, refused))
      ]

  translated-header :
      (header : ProtoFileHeader) (r : Translated (List RuntimeProcedure))
      → translate_listed depth g header r ≢ no_header
  translated-header header (err x) e = cc
  translated-header header (ok procedures) e =
      ended-header (translate depth g procedures (options_of header)) e

  -- Generating never gets to a router without a header: the validation refuses such a router.
  pub schema_from_router-no_header :
      (router : Router) → schema_from_router stringify depth g router ≢ no_header
  unfolding schema_from_router
  schema_from_router-no_header router e =
      elim (Option-cases (prevalidate_router stringify router none)) [
        | inl passed ↦
            let valid = (assert_prevalidate_iff stringify (checked router) none).0.0 passed in
            let (header, there) = validated-header router valid in
            translated-header header (list_procedures router.procedures)
              (ground (arith, passed, there))
        | inr (message, refused) ↦ absurd (ground (arith, refused))
      ]

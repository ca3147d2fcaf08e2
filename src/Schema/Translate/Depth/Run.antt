-- ===== src/Schema/Translate/Depth/Run.antt =====
-- Translating schemas that have a rank does not nest too deeply.
use trpc_proto.Base.{
  ℕ, ◌<◌, ◌≡◌, ◌≢◌, List, [], ◌∷◌, Option, none, some, arith, All, Bool-cases, Option-cases, inl,
  inr,
}
use trpc_proto.Base.Text.{Text}
use trpc_proto.Schema.Types.{ProtoSchema}
use trpc_proto.Schema.Zod.Errors.{TranslateError, too_deep, Translated, err}
use trpc_proto.Schema.Zod.{ZodKind, z_object, z_union, ZodNode, ZodGraph, truthy, unwrap}
use trpc_proto.Schema.Zod.Scalars.{proto_type_name, is_empty_type, object_of}
use trpc_proto.Schema.Translate.{Translator, has_message}
use trpc_proto.Schema.Translate.Fields.{map_field}
use trpc_proto.Schema.Translate.Rpc.{
  wrapper_number, wrap_new, wrap_scalar, known_name, map_single, rpc_scalar, rpc_object, rpc_union,
  rpc_kind, rpc_named, rpc_message_type,
}
use trpc_proto.Schema.Translate.Run.{
  RuntimeProcedure, TranslateOptions, Services, run_procedure, run, finish_schema, translate,
}
use trpc_proto.Schema.Translate.Post.{returns, throws, ◌⟫◌}
use trpc_proto.Schema.Translate.Depth.{
  Ranked, NotDeep, Shallow, by_error, lift-Shallow, known-NotDeep, map_literal-NotDeep, Below,
  Below-le,
}
use trpc_proto.Schema.Translate.Depth.Objects.{
  convert_object-Shallow, convert_discriminated_union-Shallow,
}
use trpc_proto.Schema.Translate.Depth.Fields.{message_name-Shallow, map_field-MapsBelow}

map_single-NotDeep : (n : ZodNode) (e : TranslateError) → map_single n ≡ err e → NotDeep e
map_single-NotDeep n e h d = ground (arith, map_literal-NotDeep n e)

wrapper_number-Shallow :
    (name type_name : Text) (s : Translator) → Shallow (wrapper_number name type_name s)
unfolding wrapper_number
wrapper_number-Shallow name type_name s = by_error _ (λ e h d. ground arith)

err-injective : (x y : TranslateError) → ◌≡◌ {A = Translated ProtoSchema} (err x) (err y) → x ≡ y
err-injective x y e = cc

module _ {g : ZodGraph} {rank : ℕ → ℕ} (r : Ranked g rank) (depth : ℕ)
    (low : (zod : ℕ) → rank zod < depth) where
  wrap_new-Shallow :
      (name : Text) (zod : ℕ) (s : Translator) → Shallow (wrap_new depth g name zod s)
  wrap_new-Shallow name zod s = map_field-MapsBelow depth r zod name _ s (low zod) ⟫ λ mapped s1 _.
      wrapper_number-Shallow name (proto_type_name mapped.type) s1 ⟫ λ number s2 _. returns tt

  wrap_scalar-Shallow :
      (name : Text) (zod : ℕ) (s : Translator) → Shallow (wrap_scalar depth g name zod s)
  unfolding wrap_scalar
  wrap_scalar-Shallow name zod s = elim (Bool-cases (has_message name s.messages)) [
    | inl there ↦ rw there (returns tt)
    | inr new ↦ rw new (wrap_new-Shallow name zod s)
  ]

  rpc_scalar-Shallow :
      (zod inner : ℕ) (fallback : Text) (s : Translator)
      → Shallow (rpc_scalar depth g zod inner fallback s)
  unfolding rpc_scalar
  rpc_scalar-Shallow zod inner fallback s =
      lift-Shallow _ s (map_single-NotDeep (g.node inner)) ⟫ λ mapped s1 _.
      elim (Option-cases (known_name mapped)) [
        | inl other ↦ rw other (wrap_scalar-Shallow fallback zod s1 ⟫ λ u s2 _. returns tt)
        | inr (name, known) ↦ rw known (returns tt)
      ]

  shape-low : (inner : ℕ) → Below rank depth (object_of g inner).shape
  unfolding object_of
  shape-low inner = Below-le rank (rank inner) depth _ (omega (arith, low inner)) (r.of_shape inner)

  options-low : (options : List ℕ) → All (λ o. rank o < depth) options
  options-low [] = tt
  options-low (o ∷ options) = (low o, options-low options)

  rpc_object-Shallow :
      (inner : ℕ) (fallback : Text) (s : Translator) → Shallow (rpc_object depth g inner fallback s)
  rpc_object-Shallow inner fallback s = message_name-Shallow g inner fallback s ⟫ λ name s1 _.
      convert_object-Shallow r depth (map_field depth g) (map_field-MapsBelow depth r)
        (object_of g inner) name s1 (shape-low inner)
      ⟫ λ u s2 _. returns tt

  rpc_union-Shallow :
      (inner : ℕ) (discriminator fallback : Text) (s : Translator)
      → Shallow (rpc_union depth g inner discriminator fallback s)
  rpc_union-Shallow inner discriminator fallback s =
      message_name-Shallow g inner fallback s ⟫ λ name s1 _.
      convert_discriminated_union-Shallow r depth (map_field depth g) (map_field-MapsBelow depth r)
        inner name discriminator s1 (options-low _)
      ⟫ λ u s2 _. returns tt

  rpc_kind-Shallow :
      (kind : ZodKind) (zod inner : ℕ) (fallback : Text) (s : Translator)
      → Shallow (rpc_kind depth g kind zod inner fallback s)
  unfolding rpc_kind
  rpc_kind-Shallow z_object zod inner fallback s = rpc_object-Shallow inner fallback s
  rpc_kind-Shallow z_union zod inner fallback s =
      elim (Bool-cases (truthy (g.node inner).discriminator)) [
        | inl tagged ↦ rw tagged (rpc_union-Shallow inner _ fallback s)
        | inr plain ↦ rw plain (rpc_scalar-Shallow zod inner fallback s)
      ]
  rpc_kind-Shallow _ zod inner fallback s = rpc_scalar-Shallow zod inner fallback s

  rpc_named-Shallow :
      (zod inner : ℕ) (fallback : Text) (s : Translator)
      → Shallow (rpc_named depth g zod inner fallback s)
  unfolding rpc_named
  rpc_named-Shallow zod inner fallback s =
      lift-Shallow _ s (known-NotDeep (g.node inner)) ⟫ λ known s1 _.
      elim (Bool-cases (truthy known)) [
        | inl there ↦ rw there (returns tt)
        | inr other ↦ rw other (rpc_kind-Shallow (g.node inner).type zod inner fallback s1)
      ]

  rpc_message_type-Shallow :
      (zod : Option ℕ) (fallback : Text) (s : Translator)
      → Shallow (rpc_message_type depth g zod fallback s)
  unfolding rpc_message_type
  rpc_message_type-Shallow none fallback s = returns tt
  rpc_message_type-Shallow (some zod) fallback s =
      elim (Bool-cases (is_empty_type (g.node (unwrap g zod)))) [
        | inl e ↦ rw e (returns tt)
        | inr other ↦ rw other (rpc_named-Shallow zod (unwrap g zod) fallback s)
      ]

  run_procedure-Shallow :
      (p : RuntimeProcedure) (s : Translator) → Shallow (run_procedure depth g p s)
  unfolding run_procedure
  run_procedure-Shallow p s = rpc_message_type-Shallow p.input _ s ⟫ λ request s1 _.
      rpc_message_type-Shallow _ _ s1 ⟫ λ response s2 _. returns tt

  run-Shallow :
      (procedures : List RuntimeProcedure) (services : Services) (s : Translator)
      → Shallow (run depth g procedures services s)
  unfolding run
  run-Shallow [] services s = returns tt
  run-Shallow (p ∷ procedures) services s =
      run_procedure-Shallow p s ⟫ λ m s1 _. run-Shallow procedures _ s1

  finished-NotDeep :
      (options : TranslateOptions) (result : Translated (Services × Translator))
      → Shallow result
      → finish_schema options result ≢ err too_deep
  finished-NotDeep options _ (returns h) e = cc
  finished-NotDeep options _ (throws {e = x} h) e = h (err-injective x too_deep e)

  -- If the nodes of the graph have a rank that falls from each node to the parts that the generator
  -- reads of it, and does not rise to what a wrapper wraps, and the depth is above every rank, then
  -- translating procedures does not fail for too deep a nesting of calls. An array, set, record, map
  -- or intersection that lacks a part is read as that part itself, so a graph with one has no such
  -- rank; a set of Zod lacks its element.
  pub translate-NotDeep :
      (procedures : List RuntimeProcedure) (options : TranslateOptions)
      → translate depth g procedures options ≢ err too_deep
  unfolding translate
  translate-NotDeep procedures options = finished-NotDeep options _ (run-Shallow procedures [] _)

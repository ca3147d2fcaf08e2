-- ===== src/Schema/Translate/Depth/Fields.antt =====
-- Fields of schemas that are not recursive are mapped without nesting too deeply.
use trpc_proto.Base.{
  ℕ, zero, suc, ◌<◌, ◌≤◌, ◌≡◌, refl, ◌&&◌, List, [], ◌∷◌, arith, All, Bool-cases, inl, inr, all,
}
use trpc_proto.Base.Text.{Text}
use trpc_proto.Schema.Zod.Errors.{TranslateError, err}
use trpc_proto.Schema.Zod.{
  ZodKind, z_array, z_set, z_object, z_enum, z_record, z_map, z_tuple, z_intersection, z_union,
  z_literal, ZodNode, ZodGraph, get_or, truthy, unwrap, proto_message_name_of,
}
use trpc_proto.Schema.Zod.Scalars.{ZodObject, object_of, is_empty_type}
use trpc_proto.Schema.Translate.{Translator, message_name, enum_name, convert_enum}
use trpc_proto.Schema.Translate.Objects.{FieldMapper}
use trpc_proto.Schema.Translate.Fields.{
  is_any, is_object, is_literal, named_object, map_object, map_enum, map_map, indexed, map_tuple,
  map_intersection, map_variants, meaningful, map_options, map_union, map_element, map_leaf,
  map_kind, map_field,
}
use trpc_proto.Schema.Translate.Post.{returns, throws, ◌⟫◌}
use trpc_proto.Schema.Translate.Depth.{
  Ranked, NotDeep, Shallow, by_error, lift-Shallow, known-NotDeep, map_literal-NotDeep,
  map_key_scalar-NotDeep, unwrap-rank, Below, Below-le, Below-spread,
}
use trpc_proto.Schema.Translate.Depth.Objects.{
  MapsBelow, convert_message-Shallow, convert_object-Shallow, convert_variants-Shallow,
  convert_discriminated_union-Shallow,
}

pub message_name-Shallow :
    (g : ZodGraph) (zod : ℕ) (fallback : Text) (s : Translator)
    → Shallow (message_name g zod fallback s)
unfolding message_name
message_name-Shallow g zod fallback s =
    by_error _ (λ e h d. ground (arith, known-NotDeep (g.node zod) e))

enum_name-NotDeep : (n : ZodNode) (e : TranslateError) → enum_name n ≡ err e → NotDeep e
unfolding enum_name
enum_name-NotDeep n e h d = ground arith

convert_enum-Shallow :
    (g : ZodGraph) (zod : ℕ) (name : Text) (s : Translator) → Shallow (convert_enum g zod name s)
unfolding convert_enum
convert_enum-Shallow g zod name s =
    by_error _ (λ e h d. ground (arith, enum_name-NotDeep (g.node zod) e))

map_enum-Shallow :
    (g : ZodGraph) (inner : ℕ) (parent field_name : Text) (s : Translator)
    → Shallow (map_enum g inner parent field_name s)
unfolding map_enum
map_enum-Shallow g inner parent field_name s =
    convert_enum-Shallow g inner _ s ⟫ λ type s1 _. returns tt

module _ {g : ZodGraph} {rank : ℕ → ℕ} (r : Ranked g rank) (n : ℕ) (map_field : FieldMapper)
    (maps : MapsBelow rank n map_field) (inner : ℕ) (low : rank inner ≤ n) where
  shape-Below : (zod : ℕ) → rank zod ≤ n → Below rank n (g.node zod).shape
  shape-Below zod h = Below-le rank (rank zod) n _ h (r.of_shape zod)

  indexed-Below :
      (i : ℕ) (items : List ℕ)
      → All (λ j. rank j < rank inner) items
      → Below rank n (indexed i items)
  indexed-Below i [] h = tt
  indexed-Below i (item ∷ items) (h, hs) = (omega arith, indexed-Below (suc i) items hs)

  options-low :
      (options : List ℕ) → All (λ j. rank j < rank inner) options → All (λ j. rank j < n) options
  options-low [] h = tt
  options-low (o ∷ options) (h, hs) = (omega arith, options-low options hs)

  meaningful-low :
      (options : List ℕ)
      → All (λ j. rank j < n) options
      → All (λ j. rank j < n) (meaningful g options)
  meaningful-low [] h = tt
  meaningful-low (o ∷ options) (h, hs) = elim (Bool-cases (is_empty_type (g.node (unwrap g o)))) [
    | inl e ↦ rw e (meaningful-low options hs)
    | inr other ↦ rw other (omega (arith, unwrap-rank r o), meaningful-low options hs)
  ]

  named_object-Shallow :
      (zod : ZodObject) (parent field_name : Text) (s : Translator)
      → Below rank n zod.shape
      → Shallow (named_object g map_field inner zod parent field_name s)
  unfolding named_object
  named_object-Shallow zod parent field_name s h =
      elim (Bool-cases (truthy (proto_message_name_of (g.node inner)))) [
        | inl named ↦ rw named (
            message_name-Shallow g inner _ s ⟫ λ name s1 _.
            convert_object-Shallow r n map_field maps zod name s1 h ⟫ λ u s2 _. returns tt)
        | inr anonymous ↦
            rw anonymous
              (convert_message-Shallow r n map_field maps zod _ _ s h ⟫ λ m s1 _. returns tt)
      ]

  map_object-Shallow :
      (parent field_name : Text) (s : Translator)
      → Shallow (map_object g map_field inner parent field_name s)
  unfolding map_object object_of
  map_object-Shallow parent field_name s =
      lift-Shallow _ s (known-NotDeep (g.node inner)) ⟫ λ known s1 _.
      elim (Bool-cases (truthy known)) [
        | inl there ↦ rw there (returns tt)
        | inr other ↦
            rw other (
              named_object-Shallow (object_of g inner) parent field_name s1 (shape-Below inner low))
      ]

  map_map-Shallow :
      (parent field_name : Text) (s : Translator)
      → rank (get_or (g.node inner).value_type inner) < n
      → Shallow (map_map g map_field inner parent field_name s)
  unfolding map_map
  map_map-Shallow parent field_name s h =
      elim (Bool-cases (is_any (g.node (unwrap g (get_or (g.node inner).value_type inner))).type)) [
        | inl any_value ↦ rw any_value (returns tt)
        | inr other ↦ rw other (
            lift-Shallow _ s (map_key_scalar-NotDeep g _) ⟫ λ key s1 _.
            maps _ parent field_name s1 h ⟫ λ value s2 _. returns tt)
      ]

  map_tuple-Shallow :
      (parent field_name : Text) (s : Translator)
      → Shallow (map_tuple g map_field inner parent field_name s)
  unfolding map_tuple
  map_tuple-Shallow parent field_name s =
      convert_message-Shallow r n map_field maps _ _ _ s (indexed-Below 0 _ (r.of_items inner))
      ⟫ λ m s1 _. returns tt

  map_intersection-Shallow :
      (parent field_name : Text) (s : Translator)
      → (g.node inner).type ≡ z_intersection
      → Shallow (map_intersection g map_field inner parent field_name s)
  unfolding map_intersection
  map_intersection-Shallow parent field_name s h =
      let (left, right) = r.of_sides inner h in
      elim (Bool-cases (
        is_object (g.node (get_or (g.node inner).left inner)).type
        && is_object (g.node (get_or (g.node inner).right inner)).type)) [
          | inl objects ↦ rw objects (
              named_object-Shallow _ parent field_name s (
                Below-spread rank n _ _ (shape-Below _ (omega arith))
                  (shape-Below _ (omega arith))))
          | inr other ↦ rw other (throws (λ d. cc))
        ]

  map_variants-Shallow :
      (discriminator parent field_name : Text) (s : Translator)
      → Shallow (map_variants g map_field inner discriminator parent field_name s)
  unfolding map_variants
  map_variants-Shallow discriminator parent field_name s =
      let h = options-low _ (r.of_options inner) in
      elim (Bool-cases (truthy (proto_message_name_of (g.node inner)))) [
        | inl named ↦ rw named (
            message_name-Shallow g inner _ s ⟫ λ name s1 _.
            convert_discriminated_union-Shallow r n map_field maps inner name discriminator s1 h
            ⟫ λ u s2 _. returns tt)
        | inr anonymous ↦ rw anonymous (
            convert_variants-Shallow r n map_field maps inner _ discriminator _ s h ⟫ λ m s1 _.
            returns tt)
      ]

  map_options-Shallow :
      (options : List ℕ) (parent field_name : Text) (s : Translator)
      → All (λ j. rank j < n) options
      → Shallow (map_options g map_field inner options parent field_name s)
  map_options-Shallow [] parent field_name s h = throws (λ d. cc)
  map_options-Shallow (option ∷ []) parent field_name s h = maps option parent field_name s h.0
  map_options-Shallow (option ∷ next ∷ options) parent field_name s h =
      elim (Bool-cases (all (λ o. is_literal (g.node o).type) (option ∷ next ∷ options))) [
        | inl literals ↦ rw literals (map_enum-Shallow g inner parent field_name s)
        | inr other ↦ rw other (throws (λ d. cc))
      ]

  map_union-Shallow :
      (parent field_name : Text) (s : Translator)
      → Shallow (map_union g map_field inner parent field_name s)
  unfolding map_union
  map_union-Shallow parent field_name s = elim (Bool-cases (truthy (g.node inner).discriminator)) [
    | inl tagged ↦ rw tagged (map_variants-Shallow _ parent field_name s)
    | inr plain ↦ rw plain (
        map_options-Shallow _ parent field_name s
          (meaningful-low _ (options-low _ (r.of_options inner))))
  ]

  map_element-Shallow :
      (parent field_name : Text) (s : Translator)
      → rank (get_or (g.node inner).element inner) < n
      → Shallow (map_element g map_field inner parent field_name s)
  unfolding map_element
  map_element-Shallow parent field_name s h = maps _ parent field_name s h ⟫ λ m s1 _. returns tt

  map_leaf-Shallow :
      (parent field_name : Text) (s : Translator) → Shallow (map_leaf g inner parent field_name s)
  map_leaf-Shallow parent field_name s = by_error _ (λ e h d. ground arith)

  map_kind-Shallow :
      (kind : ZodKind) (parent field_name : Text) (s : Translator)
      → (g.node inner).type ≡ kind
      → Shallow (map_kind g map_field kind inner parent field_name s)
  unfolding map_kind
  map_kind-Shallow z_array parent field_name s e =
      map_element-Shallow parent field_name s (omega (arith, r.of_element inner (inl e)))
  map_kind-Shallow z_set parent field_name s e =
      map_element-Shallow parent field_name s (omega (arith, r.of_element inner (inr e)))
  map_kind-Shallow z_object parent field_name s e = map_object-Shallow parent field_name s
  map_kind-Shallow z_enum parent field_name s e = map_enum-Shallow g inner parent field_name s
  map_kind-Shallow z_record parent field_name s e =
      map_map-Shallow parent field_name s (omega (arith, r.of_value inner (inl e)))
  map_kind-Shallow z_map parent field_name s e =
      map_map-Shallow parent field_name s (omega (arith, r.of_value inner (inr e)))
  map_kind-Shallow z_tuple parent field_name s e = map_tuple-Shallow parent field_name s
  map_kind-Shallow z_intersection parent field_name s e =
      map_intersection-Shallow parent field_name s e
  map_kind-Shallow z_union parent field_name s e = map_union-Shallow parent field_name s
  map_kind-Shallow z_literal parent field_name s e =
      lift-Shallow _ s (map_literal-NotDeep (g.node inner)) ⟫ λ type s1 _. returns tt
  map_kind-Shallow _ parent field_name s e = map_leaf-Shallow parent field_name s

-- A depth above the rank is enough.
pub map_field-MapsBelow :
    (depth : ℕ) {g : ZodGraph} {rank : ℕ → ℕ}
    → Ranked g rank
    → MapsBelow rank depth (map_field depth g)
unfolding map_field
map_field-MapsBelow zero r zod parent field_name s low = absurd (omega arith)
map_field-MapsBelow (suc depth) {g} r zod parent field_name s low =
    map_kind-Shallow r depth (map_field depth g) (map_field-MapsBelow depth r) (unwrap g zod)
      (omega (arith, unwrap-rank r zod)) (g.node (unwrap g zod)).type parent field_name s refl

-- ===== src/Schema/Translate/Closed/Fields.antt =====
-- Every field is mapped to a type in scope, however deep the calls may nest.
use trpc_proto.Base.{
  ℕ, zero, suc, ◌≡◌, refl, true, ◌&&◌, List, [], ◌∷◌, Bool-cases, Option-cases, inl, inr, all,
}
use trpc_proto.Base.Text.{Text, codes}
use trpc_proto.Schema.WellKnown.{is_well_known_type}
use trpc_proto.Schema.Types.{ProtoScalar, message, map_of}
use trpc_proto.Schema.Zod.{
  ZodKind, ZodGraph, truthy, get_or, unwrap, proto_message_name_of, proto_use_known_type_of,
  z_array, z_set, z_object, z_enum, z_record, z_map, z_tuple, z_intersection, z_union, z_literal,
}
use trpc_proto.Schema.Zod.Scalars.{ZodObject, map_scalar, map_literal}
use trpc_proto.Schema.Translate.{Translator}
use trpc_proto.Schema.Translate.Objects.{Mapped, FieldMapper}
use trpc_proto.Schema.Translate.Fields.{
  repeat, map_value, is_any, is_object, is_literal, named_object, map_object, map_map, map_tuple,
  map_intersection, map_variants, map_options, map_union, map_element, map_leaf, map_kind,
  map_field,
}
use trpc_proto.Schema.Translate.Post.{Ends, returns, throws, ◌⟫◌, weaken, Any}
use trpc_proto.Schema.Translate.Closed.{Scope, closed_type}
use trpc_proto.Schema.Translate.Closed.State.{scope_of, Better, Better-refl, Better-trans}
use trpc_proto.Schema.Translate.Closed.Objects.{
  MapsClosed, MappedClosed, lift-Better, convert_message-Better,
}
use trpc_proto.Schema.Translate.Closed.Hoisted.{convert_object-Better}
use trpc_proto.Schema.Translate.Closed.Variants.{
  convert_variants-Better, convert_discriminated_union-Better,
}
use trpc_proto.Schema.Translate.Closed.Types.{
  singular-MappedClosed, known-MappedClosed, nest-MappedClosed, message_name-Better,
  map_enum-Closed, known_type-closed, known-IsWellKnown, map_scalar-closed, map_literal-closed,
}

struct-closed :
    (scope : Scope) → closed_type scope (message (codes "google.protobuf.Struct")) ≡ true
unfolding closed_type is_well_known_type
struct-closed scope = refl

map_value-MappedClosed :
    (s : Translator) (key : ProtoScalar) (value : Mapped)
    → MappedClosed s value
    → MappedClosed s (map_value (map_of key value.type) value)
map_value-MappedClosed s key value h = record {
  type_closed = unfold closed_type in h.type_closed;
  nested_closed = h.nested_closed;
}

repeat-MappedClosed :
    (s : Translator) (mapped : Mapped) → MappedClosed s mapped → MappedClosed s (repeat mapped)
repeat-MappedClosed s mapped h = record {
  type_closed = h.type_closed;
  nested_closed = h.nested_closed;
}

-- The postcondition of each case.
abbrev Mapping : Translator → Mapped → Translator → Type 0
Mapping s mapped s' = Better s s' × MappedClosed s' mapped

module _ (g : ZodGraph) (map_field : FieldMapper) (maps : MapsClosed map_field) where
  named_object-Closed :
      (inner : ℕ) (zod : ZodObject) (parent field_name : Text) (s : Translator)
      → Ends (Mapping s) Any (named_object g map_field inner zod parent field_name s)
  unfolding named_object
  named_object-Closed inner zod parent field_name s =
      elim (Bool-cases (truthy (proto_message_name_of (g.node inner)))) [
        | inl named ↦ rw named (
            message_name-Better g inner _ s ⟫ λ name s1 b1.
            convert_object-Better g map_field maps zod name s1 ⟫ λ u s2 (b2, known).
            returns (Better-trans b1 b2, known-MappedClosed s2 name known))
        | inr anonymous ↦ rw anonymous (
            convert_message-Better g map_field maps zod _ _ s ⟫ λ m s1 (b1, closed, named).
            returns (b1, nest-MappedClosed s1 _ m closed named))
      ]

  map_object-Closed :
      (inner : ℕ) (parent field_name : Text) (s : Translator)
      → Ends (Mapping s) Any (map_object g map_field inner parent field_name s)
  unfolding map_object
  map_object-Closed inner parent field_name s =
      lift-Better (proto_use_known_type_of (g.node inner)) s ⟫ λ known s1 (b1, e).
      elim (Bool-cases (truthy known)) [
        | inl there ↦ rw there (
            returns (
              b1,
              singular-MappedClosed s1 _
                  (known_type-closed (scope_of s1) _ (known-IsWellKnown (g.node inner) e there)),
            ))
        | inr none_there ↦ rw none_there (
            weaken (λ m s2 (b2, closed). (Better-trans b1 b2, closed))
              (named_object-Closed inner _ parent field_name s1))
      ]

  map_map-Closed :
      (inner : ℕ) (parent field_name : Text) (s : Translator)
      → Ends (Mapping s) Any (map_map g map_field inner parent field_name s)
  unfolding map_map
  map_map-Closed inner parent field_name s =
      elim (Bool-cases (is_any (g.node (unwrap g (get_or (g.node inner).value_type inner))).type)) [
        | inl any_value ↦
            rw any_value
              (returns (Better-refl, singular-MappedClosed s _ (struct-closed (scope_of s))))
        | inr other ↦ rw other (
            lift-Better _ s ⟫ λ key s1 (b1, _). maps _ parent field_name s1 ⟫ λ value s2 (b2, m).
            returns (Better-trans b1 b2, map_value-MappedClosed s2 key value m))
      ]

  map_tuple-Closed :
      (inner : ℕ) (parent field_name : Text) (s : Translator)
      → Ends (Mapping s) Any (map_tuple g map_field inner parent field_name s)
  unfolding map_tuple
  map_tuple-Closed inner parent field_name s =
      convert_message-Better g map_field maps _ _ _ s ⟫ λ m s1 (b1, closed, named).
      returns (b1, nest-MappedClosed s1 _ m closed named)

  map_intersection-Closed :
      (inner : ℕ) (parent field_name : Text) (s : Translator)
      → Ends (Mapping s) Any (map_intersection g map_field inner parent field_name s)
  unfolding map_intersection
  map_intersection-Closed inner parent field_name s =
      elim (Bool-cases (
        is_object (g.node (get_or (g.node inner).left inner)).type
        && is_object (g.node (get_or (g.node inner).right inner)).type)) [
          | inl objects ↦ rw objects (named_object-Closed inner _ parent field_name s)
          | inr other ↦ rw other (throws tt)
        ]

  map_variants-Closed :
      (inner : ℕ) (discriminator parent field_name : Text) (s : Translator)
      → Ends (Mapping s) Any (map_variants g map_field inner discriminator parent field_name s)
  unfolding map_variants
  map_variants-Closed inner discriminator parent field_name s =
      elim (Bool-cases (truthy (proto_message_name_of (g.node inner)))) [
        | inl named ↦ rw named (
            message_name-Better g inner _ s ⟫ λ name s1 b1.
            convert_discriminated_union-Better g map_field maps inner name discriminator s1
            ⟫ λ u s2 (b2, known). returns (Better-trans b1 b2, known-MappedClosed s2 name known))
        | inr anonymous ↦ rw anonymous (
            convert_variants-Better g map_field maps inner _ discriminator _ s
            ⟫ λ m s1 (b1, closed, named). returns (b1, nest-MappedClosed s1 _ m closed named))
      ]

  map_options-Closed :
      (inner : ℕ) (options : List ℕ) (parent field_name : Text) (s : Translator)
      → Ends (Mapping s) Any (map_options g map_field inner options parent field_name s)
  map_options-Closed inner [] parent field_name s = throws tt
  map_options-Closed inner (option ∷ []) parent field_name s = maps option parent field_name s
  map_options-Closed inner (option ∷ next ∷ options) parent field_name s =
      elim (Bool-cases (all (λ o. is_literal (g.node o).type) (option ∷ next ∷ options))) [
        | inl literals ↦ rw literals (map_enum-Closed g inner parent field_name s)
        | inr other ↦ rw other (throws tt)
      ]

  map_union-Closed :
      (inner : ℕ) (parent field_name : Text) (s : Translator)
      → Ends (Mapping s) Any (map_union g map_field inner parent field_name s)
  unfolding map_union
  map_union-Closed inner parent field_name s =
      elim (Bool-cases (truthy (g.node inner).discriminator)) [
        | inl tagged ↦ rw tagged (map_variants-Closed inner _ parent field_name s)
        | inr plain ↦ rw plain (map_options-Closed inner _ parent field_name s)
      ]

  map_element-Closed :
      (inner : ℕ) (parent field_name : Text) (s : Translator)
      → Ends (Mapping s) Any (map_element g map_field inner parent field_name s)
  unfolding map_element
  map_element-Closed inner parent field_name s = maps _ parent field_name s ⟫ λ m s1 (b1, closed).
      returns (b1, repeat-MappedClosed s1 m closed)

  map_leaf-Closed :
      (inner : ℕ) (parent field_name : Text) (s : Translator)
      → Ends (Mapping s) Any (map_leaf g inner parent field_name s)
  map_leaf-Closed inner parent field_name s = elim (Option-cases (map_scalar (g.node inner))) [
    | inl other ↦ rw (other, map_leaf) (throws tt)
    | inr (type, e) ↦
        rw (e, map_leaf)
          (returns (
            Better-refl,
            singular-MappedClosed s type (map_scalar-closed (g.node inner) (scope_of s) e),
          ))
  ]

  map_kind-Closed :
      (kind : ZodKind) (inner : ℕ) (parent field_name : Text) (s : Translator)
      → Ends (Mapping s) Any (map_kind g map_field kind inner parent field_name s)
  unfolding map_kind
  map_kind-Closed z_array inner parent field_name s = map_element-Closed inner parent field_name s
  map_kind-Closed z_set inner parent field_name s = map_element-Closed inner parent field_name s
  map_kind-Closed z_object inner parent field_name s = map_object-Closed inner parent field_name s
  map_kind-Closed z_enum inner parent field_name s = map_enum-Closed g inner parent field_name s
  map_kind-Closed z_record inner parent field_name s = map_map-Closed inner parent field_name s
  map_kind-Closed z_map inner parent field_name s = map_map-Closed inner parent field_name s
  map_kind-Closed z_tuple inner parent field_name s = map_tuple-Closed inner parent field_name s
  map_kind-Closed z_intersection inner parent field_name s =
      map_intersection-Closed inner parent field_name s
  map_kind-Closed z_union inner parent field_name s = map_union-Closed inner parent field_name s
  map_kind-Closed z_literal inner parent field_name s =
      lift-Better (map_literal (g.node inner)) s ⟫ λ type s1 (b1, e).
      returns
        (b1, singular-MappedClosed s1 type (map_literal-closed (g.node inner) (scope_of s1) e))
  map_kind-Closed _ inner parent field_name s = map_leaf-Closed inner parent field_name s

-- At every depth, a field that is mapped without an error has a type in scope.
pub map_field-MapsClosed : (depth : ℕ) (g : ZodGraph) → MapsClosed (map_field depth g)
unfolding map_field
map_field-MapsClosed zero g zod parent field_name s = throws tt
map_field-MapsClosed (suc depth) g zod parent field_name s =
    map_kind-Closed g (map_field depth g) (map_field-MapsClosed depth g)
      (g.node (unwrap g zod)).type (unwrap g zod) parent field_name s

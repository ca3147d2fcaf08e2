-- ===== src/Schema/Translate/Closed/Rpc.antt =====
-- The types of requests and responses are there.
use trpc_proto.Base.{
  ℕ, ◌≡◌, refl, true, Option, none, some, arith, Bool-cases, Option-cases, inl, inr,
}
use trpc_proto.Base.Text.{Text, codes}
use trpc_proto.Schema.WellKnown.{is_well_known_type}
use trpc_proto.Schema.Types.{ProtoType, message}
use trpc_proto.Proto.Lookup.{is_wrapper}
use trpc_proto.Schema.Zod.{
  ZodKind, z_object, z_union, ZodGraph, truthy, unwrap, proto_use_known_type_of,
}
use trpc_proto.Schema.Zod.Scalars.{proto_type_name, is_empty_type}
use trpc_proto.Schema.Translate.{Translator, has_message, push_message}
use trpc_proto.Schema.Translate.Objects.{Mapped}
use trpc_proto.Schema.Translate.Fields.{map_field}
use trpc_proto.Schema.Translate.Rpc.{
  wrapper_number, wrapper, wrap_new, wrap_scalar, known_name, map_single, rpc_scalar, rpc_object,
  rpc_union, rpc_kind, rpc_named, rpc_message_type,
}
use trpc_proto.Schema.Translate.Post.{Ends, returns, ◌⟫◌, weaken, Any, by_result}
use trpc_proto.Schema.Translate.Closed.{is_bare_wrapper, closed_type}
use trpc_proto.Schema.Translate.Closed.State.{
  scope_of, Better, Better-refl, Better-trans, Better-same, push_message-Better,
}
use trpc_proto.Schema.Translate.Closed.Objects.{lift-Better}
use trpc_proto.Schema.Translate.Closed.Hoisted.{Knows, convert_object-Better}
use trpc_proto.Schema.Translate.Closed.Variants.{convert_discriminated_union-Better}
use trpc_proto.Schema.Translate.Closed.Types.{message_name-Better, known-IsWellKnown}
use trpc_proto.Schema.Translate.Closed.Fields.{map_field-MapsClosed}

-- The type of a request or response is there.
abbrev Naming : Translator → Text → Translator → Type 0
Naming s name s' = Better s s' × (closed_type (scope_of s') (message name) ≡ true)

known-closed :
    (s : Translator) (name : Text) → Knows s name → closed_type (scope_of s) (message name) ≡ true
unfolding closed_type
known-closed s name h = ground arith

well_known-closed :
    (s : Translator) (name : Text)
    → is_well_known_type name ≡ true
    → closed_type (scope_of s) (message name) ≡ true
unfolding closed_type
well_known-closed s name h = ground arith

empty-closed :
    (s : Translator) → closed_type (scope_of s) (message (codes "google.protobuf.Empty")) ≡ true
unfolding is_well_known_type
empty-closed s = well_known-closed s _ refl

wrapper_number-Better :
    (name type_name : Text) (s : Translator)
    → Ends (λ number s'. Better s s') Any (wrapper_number name type_name s)
unfolding wrapper_number
wrapper_number-Better name type_name s =
    by_result _ (λ a s' e. Better-same (ground arith) (ground arith) (ground arith) (ground arith))

known_name-IsWellKnown :
    (type : Option ProtoType) {name : Text}
    → known_name type ≡ some name
    → is_well_known_type name ≡ true
known_name-IsWellKnown type e = ground arith

wrapper-IsBare :
    (g : ZodGraph) (name : Text) (zod : ℕ) (mapped : Mapped) (number : ℕ)
    → is_bare_wrapper (wrapper g name zod mapped number) ≡ true
unfolding is_wrapper
wrapper-IsBare g name zod mapped number = refl

module _ (depth : ℕ) (g : ZodGraph) where
  wrap_new-Naming :
      (name : Text) (zod : ℕ) (s : Translator)
      → Ends (λ u s'. Naming s name s') Any (wrap_new depth g name zod s)
  wrap_new-Naming name zod s = map_field-MapsClosed depth g zod name _ s ⟫ λ mapped s1 (b1, _).
      wrapper_number-Better name (proto_type_name mapped.type) s1 ⟫ λ number s2 b2.
      let bare = wrapper-IsBare g name zod mapped number in
      let (b3, there) = push_message-Better (wrapper g name zod mapped number) s2 (ground arith) in
      returns (
        Better-trans b1 (Better-trans b2 b3),
        known-closed (push_message (wrapper g name zod mapped number) s2) name (ground arith),
      )

  wrap_scalar-Naming :
      (name : Text) (zod : ℕ) (s : Translator)
      → Ends (λ u s'. Naming s name s') Any (wrap_scalar depth g name zod s)
  unfolding wrap_scalar
  wrap_scalar-Naming name zod s = elim (Bool-cases (has_message name s.messages)) [
    | inl there ↦ rw there (returns (Better-refl, known-closed s name (ground arith)))
    | inr new ↦ rw new (wrap_new-Naming name zod s)
  ]

  rpc_scalar-Naming :
      (zod inner : ℕ) (fallback : Text) (s : Translator)
      → Ends (Naming s) Any (rpc_scalar depth g zod inner fallback s)
  unfolding rpc_scalar
  rpc_scalar-Naming zod inner fallback s =
      lift-Better (map_single (g.node inner)) s ⟫ λ mapped s1 (b1, e).
      elim (Option-cases (known_name mapped)) [
        | inl other ↦ rw (other) (
            wrap_scalar-Naming fallback zod s1 ⟫ λ u s2 (b2, there).
            returns (Better-trans b1 b2, there))
        | inr (name, known) ↦
            rw (known)
              (returns (b1, well_known-closed s1 name (known_name-IsWellKnown mapped known)))
      ]

  rpc_object-Naming :
      (inner : ℕ) (fallback : Text) (s : Translator)
      → Ends (Naming s) Any (rpc_object depth g inner fallback s)
  rpc_object-Naming inner fallback s = message_name-Better g inner fallback s ⟫ λ name s1 b1.
      convert_object-Better g (map_field depth g) (map_field-MapsClosed depth g) _ name s1
      ⟫ λ u s2 (b2, there). returns (Better-trans b1 b2, known-closed s2 name there)

  rpc_union-Naming :
      (inner : ℕ) (discriminator fallback : Text) (s : Translator)
      → Ends (Naming s) Any (rpc_union depth g inner discriminator fallback s)
  rpc_union-Naming inner discriminator fallback s =
      message_name-Better g inner fallback s ⟫ λ name s1 b1.
      convert_discriminated_union-Better g (map_field depth g) (map_field-MapsClosed depth g) inner
        name discriminator s1
      ⟫ λ u s2 (b2, there). returns (Better-trans b1 b2, known-closed s2 name there)

  rpc_kind-Naming :
      (kind : ZodKind) (zod inner : ℕ) (fallback : Text) (s : Translator)
      → Ends (Naming s) Any (rpc_kind depth g kind zod inner fallback s)
  unfolding rpc_kind
  rpc_kind-Naming z_object zod inner fallback s = rpc_object-Naming inner fallback s
  rpc_kind-Naming z_union zod inner fallback s =
      elim (Bool-cases (truthy (g.node inner).discriminator)) [
        | inl tagged ↦ rw tagged (rpc_union-Naming inner _ fallback s)
        | inr plain ↦ rw plain (rpc_scalar-Naming zod inner fallback s)
      ]
  rpc_kind-Naming _ zod inner fallback s = rpc_scalar-Naming zod inner fallback s

  rpc_unknown-Naming :
      (zod inner : ℕ) (fallback : Text) (s : Translator)
      → Ends (Naming s) Any (rpc_named depth g zod inner fallback s)
  unfolding rpc_named
  rpc_unknown-Naming zod inner fallback s =
      lift-Better (proto_use_known_type_of (g.node inner)) s ⟫ λ known s1 (b1, e).
      elim (Bool-cases (truthy known)) [
        | inl there ↦
            rw there
              (returns (b1, well_known-closed s1 _ (known-IsWellKnown (g.node inner) e there)))
        | inr none_there ↦ rw none_there (
            weaken (λ name s2 (b2, closed). (Better-trans b1 b2, closed))
              (rpc_kind-Naming (g.node inner).type zod inner fallback s1))
      ]

  -- What `#rpcMessageType` returns is there.
  pub rpc_message_type-Naming :
      (zod : Option ℕ) (fallback : Text) (s : Translator)
      → Ends
          (λ name s'. Better s s' × (closed_type (scope_of s') (message name) ≡ true))
          Any
          (rpc_message_type depth g zod fallback s)
  unfolding rpc_message_type
  rpc_message_type-Naming none fallback s = returns (Better-refl, empty-closed s)
  rpc_message_type-Naming (some zod) fallback s =
      elim (Bool-cases (is_empty_type (g.node (unwrap g zod)))) [
        | inl e ↦ rw e (returns (Better-refl, empty-closed s))
        | inr other ↦ rw other (rpc_unknown-Naming zod (unwrap g zod) fallback s)
      ]

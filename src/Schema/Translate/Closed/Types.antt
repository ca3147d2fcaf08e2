-- ===== src/Schema/Translate/Closed/Types.antt =====
-- Single types in scope: names, enums, scalars and literals.
use trpc_proto.Base.{ℕ, ◌≡◌, refl, true, List, [], ◌∷◌, Option, some, arith, Bool-cases, inl, inr}
use trpc_proto.Base.Text.{Text, text_eq_self}
use trpc_proto.Utility.Case.{to_pascal_case}
use trpc_proto.Schema.WellKnown.{is_well_known_type, well_known_kind}
use trpc_proto.Schema.Types.{ProtoType, enum, message, ProtoMessage}
use trpc_proto.Schema.Zod.Errors.{Translated, ok, err}
use trpc_proto.Schema.Zod.{ZodNode, ZodGraph, truthy, get_or, proto_use_known_type_of}
use trpc_proto.Schema.Zod.Scalars.{map_scalar, map_literal}
use trpc_proto.Schema.Translate.{
  Translator, name_of, declare_enum, seen_name, message_name, enum_name, convert_enum,
}
use trpc_proto.Schema.Translate.Fields.{singular, nest, map_enum, known_type}
use trpc_proto.Schema.Translate.Post.{Ends, returns, throws, ◌⟫◌, Any, by_result}
use trpc_proto.Schema.Translate.Closed.{Scope, closed_type, closed_message, Wider-type}
use trpc_proto.Schema.Translate.Closed.State.{
  scope_of, has_seen, Better, Better-refl, Better-same, declare_enum-Better,
}
use trpc_proto.Schema.Translate.Closed.Objects.{MappedClosed}
use trpc_proto.Schema.Translate.Closed.Hoisted.{Knows}

-- What the scope of the state has needs no nested message.
pub singular-MappedClosed :
    (s : Translator) (type : ProtoType)
    → closed_type (scope_of s) type ≡ true
    → MappedClosed s (singular type)
singular-MappedClosed s type h = record {
  type_closed =
      Wider-type (record { of_messages = λ n k. ground arith; of_enums = λ n k. k }) type h;
  nested_closed = refl;
}

pub known-MappedClosed :
    (s : Translator) (name : Text) → Knows s name → MappedClosed s (singular (message name))
known-MappedClosed s name h =
    singular-MappedClosed s (message name) (unfold closed_type in ground arith)

pub nest-MappedClosed :
    (s : Translator) (name : Text) (m : ProtoMessage)
    → closed_message (scope_of s) m ≡ true
    → name_of m ≡ name
    → MappedClosed s (nest name m)
nest-MappedClosed s name m closed named = record {
  type_closed = unfold closed_type in ground (arith, text_eq_self name);
  nested_closed = ground arith;
}

pub message_name-Better :
    (g : ZodGraph) (zod : ℕ) (fallback : Text) (s : Translator)
    → Ends (λ name s'. Better s s') Any (message_name g zod fallback s)
unfolding message_name
message_name-Better g zod fallback s =
    by_result _ (λ a s' e. Better-same (ground arith) (ground arith) (ground arith) (ground arith))

enum-closed :
    (scope : Scope) (name : Text)
    → scope.has_enums name ≡ true
    → closed_type scope (enum name) ≡ true
unfolding closed_type
enum-closed scope name h = ground arith

seen_name-has_seen :
    (zod : ℕ) (seen : List (ℕ × Text))
    → truthy (seen_name zod seen) ≡ true
    → has_seen (get_or (seen_name zod seen) []) seen ≡ true
seen_name-has_seen zod [] h = absurd (cc)
seen_name-has_seen zod ((i, n) ∷ seen) h =
    ground (arith, text_eq_self n, seen_name-has_seen zod seen)

declared-Closed :
    (g : ZodGraph) (zod : ℕ) (synthesized_name : Text) (s : Translator)
    (r : Translated (Option Text))
    → Ends
        (λ type s'. Better s s' × (closed_type (scope_of s') type ≡ true))
        Any
        (elim r [
          | err e ↦ err e
          | ok named ↦
              let name = get_or named (to_pascal_case synthesized_name) in
              ok (enum name, declare_enum g zod name s)
        ])
declared-Closed g zod synthesized_name s (err e) = throws tt
declared-Closed g zod synthesized_name s (ok named) =
    let (better, there) =
      declare_enum-Better g zod (get_or named (to_pascal_case synthesized_name)) s in
    returns (better, enum-closed _ _ (ground (arith, there)))

pub convert_enum-Better :
    (g : ZodGraph) (zod : ℕ) (synthesized_name : Text) (s : Translator)
    → Ends
        (λ type s'. Better s s' × (closed_type (scope_of s') type ≡ true))
        Any
        (convert_enum g zod synthesized_name s)
unfolding convert_enum
convert_enum-Better g zod synthesized_name s =
    elim (Bool-cases (truthy (seen_name zod s.seen_enums))) [
      | inl cached ↦ rw cached (
          let seen = seen_name-has_seen zod s.seen_enums cached in
          returns (Better-refl, enum-closed (scope_of s) _ (ground (arith, seen))))
      | inr new ↦ rw new (declared-Closed g zod synthesized_name s (enum_name (g.node zod)))
    ]

pub map_enum-Closed :
    (g : ZodGraph) (inner : ℕ) (parent field_name : Text) (s : Translator)
    → Ends
        (λ mapped s'. Better s s' × MappedClosed s' mapped)
        Any
        (map_enum g inner parent field_name s)
unfolding map_enum
map_enum-Closed g inner parent field_name s =
    convert_enum-Better g inner _ s ⟫ λ type s1 (b1, closed).
    returns (b1, singular-MappedClosed s1 type closed)

-- The well-known types are in any scope.
pub known_type-closed :
    (scope : Scope) (known : Text)
    → is_well_known_type known ≡ true
    → closed_type scope (known_type known) ≡ true
unfolding closed_type
known_type-closed scope known h = ground (arith, well_known_kind known)

pub known-IsWellKnown :
    (n : ZodNode) {known : Option Text}
    → proto_use_known_type_of n ≡ ok known
    → truthy known ≡ true
    → is_well_known_type (get_or known []) ≡ true
unfolding proto_use_known_type_of
known-IsWellKnown n e h = ground arith

pub map_scalar-closed :
    (n : ZodNode) (scope : Scope) {type : ProtoType}
    → map_scalar n ≡ some type
    → closed_type scope type ≡ true
unfolding map_scalar closed_type is_well_known_type
map_scalar-closed n scope e = ground arith

pub map_literal-closed :
    (n : ZodNode) (scope : Scope) {type : ProtoType}
    → map_literal n ≡ ok type
    → closed_type scope type ≡ true
unfolding map_literal closed_type
map_literal-closed n scope e = ground arith

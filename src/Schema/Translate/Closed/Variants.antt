-- ===== src/Schema/Translate/Closed/Variants.antt =====
-- Discriminated unions become closed messages: each arm is a sub message.
use trpc_proto.Base.{ℕ, ◌≡◌, refl, true, false, List, [], ◌∷◌, some, arith, Bool-cases, inl, inr}
use trpc_proto.Base.Text.{Text, text_eq_self}
use trpc_proto.Utility.Case.{to_pascal_case}
use trpc_proto.Schema.Allocator.{Allocator}
use trpc_proto.Schema.Types.{message}
use trpc_proto.Schema.Zod.{ZodGraph, zod_comment}
use trpc_proto.Schema.Translate.{
  Translator, modify, continue_with, name_of, has_message, push_message,
}
use trpc_proto.Schema.Translate.Objects.{FieldMapper}
use trpc_proto.Schema.Translate.Variants.{
  convert_arm, convert_arms, convert_variants, convert_discriminated_union,
}
use trpc_proto.Schema.Translate.Post.{Ends, returns, ◌⟫◌, Any}
use trpc_proto.Schema.Translate.Closed.{closed_type, closed_message}
use trpc_proto.Schema.Translate.Closed.State.{
  scope_of, Better, Better-refl, Better-trans, push_message-Better,
}
use trpc_proto.Schema.Translate.Closed.Objects.{
  MapsClosed, MappedClosed, MappedClosed-Better, ConvertedClosed, ConvertedClosed-cons,
  ConvertedClosed-message, open_cache-Better, number_entry-Better, lift-Better,
  convert_message-Better,
}
use trpc_proto.Schema.Translate.Closed.Hoisted.{Knows}

module _ (g : ZodGraph) (map_field : FieldMapper) (maps : MapsClosed map_field) where
  convert_arm-Better :
      (cache_name discriminator : Text) (option : ℕ) (tag : Text) (allocator : Allocator)
      (s : Translator)
      → Ends
          (λ r s'.
            Better s s'
            × MappedClosed s' (record { type = r.0.type; repeated = false; nested = r.1 ∷ [] }))
          Any
          (convert_arm g map_field cache_name discriminator option tag allocator s)
  unfolding convert_arm
  convert_arm-Better cache_name discriminator option tag allocator s =
      convert_message-Better g map_field maps _ (to_pascal_case tag) _ s
      ⟫ λ variant s1 (b1, closed, named).
          number_entry-Better cache_name _ _ allocator s1 ⟫ λ (number, rest) s2 b2. returns (
            Better-trans b1 b2,
            MappedClosed-Better
                {mapped = record {
                  type = message (to_pascal_case tag);
                  repeated = false;
                  nested = variant ∷ [];
                }}
                b2
                (record {
                  type_closed =
                      unfold closed_type in ground (arith, text_eq_self (to_pascal_case tag));
                  nested_closed = ground arith;
                }),
          )

  convert_arms-Better :
      (parent cache_name discriminator : Text) (seen : List Text) (options : List ℕ)
      (allocator : Allocator) (s : Translator)
      → Ends
          (λ c s'. Better s s' × ConvertedClosed s' c)
          Any
          (convert_arms g map_field parent cache_name discriminator seen options allocator s)
  unfolding convert_arms
  convert_arms-Better parent cache_name discriminator seen [] allocator s =
      returns (Better-refl, record { fields_closed = refl; subs_closed = refl })
  convert_arms-Better parent cache_name discriminator seen (option ∷ options) allocator s =
      lift-Better _ s ⟫ λ tag s1 (b1, _).
      convert_arm-Better cache_name discriminator option tag allocator s1
      ⟫ λ (field, variant, rest) s2 (b2, m).
          convert_arms-Better parent cache_name discriminator (to_pascal_case tag ∷ seen) options
            rest s2
          ⟫ λ (fields, subs) s3 (b3, c).
              let m' =
                MappedClosed-Better
                  {mapped = record { type = field.type; repeated = false; nested = variant ∷ [] }}
                  b3 m in
              returns (
                Better-trans b1 (Better-trans b2 b3),
                ConvertedClosed-cons s3 field (variant ∷ []) (fields, subs) m'.type_closed
                    m'.nested_closed c,
              )

  pub convert_variants-Better :
      (zod : ℕ) (name discriminator cache_name : Text) (s : Translator)
      → Ends
          (λ m s'. Better s s' × (closed_message (scope_of s') m ≡ true) × (name_of m ≡ name))
          Any
          (convert_variants g map_field zod name discriminator cache_name s)
  unfolding convert_variants
  convert_variants-Better zod name discriminator cache_name s =
      open_cache-Better cache_name s ⟫ λ allocator s1 b1.
      convert_arms-Better name cache_name discriminator [] (g.node zod).options allocator s1
      ⟫ λ (fields, subs) s2 (b2, c). returns (
        Better-trans b1 b2,
        ConvertedClosed-message s2 (fields, subs) name (zod_comment g zod) (some discriminator) c,
        refl,
      )

  push_variants-Better :
      (zod : ℕ) (name discriminator : Text) (s : Translator)
      → Ends
          (λ u s'. Better s s' × Knows s' name)
          Any
          (continue_with
            (convert_variants g map_field zod name discriminator name s)
            (λ m. modify (push_message m)))
  push_variants-Better zod name discriminator s =
      convert_variants-Better zod name discriminator name s ⟫ λ m s1 (b1, closed, named).
      let (b2, there) = push_message-Better m s1 (ground arith) in
      let known : Knows (push_message m s1) (name_of m) = ground arith in
      returns (Better-trans b1 b2, rw (← named) known)

  pub convert_discriminated_union-Better :
      (zod : ℕ) (name discriminator : Text) (s : Translator)
      → Ends
          (λ u s'. Better s s' × Knows s' name)
          Any
          (convert_discriminated_union g map_field zod name discriminator s)
  unfolding convert_discriminated_union
  convert_discriminated_union-Better zod name discriminator s =
      elim (Bool-cases (has_message name s.messages)) [
        | inl there ↦ rw there (returns (Better-refl, ground arith))
        | inr new ↦ rw new (push_variants-Better zod name discriminator s)
      ]

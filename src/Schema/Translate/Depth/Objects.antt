-- ===== src/Schema/Translate/Depth/Objects.antt =====
-- Objects and unions whose fields have a low rank do not nest too deeply.
use trpc_proto.Base.{
  ℕ, ◌<◌, ◌≡◌, ◌||◌, List, [], ◌∷◌, Option, none, some, arith, All, Bool-cases, inl, inr,
}
use trpc_proto.Base.Text.{Text, has_text}
use trpc_proto.Utility.Case.{to_pascal_case}
use trpc_proto.Schema.Allocator.{Allocator}
use trpc_proto.Schema.Zod.Errors.{TranslateError, err}
use trpc_proto.Schema.Zod.{ZodGraph, unwrap}
use trpc_proto.Schema.Zod.Scalars.{ZodObject, omit_shape_key}
use trpc_proto.Schema.Translate.{Translator, continue_with, modify, has_message, push_message}
use trpc_proto.Schema.Translate.Objects.{
  Mapped, FieldMapper, open_cache, number_entry, check_oneof, convert_field, convert_fields,
  convert_message, build_object, start_building, convert_object,
}
use trpc_proto.Schema.Translate.Variants.{
  check_arm, convert_arm, convert_arms, convert_variants, convert_discriminated_union,
}
use trpc_proto.Schema.Translate.Post.{returns, ◌⟫◌}
use trpc_proto.Schema.Translate.Depth.{
  Ranked, NotDeep, Shallow, by_error, lift-Shallow, proto_oneof_of-NotDeep, unwrap-rank, Below,
  Below-le, Below-without_key,
}

-- What is to be shown of the recursive calls: those at a rank below the bound do not nest too deeply.
abbrev pub MapsBelow : (ℕ → ℕ) → ℕ → FieldMapper → Type 0
MapsBelow rank n map_field =
    (zod : ℕ) (parent field_name : Text) (s : Translator)
    → rank zod < n
    → Shallow (map_field zod parent field_name s)

open_cache-Shallow : (name : Text) (s : Translator) → Shallow (open_cache name s)
unfolding open_cache
open_cache-Shallow name s = by_error _ (λ e h d. ground arith)

number_entry-Shallow :
    (cache_name field_name type_name : Text) (allocator : Allocator) (s : Translator)
    → Shallow (number_entry cache_name field_name type_name allocator s)
unfolding number_entry
number_entry-Shallow cache_name field_name type_name allocator s =
    by_error _ (λ e h d. ground arith)

check_oneof-Shallow :
    (oneof : Option Text) (mapped : Mapped) (parent field_name : Text) (s : Translator)
    → Shallow (check_oneof oneof mapped parent field_name s)
check_oneof-Shallow none mapped parent field_name s = returns tt
check_oneof-Shallow (some oneof) mapped parent field_name s = by_error _ (λ e h d. ground arith)

check_arm-NotDeep :
    (g : ZodGraph) (parent discriminator : Text) (seen : List Text) (arm : ℕ) (e : TranslateError)
    → check_arm g parent discriminator seen arm ≡ err e
    → NotDeep e
unfolding check_arm
check_arm-NotDeep g parent discriminator seen arm e h d = ground arith

module _ {g : ZodGraph} {rank : ℕ → ℕ} (r : Ranked g rank) (n : ℕ) (map_field : FieldMapper)
    (maps : MapsBelow rank n map_field) where
  convert_field-Shallow :
      (parent cache_name key : Text) (value : ℕ) (allocator : Allocator) (s : Translator)
      → rank value < n
      → Shallow (convert_field g map_field parent cache_name key value allocator s)
  unfolding convert_field
  convert_field-Shallow parent cache_name key value allocator s low =
      maps value parent _ s low ⟫ λ mapped s1 _.
      lift-Shallow _ s1 (proto_oneof_of-NotDeep g value) ⟫ λ oneof s2 _.
      check_oneof-Shallow oneof mapped parent _ s2 ⟫ λ u s3 _.
      number_entry-Shallow cache_name _ _ allocator s3 ⟫ λ (number, rest) s4 _. returns tt

  convert_fields-Shallow :
      (parent cache_name : Text) (shape : List (Text × ℕ)) (allocator : Allocator) (s : Translator)
      → Below rank n shape
      → Shallow (convert_fields g map_field parent cache_name shape allocator s)
  unfolding convert_fields
  convert_fields-Shallow parent cache_name [] allocator s low = returns tt
  convert_fields-Shallow parent cache_name ((key, value) ∷ shape) allocator s (low, lows) =
      convert_field-Shallow parent cache_name key value allocator s low
      ⟫ λ (field, nested, rest) s1 _.
          convert_fields-Shallow parent cache_name shape rest s1 lows ⟫ λ (fields, subs) s2 _.
          returns tt

  pub convert_message-Shallow :
      (zod : ZodObject) (name cache_name : Text) (s : Translator)
      → Below rank n zod.shape
      → Shallow (convert_message g map_field zod name cache_name s)
  unfolding convert_message
  convert_message-Shallow zod name cache_name s low =
      open_cache-Shallow cache_name s ⟫ λ allocator s1 _.
      convert_fields-Shallow name cache_name zod.shape allocator s1 low ⟫ λ (fields, subs) s2 _.
      returns tt

  build_object-Shallow :
      (zod : ZodObject) (name : Text) (s : Translator)
      → Below rank n zod.shape
      → Shallow (build_object g map_field zod name s)
  unfolding continue_with
  build_object-Shallow zod name s low =
      convert_message-Shallow zod name name (start_building name s) low ⟫ λ m s1 _. returns tt

  pub convert_object-Shallow :
      (zod : ZodObject) (name : Text) (s : Translator)
      → Below rank n zod.shape
      → Shallow (convert_object g map_field zod name s)
  unfolding convert_object
  convert_object-Shallow zod name s low =
      elim (Bool-cases (has_message name s.messages || has_text s.building name)) [
        | inl there ↦ rw there (returns tt)
        | inr new ↦ rw new (build_object-Shallow zod name s low)
      ]

  arm-Below :
      (option : ℕ) (discriminator : Text)
      → rank option < n
      → Below rank n (omit_shape_key g (unwrap g option) discriminator).shape
  unfolding omit_shape_key
  arm-Below option discriminator low = Below-without_key rank n discriminator _ (
      Below-le rank (rank (unwrap g option)) n _ (omega (arith, unwrap-rank r option))
        (r.of_shape (unwrap g option)))

  convert_arm-Shallow :
      (cache_name discriminator : Text) (option : ℕ) (tag : Text) (allocator : Allocator)
      (s : Translator)
      → rank option < n
      → Shallow (convert_arm g map_field cache_name discriminator option tag allocator s)
  unfolding convert_arm
  convert_arm-Shallow cache_name discriminator option tag allocator s low =
      convert_message-Shallow _ (to_pascal_case tag) _ s (arm-Below option discriminator low)
      ⟫ λ variant s1 _.
          number_entry-Shallow cache_name _ _ allocator s1 ⟫ λ (number, rest) s2 _. returns tt

  convert_arms-Shallow :
      (parent cache_name discriminator : Text) (seen : List Text) (options : List ℕ)
      (allocator : Allocator) (s : Translator)
      → All (λ o. rank o < n) options
      → Shallow (convert_arms g map_field parent cache_name discriminator seen options allocator s)
  unfolding convert_arms
  convert_arms-Shallow parent cache_name discriminator seen [] allocator s low = returns tt
  convert_arms-Shallow parent cache_name discriminator seen (option ∷ options) allocator s
        (low, lows) =
      lift-Shallow _ s (check_arm-NotDeep g parent discriminator seen (unwrap g option))
      ⟫ λ tag s1 _.
          convert_arm-Shallow cache_name discriminator option tag allocator s1 low
          ⟫ λ (field, variant, rest) s2 _.
              convert_arms-Shallow parent cache_name discriminator (to_pascal_case tag ∷ seen)
                options rest s2 lows
              ⟫ λ (fields, subs) s3 _. returns tt

  pub convert_variants-Shallow :
      (zod : ℕ) (name discriminator cache_name : Text) (s : Translator)
      → All (λ o. rank o < n) (g.node zod).options
      → Shallow (convert_variants g map_field zod name discriminator cache_name s)
  unfolding convert_variants
  convert_variants-Shallow zod name discriminator cache_name s low =
      open_cache-Shallow cache_name s ⟫ λ allocator s1 _.
      convert_arms-Shallow name cache_name discriminator [] (g.node zod).options allocator s1 low
      ⟫ λ (fields, subs) s2 _. returns tt

  push_variants-Shallow :
      (zod : ℕ) (name discriminator : Text) (s : Translator)
      → All (λ o. rank o < n) (g.node zod).options
      → Shallow (
          continue_with
            (convert_variants g map_field zod name discriminator name s)
            (λ m. modify (push_message m)))
  push_variants-Shallow zod name discriminator s low =
      convert_variants-Shallow zod name discriminator name s low ⟫ λ m s1 _. returns tt

  pub convert_discriminated_union-Shallow :
      (zod : ℕ) (name discriminator : Text) (s : Translator)
      → All (λ o. rank o < n) (g.node zod).options
      → Shallow (convert_discriminated_union g map_field zod name discriminator s)
  unfolding convert_discriminated_union
  convert_discriminated_union-Shallow zod name discriminator s low =
      elim (Bool-cases (has_message name s.messages)) [
        | inl there ↦ rw there (returns tt)
        | inr new ↦ rw new (push_variants-Shallow zod name discriminator s low)
      ]

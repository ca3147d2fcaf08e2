-- ===== src/Schema/Translate/Depth.antt =====
-- How deep the calls of the generator nest: where it reads of no schema the schema itself again, the
-- schemas have a rank, which falls from a schema to its parts.
pub mod Objects
pub mod Fields
pub mod Run
use trpc_proto.Base.{
  ℕ, zero, suc, ◌≤◌, ◌<◌, ◌≡◌, ◌≢◌, ◌⊎◌, refl, Bool, true, false, List, [], ◌∷◌, Option, none, some,
  arith, All, Bool-cases, Option-cases, inl, inr, if◌then◌else◌, has,
}
use trpc_proto.Base.Text.{Text, trim, text_eq, insert}
use trpc_proto.Schema.Zod.Errors.{TranslateError, too_deep, Translated, ok, err}
use trpc_proto.Schema.Zod.{
  z_array, z_set, z_record, z_map, z_intersection, ZodNode, ZodGraph, get_or, unwrap_step,
  unwrap_loop, unwrap, next_inside, oneof_loop, proto_oneof_of, proto_use_known_type_of,
}
use trpc_proto.Schema.Zod.Scalars.{map_literal, map_key_scalar, without_key}
use trpc_proto.Schema.Translate.{Translator, lift}
use trpc_proto.Schema.Translate.Fields.{spread}
use trpc_proto.Schema.Translate.Post.{Ends, returns, throws}

-- The parts of a node have a lower rank, and what a wrapper wraps has no higher one.
pub record Ranked (g : ZodGraph) (rank : ℕ → ℕ) : Type 0 where
  pub of_wrapped : (i j : ℕ) → unwrap_step g i ≡ some j → rank j ≤ rank i
  pub of_element :
      (i : ℕ)
      → ((g.node i).type ≡ z_array) ⊎ ((g.node i).type ≡ z_set)
      → rank (get_or (g.node i).element i) < rank i
  pub of_value :
      (i : ℕ)
      → ((g.node i).type ≡ z_record) ⊎ ((g.node i).type ≡ z_map)
      → rank (get_or (g.node i).value_type i) < rank i
  pub of_sides :
      (i : ℕ)
      → (g.node i).type ≡ z_intersection
      → (rank (get_or (g.node i).left i) < rank i) × (rank (get_or (g.node i).right i) < rank i)
  pub of_shape : (i : ℕ) → All (λ f. rank f.1 < rank i) (g.node i).shape
  pub of_items : (i : ℕ) → All (λ j. rank j < rank i) (g.node i).items
  pub of_options : (i : ℕ) → All (λ j. rank j < rank i) (g.node i).options

abbrev pub NotDeep : TranslateError → Type 0
NotDeep e = e ≢ too_deep

-- Whatever the result is, it is not that calls nest too deeply.
abbrev pub Shallow : {A : Type 0} → Translated (A × Translator) → Type 0
Shallow r = Ends (λ a s. Unit {0}) NotDeep r

pub by_error :
    {A : Type 0} (r : Translated (A × Translator))
    → ((e : TranslateError) → r ≡ err e → NotDeep e)
    → Shallow r
by_error (ok (a, s)) h = returns tt
by_error (err e) h = throws (h e refl)

pub lift-Shallow :
    {A : Type 0} (r : Translated A) (s : Translator)
    → ((e : TranslateError) → r ≡ err e → NotDeep e)
    → Shallow (lift r s)
lift-Shallow (ok a) s h = returns tt
lift-Shallow (err e) s h = throws (h e refl)

oneof_loop-NotDeep :
    (fuel : ℕ) (g : ZodGraph) (seen : List ℕ) (current : Option ℕ) (e : TranslateError)
    → oneof_loop fuel g seen current ≡ err e
    → NotDeep e
unfolding oneof_loop
oneof_loop-NotDeep zero g seen current e h d = absurd (cc)
oneof_loop-NotDeep (suc fuel) g seen none e h d = absurd (cc)
oneof_loop-NotDeep (suc fuel) g seen (some current) e h d =
    ground (arith, oneof_loop-NotDeep fuel g (current ∷ seen) (next_inside (g.node current)) e)

pub proto_oneof_of-NotDeep :
    (g : ZodGraph) (zod : ℕ) (e : TranslateError) → proto_oneof_of g zod ≡ err e → NotDeep e
unfolding proto_oneof_of
proto_oneof_of-NotDeep g zod e h = oneof_loop-NotDeep _ g [] (some zod) e h

pub known-NotDeep :
    (n : ZodNode) (e : TranslateError) → proto_use_known_type_of n ≡ err e → NotDeep e
unfolding proto_use_known_type_of
known-NotDeep n e h d = ground arith

pub map_literal-NotDeep : (n : ZodNode) (e : TranslateError) → map_literal n ≡ err e → NotDeep e
unfolding map_literal
map_literal-NotDeep n e h d = ground arith

pub map_key_scalar-NotDeep :
    (g : ZodGraph) (zod : ℕ) (e : TranslateError) → map_key_scalar g zod ≡ err e → NotDeep e
unfolding map_key_scalar
map_key_scalar-NotDeep g zod e h d = ground arith

module _ {g : ZodGraph} {rank : ℕ → ℕ} (r : Ranked g rank) where
  unwrap_loop-rank :
      (fuel : ℕ) (seen : List ℕ) (inner : ℕ) → rank (unwrap_loop fuel g seen inner) ≤ rank inner
  unfolding unwrap_loop
  unwrap_loop-rank zero seen inner = omega arith
  unwrap_loop-rank (suc fuel) seen inner = elim (Bool-cases (has seen inner)) [
    | inl again ↦ rw again (omega arith)
    | inr new ↦ elim (Option-cases (unwrap_step g inner)) [
      | inl ends ↦ ground (arith, new, ends)
      | inr (next, step) ↦ ground (
        arith,
        new,
        step,
        r.of_wrapped inner next step,
        unwrap_loop-rank fuel (inner ∷ seen) next,
      )
    ]
  ]

  pub unwrap-rank : (zod : ℕ) → rank (unwrap g zod) ≤ rank zod
  unfolding unwrap
  unwrap-rank zod = unwrap_loop-rank _ [] zod

-- A shape whose fields are all below a bound.
abbrev pub Below : (ℕ → ℕ) → ℕ → List (Text × ℕ) → Type 0
Below rank n shape = All (λ f. rank f.1 < n) shape

module _ (rank : ℕ → ℕ) where
  pub Below-le :
      (m n : ℕ) (shape : List (Text × ℕ)) → m ≤ n → Below rank m shape → Below rank n shape
  Below-le m n [] h k = tt
  Below-le m n (f ∷ shape) h (k, ks) = (omega arith, Below-le m n shape h ks)

  pub Below-without_key :
      (n : ℕ) (key : Text) (shape : List (Text × ℕ))
      → Below rank n shape
      → Below rank n (without_key key shape)
  Below-without_key n key [] h = tt
  Below-without_key n key ((k, zod) ∷ shape) (h, hs) = elim (Bool-cases (text_eq k key)) [
    | inl same ↦ rw same (Below-without_key n key shape hs)
    | inr other ↦ rw other (h, Below-without_key n key shape hs)
  ]

  Below-insert :
      (n : ℕ) (key : Text) (zod : ℕ) (shape : List (Text × ℕ))
      → rank zod < n
      → Below rank n shape
      → Below rank n (insert key zod shape)
  Below-insert n key zod [] h k = (h, tt)
  Below-insert n key zod ((j, w) ∷ shape) h (k, ks) = elim (Bool-cases (text_eq j key)) [
    | inl same ↦ rw same (h, ks)
    | inr other ↦ rw other (k, Below-insert n key zod shape h ks)
  ]

  pub Below-spread :
      (n : ℕ) (left right : List (Text × ℕ))
      → Below rank n left
      → Below rank n right
      → Below rank n (spread left right)
  Below-spread n left [] h k = h
  Below-spread n left ((key, zod) ∷ right) h (k, ks) =
      Below-spread n (insert key zod left) right (Below-insert n key zod left k h) ks

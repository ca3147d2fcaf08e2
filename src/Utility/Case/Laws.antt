-- ===== src/Utility/Case/Laws.antt =====
-- Snake case is undone by camel case, where the name has no underscore of its own.
use trpc_proto.Base.{
  ℕ, ◌≡◌, refl, true, false, [], ◌∷◌, arith, ◌==◌, has, Bool-cases, inl, inr, ap, ◌∙◌,
}
use trpc_proto.Base.Text.{Text, is_upper, lower, to_lower}
use trpc_proto.Utility.Case.{underscore, mark_upper, to_snake_case, to_camel}

to_camel-plain : (c : ℕ) (s : Text) → (c == underscore) ≡ false → to_camel (c ∷ s) ≡ c ∷ to_camel s
unfolding to_camel
to_camel-plain c [] h = refl
to_camel-plain c (d ∷ s) h = ground arith

to_camel-marked :
    (c : ℕ) (s : Text) → is_upper c ≡ true → to_camel (underscore ∷ lower c ∷ s) ≡ c ∷ to_camel s
unfolding to_camel
to_camel-marked c s h = ground arith

lower-ne-underscore :
    (c : ℕ) → (c == underscore) ≡ false → is_upper c ≡ false → (lower c == underscore) ≡ false
lower-ne-underscore c h k = ground arith

-- A name with no underscore comes back from its snake case.
to_camel-to_snake_case :
    (name : Text) → has name underscore ≡ false → to_camel (to_snake_case name) ≡ name
unfolding to_snake_case
to_camel-to_snake_case [] h = unfold to_camel in refl
to_camel-to_snake_case (c ∷ s) h = elim (Bool-cases (is_upper c)) [
  | inl capital ↦ rw capital (
      to_camel-marked c (to_lower (mark_upper s)) capital
      ∙ ap (◌∷◌ c) (to_camel-to_snake_case s (ground arith)))
  | inr small ↦ rw small (
      to_camel-plain (lower c) (to_lower (mark_upper s))
        (lower-ne-underscore c (ground arith) small)
      ∙ ground (arith, to_camel-to_snake_case s (ground arith)))
]

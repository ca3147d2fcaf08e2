-- ===== src/Utility/Case.antt =====
-- packages/utility/src/case.ts: the spellings of names. Names are ASCII.
pub mod Laws
mod Examples
use trpc_proto.Base.{
  ℕ, Bool, true, false, not, ◌&&◌, ◌||◌, List, [], ◌∷◌, map, ◌==◌, if◌then◌else◌, concat,
}
use trpc_proto.Base.Text.{
  Text, is_upper, is_lower, is_digit, lower, upper, to_lower, to_upper, split_by,
}

abbrev pub underscore : ℕ
underscore = b'_'

abbrev is_separator : ℕ → Bool
is_separator c = c == b'.' || c == b'_' || c == b'-'

-- `.filter(Boolean)`.
abbrev pub non_empty : List Text → List Text
non_empty [] = []
non_empty ([] ∷ parts) = non_empty parts
non_empty ((c ∷ s) ∷ parts) = (c ∷ s) ∷ non_empty parts

abbrev pub capitalize : Text → Text
capitalize [] = []
capitalize (c ∷ s) = upper c ∷ s

unfoldable pub to_pascal_case : Text → Text
to_pascal_case name = concat (map capitalize (non_empty (split_by is_separator name)))

-- `name.replace(/([A-Z])/g, '_$1')`.
abbrev pub mark_upper : Text → Text
mark_upper [] = []
mark_upper (c ∷ s) = if is_upper c then underscore ∷ c ∷ mark_upper s else c ∷ mark_upper s

unfoldable pub to_snake_case : Text → Text
to_snake_case name = to_lower (mark_upper name)

-- `.replace(/([a-z0-9])([A-Z])/g, '$1_$2')`: no match can begin at the end of another.
abbrev pub break_words : Text → Text
break_words [] = []
break_words (c ∷ []) = c ∷ []
break_words (c ∷ d ∷ s) =
    if (is_lower c || is_digit c) && is_upper d
    then c ∷ underscore ∷ break_words (d ∷ s)
    else c ∷ break_words (d ∷ s)

-- A run of code units that `p` holds of becomes one underscore.
abbrev pub squash : (ℕ → Bool) → Text → Text
squash p [] = []
squash p (c ∷ []) = if p c then underscore ∷ [] else c ∷ []
squash p (c ∷ d ∷ s) =
    let rest = squash p (d ∷ s) in
    if p c then (if p d then rest else underscore ∷ rest) else c ∷ rest

-- `.replace(/^_/, '')`.
abbrev pub strip_underscore : Text → Text
strip_underscore [] = []
strip_underscore (c ∷ s) = if c == underscore then s else c ∷ s

unfoldable pub to_screaming_snake : Text → Text
to_screaming_snake name = to_upper (
    strip_underscore
      (squash (λ c. c == underscore) (squash (λ c. c == b'.' || c == b'-') (break_words name))))

-- `name.replace(/_([a-z])/g, …)`.
unfoldable pub to_camel : Text → Text
to_camel [] = []
to_camel (c ∷ []) = c ∷ []
to_camel (c ∷ d ∷ s) =
    let behind = to_camel s in
    let next = to_camel (d ∷ s) in
    if c == underscore && is_lower d then upper d ∷ behind else c ∷ next

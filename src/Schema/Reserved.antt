-- ===== src/Schema/Reserved.antt =====
-- packages/schema_ir/src/ir/text.ts: the numbers that a printed message reserves.
pub mod Ranges
pub mod Numbers
mod Examples
use trpc_proto.Base.{
  ℕ, ◌+◌, Bool, true, false, not, ◌&&◌, ◌||◌, List, [], ◌∷◌, ◌++◌, map, Option, none, some, leb,
  ltb, ◌==◌, if◌then◌else◌, has,
}
use trpc_proto.Base.Text.{Text, codes, text_eq, join}
use trpc_proto.Base.Decimal.{decimal}
use trpc_proto.Schema.Types.{
  ProtoField, UsedIds, PropertyGenCache, property, Properties, empty, entry, nested_in, used_in,
}

-- `tags.add(tag)` on a set, in the order of insertion.
abbrev pub add_tag : ℕ → List ℕ → List ℕ
add_tag tag tags = if has tags tag then tags else tags ++ (tag ∷ [])

-- `[...new Set(tags)]`.
unfoldable pub unique_tags : List ℕ → List ℕ → List ℕ
unique_tags [] seen = seen
unique_tags (tag ∷ tags) seen = unique_tags tags (add_tag tag seen)

-- `.sort((a, b) => a - b)`.
abbrev pub sort_insert : ℕ → List ℕ → List ℕ
sort_insert tag [] = tag ∷ []
sort_insert tag (t ∷ tags) = if leb tag t then tag ∷ t ∷ tags else t ∷ sort_insert tag tags

unfoldable pub sort_tags : List ℕ → List ℕ
sort_tags [] = []
sort_tags (tag ∷ tags) = sort_insert tag (sort_tags tags)

-- The loop of `formatReservedNumbers`, with what it pushes as a range: no next number ends it.
unfoldable pub ranges_from : ℕ → ℕ → List ℕ → List (ℕ × ℕ)
ranges_from start prev [] = (start, prev) ∷ []
ranges_from start prev (next ∷ rest) =
    let longer = ranges_from start next rest in
    let later = ranges_from next next rest in
    if next == prev + 1 then longer else (start, prev) ∷ later

abbrev pub ranges_of_sorted : List ℕ → List (ℕ × ℕ)
ranges_of_sorted [] = []
ranges_of_sorted (start ∷ rest) = ranges_from start start rest

unfoldable pub reserved_ranges : List ℕ → List (ℕ × ℕ)
reserved_ranges tags = ranges_of_sorted (sort_tags (unique_tags tags []))

abbrev pub print_range : ℕ × ℕ → Text
print_range (start, prev) =
    if start == prev then decimal start else decimal start ++ (codes " to " ++ decimal prev)

unfoldable pub format_reserved_numbers : List ℕ → Text
format_reserved_numbers tags = join (codes ", ") (map print_range (reserved_ranges tags))

abbrev pub field_numbers : List ProtoField → List ℕ
field_numbers [] = []
field_numbers (field ∷ fields) = field.number ∷ field_numbers fields

-- `message.fields.some((field) => field.name === name)`.
abbrev pub has_field : List ProtoField → Text → Bool
has_field [] name = false
has_field (field ∷ fields) name = text_eq field.name name || has_field fields name

-- The loop over the recorded numbers.
unfoldable pub add_used_tags : List ℕ → UsedIds → List ℕ → List ℕ
add_used_tags live [] tags = tags
add_used_tags live ((tag, name) ∷ ids) tags =
    add_used_tags live ids (if has live tag then tags else add_tag tag tags)

-- One round of the loop over the cached properties.
abbrev pub add_child_tag : List ProtoField → Text → PropertyGenCache → List ℕ → List ℕ
add_child_tag fields name (property none type children ids) tags = tags
add_child_tag fields name (property (some tag) type children ids) tags =
    if has_field fields name
    then tags
    else if has (field_numbers fields) tag
    then tags
    else add_tag tag tags

unfoldable pub add_child_tags : List ProtoField → Properties → List ℕ → List ℕ
add_child_tags fields empty tags = tags
add_child_tags fields (entry name child ps) tags =
    add_child_tags fields ps (add_child_tag fields name child tags)

unfoldable pub reserved_numbers : List ProtoField → Option PropertyGenCache → List ℕ
reserved_numbers fields none = []
reserved_numbers fields (some cache) =
    add_child_tags fields (nested_in cache)
      (add_used_tags (field_numbers fields) (used_in cache) [])

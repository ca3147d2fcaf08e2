-- ===== src/Schema/Reserved/Numbers.antt =====
-- Which numbers a printed message reserves.
use trpc_proto.Base.{
  ℕ, ◌≡◌, Bool, false, not, ◌&&◌, ◌||◌, List, [], ◌∷◌, map, none, some, arith, ◌==◌, if◌then◌else◌,
  has,
}
use trpc_proto.Schema.Types.{
  ProtoField, UsedIds, PropertyGenCache, property, Properties, empty, entry, nested_in, used_in,
}
use trpc_proto.Schema.Reserved.{
  add_tag, field_numbers, has_field, add_used_tags, add_child_tag, add_child_tags, reserved_numbers,
  reserved_ranges,
}
use trpc_proto.Schema.Reserved.Ranges.{in_ranges, in_ranges-reserved_ranges, has-add_tag}

-- A number that is recorded in the cache.
abbrev pub is_recorded : ℕ → UsedIds → Bool
is_recorded n ids = has (map (λ i. i.0) ids) n

-- A number that is the tag of a cached property which the message has no field for.
abbrev pub is_dropped : ℕ → List ProtoField → Properties → Bool
is_dropped n fields empty = false
is_dropped n fields (entry name (property none type children ids) ps) = is_dropped n fields ps
is_dropped n fields (entry name (property (some tag) type children ids) ps) =
    (not (has_field fields name) && tag == n) || is_dropped n fields ps

has-add_used_tags :
    (live : List ℕ) (ids : UsedIds) (tags : List ℕ) (n : ℕ)
    → has (add_used_tags live ids tags) n ≡ (not (has live n) && is_recorded n ids) || has tags n
unfolding add_used_tags
has-add_used_tags live [] tags n = ground arith
has-add_used_tags live ((tag, name) ∷ ids) tags n = ground (
  arith,
  has-add_used_tags live ids (if has live tag then tags else add_tag tag tags) n,
  has-add_tag tag n tags,
)

has-add_child_tags :
    (fields : List ProtoField) (ps : Properties) (tags : List ℕ) (n : ℕ)
    → has (add_child_tags fields ps tags) n
      ≡ (not (has (field_numbers fields) n) && is_dropped n fields ps) || has tags n
unfolding add_child_tags
has-add_child_tags fields empty tags n = ground arith
has-add_child_tags fields (entry name (property none type children ids) ps) tags n =
    has-add_child_tags fields ps tags n
has-add_child_tags fields (entry name (property (some tag) type children ids) ps) tags n = ground (
  arith,
  has-add_child_tags fields ps
      (add_child_tag fields name (property (some tag) type children ids) tags) n,
  has-add_tag tag n tags,
)

-- The ranges that a printed message reserves contain a number exactly if no field of the message has
-- it, and the cache has it recorded or as the tag of a property that the message has no field for.
pub in_ranges-reserved_numbers :
    (fields : List ProtoField) (cache : PropertyGenCache) (n : ℕ)
    → in_ranges n (reserved_ranges (reserved_numbers fields (some cache)))
      ≡ not (has (field_numbers fields) n)
        && (is_recorded n (used_in cache) || is_dropped n fields (nested_in cache))
unfolding reserved_numbers
in_ranges-reserved_numbers fields cache n = ground (
  arith,
  in_ranges-reserved_ranges (reserved_numbers fields (some cache)) n,
  has-add_child_tags fields (nested_in cache)
      (add_used_tags (field_numbers fields) (used_in cache) []) n,
  has-add_used_tags (field_numbers fields) (used_in cache) [] n,
)

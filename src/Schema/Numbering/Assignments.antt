-- ===== src/Schema/Numbering/Assignments.antt =====
-- The allocator of a message is created with all the tags that the message's cache holds.
use trpc_proto.Base.{ℕ, ◌≡◌, refl, ◌∙◌, true, List, [], ◌∷◌, map, Option, none, some, arith, has}
use trpc_proto.Base.Text.{Text, text_eq_iff, lookup, insert, lookup-insert}
use trpc_proto.Schema.Numbering.{
  UsedIds, PropertyGenCache, property, Properties, empty, entry, get_property, set_property, tag_of,
  add_tags, add_missing, add_used, assignments_of,
}
use trpc_proto.Schema.Numbering.Lookup.{get_property-set_property}

-- No name stands twice among the keys.
abbrev pub HasUniqueNames : Properties → Type 0
HasUniqueNames empty = Unit
HasUniqueNames (entry n p ps) = (get_property n ps ≡ none) × HasUniqueNames ps

pub set_property-HasUniqueNames :
    (name : Text) (q : PropertyGenCache) (ps : Properties)
    → HasUniqueNames ps
    → HasUniqueNames (set_property name q ps)
set_property-HasUniqueNames name q empty h = (refl, tt)
set_property-HasUniqueNames name q (entry n p ps) h = ground (
  arith,
  text_eq_iff n name,
  text_eq_iff name n,
  get_property-set_property name n q ps,
  set_property-HasUniqueNames name q ps h.1,
)

abbrev or_else : Option ℕ → Option ℕ → Option ℕ
or_else none other = other
or_else (some tag) other = some tag

lookup-add_tags :
    (name : Text) (ps : Properties) (found : List (Text × ℕ))
    → HasUniqueNames ps
    → lookup name (add_tags ps found) ≡ or_else (tag_of name ps) (lookup name found)
lookup-add_tags name empty found h = refl
lookup-add_tags name (entry n (property none type children ids) ps) found h =
    ground (arith, text_eq_iff n name, lookup-add_tags name ps found h.1)
lookup-add_tags name (entry n (property (some tag) type children ids) ps) found h = ground (
  arith,
  text_eq_iff n name,
  lookup-add_tags name ps (insert n tag found) h.1,
  lookup-insert n name tag found,
)

lookup-add_missing :
    (name n : Text) (id : ℕ) (found : List (Text × ℕ)) {tag : ℕ}
    → lookup name found ≡ some tag
    → lookup name (add_missing n id found) ≡ some tag
lookup-add_missing name n id found h =
    ground (arith, text_eq_iff n name, lookup-insert n name id found)

lookup-add_used :
    (name : Text) (ids : UsedIds) (found : List (Text × ℕ)) {tag : ℕ}
    → lookup name found ≡ some tag
    → lookup name (add_used ids found) ≡ some tag
lookup-add_used name [] found h = h
lookup-add_used name ((id, n) ∷ ids) found h =
    lookup-add_used name ids (add_missing n id found) (lookup-add_missing name n id found h)

has-lookup :
    (name : Text) (found : List (Text × ℕ)) {tag : ℕ}
    → lookup name found ≡ some tag
    → has (map (λ a. a.1) found) tag ≡ true
has-lookup name [] h = cc
has-lookup name ((n, t) ∷ found) {tag} h = ground (arith, has-lookup name found {tag = tag})

-- Every tag of the cache is in use from the start.
pub has-assignments_of :
    (name : Text) (ps : Properties) (ids : UsedIds) {tag : ℕ}
    → HasUniqueNames ps
    → tag_of name ps ≡ some tag
    → has (map (λ a. a.1) (assignments_of ps ids)) tag ≡ true
unfolding assignments_of
has-assignments_of name ps ids h t =
    has-lookup name (add_used ids (add_tags ps []))
      (lookup-add_used name ids (add_tags ps []) (lookup-add_tags name ps [] h ∙ rw t))

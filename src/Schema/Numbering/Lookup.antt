-- ===== src/Schema/Numbering/Lookup.antt =====
-- The dictionaries of the generation cache: what a write changes.
use trpc_proto.Base.{ℕ, ◌≡◌, refl, [], ◌∷◌, Option, none, some, arith, ◌==◌, if◌then◌else◌}
use trpc_proto.Base.Text.{Text, text_eq, text_eq_iff}
use trpc_proto.Schema.Numbering.{
  UsedIds, PropertyGenCache, Properties, empty, entry, tag_in, get_property, set_property, set_used,
  tag_of,
}

pub get_property-set_property :
    (k j : Text) (q : PropertyGenCache) (ps : Properties)
    → get_property j (set_property k q ps) ≡ (if text_eq k j then some q else get_property j ps)
get_property-set_property k j q empty = refl
get_property-set_property k j q (entry n p ps) =
    ground
      (arith, text_eq_iff k j, text_eq_iff n k, text_eq_iff n j, get_property-set_property k j q ps)

pub tag_of-set_property :
    (k j : Text) (q : PropertyGenCache) (ps : Properties)
    → tag_of j (set_property k q ps) ≡ (if text_eq k j then tag_in q else tag_of j ps)
tag_of-set_property k j q ps = ground (arith, get_property-set_property k j q ps)

-- Whether an id is recorded, and under which name.
abbrev pub used_name : ℕ → UsedIds → Option Text
used_name id [] = none
used_name id ((i, n) ∷ ids) = if id == i then some n else used_name id ids

pub used_name-set_used :
    (id j : ℕ) (name : Text) (ids : UsedIds)
    → used_name j (set_used id name ids) ≡ (if j == id then some name else used_name j ids)
unfolding set_used
used_name-set_used id j name [] = refl
used_name-set_used id j name ((i, n) ∷ ids) = ground (arith, used_name-set_used id j name ids)

-- ===== src/Schema/Numbering/Examples.antt =====
-- A message that had the fields id and name, and now has name and email.
use trpc_proto.Base.{ℕ, ◌≡◌, refl, List, [], ◌∷◌, map, some, arith, Distinct, here, there}
use trpc_proto.Base.Text.{Text, codes, text_eq_iff}
use trpc_proto.Schema.Allocator.{
  is_reserved, advance_loop, advance, assert_valid_tag, record_tag, next, suspended,
  create_field_allocator,
}
use trpc_proto.Schema.Numbering.{
  UsedIds, PropertyGenCache, property, Properties, empty, entry, set_used, assignments_of,
  Numbering, ok, number_field, number_fields, number_message,
}
use trpc_proto.Schema.Numbering.Stable.{number_message_again}
use trpc_proto.Schema.Numbering.Sound.{IsSound, number_message-IsSound, number_message-reserved}

abbrev id_name : Text
id_name = codes "id"

abbrev name : Text
name = codes "name"

abbrev email : Text
email = codes "email"

abbrev string : Text
string = codes "string"

abbrev leaf : ℕ → PropertyGenCache
leaf tag = property (some tag) (some string) empty []

abbrev cache : Properties
cache = entry id_name (leaf 1) (entry name (leaf 2) empty)

abbrev ids : UsedIds
ids = (1, id_name) ∷ (2, name) ∷ []

abbrev fields : List (Text × Text)
fields = (email, string) ∷ (name, codes "bytes") ∷ []

abbrev numbers : List (Text × ℕ)
numbers = (email, 3) ∷ (name, 2) ∷ []

abbrev last : Numbering
unfolding create_field_allocator assignments_of advance advance_loop is_reserved
last = record {
  properties =
      entry id_name (leaf 1) (
        entry name (property (some 2) (some (codes "bytes")) empty [])
          (entry email (leaf 3) empty));
  used_ids = (1, id_name) ∷ (2, name) ∷ (3, email) ∷ [];
  allocator = suspended (3 ∷ 1 ∷ 2 ∷ []) 4;
}

generated : number_message cache ids fields ≡ ok (last, numbers)
unfolding number_message number_fields number_field set_used create_field_allocator assignments_of
    next advance advance_loop is_reserved assert_valid_tag record_tag
generated = refl

number_message_again_example :
    (last' : Numbering) × (number_message last.properties last.used_ids
        ((email, codes "bool") ∷ (name, string) ∷ [])
      ≡ ok (last', numbers))
number_message_again_example =
    number_message_again cache ids fields ((email, codes "bool") ∷ (name, string) ∷ []) generated
      refl

cache-IsSound : IsSound cache ids
unfolding is_reserved
cache-IsSound = record {
  unique = (refl, (refl, tt));
  valid = λ j tag h. ground arith;
  injective = λ j k tag h h'.
      ground (
        arith,
        text_eq_iff id_name j,
        text_eq_iff name j,
        text_eq_iff id_name k,
        text_eq_iff name k,
      );
  recorded = λ id j h. ground (arith, text_eq_iff id_name j, text_eq_iff name j);
}

number_message-IsSound_example :
    IsSound last.properties last.used_ids × Distinct (map (λ f. f.1) numbers)
number_message-IsSound_example =
    number_message-IsSound cache ids fields cache-IsSound ((λ e. cc e, tt), (tt, tt)) generated

-- The number of the field id stays its own when the field is gone.
number_message-reserved_example : name ≡ name
number_message-reserved_example =
    number_message-reserved cache ids fields cache-IsSound generated refl (there here)

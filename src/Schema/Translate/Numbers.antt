-- ===== src/Schema/Translate/Numbers.antt =====
-- The numbers of a message's fields are those of Schema/Numbering, if no field reaches the message's own
-- entry of the cache.
mod Examples
use trpc_proto.Base.{
  ℕ, ◌≡◌, refl, sym, ap, ◌∙◌, List, [], ◌∷◌, ◌++◌, map, Option, none, some, arith, Distinct, true,
  All, if◌then◌else◌,
}
use trpc_proto.Base.Text.{Text, text_eq, text_eq_self}
use trpc_proto.Utility.Case.{to_snake_case}
use trpc_proto.Schema.Allocator.{Allocator, create_field_allocator}
use trpc_proto.Schema.Types.{
  ProtoField, ProtoMessage, proto_message, PropertyGenCache, property, Properties, empty, UsedIds,
  get_property, nested_in, used_in,
}
use trpc_proto.Schema.Numbering
use trpc_proto.Schema.Numbering.{
  Numbering, set_property, assignments_of, number_field, number_fields, number_message,
}
use trpc_proto.Schema.Numbering.Lookup.{get_property-set_property}
use trpc_proto.Schema.Numbering.Stable.{number_fields_cons}
use trpc_proto.Schema.Numbering.Sound.{IsSound, DistinctNames, number_message-IsSound}
use trpc_proto.Schema.Zod.Errors.{Translated, ok, err}
use trpc_proto.Schema.Zod.{ZodGraph}
use trpc_proto.Schema.Zod.Scalars.{ZodObject, proto_type_name}
use trpc_proto.Schema.Translate.{Translator, lift, of_list}
use trpc_proto.Schema.Translate.Objects.{
  Mapped, FieldMapper, cache_entry, write_entry, open_cache, number_entry, check_oneof,
  convert_field, convert_fields, convert_message,
}
use trpc_proto.Schema.Translate.Post.{Ends, returns, throws, ◌⟫◌, weaken, Any, by_result, of_ok}

-- The fields with the names of their types, and with their numbers.
abbrev pub typed : List ProtoField → List (Text × Text)
typed [] = []
typed (field ∷ fields) = (field.name, proto_type_name field.type) ∷ typed fields

abbrev pub numbered : List ProtoField → List (Text × ℕ)
numbered [] = []
numbered (field ∷ fields) = (field.name, field.number) ∷ numbered fields

number_fields_nil : (n : Numbering) → number_fields [] n ≡ Numbering.ok (n, [])
unfolding number_fields
number_fields_nil n = refl

-- Mapping the value of a field leaves an entry of the cache as it is, whatever the state is.
abbrev pub LeavesOne : FieldMapper → Text → Text → Text × ℕ → Type 0
LeavesOne map_field cache_name parent (key, value) =
    (s : Translator)
    → Ends (λ mapped s'. cache_entry cache_name s' ≡ cache_entry cache_name s) Any
        (map_field value parent (to_snake_case key) s)

-- The same for the fields of an object.
abbrev pub Leaves : FieldMapper → Text → Text → List (Text × ℕ) → Type 0
Leaves map_field cache_name parent shape = All (LeavesOne map_field cache_name parent) shape

entry-set :
    (cache_name : Text) (p : PropertyGenCache) (s : Translator)
    → cache_entry cache_name (record s { cache = set_property cache_name p s.cache }) ≡ p
entry-set cache_name p s =
    ground
      (arith, get_property-set_property cache_name cache_name p s.cache, text_eq_self cache_name)

lift-same : {A : Type 0} (r : Translated A) (s : Translator) → Ends (λ a s'. s' ≡ s) Any (lift r s)
lift-same (ok a) s = returns refl
lift-same (err e) s = throws tt

check_oneof-same :
    (oneof : Option Text) (mapped : Mapped) (parent field_name : Text) (s : Translator)
    → Ends (λ a s'. s' ≡ s) Any (check_oneof oneof mapped parent field_name s)
check_oneof-same none mapped parent field_name s = returns refl
check_oneof-same (some oneof) mapped parent field_name s = by_result _ (λ a s' e. ground arith)

-- What the entry holds for the loop of Schema/Numbering.
module _ (cache_name : Text) (tag : Option ℕ) (type : Option Text) where
  abbrev Holding : Numbering → Translator → Type 0
  Holding n s = cache_entry cache_name s ≡ property tag type n.properties n.used_ids

  -- How numbering one field ends.
  abbrev Numbers : Text → Text → Numbering → ℕ × Allocator → Translator → Type 0
  Numbers field_name type_name n r s =
      (n' : Numbering) × (number_field field_name type_name n ≡ Numbering.ok (n', r.0))
      × (n'.allocator ≡ r.1)
      × Holding n' s

  write_entry-Numbers :
      (field_name type_name : Text) (n : Numbering) (s : Translator)
      (r : Numbering.Numbered (Numbering × ℕ))
      → number_field field_name type_name n ≡ r
      → Ends (Numbers field_name type_name n) Any (write_entry cache_name tag type s r)
  write_entry-Numbers field_name type_name n s Numbering.undefined_tag e = throws tt
  write_entry-Numbers field_name type_name n s (Numbering.err x) e = throws tt
  write_entry-Numbers field_name type_name n s (Numbering.ok (n', number)) e =
      returns (n', e, refl, entry-set cache_name (property tag type n'.properties n'.used_ids) s)

  number_entry-Numbers :
      (field_name type_name : Text) (n : Numbering) (allocator : Allocator) (s : Translator)
      → n.allocator ≡ allocator
      → Holding n s
      → Ends
          (Numbers field_name type_name n)
          Any
          (number_entry cache_name field_name type_name allocator s)
  unfolding number_entry
  number_entry-Numbers field_name type_name n allocator s same held =
      rw (held, number_entry, ← same) (write_entry-Numbers field_name type_name n s _ refl)

  module _ (g : ZodGraph) (map_field : FieldMapper) where
    convert_field-Numbers :
        (parent key : Text) (value : ℕ) (n : Numbering) (allocator : Allocator) (s : Translator)
        → LeavesOne map_field cache_name parent (key, value)
        → n.allocator ≡ allocator
        → Holding n s
        → Ends
            (λ r s'. Numbers r.0.name (proto_type_name r.0.type) n (r.0.number, r.2) s')
            Any
            (convert_field g map_field parent cache_name key value allocator s)
    unfolding convert_field
    convert_field-Numbers parent key value n allocator s leaves same held =
        leaves s ⟫ λ mapped s1 e1. lift-same _ s1 ⟫ λ oneof s2 e2.
        check_oneof-same oneof mapped parent _ s2 ⟫ λ u s3 e3.
        number_entry-Numbers _ _ n allocator s3 same (rw (e3, e2) (e1 ∙ held))
        ⟫ λ (number, rest) s4 numbers. returns numbers

    -- How numbering all of them ends.
    abbrev AllNumbers : Numbering → List ProtoField → Translator → Type 0
    AllNumbers n fields s =
        (last : Numbering) × (number_fields (typed fields) n ≡ Numbering.ok (last, numbered fields))
        × Holding last s

    convert_fields-Numbers :
        (parent : Text) (shape : List (Text × ℕ)) (n : Numbering) (allocator : Allocator)
        (s : Translator)
        → Leaves map_field cache_name parent shape
        → n.allocator ≡ allocator
        → Holding n s
        → Ends
            (λ c s'. AllNumbers n c.0 s')
            Any
            (convert_fields g map_field parent cache_name shape allocator s)
    unfolding convert_fields
    convert_fields-Numbers parent [] n allocator s leaves same held =
        returns (n, number_fields_nil n, held)
    convert_fields-Numbers parent ((key, value) ∷ shape) n allocator s (leaves, later_leave) same
          held =
        convert_field-Numbers parent key value n allocator s leaves same held
        ⟫ λ (field, nested, rest) s1 (n', first, same', held').
            convert_fields-Numbers parent shape n' rest s1 later_leave same' held'
            ⟫ λ (fields, subs) s2 (last, later, held'').
                returns {a = (field ∷ fields, nested ++ subs)}
                  (last, number_fields_cons field.name _ (typed fields) n first later, held'')

abbrev pub fields_of : ProtoMessage → List ProtoField
fields_of (proto_message name fields subs comment discriminator) = fields

-- A message's fields, numbered from an entry of the cache, and the entry after it.
pub record NumberedFrom (children : Properties) (used : UsedIds) (m : ProtoMessage)
    (after : PropertyGenCache) : Type 0 where
  pub last : Numbering
  pub message_numbered :
      number_message children used (typed (fields_of m))
      ≡ Numbering.ok (last, numbered (fields_of m))
  pub tag : Option ℕ
  pub type : Option Text
  pub written : after ≡ property tag type last.properties last.used_ids

module _ (cache_name : Text) (tag : Option ℕ) (type : Option Text) (children : Properties)
    (used : UsedIds) where
  abbrev fresh : Numbering
  fresh = record {
    properties = children;
    used_ids = used;
    allocator = create_field_allocator (assignments_of children used);
  }

  open_cache-Holding :
      (s : Translator)
      → cache_entry cache_name s ≡ property tag type children used
      → Ends
          (λ a s'. (fresh.allocator ≡ a) × Holding cache_name tag type fresh s')
          Any
          (open_cache cache_name s)
  unfolding open_cache
  open_cache-Holding s held =
      rw (held, open_cache)
        (returns (refl, entry-set cache_name (property tag type children used) s))

  convert_message-NumberedFrom :
      (g : ZodGraph) (map_field : FieldMapper)
      → (zod : ZodObject) (name : Text) (s : Translator)
      → Leaves map_field cache_name name zod.shape
      → cache_entry cache_name s ≡ property tag type children used
      → Ends
          (λ m s'. NumberedFrom children used m (cache_entry cache_name s'))
          Any
          (convert_message g map_field zod name cache_name s)
  unfolding convert_message number_message
  convert_message-NumberedFrom g map_field zod name s leaves held =
      open_cache-Holding s held ⟫ λ allocator s1 (same, held1).
      convert_fields-Numbers cache_name tag type g map_field name zod.shape fresh allocator s1
        leaves same held1
      ⟫ λ (fields, subs) s2 (last, all, held2).
          returns {a = proto_message name fields (of_list subs) zod.comment none} (record {
            last = last;
            message_numbered = all;
            tag = tag;
            type = type;
            written = held2;
          })

-- If mapping the fields of an object, from any state, does not change the message's own entry of the
-- cache, and the entry is in order, and the names of the message's fields differ, then a conversion that ends without
-- an error gives the fields different numbers, those of Schema/Numbering, and leaves an entry in order.
pub convert_message-Distinct :
    (g : ZodGraph) (map_field : FieldMapper) (cache_name : Text) (zod : ZodObject) (name : Text)
    (s s' : Translator) (m : ProtoMessage) (tag : Option ℕ) (type : Option Text)
    (children : Properties) (used : UsedIds)
    → Leaves map_field cache_name name zod.shape
    → cache_entry cache_name s ≡ property tag type children used
    → IsSound children used
    → convert_message g map_field zod name cache_name s ≡ ok (m, s')
    → DistinctNames (map (λ f. f.0) (typed (fields_of m)))
    → Distinct (map (λ f. f.1) (numbered (fields_of m)))
      × NumberedFrom children used m (cache_entry cache_name s')
      × IsSound (nested_in (cache_entry cache_name s')) (used_in (cache_entry cache_name s'))
convert_message-Distinct g map_field cache_name zod name s s' m tag type children used leaves held
      sound e names =
    let from : NumberedFrom children used m (cache_entry cache_name s') = of_ok (
      rw e at (
        convert_message-NumberedFrom cache_name tag type children used g map_field zod name s leaves
          held)) in
    let (sound', distinct) =
      number_message-IsSound children used (typed (fields_of m)) sound names
        from.message_numbered in
    (distinct, from, rw from.written sound')

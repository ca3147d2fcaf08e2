-- ===== src/Schema/Numbering.antt =====
-- packages/schema_ir/src/translate/trpc_schema.ts: how a message's fields get their numbers, from
-- the cache of earlier generations (packages/schema_ir/src/ir/types.ts) and from the allocator.
pub mod Lookup
pub mod Loop
pub mod Stable
pub mod Assignments
pub mod Sound
mod Examples
use trpc_proto.Base.{
  ℕ, ◌+◌, Bool, true, false, List, [], ◌∷◌, map, Option, none, some, ltb, ◌==◌, if◌then◌else◌,
}
pub use trpc_proto.Schema.Types.{
  UsedIds, PropertyGenCache, property, Properties, empty, entry, tag_in, nested_in, used_in,
  get_property,
}
use trpc_proto.Base.Text.{Text, text_eq, lookup, insert}
use trpc_proto.Schema.Allocator.{
  Allocator, AllocatorError, Outcome, yielded, thrown, done, next, create_field_allocator,
}

abbrev pub set_property : Text → PropertyGenCache → Properties → Properties
set_property name q empty = entry name q empty
set_property name q (entry n p ps) =
    if text_eq n name then entry n q ps else entry n p (set_property name q ps)

-- `cache.usedIds[id] = name`.
unfoldable pub set_used : ℕ → Text → UsedIds → UsedIds
set_used id name [] = (id, name) ∷ []
set_used id name ((i, n) ∷ ids) =
    if id == i
    then (i, name) ∷ ids
    else if ltb id i
    then (id, name) ∷ (i, n) ∷ ids
    else (i, n) ∷ set_used id name ids

-- `existingField?.tag`.
abbrev pub tag_of : Text → Properties → Option ℕ
tag_of name ps = elim (get_property name ps) [ none ↦ none | some p ↦ tag_in p ]

-- The two loops that fill `assignments`.
abbrev pub add_tags : Properties → List (Text × ℕ) → List (Text × ℕ)
add_tags empty found = found
add_tags (entry name child ps) found = elim (tag_in child) [
  | none ↦ add_tags ps found
  | some tag ↦ add_tags ps (insert name tag found)
]

abbrev pub add_missing : Text → ℕ → List (Text × ℕ) → List (Text × ℕ)
add_missing name id found = elim (lookup name found) [
  | none ↦ insert name id found
  | some tag ↦ found
]

abbrev pub add_used : UsedIds → List (Text × ℕ) → List (Text × ℕ)
add_used [] found = found
add_used ((id, name) ∷ ids) found = add_used ids (add_missing name id found)

unfoldable pub assignments_of : Properties → UsedIds → List (Text × ℕ)
assignments_of ps ids = add_used ids (add_tags ps [])

-- What the loop over the fields of a message reads and writes: the message's entry of the cache,
-- and the allocator.
pub record Numbering : Type 0 where
  pub properties : Properties
  pub used_ids : UsedIds
  pub allocator : Allocator

-- `undefined_tag` is the value of a generator that has ended, which a throw comes before.
pub data Numbered {ℓ} (A : Type ℓ) : Type ℓ where
  undefined_tag : Numbered A
  err : AllocatorError → Numbered A
  ok : A → Numbered A

infixl 5 ◌>>=◌
abbrev pub ◌>>=◌ {ℓ κ} : {A : Type ℓ} {B : Type κ} → Numbered A → (A → Numbered B) → Numbered B
undefined_tag >>= f = undefined_tag
err e >>= f = err e
ok a >>= f = f a

abbrev pub number_yielded : Allocator × Outcome → Numbered (ℕ × Allocator)
number_yielded (g, yielded tag) = ok (tag, g)
number_yielded (g, thrown e) = err e
number_yielded (g, done) = undefined_tag

-- `allocator.next().value`.
abbrev pub allocate : Allocator → Numbered (ℕ × Allocator)
allocate g = number_yielded (next none g)

abbrev pub number_for : Text → Numbering → Numbered (ℕ × Allocator)
number_for name s = elim (tag_of name s.properties) [
  | some tag ↦ ok (tag, s.allocator)
  | none ↦ allocate s.allocator
]

-- `existingField?.propertyGenCache ?? {}` and `existingField?.usedIds ?? {}`.
abbrev pub kept : Text → Properties → Properties × UsedIds
kept name ps = elim (get_property name ps) [
  | none ↦ (empty, [])
  | some p ↦ (nested_in p, used_in p)
]

-- The number of one field, with its snake-case name and the name of its protobuf type, written to
-- the cache.
unfoldable pub number_field : Text → Text → Numbering → Numbered (Numbering × ℕ)
number_field name type s = do
  (number, allocator) ← number_for name s
  let (children, used) = kept name s.properties
  ok (
    record {
      properties =
          set_property name (property (some number) (some type) children used) s.properties;
      used_ids = set_used number name s.used_ids;
      allocator = allocator;
    },
    number,
  )

-- The loop over the fields of an object, or over the arms of a discriminated union.
unfoldable pub number_fields :
    List (Text × Text) → Numbering → Numbered (Numbering × List (Text × ℕ))
number_fields [] s = ok (s, [])
number_fields ((name, type) ∷ fields) s = do
  (s', number) ← number_field name type s
  (last, numbers) ← number_fields fields s'
  ok (last, (name, number) ∷ numbers)

-- From the cache of a message to its numbered fields and the cache that is written back.
unfoldable pub number_message :
    Properties → UsedIds → List (Text × Text) → Numbered (Numbering × List (Text × ℕ))
number_message ps ids fields = number_fields fields (record {
  properties = ps;
  used_ids = ids;
  allocator = create_field_allocator (assignments_of ps ids);
})

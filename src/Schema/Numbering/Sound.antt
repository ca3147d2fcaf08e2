-- ===== src/Schema/Numbering/Sound.antt =====
-- The numbers of a message are field numbers of their own, under a cache that is in order.
use trpc_proto.Base.{
  ℕ, ◌≤◌, ◌≡◌, ◌≢◌, refl, true, false, List, [], ◌∷◌, inl, inr, map, none, some, arith, ◌==◌,
  if◌then◌else◌, All, Member, All-Member, Option-cases, has, Distinct,
}
use trpc_proto.Base.Text.{Text, text_eq, text_eq_iff}
use trpc_proto.Schema.Allocator.{
  max_tag, is_reserved, Allocator, suspended, finished, next, yielded, thrown, done, Outcome,
  create_field_allocator,
}
use trpc_proto.Schema.Allocator.Tags.{IsFree, used_of, next-IsFree}
use trpc_proto.Schema.Numbering.{
  UsedIds, property, Properties, tag_of, Numbering, ok, number_yielded, allocate, number_for,
  number_message, assignments_of,
}
use trpc_proto.Schema.Numbering.Lookup.{tag_of-set_property, used_name, used_name-set_used}
use trpc_proto.Schema.Numbering.Assignments.{
  HasUniqueNames, set_property-HasUniqueNames, has-assignments_of,
}
use trpc_proto.Schema.Numbering.Loop.{
  Holds, Numbers, Loop, stop, more, number_fields-Loop, Loop-KeepsTags, Loop-names,
}

-- A message's cache that is in order: its tags are field numbers, no two names share one, and a
-- recorded number is the tag of the name that it is recorded for.
pub record IsSound (ps : Properties) (ids : UsedIds) : Type 0 where
  pub unique : HasUniqueNames ps
  pub valid :
      (name : Text) (tag : ℕ)
      → tag_of name ps ≡ some tag
      → (1 ≤ tag) × (tag ≤ max_tag) × (is_reserved tag ≡ false)
  pub injective :
      (name name' : Text) (tag : ℕ)
      → tag_of name ps ≡ some tag
      → tag_of name' ps ≡ some tag
      → name ≡ name'
  pub recorded : (id : ℕ) (name : Text) → used_name id ids ≡ some name → tag_of name ps ≡ some id

-- The allocator knows every tag of the cache.
abbrev Covers : Numbering → Type 0
Covers s =
    (name : Text) (tag : ℕ)
    → tag_of name s.properties ≡ some tag
    → has (used_of s.allocator) tag ≡ true

-- Where the number of a field comes from.
data Origin (name : Text) (s : Numbering) (number : ℕ) (g : Allocator) : Type 0 where
  cached : tag_of name s.properties ≡ some number → g ≡ s.allocator → Origin name s number g
  fresh :
      tag_of name s.properties ≡ none
      → IsFree (used_of s.allocator) number
      → used_of g ≡ number ∷ used_of s.allocator
      → Origin name s number g

number_yielded-eq-ok :
    (r : Allocator × Outcome) {number : ℕ} {g' : Allocator}
    → number_yielded r ≡ ok (number, g')
    → r ≡ (g', yielded number)
number_yielded-eq-ok (g, yielded tag) e = ground arith
number_yielded-eq-ok (g, thrown x) e = absurd (cc)
number_yielded-eq-ok (g, done) e = absurd (cc)

allocate-IsFree :
    (g : Allocator) {number : ℕ} {g' : Allocator}
    → allocate g ≡ ok (number, g')
    → IsFree (used_of g) number × (used_of g' ≡ number ∷ used_of g)
allocate-IsFree finished e = absurd (unfold next in cc)
allocate-IsFree (suspended used_tags next_tag) {number} {g'} e =
    let (free, _, after) =
      next-IsFree none used_tags next_tag
        (number_yielded-eq-ok (next none (suspended used_tags next_tag)) e) in
    (free, after)

number_for-Origin :
    (name : Text) (s : Numbering) {number : ℕ} {g : Allocator}
    → number_for name s ≡ ok (number, g)
    → Origin name s number g
number_for-Origin name s {number} {g} e = elim (Option-cases (tag_of name s.properties)) [
  | inl new ↦
      let (free, after) = allocate-IsFree s.allocator (rw (new, number_for) at e) in
      fresh new free after
  | inr (tag, old) ↦ cached (ground arith) (ground arith)
]

module _ {name : Text} {s s' : Numbering} {number : ℕ} (n : Numbers name s s' number) where
  written :
      (j : Text)
      → tag_of j s'.properties ≡ (if text_eq name j then some number else tag_of j s.properties)
  written j = rw n.properties (
      tag_of-set_property name j (property (some number) (some n.type) n.children n.inner_ids)
        s.properties)

  Numbers-Covers : Covers s → Covers s'
  Numbers-Covers covers j tag h = go (number_for-Origin name s n.chosen)
    where
      go : Origin name s number s'.allocator → has (used_of s'.allocator) tag ≡ true
      go (cached old same) = ground (arith, written j, text_eq_iff name j, covers j tag)
      go (fresh new free after) = ground (arith, written j, text_eq_iff name j, covers j tag)

  recorded_as :
      (id : ℕ)
      → used_name id s'.used_ids ≡ (if id == number then some name else used_name id s.used_ids)
  recorded_as id = rw n.used_ids (used_name-set_used number id name s.used_ids)

  Numbers-IsSound : Covers s → IsSound s.properties s.used_ids → IsSound s'.properties s'.used_ids
  Numbers-IsSound covers c = go (number_for-Origin name s n.chosen)
    where
      unique' : HasUniqueNames s'.properties
      unique' = rw n.properties (set_property-HasUniqueNames name _ s.properties c.unique)

      go : Origin name s number s'.allocator → IsSound s'.properties s'.used_ids
      go (cached old same) = record {
        unique = unique';
        valid = λ j tag h. ground (arith, written j, c.valid j tag, c.valid name number);
        injective = λ j k tag h h'. ground (
          arith,
          written j,
          written k,
          text_eq_iff name j,
          text_eq_iff name k,
          c.injective j k tag,
          c.injective name k number,
          c.injective j name number,
        );
        recorded = λ id m h. ground (
          arith,
          written m,
          recorded_as id,
          text_eq_iff name m,
          c.recorded id m,
          c.injective m name number,
        );
      }
      go (fresh new free after) = record {
        unique = unique';
        valid = λ j tag h. ground (arith, written j, c.valid j tag);
        injective = λ j k tag h h'. ground (
          arith,
          written j,
          written k,
          text_eq_iff name j,
          text_eq_iff name k,
          c.injective j k tag,
          covers j number,
          covers k number,
        );
        recorded = λ id m h.
            ground (arith, written m, recorded_as id, text_eq_iff name m, c.recorded id m);
      }

Loop-IsSound :
    {fields : List (Text × Text)} {s last : Numbering} {numbers : List (Text × ℕ)}
    → Loop fields s last numbers
    → Covers s
    → IsSound s.properties s.used_ids
    → IsSound last.properties last.used_ids
Loop-IsSound stop covers c = c
Loop-IsSound (more n l) covers c =
    Loop-IsSound l (Numbers-Covers n covers) (Numbers-IsSound n covers c)

-- Texts of which no two are the same.
abbrev pub DistinctNames : List Text → Type 0
DistinctNames [] = Unit
DistinctNames (name ∷ names) = All (λ m. name ≢ m) names × DistinctNames names

module _ {ps : Properties} {ids : UsedIds} (c : IsSound ps ids) where
  number-once :
      (name : Text) (number : ℕ) (numbers : List (Text × ℕ))
      → tag_of name ps ≡ some number
      → Holds ps numbers
      → All (λ m. name ≢ m) (map (λ f. f.0) numbers)
      → has (map (λ f. f.1) numbers) number ≡ false
  number-once name number [] t h d = refl
  number-once name number ((m, k) ∷ numbers) t (held, h) (ne, d) = ground (
    arith,
    number-once name number numbers t h d,
    λ (e : tag_of m ps ≡ some number). ne (c.injective name m number t e),
  )

  Holds-Distinct :
      (numbers : List (Text × ℕ))
      → Holds ps numbers
      → DistinctNames (map (λ f. f.0) numbers)
      → Distinct (map (λ f. f.1) numbers)
  Holds-Distinct [] h d = tt
  Holds-Distinct ((name, number) ∷ numbers) (held, h) (ne, d) =
      (number-once name number numbers held h ne, Holds-Distinct numbers h d)

  -- The fields that have the tag of a name have that name.
  Holds-same_name :
      (id : ℕ) (name : Text)
      → tag_of name ps ≡ some id
      → (numbers : List (Text × ℕ)) → Holds ps numbers
      → All (λ f. f.1 ≡ id → f.0 ≡ name) numbers
  Holds-same_name id name t [] h = tt
  Holds-same_name id name t ((m, k) ∷ numbers) (held, h) =
      (λ same. c.injective m name id (rw same at held) t, Holds-same_name id name t numbers h)

initial-Covers :
    (ps : Properties) (ids : UsedIds)
    → HasUniqueNames ps
    → Covers (record {
      properties = ps;
      used_ids = ids;
      allocator = create_field_allocator (assignments_of ps ids);
    })
unfolding create_field_allocator
initial-Covers ps ids u name tag h = has-assignments_of name ps ids u h

-- If generating a message from a cache in order succeeds, and its field names differ, then the
-- numbers differ, and the cache that is written back is in order again: its tags are field numbers
-- that protobuf allows.
pub number_message-IsSound :
    (ps : Properties) (ids : UsedIds) (fields : List (Text × Text)) {last : Numbering}
    {numbers : List (Text × ℕ)}
    → IsSound ps ids
    → DistinctNames (map (λ f. f.0) fields)
    → number_message ps ids fields ≡ ok (last, numbers)
    → IsSound last.properties last.used_ids × Distinct (map (λ f. f.1) numbers)
unfolding number_message
number_message-IsSound ps ids fields {last} {numbers} c d e =
    let l = number_fields-Loop fields _ e in
    let sound = Loop-IsSound l (initial-Covers ps ids c.unique) c in
    let (_, holds) = Loop-KeepsTags l in
    (sound, Holds-Distinct sound numbers holds (rw (Loop-names l) d))

-- If generating a message from a cache in order succeeds, then a number that an earlier generation
-- recorded for a field, also for one that the message has no more, goes to no field of another name.
pub number_message-reserved :
    (ps : Properties) (ids : UsedIds) (fields : List (Text × Text)) {last : Numbering}
    {numbers : List (Text × ℕ)} {id : ℕ} {name name' : Text}
    → IsSound ps ids
    → number_message ps ids fields ≡ ok (last, numbers)
    → used_name id ids ≡ some name
    → Member (name', id) numbers
    → name' ≡ name
unfolding number_message
number_message-reserved ps ids fields {last} {numbers} {id} {name} c e r m =
    let l = number_fields-Loop fields _ e in
    let sound = Loop-IsSound l (initial-Covers ps ids c.unique) c in
    let (keeps, holds) = Loop-KeepsTags l in
    All-Member (λ f. f.1 ≡ id → f.0 ≡ name)
      (Holds-same_name sound id name (keeps name id (c.recorded id name r)) numbers holds) m refl

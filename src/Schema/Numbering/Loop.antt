-- ===== src/Schema/Numbering/Loop.antt =====
-- The loop that numbers the fields of a message: what one round and what all of them do to the
-- cache.
use trpc_proto.Base.{ℕ, ◌≡◌, refl, ap, ◌∙◌, List, [], ◌∷◌, map, some, arith, if◌then◌else◌, All}
use trpc_proto.Base.Text.{Text, text_eq, text_eq_iff, text_eq_self}
use trpc_proto.Schema.Allocator.{Allocator}
use trpc_proto.Schema.Numbering.{
  UsedIds, property, Properties, set_property, set_used, tag_of, Numbering, Numbered, ok, err,
  undefined_tag, ◌>>=◌, number_for, kept, number_field, number_fields,
}
use trpc_proto.Schema.Numbering.Lookup.{tag_of-set_property}

-- A bind that ends well has gone through its first part.
went_through {ℓ κ} :
    {A : Type ℓ} {B : Type κ} {b : B} (first : Numbered A) (then_do : A → Numbered B)
    → first >>= then_do ≡ ok b
    → (found : A) × (first ≡ ok found) × (then_do found ≡ ok b)
went_through undefined_tag then_do ends = absurd (cc)
went_through (err e) then_do ends = absurd (cc)
went_through (ok found) then_do ends = (found, refl, ends)

-- The effect of numbering one field.
pub record Numbers (name : Text) (s s' : Numbering) (number : ℕ) : Type 0 where
  pub type : Text
  pub chosen : number_for name s ≡ ok (number, s'.allocator)
  pub children : Properties
  pub inner_ids : UsedIds
  pub properties :
      s'.properties
      ≡ set_property name (property (some number) (some type) children inner_ids) s.properties
  pub used_ids : s'.used_ids ≡ set_used number name s.used_ids

pub number_field-Numbers :
    (name type : Text) (s : Numbering) {s' : Numbering} {number : ℕ}
    → number_field name type s ≡ ok (s', number)
    → Numbers name s s' number
unfolding number_field
number_field-Numbers name type s e =
    let ((n, allocator), chosen, rest) = went_through (number_for name s) _ e in
    record {
      type = type;
      chosen = chosen ∙ ground arith;
      children = (kept name s.properties).0;
      inner_ids = (kept name s.properties).1;
      properties = ground arith;
      used_ids = ground arith;
    }

-- The tags of one cache are those of a later one too.
abbrev pub KeepsTags : Properties → Properties → Type 0
KeepsTags ps ps' = (name : Text) (tag : ℕ) → tag_of name ps ≡ some tag → tag_of name ps' ≡ some tag

-- A field that has a tag gets it.
pub number_for_cached :
    (name : Text) (s : Numbering) {number tag : ℕ} {g : Allocator}
    → number_for name s ≡ ok (number, g)
    → tag_of name s.properties ≡ some tag
    → number ≡ tag
number_for_cached name s e h = ground arith

pub Numbers-KeepsTags :
    {name : Text} {s s' : Numbering} {number : ℕ}
    → Numbers name s s' number
    → KeepsTags s.properties s'.properties × (tag_of name s'.properties ≡ some number)
Numbers-KeepsTags {name} {s} {s'} {number} n =
    let q = property (some number) (some n.type) n.children n.inner_ids in
    let written : (j : Text)
        → tag_of j s'.properties ≡ (if text_eq name j then some number else tag_of j s.properties) =
      λ j. rw n.properties (tag_of-set_property name j q s.properties) in
    (
      λ j tag h. ground (arith, written j, text_eq_iff name j, number_for_cached name s n.chosen),
      ground (arith, written name, text_eq_self name),
    )

-- The cache holds each number of the list under its name.
abbrev pub Holds : Properties → List (Text × ℕ) → Type 0
Holds ps numbers = All (λ f. tag_of f.0 ps ≡ some f.1) numbers

pub Holds-KeepsTags :
    (ps ps' : Properties) (numbers : List (Text × ℕ))
    → KeepsTags ps ps'
    → Holds ps numbers
    → Holds ps' numbers
Holds-KeepsTags ps ps' [] k h = tt
Holds-KeepsTags ps ps' ((name, number) ∷ numbers) k h =
    (k name number h.0, Holds-KeepsTags ps ps' numbers k h.1)

-- A run of the loop that throws nothing, field by field.
pub data Loop : List (Text × Text) → Numbering → Numbering → List (Text × ℕ) → Type 0 where
  stop : {s : Numbering} → Loop [] s s []
  more :
      {name type : Text} {fields : List (Text × Text)} {s s' last : Numbering} {number : ℕ}
      {numbers : List (Text × ℕ)}
      → Numbers name s s' number
      → Loop fields s' last numbers
      → Loop ((name, type) ∷ fields) s last ((name, number) ∷ numbers)

pub number_fields-Loop :
    (fields : List (Text × Text)) (s : Numbering) {last : Numbering} {numbers : List (Text × ℕ)}
    → number_fields fields s ≡ ok (last, numbers)
    → Loop fields s last numbers
unfolding number_fields
number_fields-Loop [] s {last} {numbers} e =
    let ends : s ≡ last = ground arith in
    let none_left : [] ≡ numbers = ground arith in rw (← ends, ← none_left) stop
number_fields-Loop ((name, type) ∷ fields) s {last} {numbers} e =
    let ((s', number), first, e') = went_through (number_field name type s) _ e in
    let ((last', later), rest, e'') = went_through (number_fields fields s') _ e' in
    let same_last : last' ≡ last = ground arith in
    let same_list : ((name, number) ∷ later) ≡ numbers = ground arith in
    rw (← same_last, ← same_list)
      (more (number_field-Numbers name type s first) (number_fields-Loop fields s' rest))

pub Loop-KeepsTags :
    {fields : List (Text × Text)} {s last : Numbering} {numbers : List (Text × ℕ)}
    → Loop fields s last numbers
    → KeepsTags s.properties last.properties × Holds last.properties numbers
Loop-KeepsTags stop = (λ name tag h. h, tt)
Loop-KeepsTags (more {s} {s'} {last} n l) =
    let (keeps, held) = Numbers-KeepsTags n in
    let (keeps', holds) = Loop-KeepsTags l in
    (λ name tag h. keeps' name tag (keeps name tag h), (keeps' _ _ held, holds))

pub Loop-names :
    {fields : List (Text × Text)} {s last : Numbering} {numbers : List (Text × ℕ)}
    → Loop fields s last numbers
    → map (λ f. f.0) numbers ≡ map (λ f. f.0) fields
Loop-names stop = refl
Loop-names (more {name} n l) = ap (◌∷◌ name) (Loop-names l)

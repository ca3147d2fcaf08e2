-- ===== src/Schema/Numbering/Stable.antt =====
-- Field numbers do not change from one generation to the next.
use trpc_proto.Base.{
  ℕ, ◌≡◌, refl, sym, ◌∙◌, List, [], ◌∷◌, map, some, arith, All, Member, All-Member,
}
use trpc_proto.Base.Text.{Text}
use trpc_proto.Schema.Numbering.{
  UsedIds, property, Properties, set_property, set_used, tag_of, Numbering, ok, kept, number_field,
  number_fields, number_message,
}
use trpc_proto.Schema.Numbering.Loop.{
  KeepsTags, Holds, Holds-KeepsTags, Numbers-KeepsTags, number_field-Numbers, number_fields-Loop,
  Loop-KeepsTags, Loop-names,
}

-- Field by field: a name that the cache has a tag for gets that tag.
abbrev pub FollowsCache : Properties → List (Text × ℕ) → Type 0
FollowsCache ps numbers = All (λ f. (tag : ℕ) → tag_of f.0 ps ≡ some tag → f.1 ≡ tag) numbers

Holds-FollowsCache :
    (ps ps' : Properties) (numbers : List (Text × ℕ))
    → KeepsTags ps ps'
    → Holds ps' numbers
    → FollowsCache ps numbers
Holds-FollowsCache ps ps' [] k h = tt
Holds-FollowsCache ps ps' ((name, number) ∷ numbers) k h =
    (λ tag t. ground (arith, k name tag t, h.0), Holds-FollowsCache ps ps' numbers k h.1)

number_message-Holds :
    (ps : Properties) (ids : UsedIds) (fields : List (Text × Text)) {last : Numbering}
    {numbers : List (Text × ℕ)}
    → number_message ps ids fields ≡ ok (last, numbers)
    → FollowsCache ps numbers
      × (map (λ f. f.0) numbers ≡ map (λ f. f.0) fields)
      × Holds last.properties numbers
unfolding number_message
number_message-Holds ps ids fields {last} {numbers} e =
    let l = number_fields-Loop fields _ e in
    let (keeps, holds) = Loop-KeepsTags l in
    (Holds-FollowsCache ps last.properties numbers keeps holds, Loop-names l, holds)

-- If generating a message succeeds, it numbers the fields in their order, and writes each number to
-- the cache under the field's name.
pub number_message-names :
    (ps : Properties) (ids : UsedIds) (fields : List (Text × Text)) {last : Numbering}
    {numbers : List (Text × ℕ)}
    → number_message ps ids fields ≡ ok (last, numbers)
    → (map (λ f. f.0) numbers ≡ map (λ f. f.0) fields) × Holds last.properties numbers
number_message-names ps ids fields e =
    let (_, names, holds) = number_message-Holds ps ids fields e in (names, holds)

-- If generating a message succeeds, a field that the cache has a tag for has that tag as its number,
-- whatever its type is now.
pub number_message-tag_of :
    (ps : Properties) (ids : UsedIds) (fields : List (Text × Text)) {last : Numbering}
    {numbers : List (Text × ℕ)} {name : Text} {number tag : ℕ}
    → number_message ps ids fields ≡ ok (last, numbers)
    → tag_of name ps ≡ some tag
    → Member (name, number) numbers
    → number ≡ tag
number_message-tag_of ps ids fields {last} {numbers} {name} {number} {tag} e cached m =
    All-Member (λ f. (t : ℕ) → tag_of f.0 ps ≡ some t → f.1 ≡ t)
      (number_message-Holds ps ids fields e).0 m tag cached

-- A field with a tag is numbered without the allocator.
number_field_cached :
    (name type : Text) (s : Numbering) {tag : ℕ}
    → tag_of name s.properties ≡ some tag
    → (s' : Numbering) × (number_field name type s ≡ ok (s', tag))
unfolding number_field
number_field_cached name type s {tag} h = (
  record {
    properties =
        set_property name
          (property (some tag) (some type) (kept name s.properties).0 (kept name s.properties).1)
          s.properties;
    used_ids = set_used tag name s.used_ids;
    allocator = s.allocator;
  },
  ground arith,
)

pub number_fields_cons :
    (name type : Text) (fields : List (Text × Text)) (s : Numbering) {s' last : Numbering}
    {number : ℕ} {numbers : List (Text × ℕ)}
    → number_field name type s ≡ ok (s', number)
    → number_fields fields s' ≡ ok (last, numbers)
    → number_fields ((name, type) ∷ fields) s ≡ ok (last, (name, number) ∷ numbers)
unfolding number_fields
number_fields_cons name type fields s first rest = rw (first, rest)

number_fields_cached :
    (fields : List (Text × Text)) (s : Numbering) (numbers : List (Text × ℕ))
    → Holds s.properties numbers
    → map (λ f. f.0) numbers ≡ map (λ f. f.0) fields
    → (last : Numbering) × (number_fields fields s ≡ ok (last, numbers))
number_fields_cached [] s [] h same = (s, unfold number_fields in refl)
number_fields_cached [] s (n ∷ numbers) h same = absurd (cc)
number_fields_cached (f ∷ fields) s [] h same = absurd (cc)
number_fields_cached ((name, type) ∷ fields) s ((n, number) ∷ numbers) (h, held) same =
    let one : n ≡ name = ground arith in
    let (s', first) = number_field_cached name type s (rw one at h) in
    let keeps = (Numbers-KeepsTags (number_field-Numbers name type s first)).0 in
    let (last, rest) =
      number_fields_cached fields s' numbers
        (Holds-KeepsTags s.properties s'.properties numbers keeps held) (ground arith) in
    (last, rw one (number_fields_cons name type fields s first rest))

-- If generating a message succeeds, generating it again from the cache that was written gives the
-- same numbers, and cannot fail, also if the types of the fields have changed meanwhile.
pub number_message_again :
    (ps : Properties) (ids : UsedIds) (fields fields' : List (Text × Text)) {last : Numbering}
    {numbers : List (Text × ℕ)}
    → number_message ps ids fields ≡ ok (last, numbers)
    → map (λ f. f.0) fields' ≡ map (λ f. f.0) fields
    → (last' : Numbering) × (number_message last.properties last.used_ids fields'
        ≡ ok (last', numbers))
number_message_again ps ids fields fields' {last} {numbers} e same =
    let (_, names, holds) = number_message-Holds ps ids fields e in
    unfold number_message in number_fields_cached fields' _ numbers holds (names ∙ sym same)

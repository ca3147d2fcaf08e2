-- ===== src/Schema/Allocator/Tags.antt =====
-- The tags that the generator of field_allocator.ts yields.
use trpc_proto.Base.{
  ℕ, ◌+◌, ◌≤◌, ◌<◌, ◌≡◌, ◌↔◌, refl, true, false, List, [], ◌∷◌, inl, inr, map, arith, ltb, leb,
  if◌then◌else◌, has, Bool-cases, Option, none, some, Option-cases,
}
use trpc_proto.Base.Text.{Text}
use trpc_proto.Schema.Allocator.{
  max_tag, is_reserved, is_taken, advance, assert_valid_tag, AllocatorError, exhausted, Allocator,
  suspended, finished, yielded, thrown, sent_or, record_tag, next, create_field_allocator,
}
use trpc_proto.Schema.Allocator.Advance.{advance-StopsAt}

-- A field number that protobuf allows and that is not in use.
abbrev pub IsFree : List ℕ → ℕ → Type 0
IsFree used_tags tag =
    (1 ≤ tag) × (tag ≤ max_tag) × (is_reserved tag ≡ false) × (has used_tags tag ≡ false)

-- The generator waits with a free tag at hand, unless there is none above the tags it went by.
abbrev pub IsReady : Allocator → Type 0
IsReady (suspended used_tags next_tag) =
    (1 ≤ next_tag) × (next_tag ≤ max_tag → is_taken next_tag used_tags ≡ false)
IsReady finished = Unit

pub advance-IsReady :
    (used_tags : List ℕ) (start : ℕ)
    → 1 ≤ start
    → IsReady (suspended used_tags (advance start used_tags))
advance-IsReady used_tags start h =
    let s = advance-StopsAt start used_tags in (omega (arith, s.from_start), s.free)

pub create-IsReady : (assignments : List (Text × ℕ)) → IsReady (create_field_allocator assignments)
unfolding create_field_allocator
create-IsReady assignments = advance-IsReady (map (λ a. a.1) assignments) 1 (omega arith)

pub record_tag-IsReady :
    (tag : ℕ) (used_tags : List ℕ) (next_tag : ℕ)
    → 1 ≤ next_tag
    → IsReady (record_tag tag used_tags next_tag)
unfolding record_tag
record_tag-IsReady tag used_tags next_tag h =
    advance-IsReady (tag ∷ used_tags) (if leb next_tag tag then tag + 1 else next_tag)
      (ground arith)

-- The assertion holds of the free tags, and of no other.
assert_valid_tag_iff :
    (tag : ℕ) (used_tags : List ℕ) → (assert_valid_tag tag used_tags ≡ none) ↔ IsFree used_tags tag
unfolding assert_valid_tag
assert_valid_tag_iff tag used_tags = (λ h. ground arith, λ h. ground arith)

-- The three ways of a call that finds the generator suspended.
next_exhausted :
    (sent : Option ℕ) (used_tags : List ℕ) (next_tag : ℕ)
    → max_tag < next_tag
    → next sent (suspended used_tags next_tag) ≡ (finished, thrown exhausted)
unfolding next
next_exhausted sent used_tags next_tag h = ground arith

next_throws :
    (sent : Option ℕ) (used_tags : List ℕ) (next_tag : ℕ) {e : AllocatorError}
    → next_tag ≤ max_tag
    → assert_valid_tag (sent_or sent next_tag) used_tags ≡ some e
    → next sent (suspended used_tags next_tag) ≡ (finished, thrown e)
next_throws sent used_tags next_tag h refused =
    let low : leb next_tag max_tag ≡ true = ground arith in unfold next in rw (low, refused)

next_yields :
    (sent : Option ℕ) (used_tags : List ℕ) (next_tag : ℕ)
    → next_tag ≤ max_tag
    → IsFree used_tags (sent_or sent next_tag)
    → next sent (suspended used_tags next_tag)
      ≡ (record_tag (sent_or sent next_tag) used_tags next_tag, yielded (sent_or sent next_tag))
next_yields sent used_tags next_tag h free =
    let low : leb next_tag max_tag ≡ true = ground arith in
    let valid = (assert_valid_tag_iff (sent_or sent next_tag) used_tags).1 free in
    unfold next in rw (low, valid)

-- What a call does, with what leads to it.
pub data Call (sent : Option ℕ) (used_tags : List ℕ) (next_tag : ℕ) : Type 0 where
  over :
      max_tag < next_tag
      → next sent (suspended used_tags next_tag) ≡ (finished, thrown exhausted)
      → Call sent used_tags next_tag
  refuses :
      (e : AllocatorError)
      → next_tag ≤ max_tag
      → ¬ IsFree used_tags (sent_or sent next_tag)
      → next sent (suspended used_tags next_tag) ≡ (finished, thrown e)
      → Call sent used_tags next_tag
  yields :
      next_tag ≤ max_tag
      → IsFree used_tags (sent_or sent next_tag)
      → next sent (suspended used_tags next_tag)
        ≡ (record_tag (sent_or sent next_tag) used_tags next_tag, yielded (sent_or sent next_tag))
      → Call sent used_tags next_tag

pub call : (sent : Option ℕ) (used_tags : List ℕ) (next_tag : ℕ) → Call sent used_tags next_tag
call sent used_tags next_tag = elim (Bool-cases (ltb max_tag next_tag)) [
  | inl high ↦ over (ground arith) (next_exhausted sent used_tags next_tag (ground arith))
  | inr low ↦ elim (Option-cases (assert_valid_tag (sent_or sent next_tag) used_tags)) [
    | inl valid ↦
        let free = (assert_valid_tag_iff (sent_or sent next_tag) used_tags).0 valid in
        yields (ground arith) free (next_yields sent used_tags next_tag (ground arith) free)
    | inr (e, refused) ↦
        refuses e (ground arith)
          (λ free. cc ((assert_valid_tag_iff (sent_or sent next_tag) used_tags).1 free))
          (next_throws sent used_tags next_tag (ground arith) refused)
  ]
]

abbrev pub used_of : Allocator → List ℕ
used_of (suspended used_tags next_tag) = used_tags
used_of finished = []

used_of-record_tag :
    (tag : ℕ) (used_tags : List ℕ) (next_tag : ℕ)
    → used_of (record_tag tag used_tags next_tag) ≡ tag ∷ used_tags
unfolding record_tag
used_of-record_tag tag used_tags next_tag = refl

-- A tag is yielded only if it is a field number that protobuf allows and that was not in use; it
-- is the tag that the caller claims, or else the next one of the generator, and it is in use from
-- then on.
pub next-IsFree :
    (sent : Option ℕ) (used_tags : List ℕ) (next_tag : ℕ) {g : Allocator} {tag : ℕ}
    → next sent (suspended used_tags next_tag) ≡ (g, yielded tag)
    → IsFree used_tags tag × (tag ≡ sent_or sent next_tag) × (used_of g ≡ tag ∷ used_tags)
next-IsFree sent used_tags next_tag {g} {tag} e = go (call sent used_tags next_tag)
  where
    go :
        Call sent used_tags next_tag
        → IsFree used_tags tag × (tag ≡ sent_or sent next_tag) × (used_of g ≡ tag ∷ used_tags)
    go (over high result) = absurd (cc)
    go (refuses x low taken result) = absurd (cc)
    go (yields low free result) =
        let same : tag ≡ sent_or sent next_tag = cc in
        let after : g ≡ record_tag (sent_or sent next_tag) used_tags next_tag = cc in
        (
          rw same free,
          same,
          rw (after, same) (used_of-record_tag (sent_or sent next_tag) used_tags next_tag),
        )

-- While the generator is not exhausted, a claim is granted exactly if its tag is free.
pub next-claim_iff :
    (tag : ℕ) (used_tags : List ℕ) (next_tag : ℕ)
    → next_tag ≤ max_tag
    → ((next (some tag) (suspended used_tags next_tag)).1 ≡ yielded tag) ↔ IsFree used_tags tag
next-claim_iff tag used_tags next_tag h = (forth (call (some tag) used_tags next_tag), back)
  where
    back : IsFree used_tags tag → (next (some tag) (suspended used_tags next_tag)).1 ≡ yielded tag
    back free = rw (next_yields (some tag) used_tags next_tag h free)

    forth :
        Call (some tag) used_tags next_tag
        → (next (some tag) (suspended used_tags next_tag)).1 ≡ yielded tag
        → IsFree used_tags tag
    forth (over high result) e = absurd (omega arith)
    forth (refuses x low taken result) e = absurd (ground arith)
    forth (yields low free result) e = free

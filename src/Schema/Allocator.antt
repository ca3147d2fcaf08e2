-- ===== src/Schema/Allocator.antt =====
-- packages/schema_ir/src/translate/field_allocator.ts: the generator that hands out field numbers.
-- Tags are natural numbers here.
pub mod Advance
pub mod Tags
pub mod Runs
mod Examples
use trpc_proto.Base.{
  ℕ, zero, suc, ◌+◌, ◌-◌, Bool, true, false, ◌&&◌, ◌||◌, List, [], ◌∷◌, map, Option, none, some,
  ltb, leb, if◌then◌else◌, has,
}
use trpc_proto.Base.Text.{Text}

abbrev pub max_tag : ℕ
max_tag = 536870911

unfoldable pub is_reserved : ℕ → Bool
is_reserved tag = leb 19000 tag && leb tag 19999

-- The test of the loop of `advance`.
abbrev pub is_taken : ℕ → List ℕ → Bool
is_taken next_tag used_tags = has used_tags next_tag || is_reserved next_tag

unfoldable pub advance_loop : ℕ → ℕ → List ℕ → ℕ
advance_loop zero next_tag used_tags = next_tag
advance_loop (suc fuel) next_tag used_tags =
    elim (leb next_tag max_tag && is_taken next_tag used_tags) [
      | true ↦ advance_loop fuel (if is_reserved next_tag then 20000 else next_tag + 1) used_tags
      | false ↦ next_tag
    ]

-- The tag grows in each round, and the loop ends above `max_tag`.
unfoldable pub advance : ℕ → List ℕ → ℕ
advance next_tag used_tags = advance_loop (max_tag + 1 - next_tag) next_tag used_tags

pub data AllocatorError : Type 0 where
  out_of_range reserved_range duplicate : ℕ → AllocatorError
  exhausted : AllocatorError

-- `none` where the assertion holds.
unfoldable pub assert_valid_tag : ℕ → List ℕ → Option AllocatorError
unfolding is_reserved
assert_valid_tag tag used_tags =
    if ltb tag 1 || ltb max_tag tag
    then some (out_of_range tag)
    else if is_reserved tag
    then some (reserved_range tag)
    else if has used_tags tag
    then some (duplicate tag)
    else none

-- The generator between two calls of `next`, and when it has thrown.
pub data Allocator : Type 0 where
  suspended : List ℕ → ℕ → Allocator
  finished : Allocator

pub data Outcome : Type 0 where
  yielded : ℕ → Outcome
  thrown : AllocatorError → Outcome
  done : Outcome

abbrev pub sent_or : Option ℕ → ℕ → ℕ
sent_or none next_tag = next_tag
sent_or (some tag) next_tag = tag

-- The rest of a round, after `usedTags.add(tag)`.
unfoldable pub record_tag : ℕ → List ℕ → ℕ → Allocator
record_tag tag used_tags next_tag =
    suspended (tag ∷ used_tags)
      (advance (if leb next_tag tag then tag + 1 else next_tag) (tag ∷ used_tags))

-- `next()` and `next(tag)`: from one `yield` to the following one.
unfoldable pub next : Option ℕ → Allocator → Allocator × Outcome
next sent finished = (finished, done)
next sent (suspended used_tags next_tag) =
    if leb next_tag max_tag
    then elim (assert_valid_tag (sent_or sent next_tag) used_tags) [
      | some e ↦ (finished, thrown e)
      | none ↦
          (record_tag (sent_or sent next_tag) used_tags next_tag, yielded (sent_or sent next_tag))
    ]
    else (finished, thrown exhausted)

-- `createFieldAllocator`, with the first `yield 0` consumed.
unfoldable pub create_field_allocator : List (Text × ℕ) → Allocator
create_field_allocator assignments =
    suspended (map (λ a. a.1) assignments) (advance 1 (map (λ a. a.1) assignments))

-- ===== src/Schema/Allocator/Runs.antt =====
-- Sequences of calls of the generator of field_allocator.ts.
use trpc_proto.Base.{
  ℕ, ◌+◌, ◌≤◌, ◌≡◌, refl, false, List, [], ◌∷◌, map, arith, leb, if◌then◌else◌, has, All, Distinct,
  Option, none, ◌∙◌,
}
use trpc_proto.Base.Text.{Text}
use trpc_proto.Schema.Allocator.{
  max_tag, is_taken, advance, AllocatorError, exhausted, Allocator, suspended, finished, Outcome,
  yielded, thrown, done, sent_or, record_tag, next, create_field_allocator,
}
use trpc_proto.Schema.Allocator.Advance.{advance-StopsAt}
use trpc_proto.Schema.Allocator.Tags.{IsFree, Call, over, refuses, yields, call}

-- The tags that a sequence of calls yields.
unfoldable pub run : Allocator → List (Option ℕ) → List ℕ
run g [] = []
run g (sent ∷ calls) =
    let (g', outcome) = next sent g in
    let tags = run g' calls in elim outcome [ yielded tag ↦ tag ∷ tags | _ ↦ tags ]

IsFree-cons :
    (tag : ℕ) (used_tags : List ℕ) (tags : List ℕ)
    → All (IsFree (tag ∷ used_tags)) tags
    → All (IsFree used_tags) tags × (has tags tag ≡ false)
IsFree-cons tag used_tags [] h = (tt, refl)
IsFree-cons tag used_tags (t ∷ tags) h = ground (arith, IsFree-cons tag used_tags tags h.1)

run-finished : (calls : List (Option ℕ)) → run finished calls ≡ []
unfolding run next
run-finished [] = refl
run-finished (sent ∷ calls) = run-finished calls

-- What `run` yields from a generator: new tags, each once.
abbrev Fresh : List ℕ → List ℕ → Type 0
Fresh used_tags tags = All (IsFree used_tags) tags × Distinct tags

run_throws :
    (sent : Option ℕ) (calls : List (Option ℕ)) (g : Allocator) {e : AllocatorError}
    → next sent g ≡ (finished, thrown e)
    → run g (sent ∷ calls) ≡ []
run_throws sent calls g result =
    let ends : run g (sent ∷ calls) ≡ run finished calls =
      unfold run in rw (result, run) (rw result) in
    ends ∙ run-finished calls

run_yields :
    (sent : Option ℕ) (calls : List (Option ℕ)) (g : Allocator) {g' : Allocator} {tag : ℕ}
    → next sent g ≡ (g', yielded tag)
    → run g (sent ∷ calls) ≡ tag ∷ run g' calls
unfolding run
run_yields sent calls g result = rw (result, run) (rw result)

-- One call, with what holds of the calls after it.
run_step-Fresh :
    (sent : Option ℕ) (calls : List (Option ℕ)) (used_tags : List ℕ) (next_tag : ℕ)
    → ((tag n : ℕ) → Fresh (tag ∷ used_tags) (run (suspended (tag ∷ used_tags) n) calls))
    → Call sent used_tags next_tag
    → Fresh used_tags (run (suspended used_tags next_tag) (sent ∷ calls))
run_step-Fresh sent calls used_tags next_tag ih (over high result) =
    rw (run_throws sent calls _ result) (tt, tt)
run_step-Fresh sent calls used_tags next_tag ih (refuses x low taken result) =
    rw (run_throws sent calls _ result) (tt, tt)
run_step-Fresh sent calls used_tags next_tag ih (yields low free result) =
    let tag = sent_or sent next_tag in
    let n = advance (if leb next_tag tag then tag + 1 else next_tag) (tag ∷ used_tags) in
    let (frees, distinct) = ih tag n in
    let (free_before, new) =
      IsFree-cons tag used_tags (run (suspended (tag ∷ used_tags) n) calls) frees in
    rw (run_yields sent calls _ result)
      (unfold record_tag in ((free, free_before), (new, distinct)))

run_suspended-Fresh :
    (calls : List (Option ℕ)) (used_tags : List ℕ) (next_tag : ℕ)
    → Fresh used_tags (run (suspended used_tags next_tag) calls)
run_suspended-Fresh [] used_tags next_tag = unfold run in (tt, tt)
run_suspended-Fresh (sent ∷ calls) used_tags next_tag =
    run_step-Fresh sent calls used_tags next_tag
      (λ tag n. run_suspended-Fresh calls (tag ∷ used_tags) n) (call sent used_tags next_tag)

-- Whatever sequence of plain calls and claims is made, the tags that are yielded are field numbers
-- that protobuf allows, none of them is among the assignments that the generator was created with,
-- and no tag is yielded twice.
pub run-Fresh :
    (assignments : List (Text × ℕ)) (calls : List (Option ℕ))
    → All (IsFree (map (λ a. a.1) assignments)) (run (create_field_allocator assignments) calls)
      × Distinct (run (create_field_allocator assignments) calls)
unfolding create_field_allocator
run-Fresh assignments calls = run_suspended-Fresh calls (map (λ a. a.1) assignments) _

-- A generator that has only had plain calls.
pub data Automatic (assignments : List (Text × ℕ)) : Allocator → Type 0 where
  created : Automatic assignments (create_field_allocator assignments)
  again :
      {g g' : Allocator} {tag : ℕ}
      → Automatic assignments g
      → next none g ≡ (g', yielded tag)
      → Automatic assignments g'

-- It waits with the least free tag at hand, or above all tags.
record IsLeast (used_tags : List ℕ) (next_tag : ℕ) : Type 0 where
  positive : 1 ≤ next_tag
  free : next_tag ≤ max_tag → is_taken next_tag used_tags ≡ false
  least : (tag : ℕ) → IsFree used_tags tag → next_tag ≤ tag

abbrev WaitsAtLeast : Allocator → Type 0
WaitsAtLeast (suspended used_tags next_tag) = IsLeast used_tags next_tag
WaitsAtLeast finished = ⊥

-- Advancing from a tag below which nothing is free.
advance-IsLeast :
    (used_tags : List ℕ) (start : ℕ)
    → 1 ≤ start
    → ((tag : ℕ) → IsFree used_tags tag → start ≤ tag)
    → IsLeast used_tags (advance start used_tags)
advance-IsLeast used_tags start h low =
    let s = advance-StopsAt start used_tags in
    record {
      positive = omega (arith, s.from_start);
      free = s.free;
      least = λ tag f. ground (arith, s.first tag, low tag f);
    }

create-IsLeast : (assignments : List (Text × ℕ)) → WaitsAtLeast (create_field_allocator assignments)
unfolding create_field_allocator
create-IsLeast assignments =
    advance-IsLeast (map (λ a. a.1) assignments) 1 (omega arith) (λ tag f. f.0)

record_tag-IsLeast :
    (used_tags : List ℕ) (next_tag : ℕ)
    → IsLeast used_tags next_tag
    → WaitsAtLeast (record_tag next_tag used_tags next_tag)
unfolding record_tag
record_tag-IsLeast used_tags next_tag l =
    advance-IsLeast (next_tag ∷ used_tags)
      (if leb next_tag next_tag then next_tag + 1 else next_tag) (ground (arith, l.positive))
      (λ tag f. ground (arith, l.least tag))

-- A plain call at the least free tag.
IsLeast-yields :
    (used_tags : List ℕ) (next_tag : ℕ) {g' : Allocator} {tag : ℕ}
    → IsLeast used_tags next_tag
    → Call none used_tags next_tag
    → next none (suspended used_tags next_tag) ≡ (g', yielded tag)
    → WaitsAtLeast g'
IsLeast-yields used_tags next_tag l (over high result) e = absurd (cc)
IsLeast-yields used_tags next_tag l (refuses x low taken result) e = absurd (cc)
IsLeast-yields used_tags next_tag l (yields low free result) e =
    let after : record_tag next_tag used_tags next_tag ≡ _ = cc in
    rw after at (record_tag-IsLeast used_tags next_tag l)

Automatic-WaitsAtLeast :
    (assignments : List (Text × ℕ)) {g : Allocator} → Automatic assignments g → WaitsAtLeast g
Automatic-WaitsAtLeast assignments created = create-IsLeast assignments
Automatic-WaitsAtLeast assignments (again {g} before e) =
    go g (Automatic-WaitsAtLeast assignments before) e
  where
    go :
        (g : Allocator) {g' : Allocator} {tag : ℕ}
        → WaitsAtLeast g
        → next none g ≡ (g', yielded tag)
        → WaitsAtLeast g'
    go finished w e = absurd w
    go (suspended used_tags next_tag) w e =
        IsLeast-yields used_tags next_tag w (call none used_tags next_tag) e

-- What a plain call answers, in terms of the free tags alone.
abbrev pub Answers : List ℕ → Outcome → Type 0
Answers used_tags (yielded tag) =
    IsFree used_tags tag × ((other : ℕ) → IsFree used_tags other → tag ≤ other)
Answers used_tags (thrown e) = (e ≡ exhausted) × ((other : ℕ) → ¬ IsFree used_tags other)
Answers used_tags done = ⊥

IsLeast-Answers :
    (used_tags : List ℕ) (next_tag : ℕ)
    → IsLeast used_tags next_tag
    → Call none used_tags next_tag
    → Answers used_tags (next none (suspended used_tags next_tag)).1
IsLeast-Answers used_tags next_tag l (over high result) =
    rw result (refl, λ other f. omega (arith, l.least other f))
IsLeast-Answers used_tags next_tag l (refuses x low taken result) =
    absurd (taken (ground (arith, l.positive, l.free)))
IsLeast-Answers used_tags next_tag l (yields low free result) = rw result (free, l.least)

-- After plain calls alone, a plain call yields the least free tag, and it throws, as exhausted,
-- only if no tag is free.
pub Automatic-Answers :
    (assignments : List (Text × ℕ)) (used_tags : List ℕ) (next_tag : ℕ)
    → Automatic assignments (suspended used_tags next_tag)
    → Answers used_tags (next none (suspended used_tags next_tag)).1
Automatic-Answers assignments used_tags next_tag a =
    IsLeast-Answers used_tags next_tag (Automatic-WaitsAtLeast assignments a)
      (call none used_tags next_tag)

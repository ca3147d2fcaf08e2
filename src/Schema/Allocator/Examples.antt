-- ===== src/Schema/Allocator/Examples.antt =====
-- A message that has the tags 1 and 18999 and gets new ones.
use trpc_proto.Base.{ℕ, ◌≡◌, refl, List, [], ◌∷◌, map, none, some, All, Distinct}
use trpc_proto.Base.Text.{Text, codes}
use trpc_proto.Schema.Allocator.{
  is_reserved, advance_loop, advance, assert_valid_tag, suspended, yielded, thrown, reserved_range,
  record_tag, next, create_field_allocator,
}
use trpc_proto.Schema.Allocator.Tags.{IsFree}
use trpc_proto.Schema.Allocator.Runs.{
  run, run-Fresh, Automatic, created, Answers, Automatic-Answers,
}

abbrev cached : List (Text × ℕ)
cached = (codes "id", 1) ∷ (codes "name", 2) ∷ []

abbrev used : List ℕ
used = 1 ∷ 2 ∷ []

-- The tag 3 is free, and the range of 19000 is stepped over after a claim before it.
runs : run (create_field_allocator cached) (none ∷ some 18999 ∷ none ∷ []) ≡ 3 ∷ 18999 ∷ 20000 ∷ []
unfolding run create_field_allocator next advance advance_loop is_reserved assert_valid_tag
    record_tag
runs = refl

refused : (next (some 19500) (suspended used 3)).1 ≡ thrown (reserved_range 19500)
unfolding next assert_valid_tag is_reserved
refused = refl

plain_call : next none (suspended used 3) ≡ (suspended (3 ∷ used) 4, yielded 3)
unfolding next advance advance_loop is_reserved assert_valid_tag record_tag
plain_call = refl

run-Fresh_example :
    All
      (IsFree (map (λ a. a.1) cached))
      (run (create_field_allocator cached) (none ∷ some 7 ∷ none ∷ []))
    × Distinct (run (create_field_allocator cached) (none ∷ some 7 ∷ none ∷ []))
run-Fresh_example = run-Fresh cached (none ∷ some 7 ∷ none ∷ [])

cached-Automatic : Automatic cached (suspended used 3)
unfolding create_field_allocator advance advance_loop is_reserved
cached-Automatic = created

Automatic-Answers_example : Answers used (next none (suspended used 3)).1
Automatic-Answers_example = Automatic-Answers cached used 3 cached-Automatic

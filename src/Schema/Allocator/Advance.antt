-- ===== src/Schema/Allocator/Advance.antt =====
-- `advance` stops at the first tag from its start on that is free, or above the largest.
use trpc_proto.Base.{
  ℕ, zero, suc, ◌+◌, ◌-◌, ◌≤◌, ◌<◌, ◌≡◌, true, false, ◌&&◌, List, inl, inr, arith, leb,
  if◌then◌else◌, Bool-cases,
}
use trpc_proto.Schema.Allocator.{max_tag, is_reserved, is_taken, advance_loop, advance}

-- `stop` is where a search of a free tag from `start` on has to end.
pub record StopsAt (used_tags : List ℕ) (start stop : ℕ) : Type 0 where
  pub from_start : start ≤ stop
  pub free : stop ≤ max_tag → is_taken stop used_tags ≡ false
  pub first : (tag : ℕ) → start ≤ tag → tag < stop → tag ≤ max_tag → is_taken tag used_tags ≡ true

StopsAt-here :
    (used_tags : List ℕ) (start : ℕ)
    → (leb start max_tag && is_taken start used_tags) ≡ false
    → StopsAt used_tags start start
StopsAt-here used_tags start h = record {
  from_start = omega arith;
  free = λ l. ground arith;
  first = λ tag l k m. absurd (omega arith);
}

StopsAt-step :
    (used_tags : List ℕ) (start stop : ℕ)
    → is_taken start used_tags ≡ true
    → StopsAt used_tags (if is_reserved start then 20000 else start + 1) stop
    → StopsAt used_tags start stop
unfolding is_reserved
StopsAt-step used_tags start stop h s = record {
  from_start = ground (arith, s.from_start);
  free = s.free;
  first = λ tag l k m. ground (arith, s.first tag);
}

fuel_left :
    (fuel start : ℕ)
    → max_tag + 1 - start ≤ suc fuel
    → leb start max_tag ≡ true
    → max_tag + 1 - (if is_reserved start then 20000 else start + 1) ≤ fuel
unfolding is_reserved
fuel_left fuel start h l = ground arith

advance_loop-StopsAt :
    (fuel start : ℕ) (used_tags : List ℕ)
    → max_tag + 1 - start ≤ fuel
    → StopsAt used_tags start (advance_loop fuel start used_tags)
unfolding advance_loop
advance_loop-StopsAt zero start used_tags h = StopsAt-here used_tags start (ground arith)
advance_loop-StopsAt (suc fuel) start used_tags h =
    elim (Bool-cases (leb start max_tag && is_taken start used_tags)) [
      | inl goes_on ↦
          rw (goes_on, advance_loop)
            (StopsAt-step used_tags start _ (ground arith) (
              advance_loop-StopsAt fuel (if is_reserved start then 20000 else start + 1) used_tags
                (fuel_left fuel start h (ground arith))))
      | inr ends ↦ rw (ends, advance_loop) (StopsAt-here used_tags start ends)
    ]

-- Whatever tags are used, `advance` ends at the first free tag from its start on, or above the
-- largest tag where there is none.
pub advance-StopsAt :
    (start : ℕ) (used_tags : List ℕ) → StopsAt used_tags start (advance start used_tags)
unfolding advance
advance-StopsAt start used_tags =
    advance_loop-StopsAt (max_tag + 1 - start) start used_tags (omega arith)

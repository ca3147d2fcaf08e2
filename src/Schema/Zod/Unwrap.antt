-- ===== src/Schema/Zod/Unwrap.antt =====
-- The loop of `unwrap` ends at what the wrappers wrap, or goes round in a circle of them.
use trpc_proto.Base.{
  ℕ, zero, suc, ◌+◌, ◌<◌, ◌≡◌, ◌⊎◌, true, List, [], ◌∷◌, none, some, arith, length, All, has,
  Distinct, ◌==◌, Bool-cases, Option-cases, inl, inr,
}
use trpc_proto.Base.Pigeonhole.{Distinct-length}
use trpc_proto.Schema.Zod.{ZodGraph, unwrap_step, unwrap_loop, unwrap}

-- One node wraps another, in any number of steps.
pub data Wraps (g : ZodGraph) (from : ℕ) : ℕ → Type 0 where
  itself : Wraps g from from
  further : {i j : ℕ} → Wraps g from i → unwrap_step g i ≡ some j → Wraps g from j

-- In one step or more.
pub record Inside (g : ZodGraph) (from to : ℕ) : Type 0 where
  pub before : ℕ
  pub wraps : Wraps g from before
  pub step : unwrap_step g before ≡ some to

-- A node where the loop may end: no wrapper, or a wrapper that is inside itself.
abbrev pub IsEnd : ZodGraph → ℕ → Type 0
IsEnd g i = (unwrap_step g i ≡ none) ⊎ Inside g i i

-- The nodes refer to nodes of the graph.
abbrev pub IsBounded : ZodGraph → Type 0
IsBounded g = (i j : ℕ) → unwrap_step g i ≡ some j → j < g.size

module _ (g : ZodGraph) (bounded : IsBounded g) (from : ℕ) where
  -- The nodes that the loop has seen lie on the way to the current one.
  abbrev Trail : List ℕ → ℕ → Type 0
  Trail seen inner = All (λ x. Inside g x inner) seen

  Trail-has :
      (seen : List ℕ) (inner : ℕ) → Trail seen inner → has seen inner ≡ true → Inside g inner inner
  Trail-has [] inner t h = absurd (cc)
  Trail-has (x ∷ seen) inner (t, ts) h = elim (Bool-cases (x == inner)) [
    | inl same ↦ let e : x ≡ inner = ground arith in rw e at t
    | inr other ↦ Trail-has seen inner ts (ground (arith, other))
  ]

  Trail-step :
      (seen : List ℕ) (inner next : ℕ)
      → unwrap_step g inner ≡ some next
      → Trail seen inner
      → Trail seen next
  Trail-step [] inner next e t = tt
  Trail-step (x ∷ seen) inner next e (t, ts) = (
    record { before = inner; wraps = further t.wraps t.step; step = e },
    Trail-step seen inner next e ts,
  )

  loop-IsEnd :
      (fuel : ℕ) (seen : List ℕ) (inner : ℕ)
      → Wraps g from inner
      → Trail seen inner
      → Distinct seen
      → All (λ x. x < g.size) seen
      → inner < g.size
      → g.size < length seen + fuel
      → Wraps g from (unwrap_loop fuel g seen inner) × IsEnd g (unwrap_loop fuel g seen inner)
  unfolding unwrap_loop
  loop-IsEnd zero seen inner w t d b low enough =
      absurd (omega (arith, Distinct-length g.size seen d b))
  loop-IsEnd (suc fuel) seen inner w t d b low enough = elim (Bool-cases (has seen inner)) [
    | inl again ↦ rw again (w, inr (Trail-has seen inner t again))
    | inr new ↦ elim (Option-cases (unwrap_step g inner)) [
      | inl ends ↦ rw (new, ends) (w, inl ends)
      | inr (next, e) ↦
          rw (new, e)
            (loop-IsEnd fuel (inner ∷ seen) next (further w e)
              (record { before = inner; wraps = itself; step = e }, Trail-step seen inner next e t)
              (new, d) (low, b) (bounded inner next e) (omega arith))
    ]
  ]

  -- In a graph whose nodes refer to nodes of it, `unwrap` ends at a node that the given one wraps: one
  -- that is no wrapper, or a wrapper that is inside itself. The fuel is enough.
  pub unwrap-IsEnd : from < g.size → Wraps g from (unwrap g from) × IsEnd g (unwrap g from)
  unfolding unwrap
  unwrap-IsEnd low = loop-IsEnd (suc g.size) [] from itself tt tt tt low (omega arith)

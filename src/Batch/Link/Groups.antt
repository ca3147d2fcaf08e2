-- ===== src/Batch/Link/Groups.antt =====
-- Every operation that is queued is sent once, in order, in groups of bounded size.
use trpc_proto.Base.{
  ℕ, zero, suc, ◌≤◌, ◌≡◌, refl, ◌∙◌, sym, false, List, [], ◌∷◌, ◌++◌, append_assoc, append-nil,
  arith, length, length-take, length-drop, drop, take-append-drop, concat, All,
}
use trpc_proto.Batch.Link.{Queue, enqueue, groups_from, groups, flush, enqueue_all}

module _ {Item : Type 0} (max_items : ℕ) where
  groups_from-concat :
      (fuel : ℕ) (queued : List Item)
      → 1 ≤ max_items
      → length queued ≤ fuel
      → concat (groups_from max_items fuel queued) ≡ queued
  unfolding groups_from
  groups_from-concat zero [] h enough = refl
  groups_from-concat zero (item ∷ items) h enough = absurd (omega arith)
  groups_from-concat (suc fuel) [] h enough = refl
  groups_from-concat (suc fuel) (item ∷ items) h enough =
      rw
        (groups_from-concat fuel (drop max_items (item ∷ items)) h
          (omega (arith, length-drop max_items (item ∷ items))))
        (take-append-drop max_items (item ∷ items))

  abbrev pub FitsBatch : List Item → Type 0
  FitsBatch group = (1 ≤ length group) × (length group ≤ max_items)

  groups_from-FitsBatch :
      (fuel : ℕ) (queued : List Item)
      → 1 ≤ max_items
      → All FitsBatch (groups_from max_items fuel queued)
  unfolding groups_from
  groups_from-FitsBatch zero queued h = tt
  groups_from-FitsBatch (suc fuel) [] h = tt
  groups_from-FitsBatch (suc fuel) (item ∷ items) h = (
    (
      omega (arith, length-take max_items (item ∷ items)),
      omega (arith, length-take max_items (item ∷ items)),
    ),
    groups_from-FitsBatch fuel (drop max_items (item ∷ items)) h,
  )

  enqueue_all-pending :
      (items : List Item) (q : Queue Item)
      → (enqueue_all max_items items q).pending ≡ q.pending ++ items
  enqueue_all-pending [] q = sym (append-nil q.pending)
  enqueue_all-pending (item ∷ items) q =
      enqueue_all-pending items (enqueue max_items item q)
      ∙ unfold enqueue in append_assoc q.pending (item ∷ []) items

  -- If the size of a batch is positive, a flush sends the operations that were queued since the last
  -- one, each once and in their order, in groups that are not empty and not above that size, and
  -- leaves the queue empty and not scheduled.
  pub flush-enqueue_all :
      (items : List Item)
      → 1 ≤ max_items
      → (concat
            (flush max_items
              (enqueue_all max_items items (record { pending = []; scheduled = false }))).0
          ≡ items)
        × All FitsBatch
            (flush max_items
              (enqueue_all max_items items (record { pending = []; scheduled = false }))).0
        × ((flush max_items
              (enqueue_all max_items items (record { pending = []; scheduled = false }))).1
            ≡ record { pending = []; scheduled = false })
  unfolding flush groups
  flush-enqueue_all items h =
      rw (enqueue_all-pending items (record { pending = []; scheduled = false })) (
        groups_from-concat (length items) items h (omega arith),
        groups_from-FitsBatch (length items) items h,
        refl,
      )

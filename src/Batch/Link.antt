-- ===== src/Batch/Link.antt =====
-- packages/runtime/src/batch/link/web_link.ts: the queue of operations that wait for a batch.
-- `flush` runs as a microtask; the groups it makes are sent one after the other.
pub mod Groups
pub mod Execute
pub mod Settled
pub mod InOrder
pub mod Done
mod Examples
use trpc_proto.Base.{ℕ, zero, suc, Bool, true, false, List, [], ◌∷◌, ◌++◌, length, take, drop}

-- The variables of `#createQueue`.
pub record Queue (Item : Type 0) : Type 0 where
  pub pending : List Item
  pub scheduled : Bool

module _ {Item : Type 0} (max_items : ℕ) where
  -- The function that `#createQueue` returns.
  unfoldable pub enqueue : Item → Queue Item → Queue Item
  enqueue item q = record { pending = q.pending ++ (item ∷ []); scheduled = true }

  -- The loop over `queued`, from an index on.
  unfoldable pub groups_from : ℕ → List Item → List (List Item)
  groups_from zero queued = []
  groups_from (suc fuel) queued =
      let later = groups_from fuel (drop max_items queued) in
      elim queued [ [] ↦ [] | item ∷ items ↦ take max_items (item ∷ items) ∷ later ]

  -- A group takes one operation at least, where `max_items` is positive.
  unfoldable pub groups : List Item → List (List Item)
  groups queued = groups_from (length queued) queued

  -- `flush`: the groups to send, and the queue behind it.
  unfoldable pub flush : Queue Item → List (List Item) × Queue Item
  flush q = (groups q.pending, record { pending = []; scheduled = false })

  abbrev pub enqueue_all : List Item → Queue Item → Queue Item
  enqueue_all [] q = q
  enqueue_all (item ∷ items) q = enqueue_all items (enqueue item q)

-- ===== src/Invoker/Stream/Examples.antt =====
-- Two items and an error, the first of which is taken before the second comes.
use trpc_proto.Base.{ℕ, ◌≡◌, List, [], ◌∷◌, ◌++◌, some, arith}
use trpc_proto.Invoker.Stream.{
  next_item, error_with, Turn, produced, pulled, woken, running, ended, subscribed, consume,
}
use trpc_proto.Invoker.Stream.Delivery.{rounds, consume-delivers}

abbrev turns : List (Turn ℕ ℕ)
turns =
    pulled
    ∷ produced (next_item 7)
    ∷ woken
    ∷ pulled
    ∷ produced (next_item 8)
    ∷ produced (error_with (some 1))
    ∷ []

consume-delivers_example :
    consume (turns ++ rounds 3) (running subscribed) ≡ (7 ∷ 8 ∷ [], ended (some 1))
consume-delivers_example = consume-delivers turns 3 tt (omega arith)

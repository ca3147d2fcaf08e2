-- ===== src/Base/Pigeonhole.antt =====
-- A list of numbers below n, no two of them the same, has at most n.
use Prim.Native.Nat.{ℕ, zero, suc, ◌≤◌, ◌<◌}
use mathlib.Core.Path.{◌≡◌, refl}
use mathlib.Core.Logic.{inl, inr}
use mathlib.Core.Bool.{false}
use mathlib.Core.List.{List, [], ◌∷◌}
use native.Mathlib.Omega.{arith}
use trpc_proto.Base.Tests.{◌==◌, if◌then◌else◌, Bool-cases}
use trpc_proto.Base.Lists.{length, All, has, Distinct}

-- Without the first n.
abbrev remove : ℕ → List ℕ → List ℕ
remove n [] = []
remove n (x ∷ xs) = if x == n then xs else x ∷ remove n xs

length-remove : (n : ℕ) (xs : List ℕ) → length xs ≤ suc (length (remove n xs))
length-remove n [] = omega arith
length-remove n (x ∷ xs) = ground (arith, length-remove n xs)

has-remove : (n a : ℕ) (xs : List ℕ) → has xs a ≡ false → has (remove n xs) a ≡ false
has-remove n a [] h = refl
has-remove n a (x ∷ xs) h = ground (arith, has-remove n a xs)

remove-Distinct : (n : ℕ) (xs : List ℕ) → Distinct xs → Distinct (remove n xs)
remove-Distinct n [] d = tt
remove-Distinct n (x ∷ xs) (new, d) = elim (Bool-cases (x == n)) [
  | inl same ↦ rw same d
  | inr other ↦ rw other (has-remove n x xs new, remove-Distinct n xs d)
]

below-without :
    (n : ℕ) (xs : List ℕ) → All (λ x. x < suc n) xs → has xs n ≡ false → All (λ x. x < n) xs
below-without n [] h new = tt
below-without n (x ∷ xs) (h, hs) new = (ground arith, below-without n xs hs (ground arith))

remove-below :
    (n : ℕ) (xs : List ℕ) → All (λ x. x < suc n) xs → Distinct xs → All (λ x. x < n) (remove n xs)
remove-below n [] h d = tt
remove-below n (x ∷ xs) (h, hs) (new, d) = elim (Bool-cases (x == n)) [
  | inl same ↦ rw same (below-without n xs hs (ground arith))
  | inr other ↦ rw other (ground arith, remove-below n xs hs d)
]

pub Distinct-length : (n : ℕ) (xs : List ℕ) → Distinct xs → All (λ x. x < n) xs → length xs ≤ n
Distinct-length n [] d h = omega arith
Distinct-length zero (x ∷ xs) d (h, hs) = absurd (omega arith)
Distinct-length (suc n) (x ∷ xs) d h = omega (
  arith,
  length-remove n (x ∷ xs),
  Distinct-length n (remove n (x ∷ xs)) (remove-Distinct n (x ∷ xs) d)
      (remove-below n (x ∷ xs) h d),
)

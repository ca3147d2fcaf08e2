-- ===== src/Base/Bits.antt =====
-- `bit_or` of a multiple of a power of two with what lies below it, and `bit_and` with a byte's
-- mask. A native operation stands for `bitwise`, a recursion on binary digits with fuel.
use Prim.Native.Nat.{bit_and, bit_or, digits, bit_and-bitwise, bit_or-bitwise, max, min}
use native.Mathlib.Nat.{pow-suc}
use trpc_proto.Base.{ℕ, zero, suc, ◌+◌, ◌*◌, ◌/◌, ◌%◌, ◌^◌, ◌≤◌, ◌<◌, ◌≡◌, refl, ap, arith}

-- More fuel than the first number changes nothing.
module _ (tail : ℕ → ℕ) (op : ℕ → ℕ → ℕ) where
  digits_stable : (k m a b : ℕ) → a ≤ k → a ≤ m → digits tail op k a b ≡ digits tail op m a b
  digits_stable zero zero a b h l = refl
  digits_stable zero (suc m) zero b h l = refl
  digits_stable (suc k) zero zero b h l = refl
  digits_stable (suc k) (suc m) zero b h l = refl
  digits_stable zero m (suc a) b h l = absurd (omega arith)
  digits_stable (suc k) zero (suc a) b h l = absurd (omega arith)
  digits_stable (suc k) (suc m) (suc a) b h l =
      ap (λ (t : ℕ). t * 2 + op (suc a % 2) (b % 2))
        (digits_stable k m (suc a / 2) (b / 2) (omega arith) (omega arith))

lowest_or : (a b : ℕ) → bit_or a b ≡ bit_or (a / 2) (b / 2) * 2 + max (a % 2) (b % 2)
lowest_or zero b = rw (bit_or-bitwise 0 b, bit_or-bitwise (0 / 2) (b / 2)) (omega arith)
lowest_or (suc a) b = omega (
  arith,
  bit_or-bitwise (suc a) b,
  bit_or-bitwise (suc a / 2) (b / 2),
  digits_stable (λ y. y) max a (suc a / 2) (suc a / 2) (b / 2) (omega arith) (omega arith),
)

lowest_and : (a b : ℕ) → bit_and a b ≡ bit_and (a / 2) (b / 2) * 2 + min (a % 2) (b % 2)
lowest_and zero b = rw (bit_and-bitwise 0 b, bit_and-bitwise (0 / 2) (b / 2)) (omega arith)
lowest_and (suc a) b = omega (
  arith,
  bit_and-bitwise (suc a) b,
  bit_and-bitwise (suc a / 2) (b / 2),
  digits_stable (λ y. 0) min a (suc a / 2) (suc a / 2) (b / 2) (omega arith) (omega arith),
)

bit_or-zero_below : (k a : ℕ) → a ≤ k → bit_or a 0 ≡ a
bit_or-zero_below k zero h = refl
bit_or-zero_below zero (suc a) h = absurd (omega arith)
bit_or-zero_below (suc k) (suc a) h =
    omega (arith, lowest_or (suc a) 0, bit_or-zero_below k (suc a / 2) (omega arith))

bit_and-zero_below : (k a : ℕ) → a ≤ k → bit_and a 0 ≡ 0
bit_and-zero_below k zero h = refl
bit_and-zero_below zero (suc a) h = absurd (omega arith)
bit_and-zero_below (suc k) (suc a) h =
    omega (arith, lowest_and (suc a) 0, bit_and-zero_below k (suc a / 2) (omega arith))

half_power : (q k : ℕ) → q * 2 ^ suc k ≡ 2 * (q * 2 ^ k)
half_power q k = omega (arith, ap (λ (t : ℕ). q * t) (pow-suc 2 k))

pub bit_or-add : (k q r : ℕ) → r < 2 ^ k → bit_or (q * 2 ^ k) r ≡ q * 2 ^ k + r
bit_or-add zero q r h =
    let none_left : r ≡ 0 = omega arith in
    rw none_left (omega (arith, bit_or-zero_below (q * 1) (q * 1) (omega arith)))
bit_or-add (suc k) q r h = ground (
  arith,
  lowest_or (q * 2 ^ suc k) r,
  half_power q k,
  pow-suc 2 k,
  bit_or-add k q (r / 2) (omega (arith, pow-suc 2 k)),
)

bit_and_nibble : (a : ℕ) → bit_and a 15 ≡ a % 16
bit_and_nibble a = omega (
  arith,
  lowest_and a 15,
  lowest_and (a / 2) 7,
  lowest_and (a / 2 / 2) 3,
  lowest_and (a / 2 / 2 / 2) 1,
  bit_and-zero_below (a / 2 / 2 / 2 / 2) (a / 2 / 2 / 2 / 2),
)

pub bit_and_byte : (a : ℕ) → bit_and a 255 ≡ a % 256
bit_and_byte a = omega (
  arith,
  lowest_and a 255,
  lowest_and (a / 2) 127,
  lowest_and (a / 2 / 2) 63,
  lowest_and (a / 2 / 2 / 2) 31,
  bit_and_nibble (a / 2 / 2 / 2 / 2),
)

-- ===== src/Base/Decimal.antt =====
-- Numbers in decimal: `String(n)`, and `Number(s)` of a text of digits.
use trpc_proto.Base.{
  ℕ, zero, suc, ◌+◌, ◌-◌, ◌*◌, ◌/◌, ◌%◌, ◌<◌, ◌≡◌, ◌≢◌, refl, Bool, true, false, [], ◌∷◌, ◌++◌,
  arith, ltb, if◌then◌else◌, all,
}
use trpc_proto.Base.Text.{Text, is_digit}

-- `Number(encoded)` of decimal digits, as long as it is a safe integer.
unfoldable pub decimal_value : ℕ → Text → ℕ
decimal_value value [] = value
decimal_value value (c ∷ s) = decimal_value (value * 10 + (c - b'0')) s

-- `/^[0-9]+$/u`.
abbrev pub is_decimal : Text → Bool
is_decimal [] = false
is_decimal (c ∷ s) = all is_digit (c ∷ s)

-- `String(n)`: a number has at most as many digits as its value and one.
unfoldable pub decimal_digits : ℕ → ℕ → Text
decimal_digits zero n = []
decimal_digits (suc fuel) n =
    let higher = decimal_digits fuel (n / 10) in
    if ltb n 10 then (b'0' + n) ∷ [] else higher ++ ((b'0' + n % 10) ∷ [])

unfoldable pub decimal : ℕ → Text
decimal n = decimal_digits (suc n) n

decimal_value-append :
    (value : ℕ) (s : Text) (d : ℕ)
    → decimal_value value (s ++ ((b'0' + d) ∷ [])) ≡ decimal_value value s * 10 + d
unfolding decimal_value
decimal_value-append value [] d = omega arith
decimal_value-append value (c ∷ s) d = decimal_value-append (value * 10 + (c - b'0')) s d

decimal_value-digits : (fuel n : ℕ) → n < fuel → decimal_value 0 (decimal_digits fuel n) ≡ n
unfolding decimal_digits decimal_value
decimal_value-digits zero n h = absurd (omega arith)
decimal_value-digits (suc fuel) n h = ground (
  arith,
  decimal_value-append 0 (decimal_digits fuel (n / 10)) (n % 10),
  decimal_value-digits fuel (n / 10),
)

all-append :
    (s : Text) (c : ℕ)
    → all is_digit s ≡ true
    → is_digit c ≡ true
    → all is_digit (s ++ (c ∷ [])) ≡ true
all-append [] c h k = ground arith
all-append (d ∷ s) c h k = ground (arith, all-append s c)

digits-all : (fuel n : ℕ) → all is_digit (decimal_digits fuel n) ≡ true
unfolding decimal_digits
digits-all zero n = refl
digits-all (suc fuel) n =
    ground
      (arith, digits-all fuel (n / 10), all-append (decimal_digits fuel (n / 10)) (b'0' + n % 10))

all-is_decimal : (s : Text) → s ≢ [] → all is_digit s ≡ true → is_decimal s ≡ true
all-is_decimal [] h k = absurd (h refl)
all-is_decimal (c ∷ s) h k = k

append-ne-nil : (s : Text) (c : ℕ) → s ++ (c ∷ []) ≢ []
append-ne-nil [] c = λ e. cc e
append-ne-nil (d ∷ s) c = λ e. cc e

digits-ne-nil : (fuel n : ℕ) → decimal_digits (suc fuel) n ≢ []
unfolding decimal_digits
digits-ne-nil fuel n =
    λ e. ground (arith, append-ne-nil (decimal_digits fuel (n / 10)) (b'0' + n % 10))

pub decimal_value-decimal : (n : ℕ) → decimal_value 0 (decimal n) ≡ n
unfolding decimal
decimal_value-decimal n = decimal_value-digits (suc n) n (omega arith)

pub decimal-is_decimal : (n : ℕ) → is_decimal (decimal n) ≡ true
unfolding decimal
decimal-is_decimal n =
    all-is_decimal (decimal_digits (suc n) n) (digits-ne-nil n n) (digits-all (suc n) n)

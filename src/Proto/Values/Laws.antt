-- ===== src/Proto/Values/Laws.antt =====
-- An integer comes back from its text.
use trpc_proto.Base.{
  ℕ, suc, ◌≡◌, refl, ap, arith, true, false, [], ◌∷◌, all, Option, some, Bool-cases, inl, inr,
}
use trpc_proto.Base.Text.{
  Text, is_digit, is_space, trim, trim_start, trim_end, text_eq, codes, lower,
}
use trpc_proto.Base.Decimal.{decimal, is_decimal, decimal-is_decimal, decimal_value-decimal}
use trpc_proto.Proto.Timestamp.{ℤ, pos, negsuc, neg}
use trpc_proto.Proto.Values.{integer, natural, signed, literal, prefixed, parse_integer}

digit-not_space : (c : ℕ) → is_digit c ≡ true → is_space c ≡ false
unfolding is_space
digit-not_space c h = ground arith

trim_end-digits : (s : Text) → all is_digit s ≡ true → trim_end s ≡ s
unfolding trim_end
trim_end-digits [] h = refl
trim_end-digits (c ∷ []) h = rw (digit-not_space c (ground arith)) refl
trim_end-digits (c ∷ d ∷ s) h = rw (trim_end-digits (d ∷ s) (ground arith)) refl

natural-decimal : (n : ℕ) → natural (decimal n) ≡ some n
natural-decimal n = rw (decimal-is_decimal n, decimal_value-decimal n) refl

signed-digits :
    (s : Text) (n : ℕ) → is_decimal s ≡ true → natural s ≡ some n → signed s ≡ some (pos n)
signed-digits [] n h e = cc
signed-digits (c ∷ s) n h e =
    let minus : text_eq (c ∷ []) (codes "-") ≡ false = ground arith in
    let plus : text_eq (c ∷ []) (codes "+") ≡ false = ground arith in rw (minus, plus, e) refl

prefixed-digit : (d : ℕ) (s : Text) (o : Option ℤ) → is_digit d ≡ true → prefixed d s o ≡ o
prefixed-digit d s o h =
    let x : text_eq (lower d ∷ []) (codes "x") ≡ false = ground arith in
    let y : text_eq (lower d ∷ []) (codes "o") ≡ false = ground arith in
    let z : text_eq (lower d ∷ []) (codes "b") ≡ false = ground arith in rw (x, y, z) refl

literal-digits : (s : Text) → is_decimal s ≡ true → literal s ≡ signed s
literal-digits [] h = refl
literal-digits (c ∷ []) h = refl
literal-digits (c ∷ d ∷ s) h = elim (Bool-cases (text_eq (c ∷ []) (codes "0"))) [
  | inl e ↦ rw e (prefixed-digit d s _ (ground arith))
  | inr e ↦ rw e refl
]

trim-digits : (s : Text) → is_decimal s ≡ true → trim s ≡ s
unfolding trim_start
trim-digits [] h = cc
trim-digits (c ∷ s) h = rw (digit-not_space c (ground arith)) (trim_end-digits (c ∷ s) h)

neg-suc : (n : ℕ) → neg (suc n) ≡ negsuc n
neg-suc n = ground arith

literal-minus :
    (s : Text) (n : ℕ)
    → is_decimal s ≡ true
    → natural s ≡ some (suc n)
    → literal (trim (b'-' ∷ s)) ≡ some (negsuc n)
unfolding trim_start trim_end is_space
literal-minus [] n h e = cc
literal-minus (c ∷ s) n h e = rw (trim_end-digits (c ∷ s) h, e) (ap some (neg-suc n))

pub parse_integer-integer : (z : ℤ) → parse_integer (integer z) ≡ some z
unfolding parse_integer
parse_integer-integer (pos n) =
    rw
      (
        trim-digits (decimal n) (decimal-is_decimal n),
        literal-digits (decimal n) (decimal-is_decimal n),
      )
      (signed-digits (decimal n) n (decimal-is_decimal n) (natural-decimal n))
parse_integer-integer (negsuc n) =
    rw (literal-minus (decimal (suc n)) n (decimal-is_decimal (suc n)) (natural-decimal (suc n)))
      refl

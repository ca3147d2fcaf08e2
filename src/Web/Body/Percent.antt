-- ===== src/Web/Body/Percent.antt =====
-- What `decodeURIComponent` is documented to do, and why it undoes the percent-encoding of
-- packages/runtime/src/web/codec/frame_codec.ts.
use trpc_proto.Base.{
  ℕ, ◌<◌, ◌+◌, ◌-◌, ◌*◌, ◌/◌, ◌%◌, ◌≡◌, refl, Bool, true, false, ◌&&◌, ◌||◌, [], ◌∷◌, ◌++◌, Option,
  none, some, arith, ◌==◌, ltb, leb, if◌then◌else◌, All, Bytes, Bool-cases, inl, inr, ap, ◌∙◌,
}
use trpc_proto.Base.Text.{Text, is_space, is_digit, trim, trim_start, trim_end}
use trpc_proto.Web.Frame.{hex_digit, escape_byte, escape_bytes, Utf8, encode_grpc_message}

-- The value of a hexadecimal digit.
abbrev hex_value : ℕ → Option ℕ
hex_value c =
    if is_digit c
    then some (c - b'0')
    else if leb b'A' c && leb c b'F'
    then some (c - b'A' + 10)
    else if leb b'a' c && leb c b'f'
    then some (c - b'a' + 10)
    else none

abbrev cons : ℕ → Option Bytes → Option Bytes
cons b none = none
cons b (some bs) = some (b ∷ bs)

abbrev coded : Option ℕ → Option ℕ → Option Bytes → Option Bytes
coded none l rest = none
coded (some h) none rest = none
coded (some h) (some l) rest = cons (h * 16 + l) rest

-- The bytes of a text of ASCII with escape sequences of bytes.
unfoldable pub unescape : Text → Option Bytes
unescape [] = some []
unescape (c ∷ []) = if c == 0x25 then none else some (c ∷ [])
unescape (c ∷ d ∷ []) = let rest = unescape (d ∷ []) in if c == 0x25 then none else cons c rest
unescape (c ∷ d ∷ e ∷ s) =
    let plain = unescape (d ∷ e ∷ s) in
    let rest = unescape s in
    if c == 0x25 then coded (hex_value d) (hex_value e) rest else cons c plain

unescape-plain : (c : ℕ) (s : Text) → (c == 0x25) ≡ false → unescape (c ∷ s) ≡ cons c (unescape s)
unfolding unescape
unescape-plain c [] h = rw h refl
unescape-plain c (d ∷ []) h = rw h refl
unescape-plain c (d ∷ e ∷ s) h = rw h refl

hex_value-digit : (n : ℕ) → n < 16 → hex_value (hex_digit n) ≡ some n
unfolding hex_digit
hex_value-digit n h = ground arith

unescape-coded :
    (b : ℕ) (s : Text)
    → b < 256
    → unescape (b'%' ∷ hex_digit (b / 16) ∷ hex_digit (b % 16) ∷ s) ≡ cons b (unescape s)
unfolding unescape
unescape-coded b s h =
    rw (hex_value-digit (b / 16) (omega arith), hex_value-digit (b % 16) (omega arith))
      (ap (λ n. cons n (unescape s)) (omega arith))

IsByte : ℕ → Type 0
IsByte b = b < 256

-- The condition of `escape_byte`.
abbrev is_escaped : ℕ → Bool
is_escaped b = b == 0x25 || ltb b 0x20 || ltb 0x7e b

escape_byte-escaped :
    (b : ℕ)
    → is_escaped b ≡ true
    → escape_byte b ≡ b'%' ∷ hex_digit (b / 16) ∷ hex_digit (b % 16) ∷ []
unfolding escape_byte
escape_byte-escaped b h = rw (h) refl

escape_byte-plain : (b : ℕ) → is_escaped b ≡ false → escape_byte b ≡ b ∷ []
unfolding escape_byte
escape_byte-plain b h = rw (h) refl

unescape-escape_bytes : (bs : Bytes) → All (λ b. b < 256) bs → unescape (escape_bytes bs) ≡ some bs
unescape-escape_bytes [] h = unfold unescape in refl
unescape-escape_bytes (b ∷ bs) (first, h) = elim (Bool-cases (is_escaped b)) [
  | inl escaped ↦
      rw (escape_byte-escaped b escaped)
        (unescape-coded b (escape_bytes bs) first ∙ ap (cons b) (unescape-escape_bytes bs h))
  | inr plain ↦
      rw (escape_byte-plain b plain) (
        unescape-plain b (escape_bytes bs) (ground arith)
        ∙ ap (cons b) (unescape-escape_bytes bs h))
]

-- No space at the start or at the end.
abbrev HasNoSpaceLast : Bytes → Type 0
HasNoSpaceLast [] = Unit
HasNoSpaceLast (b ∷ []) = (b == 0x20) ≡ false
HasNoSpaceLast (b ∷ c ∷ bs) = HasNoSpaceLast (c ∷ bs)

abbrev HasNoSpaceFirst : Bytes → Type 0
HasNoSpaceFirst [] = Unit
HasNoSpaceFirst (b ∷ bs) = (b == 0x20) ≡ false

abbrev pub IsUnpadded : Bytes → Type 0
IsUnpadded bs = HasNoSpaceFirst bs × HasNoSpaceLast bs

hex_digit-no_space : (n : ℕ) → n < 16 → is_space (hex_digit n) ≡ false
unfolding hex_digit is_space
hex_digit-no_space n h = ground arith

plain-no_space : (b : ℕ) → is_escaped b ≡ false → (b == 0x20) ≡ false → is_space b ≡ false
unfolding is_space
plain-no_space b h k = ground arith

trim_end-more : (c d : ℕ) (s : Text) → trim_end (d ∷ s) ≡ d ∷ s → trim_end (c ∷ d ∷ s) ≡ c ∷ d ∷ s
unfolding trim_end
trim_end-more c d s h = rw (h) refl

trim_end-one : (c : ℕ) → is_space c ≡ false → trim_end (c ∷ []) ≡ c ∷ []
unfolding trim_end
trim_end-one c h = rw (h) refl

trim_end-escape_byte :
    (b : ℕ) → b < 256 → (b == 0x20) ≡ false → trim_end (escape_byte b ++ []) ≡ escape_byte b ++ []
trim_end-escape_byte b small h = elim (Bool-cases (is_escaped b)) [
  | inl escaped ↦ rw (escape_byte-escaped b escaped) (
      trim_end-more _ _ _
        (trim_end-more _ _ _ (trim_end-one _ (hex_digit-no_space (b % 16) (omega arith)))))
  | inr plain ↦ rw (escape_byte-plain b plain) (trim_end-one b (plain-no_space b plain h))
]

trim_end-behind :
    (b d : ℕ) (s : Text)
    → trim_end (d ∷ s) ≡ d ∷ s
    → trim_end (escape_byte b ++ (d ∷ s)) ≡ escape_byte b ++ (d ∷ s)
trim_end-behind b d s h = elim (Bool-cases (is_escaped b)) [
  | inl escaped ↦
      rw (escape_byte-escaped b escaped)
        (trim_end-more _ _ _ (trim_end-more _ _ _ (trim_end-more _ _ _ h)))
  | inr plain ↦ rw (escape_byte-plain b plain) (trim_end-more _ _ _ h)
]

-- An escaped text is not empty.
data Filled : Text → Type 0 where
  filled : {d : ℕ} {s : Text} → Filled (d ∷ s)

escape_byte-Filled : (b : ℕ) (s : Text) → Filled (escape_byte b ++ s)
escape_byte-Filled b s = elim (Bool-cases (is_escaped b)) [
  | inl escaped ↦ rw (escape_byte-escaped b escaped) filled
  | inr plain ↦ rw (escape_byte-plain b plain) filled
]

trim_end-Filled :
    (b : ℕ) {s : Text}
    → Filled s
    → trim_end s ≡ s
    → trim_end (escape_byte b ++ s) ≡ escape_byte b ++ s
trim_end-Filled b (filled {d} {s}) h = trim_end-behind b d s h

trim_end-escape_bytes :
    (bs : Bytes)
    → All (λ b. b < 256) bs
    → HasNoSpaceLast bs
    → trim_end (escape_bytes bs) ≡ escape_bytes bs
trim_end-escape_bytes [] h k = unfold trim_end in refl
trim_end-escape_bytes (b ∷ []) (small, h) k = trim_end-escape_byte b small k
trim_end-escape_bytes (b ∷ c ∷ bs) (small, h) k =
    trim_end-Filled b (escape_byte-Filled c (escape_bytes bs)) (trim_end-escape_bytes (c ∷ bs) h k)

trim_start-one : (c : ℕ) (s : Text) → is_space c ≡ false → trim_start (c ∷ s) ≡ c ∷ s
unfolding trim_start
trim_start-one c s h = rw (h) refl

trim_start-escape_bytes :
    (bs : Bytes) → HasNoSpaceFirst bs → trim_start (escape_bytes bs) ≡ escape_bytes bs
trim_start-escape_bytes [] h = unfold trim_start in refl
trim_start-escape_bytes (b ∷ bs) h = elim (Bool-cases (is_escaped b)) [
  | inl escaped ↦ rw (escape_byte-escaped b escaped) (trim_start-one _ _ (unfold is_space in refl))
  | inr plain ↦ rw (escape_byte-plain b plain) (trim_start-one _ _ (plain-no_space b plain h))
]

-- A text without spaces around it comes back from the percent-encoding.
pub unescape-encode_grpc_message :
    (utf8 : Utf8) (text : Text)
    → All (λ b. b < 256) (utf8.encode text)
    → IsUnpadded (utf8.encode text)
    → unescape (trim (encode_grpc_message utf8 text)) ≡ some (utf8.encode text)
unfolding encode_grpc_message
unescape-encode_grpc_message utf8 text bytes (first, last) =
    rw
      (
        trim_start-escape_bytes (utf8.encode text) first,
        trim_end-escape_bytes (utf8.encode text) bytes last,
      )
      (unescape-escape_bytes (utf8.encode text) bytes)

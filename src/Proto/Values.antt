-- ===== src/Proto/Values.antt =====
-- packages/runtime/src/proto_codec/proto_codec.ts: the values of JavaScript that it meets. A number is
-- a whole one or NaN, below 1e21 where it is printed. An object lists its own properties in their
-- order; only a plain object has properties under the names of fields, since inherited ones and
-- those of arrays, byte arrays and dates are left out.
pub mod Laws
use trpc_proto.Base.{
  ℕ, suc, ◌+◌, ◌*◌, ◌-◌, Bool, true, false, ◌&&◌, ◌||◌, List, [], ◌∷◌, map, Option, none, some,
  Bytes, if◌then◌else◌, leb, all,
}
use trpc_proto.Base.Text.{Text, codes, text_eq, is_digit, is_lower, lower, trim, join}
use trpc_proto.Base.Decimal.{decimal, decimal_value, is_decimal}
use trpc_proto.Proto.Timestamp.{ℤ, pos, negsuc, neg}

mutual
  pub data Value : Type 0 where
    undefined null nan invalid_date : Value
    boolean : Bool → Value
    number bigint : ℤ → Value
    string : Text → Value
    date : ℤ → Value
    uint8_array : Bytes → Value
    array : Items → Value
    object : Entries → Value

  pub data Items : Type 0 where
    no_items : Items
    item : Value → Items → Items

  pub data Entries : Type 0 where
    no_entries : Entries
    entry : Text → Value → Entries → Entries

-- `value == null`.
abbrev pub is_nullish : Value → Bool
is_nullish undefined = true
is_nullish null = true
is_nullish _ = false

-- `value && typeof value === 'object'`.
abbrev pub is_object : Value → Bool
is_object invalid_date = true
is_object (date ms) = true
is_object (uint8_array bytes) = true
is_object (array items) = true
is_object (object es) = true
is_object _ = false

-- `a ?? b`.
abbrev pub coalesce : Value → Value → Value
coalesce undefined b = b
coalesce null b = b
coalesce a b = a

-- `es[name]`, `es[name] = v` and `delete es[name]`.
abbrev pub get : Text → Entries → Value
get name no_entries = undefined
get name (entry n v es) = if text_eq n name then v else get name es

abbrev pub set : Text → Value → Entries → Entries
set name v no_entries = entry name v no_entries
set name v (entry n w es) = if text_eq n name then entry n v es else entry n w (set name v es)

abbrev pub remove : Text → Entries → Entries
remove name no_entries = no_entries
remove name (entry n v es) = if text_eq n name then es else entry n v (remove name es)

-- `{ ...out, ...es }`.
abbrev pub spread_entries : Entries → Entries → Entries
spread_entries out no_entries = out
spread_entries out (entry n v es) = spread_entries (set n v out) es

abbrev byte_items : Bytes → Items
byte_items [] = no_items
byte_items (b ∷ bytes) = item (number (pos b)) (byte_items bytes)

abbrev indexed_items : ℕ → Items → Entries
indexed_items i no_items = no_entries
indexed_items i (item v items) = entry (decimal i) v (indexed_items (suc i) items)

-- `Object.entries(value)`, and what `{ ...value }` copies.
abbrev pub own_entries : Value → Entries
own_entries (object es) = es
own_entries (array items) = indexed_items 0 items
own_entries (uint8_array bytes) = indexed_items 0 (byte_items bytes)
own_entries _ = no_entries

-- `value[name]`.
abbrev pub member : Text → Value → Value
member name (object es) = get name es
member name _ = undefined

abbrev pub integer : ℤ → Text
integer (pos n) = decimal n
integer (negsuc n) = b'-' ∷ decimal (suc n)

-- `String(value)`; `none` is the text of a plain object or a date, which is no number.
unfoldable mutual
  pub text_of : Value → Option Text
  text_of undefined = some (codes "undefined")
  text_of null = some (codes "null")
  text_of nan = some (codes "NaN")
  text_of invalid_date = none
  text_of (boolean true) = some (codes "true")
  text_of (boolean false) = some (codes "false")
  text_of (number z) = some (integer z)
  text_of (bigint z) = some (integer z)
  text_of (string s) = some s
  text_of (date ms) = none
  text_of (uint8_array bytes) = some (join (codes ",") (map decimal bytes))
  text_of (array items) = elim (texts_of items) [
    | none ↦ none
    | some ts ↦ some (join (codes ",") ts)
  ]
  text_of (object es) = none

  texts_of : Items → Option (List Text)
  texts_of no_items = some []
  texts_of (item v items) =
      let first = text_of v in
      let rest = texts_of items in
      elim rest [
        | none ↦ none
        | some ts ↦
            if is_nullish v
            then some ([] ∷ ts)
            else elim first [ none ↦ none | some t ↦ some (t ∷ ts) ]
      ]

-- The value of a digit of a base up to 36.
abbrev digit : ℕ → ℕ
digit c = if is_digit c then c - b'0' else if is_lower (lower c) then lower c - 87 else 36

abbrev radix_value : ℕ → ℕ → Text → ℕ
radix_value base value [] = value
radix_value base value (c ∷ s) = radix_value base (value * base + digit c) s

abbrev radix : ℕ → Text → Option ℤ
radix base [] = none
radix base (c ∷ s) =
    if all (λ d. leb (digit d + 1) base) (c ∷ s)
    then some (pos (radix_value base 0 (c ∷ s)))
    else none

abbrev natural : Text → Option ℕ
natural s = if is_decimal s then some (decimal_value 0 s) else none

abbrev prefixed : ℕ → Text → Option ℤ → Option ℤ
prefixed c s otherwise =
    if text_eq (lower c ∷ []) (codes "x")
    then radix 16 s
    else if text_eq (lower c ∷ []) (codes "o")
    then radix 8 s
    else if text_eq (lower c ∷ []) (codes "b")
    then radix 2 s
    else otherwise

abbrev signed : Text → Option ℤ
signed [] = some (pos 0)
signed (c ∷ s) =
    if text_eq (c ∷ []) (codes "-")
    then elim (natural s) [ none ↦ none | some n ↦ some (neg n) ]
    else elim (natural (if text_eq (c ∷ []) (codes "+") then s else c ∷ s)) [
      | none ↦ none
      | some n ↦ some (pos n)
    ]

abbrev literal : Text → Option ℤ
literal [] = signed []
literal (c ∷ []) = signed (c ∷ [])
literal (c ∷ d ∷ s) =
    let plain = signed (c ∷ d ∷ s) in
    if text_eq (c ∷ []) (codes "0") then prefixed d s plain else plain

-- `BigInt(s)`, and `Number(s)` of a whole number; `none` is a SyntaxError, or NaN.
unfoldable pub parse_integer : Text → Option ℤ
parse_integer s = literal (trim s)

-- `Number(value)` of a value other than undefined and null.
abbrev pub number_of : Value → Option ℤ
number_of (number z) = some z
number_of nan = none
number_of invalid_date = none
number_of (date ms) = some ms
number_of (boolean true) = some (pos 1)
number_of (boolean false) = some (pos 0)
number_of value = elim (text_of value) [ none ↦ none | some s ↦ parse_integer s ]

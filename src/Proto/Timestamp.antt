-- ===== src/Proto/Timestamp.antt =====
-- packages/runtime/src/proto_codec/proto_codec.ts: dates as timestamps. A date is its milliseconds
-- since 1970, a whole number; a sum of seconds and nanoseconds is computed exactly.
pub mod Laws
mod Examples
use trpc_proto.Base.{
  ℕ, zero, suc, ◌+◌, ◌-◌, ◌*◌, ◌/◌, ◌%◌, ◌^◌, Bool, true, false, ltb, if◌then◌else◌,
}

pub data ℤ : Type 0 where
  pos negsuc : ℕ → ℤ

-- The number -n.
abbrev pub neg : ℕ → ℤ
neg n = if ltb 0 n then negsuc (n - 1) else pos 0

-- The number m - n.
abbrev pub minus : ℕ → ℕ → ℤ
minus m n = if ltb m n then neg (n - m) else pos (m - n)

infixl 20 ◌+ℤ◌
abbrev pub ◌+ℤ◌ : ℤ → ℤ → ℤ
pos m +ℤ pos n = pos (m + n)
pos m +ℤ negsuc n = minus m (n + 1)
negsuc m +ℤ pos n = minus n (m + 1)
negsuc m +ℤ negsuc n = negsuc (m + n + 1)

abbrev pub scale : ℕ → ℤ → ℤ
scale k (pos n) = pos (k * n)
scale k (negsuc n) = neg (k * (n + 1))

pub record Timestamp : Type 0 where
  pub seconds : ℤ
  pub nanos : ℤ

-- `Math.floor` goes down; `%` has the sign of the date.
unfoldable pub date_to_timestamp : ℤ → Timestamp
date_to_timestamp (pos ms) = record { seconds = pos (ms / 1000); nanos = pos (ms % 1000 * 1000000) }
date_to_timestamp (negsuc n) = record {
  seconds = negsuc (n / 1000);
  nanos = neg ((n + 1) % 1000 * 1000000);
}

-- A `Date` cuts off what is less than a millisecond.
abbrev pub whole_milliseconds : ℤ → ℤ
whole_milliseconds (pos nanos) = pos (nanos / 1000000)
whole_milliseconds (negsuc n) = neg ((n + 1) / 1000000)

unfoldable pub timestamp_to_date : Timestamp → ℤ
timestamp_to_date t = whole_milliseconds (scale 1000000000 t.seconds +ℤ t.nanos)

-- ===== src/Proto/Convert/Fits/Scalars.antt =====
-- Numbers and dates come back from the values that they become.
use trpc_proto.Base.{◌≡◌, refl, true, false, Option}
use trpc_proto.Base.Text.{Text}
use trpc_proto.Schema.Types.{
  ProtoScalar, int64, sint64, ProtoType, scalar, enum, message, ProtoMessage,
}
use trpc_proto.Proto.Timestamp.{ℤ}
use trpc_proto.Proto.Timestamp.Laws.{IsKept, timestamp_to_date_iff}
use trpc_proto.Proto.Values.{Value, bigint, string, date, is_nullish, text_of, integer}
use trpc_proto.Proto.Values.Laws.{parse_integer-integer}
use trpc_proto.Proto.Convert.{
  Converted, ok, Conversion, timestamp_name, in_range, is_long, is_long_result, big_int,
  to_proto_value, from_proto_value, from_date,
}

-- What a conversion makes of a value, from which another makes it again.
pub record Matches (to from : Value → Converted) (v w : Value) : Type 0 where
  pub given : is_nullish v ≡ false
  pub made : is_nullish w ≡ false
  pub there_is : to v ≡ ok w
  pub and_back : from w ≡ ok v

abbrev pub ComesBack : (to from : Value → Converted) → Value → Type 0
ComesBack to from v = (w : Value) × Matches to from v w

big_int-integer : (z : ℤ) → big_int (string (integer z)) ≡ ok (bigint z)
unfolding text_of
big_int-integer z = rw (parse_integer-integer z, big_int) refl

pub long-ComesBack :
    (to from : Conversion) (kind : ProtoScalar) (z : ℤ) (scope : Option ProtoMessage)
    → is_long_result kind ≡ true
    → ComesBack
        (λ v. to_proto_value to (scalar kind) v scope)
        (λ w. from_proto_value from (scalar kind) w scope)
        (bigint z)
unfolding to_proto_value from_proto_value text_of
long-ComesBack to from int64 z scope h = (
  string (integer z),
  record { given = refl; made = refl; there_is = refl; and_back = big_int-integer z },
)
long-ComesBack to from sint64 z scope h = (
  string (integer z),
  record { given = refl; made = refl; there_is = refl; and_back = big_int-integer z },
)
long-ComesBack to from _ z scope h = cc

-- Only the 64-bit integers change.
pub scalar-ComesBack :
    (to from : Conversion) (kind : ProtoScalar) (v : Value) (scope : Option ProtoMessage)
    → is_long kind ≡ false
    → is_nullish v ≡ false
    → ComesBack
        (λ v. to_proto_value to (scalar kind) v scope)
        (λ w. from_proto_value from (scalar kind) w scope)
        v
unfolding to_proto_value from_proto_value
scalar-ComesBack to from kind v scope h u =
    let e : is_long_result kind ≡ false = is_long_result-false kind h in
    (v, record { given = u; made = u; there_is = rw (u, h) refl; and_back = rw (u, e) refl })
  where
    is_long_result-false : (kind : ProtoScalar) → is_long kind ≡ false → is_long_result kind ≡ false
    is_long_result-false int64 h = cc
    is_long_result-false sint64 h = cc
    is_long_result-false _ h = refl

pub date-ComesBack :
    (to from : Conversion) (ms : ℤ) (scope : Option ProtoMessage)
    → IsKept ms
    → in_range ms ≡ true
    → ComesBack
        (λ v. to_proto_value to (message timestamp_name) v scope)
        (λ w. from_proto_value from (message timestamp_name) w scope)
        (date ms)
unfolding to_proto_value from_proto_value
date-ComesBack to from ms scope h r = (
  from_date (date ms),
  record {
    given = refl;
    made = refl;
    there_is = refl;
    and_back = rw ((timestamp_to_date_iff ms).1 h, r) refl;
  },
)

-- A value of a type, in a scope.
abbrev pub TypeComesBack :
    Conversion → Conversion → Option ProtoMessage → ProtoType → Value → Type 0
TypeComesBack to from scope type v =
    ComesBack (λ v. to_proto_value to type v scope) (λ w. from_proto_value from type w scope) v

pub enum-ComesBack :
    (to from : Conversion) (name : Text) (v : Value) (scope : Option ProtoMessage)
    → is_nullish v ≡ false
    → TypeComesBack to from scope (enum name) v
unfolding to_proto_value from_proto_value
enum-ComesBack to from name v scope u =
    (v, record { given = u; made = u; there_is = refl; and_back = refl })

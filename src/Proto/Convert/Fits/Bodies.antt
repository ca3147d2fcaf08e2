-- ===== src/Proto/Convert/Fits/Bodies.antt =====
-- The value of a message comes back, once its name is resolved.
use trpc_proto.Base.{
  ◌≡◌, refl, Bool, true, false, List, [], ◌∷◌, Option, none, some, Member, here, there, arith,
  Bool-cases, inl, inr, ap, sym, all,
}
use trpc_proto.Base.Text.{Text, text_eq, codes, text_eq→eq, text_eq_self}
use trpc_proto.Utility.Case.{to_camel}
use trpc_proto.Schema.Types.{
  ProtoType, message, ProtoField, ProtoMessage, proto_message, ProtoMessages,
}
use trpc_proto.Proto.Lookup.{is_wrapper}
use trpc_proto.Proto.Values.{
  Value, string, object, Entries, no_entries, entry, is_nullish, spread_entries, member,
}
use trpc_proto.Proto.Convert.{
  Converted, ok, after, Conversion, timestamp_name, to_proto_value, from_proto_value,
}
use trpc_proto.Proto.Convert.Objects.{is_wrapped, find_arm, tag_of}
use trpc_proto.Proto.Convert.Objects.Rows.{
  by_name, by_camel, done, keep, flip-Rows, is_apart, are_apart, append, append_assoc,
  append-no_entries, convert_raw_fields-Rows,
}
use trpc_proto.Proto.Convert.Fits.{is_absent, are_distinct, FitsField, FitsFields}
use trpc_proto.Proto.Convert.Fits.Scalars.{ComesBack}
use trpc_proto.Proto.Convert.Fits.Pairs.{are_absent, set-absent, are_absent-append, text_eq-sym}
use trpc_proto.Proto.Convert.Fits.Fields.{FieldMatches, fields-Rows, field-ComesBack}
use trpc_proto.Proto.Convert.Objects.{
  to_arm, to_fields, to_message, from_message, find_arm, tagged, payload_of, from_arm,
}
use trpc_proto.Proto.Convert.Objects.Rows.{field_value-free, field_value-first}

wrapper-name :
    (n comment : Text) (f : ProtoField) (subs : ProtoMessages) (d : Option Text)
    → is_wrapper (proto_message n (f ∷ []) subs comment d) ≡ true
    → f.name ≡ codes "value"
unfolding is_wrapper
wrapper-name n comment f subs d h = text_eq→eq f.name (codes "value") h

payload_of-wrapped :
    (n comment : Text) (f : ProtoField) (subs : ProtoMessages) (v : Value)
    → is_wrapper (proto_message n (f ∷ []) subs comment none) ≡ true
    → is_wrapped v ≡ true
    → payload_of (proto_message n (f ∷ []) subs comment none) v ≡ object (entry f.name v no_entries)
payload_of-wrapped n comment f subs v h i = rw (h, i, wrapper-name n comment f subs none h) refl

payload_of-object : (m : ProtoMessage) (es : Entries) → payload_of m (object es) ≡ object es
payload_of-object m es = elim (Bool-cases (is_wrapper m)) [ inl e ↦ rw e refl | inr e ↦ rw e refl ]

from_proto_value-named :
    (from : Conversion) (name : Text) (w v : Value) (scope : Option ProtoMessage)
    → is_nullish w ≡ false
    → text_eq name timestamp_name ≡ false
    → from name w scope ≡ ok v
    → from_proto_value from (message name) w scope ≡ ok v
unfolding from_proto_value
from_proto_value-named from name w v scope u t e = rw (u, t) e

camel_value : to_camel (codes "value") ≡ codes "value"
unfolding to_camel
camel_value = refl

member-value :
    (name : Text) (v : Value)
    → name ≡ codes "value"
    → member (codes "value") (object (entry (to_camel name) v no_entries)) ≡ v
member-value name v e = rw (e, camel_value) refl

all-Member {ℓ} :
    {A : Type ℓ} (p : A → Bool) {x : A} {xs : List A} → all p xs ≡ true → Member x xs → p x ≡ true
all-Member p h here = ground arith
all-Member p h (there m) = all-Member p (ground arith) m

-- Only the arm has a value.
from_arm-found :
    (d : Text) (convert : ProtoType → Value → Converted) (arm : ProtoField) (w : Value)
    {fs : List ProtoField}
    → are_apart fs ≡ true
    → is_nullish w ≡ false
    → Member arm fs
    → from_arm d convert fs (object (entry arm.name w no_entries))
      ≡ after (convert arm.type w) λ decoded. ok (tagged d arm decoded)
from_arm-found d convert arm w a u here =
    rw (field_value-first arm by_name w no_entries u refl, u) refl
from_arm-found d convert arm w a u (there {y = g} {xs = fs} m) =
    let apart : is_apart g arm ≡ true = all-Member (is_apart g) (ground arith) m in
    rw (field_value-free g (entry arm.name w no_entries) (ground arith))
      (from_arm-found d convert arm w (ground arith) u m)

spread_entries-absent :
    (out es : Entries)
    → are_distinct es ≡ true
    → are_absent es out ≡ true
    → spread_entries out es ≡ append out es
spread_entries-absent out no_entries d a = sym (append-no_entries out)
spread_entries-absent out (entry n v es) d a =
    rw (set-absent n v out (ground arith), append_assoc out n v es)
      (spread_entries-absent _ es (ground arith)
        (are_absent-append es out n v (ground arith) (ground arith)))

are_absent-one :
    (es : Entries) (d : Text) (v : Value)
    → is_absent d es ≡ true
    → are_absent es (entry d v no_entries) ≡ true
are_absent-one no_entries d v h = refl
are_absent-one (entry n w es) d v h = ground (arith, text_eq-sym n d, are_absent-one es d v)

module _ (P : Text → Option ProtoMessage → Value → Type 0) (to from : Conversion)
    (message-ComesBack : (name : Text) (scope : Option ProtoMessage) (v : Value)
      → P name scope v
      → ComesBack (λ v. to name v scope) (λ w. from name w scope) v) where
  -- A value of a message that its name was resolved to.
  abbrev pub BodyComesBack : ProtoMessage → Value → Type 0
  BodyComesBack m v =
      ComesBack (λ v. to_message to v (some m)) (λ w. from_message from w (some m)) v

  pub fields-ComesBack :
      (n comment : Text) (fs : List ProtoField) (subs : ProtoMessages) (es : Entries)
      → is_wrapper (proto_message n fs subs comment none) ≡ false
      → are_apart fs ≡ true
      → FitsFields P (some (proto_message n fs subs comment none)) fs es
      → BodyComesBack (proto_message n fs subs comment none) (object es)
  fields-ComesBack n comment fs subs es plain apart fits =
      let m = proto_message n fs subs comment none in
      let (es', rows) =
        fields-Rows P to from (some m) (λ name. message-ComesBack name (some m)) fits in
      (
        object es',
        record {
          given = refl;
          made = refl;
          there_is = rw plain (
              convert_raw_fields-Rows (λ type v. to_proto_value to type v (some m))
                (λ f v w x. (x.given, x.there_is)) apart rows);
          and_back =
              rw
                (
                  convert_raw_fields-Rows (λ type v. from_proto_value from type v (some m))
                      (λ f v w x. (x.made, x.and_back)) apart (flip-Rows rows),
                  plain,
                )
                refl;
        },
      )

  -- The field of a wrapper, by both conversions.
  value-ComesBack :
      (n comment : Text) (f : ProtoField) (subs : ProtoMessages) (v : Value)
      → is_wrapper (proto_message n (f ∷ []) subs comment none) ≡ true
      → FitsField P (some (proto_message n (f ∷ []) subs comment none)) f v
      → (w : Value) × (is_nullish v ≡ false)
        × (to_fields to
              (proto_message n (f ∷ []) subs comment none)
              (object (entry f.name v no_entries))
            ≡ ok (object (entry f.name w no_entries)))
        × (from_message from
              (object (entry f.name w no_entries))
              (some (proto_message n (f ∷ []) subs comment none))
            ≡ ok v)
  value-ComesBack n comment f subs v wrapper fits =
      let m = proto_message n (f ∷ []) subs comment none in
      let nested : (name : Text) (v : Value)
          → P name (some m) v
          → ComesBack (λ v. to name v (some m)) (λ w. from name w (some m)) v =
        λ name. message-ComesBack name (some m) in
      let (w, x) = field-ComesBack P to from (some m) nested fits in
      (
        w,
        x.given,
        convert_raw_fields-Rows {R = FieldMatches P to from (some m) nested} {k = by_name}
            {l = by_name} (λ type v. to_proto_value to type v (some m))
            (λ f v w x. (x.given, x.there_is)) refl (keep x done),
        rw
            (
              convert_raw_fields-Rows {R = λ f w v. FieldMatches P to from (some m) nested f v w}
                  {k = by_name} {l = by_camel} (λ type v. from_proto_value from type v (some m))
                  (λ f v w x. (x.made, x.and_back)) refl (keep {f = f} x done),
              wrapper,
            )
            (ap ok (member-value f.name v (wrapper-name n comment f subs none wrapper))),
      )

  pub wrapped-ComesBack :
      (n comment : Text) (f : ProtoField) (subs : ProtoMessages) (v : Value)
      → is_wrapper (proto_message n (f ∷ []) subs comment none) ≡ true
      → is_wrapped v ≡ true
      → FitsField P (some (proto_message n (f ∷ []) subs comment none)) f v
      → BodyComesBack (proto_message n (f ∷ []) subs comment none) v
  wrapped-ComesBack n comment f subs v wrapper wrapped fits =
      let (w, given, there_is, and_back) = value-ComesBack n comment f subs v wrapper fits in
      (
        object (entry f.name w no_entries),
        record {
          given = given;
          made = refl;
          there_is = rw (payload_of-wrapped n comment f subs v wrapper wrapped) there_is;
          and_back = and_back;
        },
      )

  -- An object that has the field already.
  pub object-ComesBack :
      (n comment : Text) (f : ProtoField) (subs : ProtoMessages) (v : Value)
      → is_wrapper (proto_message n (f ∷ []) subs comment none) ≡ true
      → FitsField P (some (proto_message n (f ∷ []) subs comment none)) f v
      → after
          (to_message to
            (object (entry (codes "value") v no_entries))
            (some (proto_message n (f ∷ []) subs comment none)))
          (λ w. from_message from w (some (proto_message n (f ∷ []) subs comment none)))
        ≡ ok v
  object-ComesBack n comment f subs v wrapper fits =
      let (w, given, there_is, and_back) = value-ComesBack n comment f subs v wrapper fits in
      let m = proto_message n (f ∷ []) subs comment none in
      let sent : to_message to (object (entry (codes "value") v no_entries)) (some m)
          ≡ ok (object (entry f.name w no_entries)) =
        rw (payload_of-object m (entry (codes "value") v no_entries))
          (rw (sym (wrapper-name n comment f subs none wrapper)) there_is) in
      rw sent and_back

  pub arm-ComesBack :
      (n comment d arm_type : Text) (fs : List ProtoField) (arm : ProtoField) (subs : ProtoMessages)
      (es : Entries)
      → are_apart fs ≡ true
      → Member arm fs
      → find_arm (string (tag_of arm)) fs ≡ some arm
      → arm.type ≡ message arm_type
      → text_eq arm_type timestamp_name ≡ false
      → are_distinct (entry d (string (tag_of arm)) es) ≡ true
      → P arm_type (some (proto_message n fs subs comment (some d))) (object es)
      → BodyComesBack
          (proto_message n fs subs comment (some d))
          (object (entry d (string (tag_of arm)) es))
  arm-ComesBack n comment d arm_type fs arm subs es apart place found type other distinct p =
      let m = proto_message n fs subs comment (some d) in
      let (w, x) = message-ComesBack arm_type (some m) (object es) p in
      (
        object (entry arm.name w no_entries),
        record {
          given = refl;
          made = refl;
          there_is =
              rw (payload_of-object m (entry d (string (tag_of arm)) es))
                (rw (text_eq_self d, found) (rw (type, to_arm) (rw x.there_is refl)));
          and_back =
              rw
                (
                  from_arm-found d (λ type v. from_proto_value from type v (some m)) arm w apart
                      x.made place,
                  type,
                  from_proto_value-named from arm_type w (object es) (some m) x.made other
                      x.and_back,
                )
                (ap (λ es. ok (object es))
                  (spread_entries-absent _ es (ground arith)
                    (are_absent-one es d _ (ground arith))));
        },
      )

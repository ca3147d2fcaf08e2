-- ===== src/Proto/Convert/Fits/RoundTrip.antt =====
-- A value that fits its message comes back from it.
use trpc_proto.Base.{ℕ, ◌≤◌, zero, suc, ◌≡◌, refl, true, [], ◌∷◌, Option, none, some}
use trpc_proto.Base.Text.{Text, codes}
use trpc_proto.Schema.Types.{ProtoField, ProtoMessage, proto_message, ProtoMessages, ProtoSchema}
use trpc_proto.Proto.Lookup.{is_wrapper}
use trpc_proto.Proto.Values.{Value, object, no_entries, entry}
use trpc_proto.Proto.Convert.{ok, after, empty_name}
use trpc_proto.Proto.Convert.Objects.{to_proto_object, from_proto_object}
use trpc_proto.Proto.Convert.Fits.{
  FitsField, Resolves, nothing, with_fields, a_wrapped, an_arm, FitsMessage,
}
use trpc_proto.Proto.Convert.Fits.Scalars.{ComesBack}
use trpc_proto.Proto.Convert.Objects.{to_message, from_message}
use trpc_proto.Proto.Convert.Fits.Depth.{FitsMessage-mono}
use trpc_proto.Proto.Convert.Fits.Bodies.{
  fields-ComesBack, wrapped-ComesBack, object-ComesBack, arm-ComesBack,
}

module _ (schema : ProtoSchema) where
  -- What `toProtoObject` and `fromProtoObject` do once the name is resolved.
  resolved-ComesBack :
      (n : ℕ) (name : Text) (scope : Option ProtoMessage) (v : Value) (m : ProtoMessage)
      → Resolves schema name scope m
      → ComesBack
          (λ v. to_message (to_proto_object schema n) v (some m))
          (λ w. from_message (from_proto_object schema n) w (some m))
          v
      → ComesBack
          (λ v. to_proto_object schema (suc n) name v scope)
          (λ w. from_proto_object schema (suc n) name w scope)
          v
  unfolding to_proto_object from_proto_object
  resolved-ComesBack n name scope v m r (w, x) = (
    w,
    record {
      given = x.given;
      made = x.made;
      there_is = rw (r.not_empty, r.not_timestamp, r.resolved) x.there_is;
      and_back = rw (r.not_empty, r.not_timestamp, r.resolved) x.and_back;
    },
  )

  nothing-ComesBack :
      (n : ℕ) (scope : Option ProtoMessage)
      → ComesBack
          (λ v. to_proto_object schema (suc n) empty_name v scope)
          (λ w. from_proto_object schema (suc n) empty_name w scope)
          (object no_entries)
  unfolding to_proto_object from_proto_object
  nothing-ComesBack n scope =
      (object no_entries, record { given = refl; made = refl; there_is = refl; and_back = refl })

  message-ComesBack :
      (n : ℕ) (name : Text) (scope : Option ProtoMessage) (v : Value)
      → FitsMessage schema n name scope v
      → ComesBack
          (λ v. to_proto_object schema n name v scope)
          (λ w. from_proto_object schema n name w scope)
          v
  message-ComesBack zero name scope v h = absurd (cc)
  message-ComesBack (suc n) name scope v (nothing) = nothing-ComesBack n scope
  message-ComesBack (suc n) name scope v
        (with_fields {n = m} {comment} {fs} {subs} {es} r plain apart fits) =
      resolved-ComesBack n name scope v _ r (
        fields-ComesBack (FitsMessage schema n) (to_proto_object schema n)
          (from_proto_object schema n) (message-ComesBack n) m comment fs subs es plain apart fits)
  message-ComesBack (suc n) name scope v
        (a_wrapped {n = m} {comment} {f} {subs} r wrapper wrapped fits) =
      resolved-ComesBack n name scope v _ r (
        wrapped-ComesBack (FitsMessage schema n) (to_proto_object schema n)
          (from_proto_object schema n) (message-ComesBack n) m comment f subs v wrapper wrapped
          fits)
  message-ComesBack (suc n) name scope v
        (an_arm {n = m} {comment} {discriminator} {arm_type} {fs} {arm} {subs} {es} r apart place
          found type other distinct p) =
      resolved-ComesBack n name scope v _ r (
        arm-ComesBack (FitsMessage schema n) (to_proto_object schema n) (from_proto_object schema n)
          (message-ComesBack n) m comment discriminator arm_type fs arm subs es apart place found
          type other distinct p)

  -- A value that fits a message with at most n messages inside each other comes back as it was, if n
  -- calls fit on the stack: `toProtoObject` makes a value of it and throws nothing, and
  -- `fromProtoObject` makes the first value of that again. To fit is to have the properties of some of
  -- the fields, in the order and with the types of the fields and under the camel case of their names,
  -- with dates that timestamps keep and bigints for int64 and sint64, none for uint64; to be a value
  -- that the message wraps; or to be an arm behind its tag.
  pub from_proto_object-to_proto_object :
      (n k : ℕ) (name : Text) (scope : Option ProtoMessage) (v : Value)
      → n ≤ k
      → FitsMessage schema n name scope v
      → after (to_proto_object schema k name v scope) (λ w. from_proto_object schema k name w scope)
        ≡ ok v
  from_proto_object-to_proto_object n k name scope v le h =
      let (w, x) =
        message-ComesBack k name scope v (FitsMessage-mono schema n k name scope v le h) in
      rw x.there_is x.and_back

  -- An object with nothing but a property `value`, whose message has nothing but a field of that name,
  -- does not come back: its property does, as long as it fits the field.
  pub from_proto_object-value :
      (n : ℕ) (name : Text) (scope : Option ProtoMessage) (f : ProtoField) (v : Value)
      (m comment : Text) (subs : ProtoMessages)
      → Resolves schema name scope (proto_message m (f ∷ []) subs comment none)
      → is_wrapper (proto_message m (f ∷ []) subs comment none) ≡ true
      → FitsField (FitsMessage schema n) (some (proto_message m (f ∷ []) subs comment none)) f v
      → after
          (to_proto_object schema (suc n) name (object (entry (codes "value") v no_entries)) scope)
          (λ w. from_proto_object schema (suc n) name w scope)
        ≡ ok v
  unfolding to_proto_object from_proto_object
  from_proto_object-value n name scope f v m comment subs r wrapper fits =
      rw (r.not_empty, r.not_timestamp, r.resolved)
        (object-ComesBack (FitsMessage schema n) (to_proto_object schema n)
          (from_proto_object schema n) (message-ComesBack n) m comment f subs v wrapper fits)

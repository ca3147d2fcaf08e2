-- ===== src/Proto/Convert/Objects/Wire.antt =====
-- packages/runtime/src/proto_codec/proto_codec.ts: what `toProtoObject` hands to protobufjs, whatever value it
-- is given.
use trpc_proto.Base.{
  ℕ, zero, suc, ◌≡◌, refl, Bool, true, false, ◌&&◌, List, [], ◌∷◌, map, Option, none, some, arith,
  Bool-cases, Member, here, there, inl, inr, if◌then◌else◌,
}
use std.Path.{subst}
use trpc_proto.Base.Text.{Text, text_eq, text_eq_self, has_text}
use trpc_proto.Schema.Types.{
  ProtoType, scalar, enum, message, map_of, ProtoField, ProtoMessage, proto_message, ProtoSchema,
}
use trpc_proto.Proto.Lookup.{is_wrapper, resolve_message}
use trpc_proto.Proto.Values.{
  Value, array, object, Items, no_items, item, Entries, no_entries, entry, is_nullish, is_object,
  own_entries, set, member,
}
use trpc_proto.Proto.Convert.{
  Converted, ok, stack_overflow, after, Conversion, empty_name, timestamp_name, each_item,
  each_entry, to_proto_value, field_value, convert_raw_field, convert_raw_fields, is_undefined,
}
use trpc_proto.Proto.Convert.Objects.{
  value_entry, is_wrapped, payload_of, is_arm, find_arm, to_arm, to_fields, to_message,
  to_proto_object,
}
use trpc_proto.Proto.Convert.Fits.{Resolves}

-- A computation gives what `Q` holds of, or the stack overflows.
pub data Overflows (Q : Value → Type 0) : Converted → Type 0 where
  gives : {v : Value} → Q v → Overflows Q (ok v)
  overflows : Overflows Q stack_overflow

abbrev AnyValue : Value → Type 0
AnyValue v = Unit

-- Every key is the name of a field.
abbrev pub has_fields : List ProtoField → Entries → Bool
has_fields fs no_entries = true
has_fields fs (entry n v es) = has_text (map (λ f. f.name) fs) n && has_fields fs es

-- An object of fields, for a value that is no object the value itself.
pub data Message (fs : List ProtoField) (given : Value) : Value → Type 0 where
  fields_of : {es : Entries} → has_fields fs es ≡ true → Message fs given (object es)
  no_object : is_object given ≡ false → Message fs given given

abbrev pub field_list : ProtoMessage → List ProtoField
field_list (proto_message n fs subs comment discriminator) = fs

after-Overflows :
    {Q R : Value → Type 0} {r : Converted} {k : Value → Converted}
    → Overflows Q r
    → ((v : Value) → Q v → Overflows R (k v))
    → Overflows R (after r k)
after-Overflows (gives {v} q) h = h v q
after-Overflows overflows h = overflows

weaken : {Q : Value → Type 0} {r : Converted} → Overflows Q r → Overflows AnyValue r
weaken (gives q) = gives tt
weaken overflows = overflows

has_fields-set :
    (fs : List ProtoField) (key : Text) (w : Value) (out : Entries)
    → has_text (map (λ f. f.name) fs) key ≡ true
    → has_fields fs out ≡ true
    → has_fields fs (set key w out) ≡ true
has_fields-set fs key w no_entries h k = ground arith
has_fields-set fs key w (entry n v out) h k = ground (arith, has_fields-set fs key w out)

has_text-Member :
    {f : ProtoField} {fs : List ProtoField}
    → Member f fs
    → has_text (map (λ f. f.name) fs) f.name ≡ true
has_text-Member {f} here = rw (text_eq_self f.name) refl
has_text-Member (there m) = ground (arith, has_text-Member m)

first : (g f : ProtoField) → some g ≡ some f → g ≡ f
first g f e = cc

find_arm-Member :
    (tag : Value) (fs : List ProtoField) (f : ProtoField) → find_arm tag fs ≡ some f → Member f fs
find_arm-Member tag [] f e = cc
find_arm-Member tag (g ∷ fs) f e = elim (Bool-cases (is_arm tag g)) [
  | inl a ↦ let same : g ≡ f = first g f (rw a at e) in subst (λ h. Member h (g ∷ fs)) same here
  | inr a ↦ there (find_arm-Member tag fs f (rw a at e))
]

module _ (convert : Value → Converted)
    (convert-Overflows : (v : Value) → Overflows AnyValue (convert v)) where
  each_entry-Overflows : (es out : Entries) → Overflows AnyValue (each_entry convert es out)
  each_entry-Overflows no_entries out = gives tt
  each_entry-Overflows (entry n v es) out =
      after-Overflows (convert-Overflows v) λ w _. each_entry-Overflows es (set n w out)

  each_item-Overflows :
      (items : Items) (k : Items → Converted)
      → ((ws : Items) → Overflows AnyValue (k ws))
      → Overflows AnyValue (each_item convert items k)
  each_item-Overflows no_items k h = h no_items
  each_item-Overflows (item v items) k h =
      after-Overflows (convert-Overflows v) λ w _. each_item-Overflows items _ λ ws. h (item w ws)

if-Overflows :
    {Q : Value → Type 0} {r s : Converted} (b : Bool)
    → Overflows Q r
    → Overflows Q s
    → Overflows Q (if b then r else s)
if-Overflows true p q = p
if-Overflows false p q = q

module _ (to : Conversion)
    (to-Overflows : (name : Text) (v : Value) (scope : Option ProtoMessage)
      → Overflows AnyValue (to name v scope)) where
  to_proto_value-Overflows :
      (type : ProtoType) (v : Value) (scope : Option ProtoMessage)
      → Overflows AnyValue (to_proto_value to type v scope)
  unfolding to_proto_value
  to_proto_value-Overflows (scalar kind) v scope = if-Overflows (is_nullish v) (gives tt) (gives tt)
  to_proto_value-Overflows (enum name) v scope = gives tt
  to_proto_value-Overflows (message name) v scope =
      if-Overflows (is_nullish v) (gives tt)
        (if-Overflows (text_eq name timestamp_name) (gives tt) (to-Overflows name v scope))
  to_proto_value-Overflows (map_of key type) v scope =
      if-Overflows (is_object v)
        (each_entry-Overflows _ (λ v. to_proto_value-Overflows type v scope) (own_entries v)
          no_entries)
        (gives tt)

  module _ (scope : Option ProtoMessage) where
    abbrev convert : ProtoType → Value → Converted
    convert type v = to_proto_value to type v scope

    convert_raw_field-Overflows :
        (f : ProtoField) (v : Value) → Overflows AnyValue (convert_raw_field convert f v)
    convert_raw_field-Overflows f (array items) =
        if-Overflows f.repeated
          (each_item-Overflows _ (λ v. to_proto_value-Overflows f.type v scope) items _
            (λ ws. gives tt))
          (to_proto_value-Overflows f.type (array items) scope)
    convert_raw_field-Overflows f _ = to_proto_value-Overflows f.type _ scope

    -- The loop sets no key but the names of its fields.
    convert_raw_fields-Overflows :
        (all fs : List ProtoField) (src given : Value) (out : Entries)
        → ((f : ProtoField) → Member f fs → has_text (map (λ f. f.name) all) f.name ≡ true)
        → has_fields all out ≡ true
        → Overflows (Message all given) (convert_raw_fields (λ f. f.name) convert fs src out)
    unfolding convert_raw_fields
    convert_raw_fields-Overflows all [] src given out sub h = gives (fields_of h)
    convert_raw_fields-Overflows all (f ∷ fs) src given out sub h =
        if-Overflows (is_undefined (field_value f src))
          (convert_raw_fields-Overflows all fs src given out (λ g m. sub g (there m)) h)
          (after-Overflows (convert_raw_field-Overflows f (field_value f src)) λ w _.
            convert_raw_fields-Overflows all fs src given (set f.name w out)
              (λ g m. sub g (there m)) (has_fields-set all f.name w out (sub f here) h))

  to_arm-Overflows :
      (m : ProtoMessage) (rest given : Value) (fs : List ProtoField) (arm : Option ProtoField)
      → ((f : ProtoField) → arm ≡ some f → has_text (map (λ f. f.name) fs) f.name ≡ true)
      → Overflows (Message fs given) (to_arm to m rest arm)
  to_arm-Overflows m rest given fs none h = gives (fields_of refl)
  to_arm-Overflows m rest given fs (some arm) h = of_type arm.type
    where
      of_type :
          (type : ProtoType)
          → Overflows (Message fs given) (elim type [
            | message name ↦
                after (to name rest (some m)) λ w. ok (object (entry arm.name w no_entries))
            | _ ↦ ok (object no_entries)
          ])
      of_type (message name) =
          after-Overflows (to-Overflows name rest (some m))
            λ w _. gives (fields_of (rw (h arm refl) refl))
      of_type _ = gives (fields_of refl)

  to_fields-Overflows :
      (m : ProtoMessage) (src given : Value)
      → Overflows (Message (field_list m) given) (to_fields to m src)
  to_fields-Overflows (proto_message n fs subs comment none) src given =
      convert_raw_fields-Overflows _ fs fs src given no_entries (λ f m. has_text-Member m) refl
  to_fields-Overflows (proto_message n fs subs comment (some d)) src given =
      to_arm-Overflows _ _ given fs (find_arm (member d src) fs)
        λ f e. has_text-Member (find_arm-Member (member d src) fs f e)

  to_message-Overflows :
      (v : Value) (m : ProtoMessage)
      → Overflows (Message (field_list m) v) (to_message to v (some m))
  to_message-Overflows v m = elim (Bool-cases (is_object (payload_of m v))) [
    | inl e ↦ rw e (to_fields-Overflows m (payload_of m v) v)
    | inr e ↦ rw e (given_back (is_wrapper m && is_wrapped v) e)
  ]
    where
      given_back :
          (b : Bool)
          → is_object (if b then object (value_entry v) else v) ≡ false
          → Overflows (Message (field_list m) v) (ok (if b then object (value_entry v) else v))
      given_back true e = cc
      given_back false e = gives (no_object e)

  to_any-Overflows : (v : Value) (m : Option ProtoMessage) → Overflows AnyValue (to_message to v m)
  to_any-Overflows v none = gives tt
  to_any-Overflows v (some m) = weaken (to_message-Overflows v m)

module _ (schema : ProtoSchema) where
  to_proto_object-Overflows :
      (n : ℕ) (name : Text) (v : Value) (scope : Option ProtoMessage)
      → Overflows AnyValue (to_proto_object schema n name v scope)
  unfolding to_proto_object
  to_proto_object-Overflows zero name v scope = overflows
  to_proto_object-Overflows (suc n) name v scope =
      if-Overflows (text_eq name empty_name) (gives tt) (
        if-Overflows (text_eq name timestamp_name) (gives tt) (
          to_any-Overflows (to_proto_object schema n) (to_proto_object-Overflows n) v
            (resolve_message schema name scope)))

  -- Whatever value is given for a message, the conversion throws no error but for a stack that
  -- overflows: it gives an object whose keys are names of the message's fields, or the value itself,
  -- which is no object then.
  pub to_proto_object-Message :
      (n : ℕ) (name : Text) (v : Value) (scope : Option ProtoMessage) (m : ProtoMessage)
      → Resolves schema name scope m
      → Overflows (Message (field_list m) v) (to_proto_object schema (suc n) name v scope)
  unfolding to_proto_object
  to_proto_object-Message n name v scope m r =
      rw (r.not_empty, r.not_timestamp, r.resolved)
        (to_message-Overflows (to_proto_object schema n) (to_proto_object-Overflows n) v m)

-- ===== src/Proto/Convert/Fits.antt =====
-- packages/runtime/src/proto_codec/proto_codec.ts: the values that fit a message and lose nothing in it.
mod Scalars
mod Pairs
mod Fields
mod Bodies
mod Depth
pub mod RoundTrip
use trpc_proto.Base.{
  ℕ, zero, suc, ◌≡◌, Bool, true, false, ◌&&◌, not, List, [], ◌∷◌, Option, none, some, Member,
}
use trpc_proto.Base.Text.{Text, text_eq}
use trpc_proto.Utility.Case.{to_camel}
use trpc_proto.Schema.Types.{
  ProtoScalar, ProtoType, scalar, enum, message, map_of, ProtoField, ProtoMessage, proto_message,
  ProtoMessages, ProtoSchema,
}
use trpc_proto.Proto.Lookup.{is_wrapper, resolve_message}
use trpc_proto.Proto.Timestamp.{ℤ}
use trpc_proto.Proto.Timestamp.Laws.{IsKept}
use trpc_proto.Proto.Values.{
  Value, bigint, string, date, array, object, Items, no_items, item, Entries, no_entries, entry,
  is_nullish,
}
use trpc_proto.Proto.Convert.{empty_name, timestamp_name, in_range, is_long, is_long_result}
use trpc_proto.Proto.Convert.Objects.{is_wrapped, find_arm, tag_of}
use trpc_proto.Proto.Convert.Objects.Rows.{are_apart}

-- Whether no entry has a key, and whether no two have the same.
abbrev pub is_absent : Text → Entries → Bool
is_absent key no_entries = true
is_absent key (entry n v es) = not (text_eq n key) && is_absent key es

abbrev pub are_distinct : Entries → Bool
are_distinct no_entries = true
are_distinct (entry n v es) = is_absent n es && are_distinct es

-- What a value of a type has to be, where `P` says it of the value of a message in a scope.
module _ (P : Text → Option ProtoMessage → Value → Type 0) (scope : Option ProtoMessage) where
  mutual
    pub data FitsValue : ProtoType → Value → Type 0 where
      a_long :
          {kind : ProtoScalar} {z : ℤ}
          → is_long_result kind ≡ true
          → FitsValue (scalar kind) (bigint z)
      a_scalar :
          {kind : ProtoScalar} {v : Value}
          → is_long kind ≡ false
          → is_nullish v ≡ false
          → FitsValue (scalar kind) v
      an_enum : {name : Text} {v : Value} → is_nullish v ≡ false → FitsValue (enum name) v
      a_date :
          {ms : ℤ} → IsKept ms → in_range ms ≡ true → FitsValue (message timestamp_name) (date ms)
      a_message :
          {name : Text} {v : Value}
          → text_eq name timestamp_name ≡ false
          → P name scope v
          → FitsValue (message name) v
      a_map :
          {key : ProtoScalar} {type : ProtoType} {es : Entries}
          → are_distinct es ≡ true
          → FitsEntries type es
          → FitsValue (map_of key type) (object es)

    pub data FitsEntries : ProtoType → Entries → Type 0 where
      no_more : {type : ProtoType} → FitsEntries type no_entries
      one_more :
          {type : ProtoType} {key : Text} {v : Value} {es : Entries}
          → FitsValue type v
          → FitsEntries type es
          → FitsEntries type (entry key v es)

  pub data FitsItems (type : ProtoType) : Items → Type 0 where
    none_left : FitsItems type no_items
    one_left :
        {v : Value} {items : Items}
        → FitsValue type v
        → FitsItems type items
        → FitsItems type (item v items)

  pub data FitsField (f : ProtoField) : Value → Type 0 where
    singular_field : {v : Value} → f.repeated ≡ false → FitsValue f.type v → FitsField f v
    repeated_field :
        {items : Items} → f.repeated ≡ true → FitsItems f.type items → FitsField f (array items)

  -- The values of some of the fields, in the fields' order, under the camel case of their names.
  pub data FitsFields : List ProtoField → Entries → Type 0 where
    no_fields : FitsFields [] no_entries
    without :
        {f : ProtoField} {fs : List ProtoField} {es : Entries}
        → FitsFields fs es
        → FitsFields (f ∷ fs) es
    with_field :
        {f : ProtoField} {fs : List ProtoField} {es : Entries} {v : Value}
        → FitsField f v
        → FitsFields fs es
        → FitsFields (f ∷ fs) (entry (to_camel f.name) v es)

module _ (schema : ProtoSchema) where
  -- A name stands for the message that it is resolved to.
  pub record Resolves (name : Text) (scope : Option ProtoMessage) (m : ProtoMessage) : Type 0 where
    pub not_empty : text_eq name empty_name ≡ false
    pub not_timestamp : text_eq name timestamp_name ≡ false
    pub resolved : resolve_message schema name scope ≡ some m

  -- The value of a message is no object, an object with the values of the fields, the value that a
  -- wrapper wraps, or the value of an arm behind the tag of the arm.
  pub data Fits (P : Text → Option ProtoMessage → Value → Type 0)
      : Text → Option ProtoMessage → Value → Type 0 where
    nothing : {scope : Option ProtoMessage} → Fits P empty_name scope (object no_entries)
    with_fields :
        {name n comment : Text} {scope : Option ProtoMessage} {fs : List ProtoField}
        {subs : ProtoMessages} {es : Entries}
        → Resolves name scope (proto_message n fs subs comment none)
        → is_wrapper (proto_message n fs subs comment none) ≡ false
        → are_apart fs ≡ true
        → FitsFields P (some (proto_message n fs subs comment none)) fs es
        → Fits P name scope (object es)
    a_wrapped :
        {name n comment : Text} {scope : Option ProtoMessage} {f : ProtoField}
        {subs : ProtoMessages} {v : Value}
        → Resolves name scope (proto_message n (f ∷ []) subs comment none)
        → is_wrapper (proto_message n (f ∷ []) subs comment none) ≡ true
        → is_wrapped v ≡ true
        → FitsField P (some (proto_message n (f ∷ []) subs comment none)) f v
        → Fits P name scope v
    an_arm :
        {name n comment discriminator arm_type : Text} {scope : Option ProtoMessage}
        {fs : List ProtoField} {arm : ProtoField} {subs : ProtoMessages} {es : Entries}
        → Resolves name scope (proto_message n fs subs comment (some discriminator))
        → are_apart fs ≡ true
        → Member arm fs
        → find_arm (string (tag_of arm)) fs ≡ some arm
        → arm.type ≡ message arm_type
        → text_eq arm_type timestamp_name ≡ false
        → are_distinct (entry discriminator (string (tag_of arm)) es) ≡ true
        → P arm_type (some (proto_message n fs subs comment (some discriminator))) (object es)
        → Fits P name scope (object (entry discriminator (string (tag_of arm)) es))

  -- The value of a message with at most so many messages inside each other.
  abbrev pub FitsMessage : ℕ → Text → Option ProtoMessage → Value → Type 0
  FitsMessage zero name scope v = zero ≡ 1
  FitsMessage (suc n) name scope v = Fits (FitsMessage n) name scope v

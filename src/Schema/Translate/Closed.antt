-- ===== src/Schema/Translate/Closed.antt =====
-- When the types that a schema's messages name are there: a message or an enum of the schema, one that
-- comes with protobuf, or a sub message of the message that names it.
use trpc_proto.Base.{ℕ, ◌≡◌, refl, Bool, true, false, ◌&&◌, ◌||◌, List, [], ◌∷◌, arith, all}
use trpc_proto.Base.Text.{Text, text_eq}
use trpc_proto.Schema.Types.{
  ProtoType, scalar, enum, message, map_of, ProtoField, ProtoMessage, proto_message, ProtoMessages,
  no_messages, messages,
}
use trpc_proto.Schema.WellKnown.{is_well_known_type}
use trpc_proto.Proto.Lookup.{is_wrapper}
pub mod State
pub mod Objects
pub mod Hoisted
pub mod Variants
pub mod Types
pub mod Fields
pub mod Rpc
pub mod Run

-- The names of the messages and of the enums that a type may name.
pub record Scope : Type 0 where
  pub has_messages : Text → Bool
  pub has_enums : Text → Bool

unfoldable pub closed_type : Scope → ProtoType → Bool
closed_type scope (scalar type) = true
closed_type scope (enum name) = is_well_known_type name || scope.has_enums name
closed_type scope (message name) = is_well_known_type name || scope.has_messages name
closed_type scope (map_of key value) = closed_type scope value

abbrev pub closed_fields : Scope → List ProtoField → Bool
closed_fields scope [] = true
closed_fields scope (field ∷ fields) = closed_type scope field.type && closed_fields scope fields

abbrev pub has_sub : Text → ProtoMessages → Bool
has_sub name no_messages = false
has_sub name (messages (proto_message n fields subs comment discriminator) ms) =
    text_eq n name || has_sub name ms

-- The scope of a message with the sub messages.
abbrev pub within : ProtoMessages → Scope → Scope
within subs scope = record {
  has_messages = λ name. has_sub name subs || scope.has_messages name;
  has_enums = scope.has_enums;
}

-- Every field of the message, and of its sub messages, has a type in scope.
abbrev mutual
  pub closed_message : Scope → ProtoMessage → Bool
  closed_message scope (proto_message name fields subs comment discriminator) =
      closed_fields (within subs scope) fields && closed_messages scope subs

  pub closed_messages : Scope → ProtoMessages → Bool
  closed_messages scope no_messages = true
  closed_messages scope (messages m ms) = closed_message scope m && closed_messages scope ms

-- What one scope has, the other has too.
pub record Wider (a b : Scope) : Type 0 where
  pub of_messages : (name : Text) → a.has_messages name ≡ true → b.has_messages name ≡ true
  pub of_enums : (name : Text) → a.has_enums name ≡ true → b.has_enums name ≡ true

module _ {a b : Scope} (w : Wider a b) where
  pub Wider-within : (subs : ProtoMessages) → Wider (within subs a) (within subs b)
  Wider-within subs = record {
    of_messages = λ name h. ground (arith, w.of_messages name);
    of_enums = w.of_enums;
  }

  pub Wider-type : (type : ProtoType) → closed_type a type ≡ true → closed_type b type ≡ true
  unfolding closed_type
  Wider-type (scalar type) h = refl
  Wider-type (enum name) h = ground (arith, w.of_enums name)
  Wider-type (message name) h = ground (arith, w.of_messages name)
  Wider-type (map_of key value) h = Wider-type value h

pub Wider-fields :
    {a b : Scope}
    → Wider a b
    → (fields : List ProtoField) → closed_fields a fields ≡ true
    → closed_fields b fields ≡ true
Wider-fields w [] h = refl
Wider-fields w (field ∷ fields) h = ground (arith, Wider-type w field.type, Wider-fields w fields)

mutual
  pub Wider-message :
      {a b : Scope}
      → Wider a b
      → (m : ProtoMessage) → closed_message a m ≡ true
      → closed_message b m ≡ true
  Wider-message w (proto_message name fields subs comment discriminator) h =
      ground (arith, Wider-fields (Wider-within w subs) fields, Wider-messages w subs)

  pub Wider-messages :
      {a b : Scope}
      → Wider a b
      → (ms : ProtoMessages) → closed_messages a ms ≡ true
      → closed_messages b ms ≡ true
  Wider-messages w no_messages h = refl
  Wider-messages w (messages m ms) h = ground (arith, Wider-message w m, Wider-messages w ms)

-- A message of one field `value` and no sub messages, as `#wrapScalar` makes them.
abbrev pub is_bare_wrapper : ProtoMessage → Bool
is_bare_wrapper (proto_message name fields no_messages comment discriminator) =
    is_wrapper (proto_message name fields no_messages comment discriminator)
is_bare_wrapper (proto_message name fields (messages m ms) comment discriminator) = false

abbrev pub closed_or_bare : Scope → ProtoMessage → Bool
closed_or_bare scope m = closed_message scope m || is_bare_wrapper m

abbrev pub all_closed : Scope → List ProtoMessage → Bool
all_closed scope = all (closed_or_bare scope)

pub Wider-closed_or_bare :
    {a b : Scope}
    → Wider a b
    → (m : ProtoMessage) → closed_or_bare a m ≡ true
    → closed_or_bare b m ≡ true
Wider-closed_or_bare w m h = ground (arith, Wider-message w m)

pub Wider-all :
    {a b : Scope}
    → Wider a b
    → (ms : List ProtoMessage) → all_closed a ms ≡ true
    → all_closed b ms ≡ true
Wider-all w [] h = refl
Wider-all w (m ∷ ms) h = ground (arith, Wider-message w m, Wider-all w ms)

pub Wider-refl : {a : Scope} → Wider a a
Wider-refl = record { of_messages = λ name h. h; of_enums = λ name h. h }

pub Wider-trans : {a b c : Scope} → Wider a b → Wider b c → Wider a c
Wider-trans v w = record {
  of_messages = λ name h. w.of_messages name (v.of_messages name h);
  of_enums = λ name h. w.of_enums name (v.of_enums name h);
}

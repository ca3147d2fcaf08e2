-- ===== src/Schema/Translate/Closed/Objects.antt =====
-- Objects and discriminated unions become closed messages, if their fields are mapped to types in scope.
use trpc_proto.Base.{
  ℕ, ◌≡◌, refl, Bool, true, false, ◌&&◌, ◌||◌, List, [], ◌∷◌, ◌++◌, Option, none, some, arith, all,
}
use trpc_proto.Base.Text.{Text}
use trpc_proto.Schema.Allocator.{Allocator}
use trpc_proto.Schema.Types.{ProtoField, ProtoMessage, proto_message}
use trpc_proto.Schema.Zod.Errors.{Translated, ok, err}
use trpc_proto.Schema.Zod.{ZodGraph}
use trpc_proto.Schema.Zod.Scalars.{ZodObject}
use trpc_proto.Schema.Translate.{Translator, name_of, has_message, of_list, lift}
use trpc_proto.Schema.Translate.Objects.{
  Mapped, FieldMapper, open_cache, number_entry, check_oneof, Converted, convert_field,
  convert_fields, convert_message,
}
use trpc_proto.Schema.Translate.Post.{Ends, returns, throws, ◌⟫◌, Any, by_result}
use trpc_proto.Schema.Translate.Closed.{
  Scope, closed_type, closed_fields, has_sub, within, closed_message, closed_messages, Wider,
  Wider-type, Wider-fields, Wider-message, Wider-refl,
}
use trpc_proto.Schema.Translate.Closed.State.{
  scope_of, Better, Better-refl, Better-trans, Better-same,
}

-- The scope beside a list of sub messages.
abbrev pub beside : List ProtoMessage → Scope → Scope
beside subs scope = record {
  has_messages = λ name. has_message name subs || scope.has_messages name;
  has_enums = scope.has_enums;
}

abbrev pub closed_list : Scope → List ProtoMessage → Bool
closed_list scope = all (closed_message scope)

pub Wider-list :
    {a b : Scope}
    → Wider a b
    → (ms : List ProtoMessage) → closed_list a ms ≡ true
    → closed_list b ms ≡ true
Wider-list w [] h = refl
Wider-list w (m ∷ ms) h = ground (arith, Wider-message w m, Wider-list w ms)

-- The type is in scope beside the nested messages, and those are closed.
pub record MappedClosed (s : Translator) (mapped : Mapped) : Type 0 where
  pub type_closed : closed_type (beside mapped.nested (scope_of s)) mapped.type ≡ true
  pub nested_closed : closed_list (scope_of s) mapped.nested ≡ true

pub record ConvertedClosed (s : Translator) (c : Converted) : Type 0 where
  pub fields_closed : closed_fields (beside c.1 (scope_of s)) c.0 ≡ true
  pub subs_closed : closed_list (scope_of s) c.1 ≡ true

-- What is to be shown of each recursive call.
abbrev pub MapsClosed : FieldMapper → Type 0
MapsClosed map_field =
    (zod : ℕ) (parent field_name : Text) (s : Translator)
    → Ends (λ mapped s'. Better s s' × MappedClosed s' mapped) Any
        (map_field zod parent field_name s)

has_message_append :
    (name : Text) (xs ys : List ProtoMessage)
    → has_message name (xs ++ ys) ≡ has_message name xs || has_message name ys
has_message_append name [] ys = refl
has_message_append name (m ∷ xs) ys = ground (arith, has_message_append name xs ys)

closed_list-append :
    (scope : Scope) (xs ys : List ProtoMessage)
    → closed_list scope (xs ++ ys) ≡ closed_list scope xs && closed_list scope ys
closed_list-append scope [] ys = refl
closed_list-append scope (m ∷ xs) ys = ground (arith, closed_list-append scope xs ys)

pub has_sub-of_list :
    (name : Text) (ms : List ProtoMessage) → has_sub name (of_list ms) ≡ has_message name ms
has_sub-of_list name [] = refl
has_sub-of_list name (proto_message n fields subs comment discriminator ∷ ms) =
    ground (arith, has_sub-of_list name ms)

closed_messages-of_list :
    (scope : Scope) (ms : List ProtoMessage)
    → closed_messages scope (of_list ms) ≡ closed_list scope ms
closed_messages-of_list scope [] = refl
closed_messages-of_list scope (m ∷ ms) = ground (arith, closed_messages-of_list scope ms)

Wider-beside :
    {a b : Scope} (xs ys : List ProtoMessage)
    → Wider a b
    → ((name : Text) → has_message name xs ≡ true → has_message name ys ≡ true)
    → Wider (beside xs a) (beside ys b)
Wider-beside xs ys w h = record {
  of_messages = λ name k. ground (arith, h name, w.of_messages name);
  of_enums = w.of_enums;
}

-- Fields and sub messages that are closed make a closed message.
pub ConvertedClosed-message :
    (s : Translator) (c : Converted) (name comment : Text) (discriminator : Option Text)
    → ConvertedClosed s c
    → closed_message (scope_of s) (proto_message name c.0 (of_list c.1) comment discriminator)
      ≡ true
ConvertedClosed-message s (fields, subs) name comment discriminator h =
    let w : Wider (beside subs (scope_of s)) (within (of_list subs) (scope_of s)) = record {
      of_messages = λ n k. ground (arith, has_sub-of_list n subs);
      of_enums = λ n k. k;
    } in
    ground (
      arith,
      Wider-fields w fields h.fields_closed,
      closed_messages-of_list (scope_of s) subs,
      h.subs_closed,
    )

-- One more field, with the messages nested in it.
pub ConvertedClosed-cons :
    (s : Translator) (field : ProtoField) (nested : List ProtoMessage) (c : Converted)
    → closed_type (beside nested (scope_of s)) field.type ≡ true
    → closed_list (scope_of s) nested ≡ true
    → ConvertedClosed s c
    → ConvertedClosed s (field ∷ c.0, nested ++ c.1)
ConvertedClosed-cons s field nested (fields, subs) t n h = record {
  fields_closed = ground (
    arith,
    Wider-type
        (Wider-beside nested (nested ++ subs) Wider-refl
          (λ name k. ground (arith, has_message_append name nested subs)))
        field.type t,
    Wider-fields
        (Wider-beside subs (nested ++ subs) Wider-refl
          (λ name k. ground (arith, has_message_append name nested subs)))
        fields h.fields_closed,
  );
  subs_closed = ground (arith, closed_list-append (scope_of s) nested subs, h.subs_closed);
}

pub open_cache-Better :
    (name : Text) (s : Translator) → Ends (λ allocator s'. Better s s') Any (open_cache name s)
unfolding open_cache
open_cache-Better name s =
    by_result _ (λ a s' e. Better-same (ground arith) (ground arith) (ground arith) (ground arith))

pub number_entry-Better :
    (cache_name field_name type_name : Text) (allocator : Allocator) (s : Translator)
    → Ends (λ r s'. Better s s') Any (number_entry cache_name field_name type_name allocator s)
unfolding number_entry
number_entry-Better cache_name field_name type_name allocator s =
    by_result _ (λ a s' e. Better-same (ground arith) (ground arith) (ground arith) (ground arith))

pub lift-Better :
    {A : Type 0} (r : Translated A) (s : Translator)
    → Ends (λ a s'. Better s s' × (r ≡ ok a)) Any (lift r s)
lift-Better (ok a) s = returns (Better-refl, refl)
lift-Better (err e) s = throws tt

check_oneof-Better :
    (oneof : Option Text) (mapped : Mapped) (parent field_name : Text) (s : Translator)
    → Ends (λ a s'. Better s s') Any (check_oneof oneof mapped parent field_name s)
check_oneof-Better none mapped parent field_name s = returns Better-refl
check_oneof-Better (some oneof) mapped parent field_name s =
    by_result _ (λ a s' e. Better-same (ground arith) (ground arith) (ground arith) (ground arith))

-- What was closed stays so when the state gets better.
pub MappedClosed-Better :
    {s s' : Translator} {mapped : Mapped}
    → Better s s'
    → MappedClosed s mapped
    → MappedClosed s' mapped
MappedClosed-Better {mapped} b h = record {
  type_closed =
      Wider-type (Wider-beside mapped.nested mapped.nested b.wider (λ name k. k)) mapped.type
        h.type_closed;
  nested_closed = Wider-list b.wider mapped.nested h.nested_closed;
}

module _ (g : ZodGraph) (map_field : FieldMapper) (maps : MapsClosed map_field) where
  convert_field-Better :
      (parent cache_name key : Text) (value : ℕ) (allocator : Allocator) (s : Translator)
      → Ends
          (λ r s'.
            Better s s'
            × (closed_type (beside r.1 (scope_of s')) r.0.type ≡ true)
            × (closed_list (scope_of s') r.1 ≡ true))
          Any
          (convert_field g map_field parent cache_name key value allocator s)
  unfolding convert_field
  convert_field-Better parent cache_name key value allocator s =
      maps value parent _ s ⟫ λ mapped s1 (b1, m). lift-Better _ s1 ⟫ λ oneof s2 (b2, _).
      check_oneof-Better oneof mapped parent _ s2 ⟫ λ checked s3 b3.
      number_entry-Better cache_name _ _ allocator s3 ⟫ λ (number, rest) s4 b4.
      let later = Better-trans b2 (Better-trans b3 b4) in
      let m' = MappedClosed-Better later m in
      returns (Better-trans b1 later, m'.type_closed, m'.nested_closed)

  convert_fields-Better :
      (parent cache_name : Text) (shape : List (Text × ℕ)) (allocator : Allocator) (s : Translator)
      → Ends
          (λ c s'. Better s s' × ConvertedClosed s' c)
          Any
          (convert_fields g map_field parent cache_name shape allocator s)
  unfolding convert_fields
  convert_fields-Better parent cache_name [] allocator s =
      returns (Better-refl, record { fields_closed = refl; subs_closed = refl })
  convert_fields-Better parent cache_name ((key, value) ∷ shape) allocator s =
      convert_field-Better parent cache_name key value allocator s
      ⟫ λ (field, nested, rest) s1 (b1, t, n).
          convert_fields-Better parent cache_name shape rest s1 ⟫ λ (fields, subs) s2 (b2, c).
          let m =
            MappedClosed-Better
              {mapped = record { type = field.type; repeated = false; nested = nested }} b2
              (record { type_closed = t; nested_closed = n }) in
          returns (
            Better-trans b1 b2,
            ConvertedClosed-cons s2 field nested (fields, subs) m.type_closed m.nested_closed c,
          )

  pub convert_message-Better :
      (zod : ZodObject) (name cache_name : Text) (s : Translator)
      → Ends
          (λ m s'. Better s s' × (closed_message (scope_of s') m ≡ true) × (name_of m ≡ name))
          Any
          (convert_message g map_field zod name cache_name s)
  unfolding convert_message
  convert_message-Better zod name cache_name s = open_cache-Better cache_name s ⟫ λ allocator s1 b1.
      convert_fields-Better name cache_name zod.shape allocator s1 ⟫ λ (fields, subs) s2 (b2, c).
      returns (
        Better-trans b1 b2,
        ConvertedClosed-message s2 (fields, subs) name zod.comment none c,
        refl,
      )

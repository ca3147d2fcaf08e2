-- ===== src/Schema/Translate/Closed/Hoisted.antt =====
-- A message that is hoisted is there when its conversion ends, or is being built by a caller.
use trpc_proto.Base.{◌≡◌, refl, ap, true, false, ◌||◌, List, [], ◌∷◌, arith, Bool-cases, inl, inr}
use trpc_proto.Base.Text.{Text, text_eq_self, has_text}
use trpc_proto.Schema.Types.{ProtoMessage}
use trpc_proto.Schema.Zod.{ZodGraph}
use trpc_proto.Schema.Zod.Scalars.{ZodObject}
use trpc_proto.Schema.Translate.{Translator, continue_with, name_of, has_message, push_message}
use trpc_proto.Schema.Translate.Objects.{
  FieldMapper, start_building, finish_building, without, build_object, convert_object,
}
use trpc_proto.Schema.Translate.Post.{Ends, returns, ◌⟫◌, Any}
use trpc_proto.Schema.Translate.Closed.{
  closed_message, Wider, Wider-message, Wider-all, Wider-trans,
}
use trpc_proto.Schema.Translate.Closed.State.{
  scope_of, Better, Better-refl, has_message-append, all_closed-append,
}
use trpc_proto.Schema.Translate.Closed.Objects.{MapsClosed, convert_message-Better}

without_new :
    (name : Text) (names : List Text) → has_text names name ≡ false → without name names ≡ names
without_new name [] h = refl
without_new name (n ∷ names) h = ground (arith, without_new name names)

started-Wider :
    (name : Text) (s : Translator) → Wider (scope_of s) (scope_of (start_building name s))
started-Wider name s = record { of_messages = λ n h. ground arith; of_enums = λ n h. h }

-- From the end of the fields to the end of `#convertObject`.
finished-Wider :
    (m : ProtoMessage) (s s' : Translator)
    → has_text s.building (name_of m) ≡ false
    → s'.building ≡ name_of m ∷ s.building
    → Wider (scope_of s') (scope_of (push_message m (finish_building (name_of m) s')))
      × ((finish_building (name_of m) s').building ≡ s.building)
finished-Wider m s s' new b =
    let same : without (name_of m) s'.building ≡ s.building =
      ground (arith, without_new (name_of m) s.building, text_eq_self (name_of m)) in
    (
      record {
        of_messages = λ n h. ground (
          arith,
          has_message-append n s'.messages m,
          ap (λ l. has_text l n) b,
          ap (λ l. has_text l n) same,
        );
        of_enums = λ n h. h;
      },
      same,
    )

-- The name may be used as a type.
abbrev pub Knows : Translator → Text → Type 0
Knows s name = (scope_of s).has_messages name ≡ true

-- The state after the message is pushed, from the state before it was begun.
pushed-Better :
    (m : ProtoMessage) (s s' : Translator)
    → has_text s.building (name_of m) ≡ false
    → Better (start_building (name_of m) s) s'
    → closed_message (scope_of s') m ≡ true
    → Better s (push_message m (finish_building (name_of m) s'))
      × Knows (push_message m (finish_building (name_of m) s')) (name_of m)
pushed-Better m s s' new b closed =
    let (wider, same) = finished-Wider m s s' new b.building in
    let started = started-Wider (name_of m) s in
    (
      record {
        wider = Wider-trans started (Wider-trans b.wider wider);
        building = same;
        declared = b.declared;
        closed = λ h.
            let before = b.closed (Wider-all started s.messages h) in
            all_closed-append (scope_of (push_message m (finish_building (name_of m) s')))
              s'.messages m (Wider-all wider s'.messages before)
              (ground (arith, Wider-message wider m closed));
      },
      ground (arith, has_message-append (name_of m) s'.messages m, text_eq_self (name_of m)),
    )

build_object-Better :
    (g : ZodGraph) (map_field : FieldMapper)
    → MapsClosed map_field
    → (zod : ZodObject) (name : Text) (s : Translator) → has_text s.building name ≡ false
    → Ends (λ u s'. Better s s' × Knows s' name) Any (build_object g map_field zod name s)
unfolding continue_with
build_object-Better g map_field maps zod name s new =
    convert_message-Better g map_field maps zod name name (start_building name s)
    ⟫ λ m s1 (b1, closed, named).
        let (better, known) = pushed-Better m s s1 (rw named new) (rw named b1) closed in
        returns (rw (← named) better, rw (← named) known)

pub convert_object-Better :
    (g : ZodGraph) (map_field : FieldMapper)
    → MapsClosed map_field
    → (zod : ZodObject) (name : Text) (s : Translator)
    → Ends (λ u s'. Better s s' × Knows s' name) Any (convert_object g map_field zod name s)
unfolding convert_object
convert_object-Better g map_field maps zod name s =
    elim (Bool-cases (has_message name s.messages || has_text s.building name)) [
      | inl there ↦ rw there (returns (Better-refl, there))
      | inr new ↦ rw new (build_object-Better g map_field maps zod name s (ground arith))
    ]

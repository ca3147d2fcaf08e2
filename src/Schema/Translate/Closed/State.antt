-- ===== src/Schema/Translate/Closed/State.antt =====
-- How the scope of the translator's state grows, and how its messages stay closed.
use trpc_proto.Base.{ℕ, ◌≡◌, refl, ◌∙◌, Bool, true, false, ◌||◌, List, [], ◌∷◌, ◌++◌, arith}
use trpc_proto.Base.Text.{Text, text_eq, text_eq_self, text_eq_iff, has_text}
use trpc_proto.Schema.Types.{ProtoMessage, ProtoEnum}
use trpc_proto.Schema.Zod.{ZodGraph}
use trpc_proto.Schema.Translate.{
  Translator, name_of, has_message, has_enum, add_enum, new_enum, declare_enum, push_message,
}
use trpc_proto.Schema.Translate.Closed.{
  Scope, closed_or_bare, all_closed, Wider, Wider-closed_or_bare, Wider-all, Wider-refl,
  Wider-trans,
}

-- Whether an enum has got the name before.
abbrev pub has_seen : Text → List (ℕ × Text) → Bool
has_seen name [] = false
has_seen name ((zod, n) ∷ seen) = text_eq n name || has_seen name seen

-- The messages that are there or being built, and the enums that are there or have been seen.
abbrev pub scope_of : Translator → Scope
scope_of s = record {
  has_messages = λ name. has_message name s.messages || has_text s.building name;
  has_enums = λ name. has_enum name s.enums || has_seen name s.seen_enums;
}

-- Every enum that has been seen is there.
abbrev pub SeenDeclared : Translator → Type 0
SeenDeclared s = (name : Text) → has_seen name s.seen_enums ≡ true → has_enum name s.enums ≡ true

-- What a call of the translator's methods does to the state: nothing that may be named goes, the
-- messages being built are the same again, and the messages stay closed.
pub record Better (s s' : Translator) : Type 0 where
  pub wider : Wider (scope_of s) (scope_of s')
  pub building : s'.building ≡ s.building
  pub declared : SeenDeclared s → SeenDeclared s'
  pub closed :
      all_closed (scope_of s) s.messages ≡ true → all_closed (scope_of s') s'.messages ≡ true

pub Better-refl : {s : Translator} → Better s s
Better-refl = record { wider = Wider-refl; building = refl; declared = λ h. h; closed = λ h. h }

pub Better-trans : {s t u : Translator} → Better s t → Better t u → Better s u
Better-trans b c = record {
  wider = Wider-trans b.wider c.wider;
  building = c.building ∙ b.building;
  declared = λ h. c.declared (b.declared h);
  closed = λ h. c.closed (b.closed h);
}

-- A change of what is no message, no enum and not being built.
pub Better-same :
    {s s' : Translator}
    → s'.messages ≡ s.messages
    → s'.enums ≡ s.enums
    → s'.seen_enums ≡ s.seen_enums
    → s'.building ≡ s.building
    → Better s s'
Better-same m e d b = record {
  wider = record { of_messages = λ name h. rw (m, b) h; of_enums = λ name h. rw (e, d) h };
  building = b;
  declared = λ h. rw (e, d) h;
  closed = λ h. rw (m, e, d, b) h;
}

pub has_message-append :
    (name : Text) (ms : List ProtoMessage) (m : ProtoMessage)
    → has_message name (ms ++ (m ∷ [])) ≡ has_message name ms || text_eq (name_of m) name
has_message-append name [] m = ground arith
has_message-append name (n ∷ ms) m = ground (arith, has_message-append name ms m)

pub all_closed-append :
    (scope : Scope) (ms : List ProtoMessage) (m : ProtoMessage)
    → all_closed scope ms ≡ true
    → closed_or_bare scope m ≡ true
    → all_closed scope (ms ++ (m ∷ [])) ≡ true
all_closed-append scope [] m h k = ground arith
all_closed-append scope (n ∷ ms) m h k = ground (arith, all_closed-append scope ms m)

-- A message that is closed in the scope of the state may be pushed.
pub push_message-Better :
    (m : ProtoMessage) (s : Translator)
    → closed_or_bare (scope_of s) m ≡ true
    → Better s (push_message m s) × (has_message (name_of m) (push_message m s).messages ≡ true)
push_message-Better m s h =
    let w : Wider (scope_of s) (scope_of (push_message m s)) = record {
      of_messages = λ name k. ground (arith, has_message-append name s.messages m);
      of_enums = λ name k. k;
    } in
    (
      record {
        wider = w;
        building = refl;
        declared = λ k. k;
        closed = λ k.
            all_closed-append (scope_of (push_message m s)) s.messages m (Wider-all w s.messages k)
              (Wider-closed_or_bare w m h);
      },
      ground (arith, has_message-append (name_of m) s.messages m, text_eq_self (name_of m)),
    )

has_enum-append :
    (name : Text) (es : List ProtoEnum) (e : ProtoEnum)
    → has_enum name (es ++ (e ∷ [])) ≡ has_enum name es || text_eq e.name name
has_enum-append name [] e = ground arith
has_enum-append name (d ∷ es) e = ground (arith, has_enum-append name es e)

-- An enum of that name is there after it is added.
has_enum-add_enum :
    (n : Text) (e : ProtoEnum) (es : List ProtoEnum)
    → has_enum n (add_enum e es) ≡ has_enum n es || text_eq e.name n
has_enum-add_enum n e es = ground (arith, has_enum-append n es e, text_eq_iff e.name n)

pub declare_enum-Better :
    (g : ZodGraph) (zod : ℕ) (name : Text) (s : Translator)
    → Better s (declare_enum g zod name s)
      × (has_enum name (declare_enum g zod name s).enums ≡ true)
declare_enum-Better g zod name s =
    let w : Wider (scope_of s) (scope_of (declare_enum g zod name s)) = record {
      of_messages = λ n h. h;
      of_enums = λ n h. ground (arith, has_enum-add_enum n (new_enum g zod name) s.enums);
    } in
    (
      record {
        wider = w;
        building = refl;
        declared = λ h n k. ground (arith, has_enum-add_enum n (new_enum g zod name) s.enums, h n);
        closed = Wider-all w s.messages;
      },
      ground (arith, has_enum-add_enum name (new_enum g zod name) s.enums, text_eq_self name),
    )

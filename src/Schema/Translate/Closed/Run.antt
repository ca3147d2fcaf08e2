-- ===== src/Schema/Translate/Closed/Run.antt =====
-- A schema that is translated without an error names only types that are there.
use trpc_proto.Base.{ℕ, ◌≡◌, refl, ap, ◌∙◌, Bool, true, ◌&&◌, List, [], ◌∷◌, ◌++◌, arith, all}
use trpc_proto.Base.Text.{Text, has_text}
use trpc_proto.Schema.Types.{
  message, ProtoMessage, ProtoMessages, no_messages, messages, ProtoMethod, ProtoService,
  ProtoSchema, Properties, empty,
}
use trpc_proto.Schema.Zod.Errors.{Translated, ok}
use trpc_proto.Schema.Zod.{ZodGraph, get_or}
use trpc_proto.Schema.Translate.{Translator, of_list, has_enum}
use trpc_proto.Schema.Translate.Run.{
  RuntimeProcedure, TranslateOptions, Services, new_translator, schema_of, finish_schema,
  add_method, run_procedure, run, proto_services, translate,
}
use trpc_proto.Schema.Translate.Post.{Ends, returns, throws, ◌⟫◌, weaken, Any}
use trpc_proto.Schema.Translate.Closed.{
  Scope, closed_type, closed_or_bare, all_closed, has_sub, Wider, Wider-type, Wider-all,
}
use trpc_proto.Schema.Translate.Closed.State.{scope_of, Better, Better-refl, Better-trans}
use trpc_proto.Schema.Translate.Closed.Objects.{has_sub-of_list}
use trpc_proto.Schema.Translate.Closed.Rpc.{rpc_message_type-Naming}

-- The types that a method's request and response name are in scope.
abbrev pub closed_method : Scope → ProtoMethod → Bool
closed_method scope m =
    closed_type scope (message m.request_type) && closed_type scope (message m.response_type)

abbrev closed_services : Scope → Services → Bool
closed_services scope [] = true
closed_services scope ((name, methods) ∷ services) =
    all (closed_method scope) methods && closed_services scope services

Wider-methods :
    {a b : Scope}
    → Wider a b
    → (ms : List ProtoMethod) → all (closed_method a) ms ≡ true
    → all (closed_method b) ms ≡ true
Wider-methods w [] h = refl
Wider-methods w (m ∷ ms) h = ground (
  arith,
  Wider-type w (message m.request_type),
  Wider-type w (message m.response_type),
  Wider-methods w ms,
)

Wider-services :
    {a b : Scope}
    → Wider a b
    → (services : Services) → closed_services a services ≡ true
    → closed_services b services ≡ true
Wider-services w [] h = refl
Wider-services w ((name, methods) ∷ services) h =
    ground (arith, Wider-methods w methods, Wider-services w services)

all-append :
    (scope : Scope) (ms : List ProtoMethod) (m : ProtoMethod)
    → all (closed_method scope) (ms ++ (m ∷ []))
      ≡ all (closed_method scope) ms && closed_method scope m
all-append scope [] m = ground arith
all-append scope (n ∷ ms) m = ground (arith, all-append scope ms m)

add_method-closed :
    (scope : Scope) (service : Text) (m : ProtoMethod) (services : Services)
    → closed_services scope services ≡ true
    → closed_method scope m ≡ true
    → closed_services scope (add_method service m services) ≡ true
unfolding add_method
add_method-closed scope service m [] h k = ground arith
add_method-closed scope service m ((name, methods) ∷ services) h k =
    ground (arith, all-append scope methods m, add_method-closed scope service m services)

run_procedure-Closed :
    (depth : ℕ) (g : ZodGraph) (p : RuntimeProcedure) (s : Translator)
    → Ends
        (λ m s'. Better s s' × (closed_method (scope_of s') m ≡ true))
        Any
        (run_procedure depth g p s)
unfolding run_procedure
run_procedure-Closed depth g p s =
    rpc_message_type-Naming depth g p.input _ s ⟫ λ request s1 (b1, there).
    rpc_message_type-Naming depth g _ _ s1 ⟫ λ response s2 (b2, there').
    returns (Better-trans b1 b2, ground (arith, Wider-type b2.wider (message request) there))

run-Closed :
    (depth : ℕ) (g : ZodGraph) (procedures : List RuntimeProcedure) (services : Services)
    (s : Translator)
    → closed_services (scope_of s) services ≡ true
    → Ends
        (λ all_services s'. Better s s' × (closed_services (scope_of s') all_services ≡ true))
        Any
        (run depth g procedures services s)
unfolding run
run-Closed depth g [] services s h = returns (Better-refl, h)
run-Closed depth g (p ∷ procedures) services s h =
    run_procedure-Closed depth g p s ⟫ λ m s1 (b1, there).
    let h' =
      add_method-closed (scope_of s1) _ m services (Wider-services b1.wider services h) there in
    weaken (λ found s2 (b2, closed). (Better-trans b1 b2, closed))
      (run-Closed depth g procedures _ s1 h')

-- The messages and enums of a schema.
abbrev pub schema_scope : ProtoSchema → Scope
schema_scope schema = record {
  has_messages = λ name. has_sub name schema.message_list;
  has_enums = λ name. has_enum name schema.enums;
}

abbrev pub all_messages : (ProtoMessage → Bool) → ProtoMessages → Bool
all_messages p no_messages = true
all_messages p (messages m ms) = p m && all_messages p ms

abbrev pub all_methods : (ProtoMethod → Bool) → List ProtoService → Bool
all_methods p [] = true
all_methods p (service ∷ services) = all p service.methods && all_methods p services

-- Each message is closed, or is one field that `#wrapScalar` wraps, and each method names messages that
-- are there.
pub record IsClosed (schema : ProtoSchema) : Type 0 where
  pub messages_closed :
      all_messages (closed_or_bare (schema_scope schema)) schema.message_list ≡ true
  pub methods_closed : all_methods (closed_method (schema_scope schema)) schema.services ≡ true

all_messages-of_list :
    (scope : Scope) (ms : List ProtoMessage)
    → all_messages (closed_or_bare scope) (of_list ms) ≡ all_closed scope ms
all_messages-of_list scope [] = refl
all_messages-of_list scope (m ∷ ms) = ground (arith, all_messages-of_list scope ms)

all_methods-services :
    (scope : Scope) (services : Services)
    → all_methods (closed_method scope) (proto_services services) ≡ closed_services scope services
unfolding proto_services
all_methods-services scope [] = refl
all_methods-services scope ((name, methods) ∷ services) =
    ground (arith, all_methods-services scope services)

-- At the end nothing is being built, and every enum that was seen is there.
last-Wider :
    (options : TranslateOptions) (services : Services) (cache : Properties) (s : Translator)
    → Better (new_translator cache) s
    → Wider (scope_of s) (schema_scope (schema_of options (services, s)))
last-Wider options services cache s b = record {
  of_messages = λ name h.
      ground (arith, has_sub-of_list name s.messages, ap (λ l. has_text l name) b.building);
  of_enums = λ name h. ground (arith, b.declared (λ n k. absurd (cc)) name);
}

schema_of-IsClosed :
    (options : TranslateOptions) (services : Services) (cache : Properties) (s : Translator)
    → Better (new_translator cache) s
    → closed_services (scope_of s) services ≡ true
    → IsClosed (schema_of options (services, s))
schema_of-IsClosed options services cache s b h =
    let w = last-Wider options services cache s b in
    let scope = schema_scope (schema_of options (services, s)) in
    record {
      messages_closed =
          all_messages-of_list scope s.messages ∙ Wider-all w s.messages (b.closed refl);
      methods_closed = all_methods-services scope services ∙ Wider-services w services h;
    }

pub ok-injective : {a b : ProtoSchema} → ok a ≡ ok b → a ≡ b
ok-injective e = cc

ended-IsClosed :
    (options : TranslateOptions) (cache : Properties) (r : Translated (Services × Translator))
    → Ends
        (λ services s.
          Better (new_translator cache) s × (closed_services (scope_of s) services ≡ true))
        Any
        r
    → {schema : ProtoSchema} → finish_schema options r ≡ ok schema
    → IsClosed schema
ended-IsClosed options cache _ (returns {a} {s} (b, h)) e =
    rw (← (ok-injective e)) (schema_of-IsClosed options a cache s b h)
ended-IsClosed options cache _ (throws x) e = absurd (cc)

-- If translating the procedures ends without an error, then the type of every field of a message, and
-- of its sub messages at any depth, or of the values of a map, is a scalar or names a message or enum
-- that the schema or protobuf has, or a sub message of the field's own message; only a top-level
-- message that consists of one field `value` is exempt. The request and response of each method are
-- messages of the schema or types of protobuf.
pub translate-IsClosed :
    (depth : ℕ) (g : ZodGraph) (procedures : List RuntimeProcedure) (options : TranslateOptions)
    {schema : ProtoSchema}
    → translate depth g procedures options ≡ ok schema
    → IsClosed schema
unfolding translate
translate-IsClosed depth g procedures options e =
    let cache = get_or options.generate_cache empty in
    ended-IsClosed options cache _ (run-Closed depth g procedures [] (new_translator cache) refl) e

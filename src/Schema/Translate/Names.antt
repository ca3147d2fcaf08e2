-- ===== src/Schema/Translate/Names.antt =====
-- The schema has a method for each procedure, under the names that the runtime looks it up by.
use trpc_proto.Base.{
  ◌≡◌, refl, ◌∙◌, List, [], ◌∷◌, ◌++◌, ℕ, Bool-cases, inl, inr, All, Member, here, there,
}
use trpc_proto.Base.Text.{Text, text_eq, text_eq→eq}
use trpc_proto.Schema.WellKnown.{proto_service_name}
use trpc_proto.Proto.Lookup.{rpc_names}
use trpc_proto.Schema.Types.{ProtoMethod, ProtoService, ProtoSchema}
use trpc_proto.Schema.Zod.{ZodGraph}
use trpc_proto.Schema.Zod.Errors.{ok, Translated}
use trpc_proto.Schema.Translate.{Translator}
use trpc_proto.Schema.Translate.Closed.Run.{ok-injective}
use trpc_proto.Schema.Translate.Post.{Ends, returns, throws, ◌⟫◌, weaken, Any, by_result}
use trpc_proto.Schema.Translate.Run.{
  RuntimeProcedure, TranslateOptions, service_name, method_name, Services, add_method,
  run_procedure, run, proto_services, schema_of, finish_schema, translate,
}
use trpc_proto.Schema.Translate.Paths.{rpc_names_lem}

-- The method is among those of the service.
data Offers (service : Text) (m : ProtoMethod) : Services → Type 0 where
  first :
      {methods : List ProtoMethod} {services : Services}
      → Member m methods
      → Offers service m ((service, methods) ∷ services)
  later :
      {entry : Text × List ProtoMethod} {services : Services}
      → Offers service m services
      → Offers service m (entry ∷ services)

Member-append : {A : Type 0} {x : A} {xs : List A} (ys : List A) → Member x xs → Member x (xs ++ ys)
Member-append ys here = here
Member-append ys (there m) = there (Member-append ys m)

Member-last : {A : Type 0} (x : A) (xs : List A) → Member x (xs ++ (x ∷ []))
Member-last x [] = here
Member-last x (y ∷ xs) = there (Member-last x xs)

add_method-keeps :
    (service' : Text) (m' : ProtoMethod) {service : Text} {m : ProtoMethod} {services : Services}
    → Offers service m services
    → Offers service m (add_method service' m' services)
unfolding add_method
add_method-keeps service' m' {service} (first {methods} {services} at_one) =
    elim (Bool-cases (text_eq service service')) [
      | inl same ↦ rw same (first (Member-append (m' ∷ []) at_one))
      | inr other ↦ rw other (first at_one)
    ]
add_method-keeps service' m' (later {entry} o) = elim (Bool-cases (text_eq entry.0 service')) [
  | inl same ↦ rw same (later o)
  | inr other ↦ rw other (later (add_method-keeps service' m' o))
]

add_method-Offers :
    (service : Text) (m : ProtoMethod) (services : Services)
    → Offers service m (add_method service m services)
unfolding add_method
add_method-Offers service m [] = first here
add_method-Offers service m ((name, methods) ∷ services) =
    elim (Bool-cases (text_eq name service)) [
      | inl same ↦ rw (same, text_eq→eq name service same) (first (Member-last m methods))
      | inr other ↦ rw other (later (add_method-Offers service m services))
    ]

-- A procedure's method stands under its service.
record Offered (p : RuntimeProcedure) (services : Services) : Type 0 where
  method : ProtoMethod
  offered : Offers (service_name p.path) method services
  name : method.name ≡ method_name p.path
  path : method.path ≡ p.path
  type : method.type ≡ p.type

Offered-keeps :
    (found found' : Services)
    → ((service : Text) (m : ProtoMethod) → Offers service m found → Offers service m found')
    → (p : RuntimeProcedure) → Offered p found
    → Offered p found'
Offered-keeps found found' keeps p o = record {
  method = o.method;
  offered = keeps _ o.method o.offered;
  name = o.name;
  path = o.path;
  type = o.type;
}

run_procedure-Offered :
    (depth : ℕ) (g : ZodGraph) (p : RuntimeProcedure) (s : Translator)
    → Ends
        (λ m s'. (m.name ≡ method_name p.path) × (m.path ≡ p.path) × (m.type ≡ p.type))
        Any
        (run_procedure depth g p s)
unfolding run_procedure
run_procedure-Offered depth g p s = by_result {Q = λ a s'. Unit} _ (λ a s' e. tt) ⟫ λ request s1 u.
    by_result {Q = λ a s'. Unit} _ (λ a s' e. tt) ⟫ λ response s2 v. returns (refl, refl, refl)

abbrev Kept : Services → Services → Type 0
Kept found found' =
    (service : Text) (m : ProtoMethod) → Offers service m found → Offers service m found'

run-Offered :
    (depth : ℕ) (g : ZodGraph) (procedures : List RuntimeProcedure) (services : Services)
    (s : Translator)
    → Ends
        (λ found s'. Kept services found × All (λ p. Offered p found) procedures)
        Any
        (run depth g procedures services s)
unfolding run
run-Offered depth g [] services s = returns (λ service m o. o, tt)
run-Offered depth g (p ∷ procedures) services s =
    run_procedure-Offered depth g p s ⟫ λ m s1 (name, path, type).
    let service = service_name p.path in
    weaken
      (λ found s2 (kept, all). (
        λ service' m' o. kept service' m' (add_method-keeps service m o),
        (
          record {
            method = m;
            offered = kept service m (add_method-Offers service m services);
            name = name;
            path = path;
            type = type;
          },
          all,
        ),
      ))
      (run-Offered depth g procedures (add_method service m services) s1)

-- A service of the schema, and a method of it, with the names that the runtime looks a path up by.
pub record Served (schema : ProtoSchema) (p : RuntimeProcedure) : Type 0 where
  pub service : ProtoService
  pub method : ProtoMethod
  pub in_schema : Member service schema.services
  pub in_service : Member method service.methods
  pub names : rpc_names p.path ≡ (service.name, method.name)
  pub path : method.path ≡ p.path
  pub type : method.type ≡ p.type

Offers-service :
    {service : Text} {m : ProtoMethod} {services : Services}
    → Offers service m services
    → (found : ProtoService) × Member found (proto_services services)
      × (found.name ≡ proto_service_name service)
      × Member m found.methods
unfolding proto_services
Offers-service {service} (first {methods} at_one) =
    (record { name = proto_service_name service; methods = methods }, here, refl, at_one)
Offers-service (later o) =
    let (found, there_is, name, at_one) = Offers-service o in (found, there there_is, name, at_one)

Offered-Served :
    (options : TranslateOptions) (services : Services) (s : Translator) (p : RuntimeProcedure)
    → Offered p services
    → Served (schema_of options (services, s)) p
Offered-Served options services s p o =
    let (service, in_schema, name, in_service) = Offers-service o.offered in
    record {
      service = service;
      method = o.method;
      in_schema = in_schema;
      in_service = in_service;
      names = rpc_names_lem p.path ∙ rw (name, o.name) refl;
      path = o.path;
      type = o.type;
    }

All-map :
    {A : Type 0} {P Q : A → Type 0}
    → ((a : A) → P a → Q a)
    → (as_list : List A) → All P as_list
    → All Q as_list
All-map f [] h = tt
All-map f (a ∷ as_list) (h, hs) = (f a h, All-map f as_list hs)

finished-Served :
    (options : TranslateOptions) (procedures : List RuntimeProcedure)
    (r : Translated (Services × Translator))
    → Ends (λ found s. Kept [] found × All (λ p. Offered p found) procedures) Any r
    → {schema : ProtoSchema} → finish_schema options r ≡ ok schema
    → All (Served schema) procedures
finished-Served options procedures _ (returns {a} {s} (kept, h)) e =
    rw (← (ok-injective e)) (All-map (Offered-Served options a s) procedures h)
finished-Served options procedures _ (throws x) e = absurd (cc)

-- If translating the procedures ends without an error, then the schema has a service and a method for
-- each of them, with the procedure's path and type, under the names that the runtime looks the path up
-- by.
pub translate-Served :
    (depth : ℕ) (g : ZodGraph) (procedures : List RuntimeProcedure) (options : TranslateOptions)
    {schema : ProtoSchema}
    → translate depth g procedures options ≡ ok schema
    → All (Served schema) procedures
unfolding translate
translate-Served depth g procedures options e =
    finished-Served options procedures _ (run-Offered depth g procedures [] _) e

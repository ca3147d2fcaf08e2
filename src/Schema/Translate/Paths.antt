-- ===== src/Schema/Translate/Paths.antt =====
-- The generator (packages/schema_ir/src/translate/trpc_schema.ts) and the runtime
-- (packages/runtime/src/proto_codec/proto_codec.ts) give a path the same names.
use trpc_proto.Base.{◌≡◌, refl, ap, List, [], ◌∷◌, map, Bool-cases, inl, inr, concat, ◌==◌}
use trpc_proto.Base.Text.{Text, codes, split}
use trpc_proto.Utility.Case.{to_pascal_case}
use trpc_proto.Schema.WellKnown.{proto_service_name}
use trpc_proto.Proto.Lookup
use trpc_proto.Proto.Lookup.{last_part, but_last, rpc_names}
use trpc_proto.Schema.Translate.Run.{service_parts, service_name, last_or, method_name}

split-cons : (path : Text) → (part : Text) × (parts : List Text) × (split b'.' path ≡ part ∷ parts)
unfolding split
split-cons [] = ([], [], refl)
split-cons (c ∷ path) =
    let (part, parts, e) = split-cons path in
    elim (Bool-cases (c == b'.')) [
      | inl dot ↦ ([], part ∷ parts, rw (e, dot) refl)
      | inr other ↦ (c ∷ part, parts, rw (e, other) refl)
    ]

service_parts_lem :
    (part : Text) (parts : List Text)
    → service_parts (part ∷ parts) ≡ map to_pascal_case (but_last (part ∷ parts))
service_parts_lem part [] = refl
service_parts_lem part (next ∷ parts) =
    ap (◌∷◌ (to_pascal_case part)) (service_parts_lem next parts)

last_or-last_part :
    (path part : Text) (parts : List Text) → last_or path (part ∷ parts) ≡ last_part (part ∷ parts)
last_or-last_part path part [] = refl
last_or-last_part path part (next ∷ parts) = last_or-last_part part next parts

-- Both at the parts of a path.
abbrev generator_service : List Text → Text
generator_service parts = elim parts [
  | part ∷ [] ↦ codes "App"
  | other ↦ concat (service_parts other)
]

service-parts :
    (part : Text) (parts : List Text)
    → Lookup.service_name (but_last (part ∷ parts))
      ≡ proto_service_name (generator_service (part ∷ parts))
unfolding proto_service_name
service-parts part [] = refl
service-parts part (next ∷ parts) = rw (← service_parts_lem next parts) refl

-- The name of a service in a schema, and of the method, that a path stands for are the names that the
-- runtime looks the path up by.
pub rpc_names_lem :
    (path : Text) → rpc_names path ≡ (proto_service_name (service_name path), method_name path)
unfolding rpc_names service_name method_name
rpc_names_lem path =
    let (part, parts, e) = split-cons path in
    rw (e, service_name, service-parts part parts, last_or-last_part path part parts) refl

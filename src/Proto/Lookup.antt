-- ===== src/Proto/Lookup.antt =====
-- packages/runtime/src/proto_codec/proto_codec.ts: how procedures and messages are found by name.
use trpc_proto.Base.{Bool, false, List, [], ◌∷◌, map, Option, none, some, if◌then◌else◌, concat}
use trpc_proto.Base.Text.{Text, codes, text_eq, split}
use trpc_proto.Utility.Case.{to_pascal_case}
use trpc_proto.Schema.WellKnown.{proto_service_name}
use trpc_proto.Schema.Types.{
  ProtoMessage, proto_message, ProtoMessages, no_messages, messages, ProtoSchema,
}

abbrev pub last_part : List Text → Text
last_part [] = []
last_part (part ∷ []) = part
last_part (part ∷ next ∷ parts) = last_part (next ∷ parts)

abbrev pub but_last : List Text → List Text
but_last [] = []
but_last (part ∷ []) = []
but_last (part ∷ next ∷ parts) = part ∷ but_last (next ∷ parts)

-- The service of the parts of a path but for the last.
abbrev pub service_name : List Text → Text
service_name [] = codes "AppService"
service_name (part ∷ parts) = proto_service_name (concat (map to_pascal_case (part ∷ parts)))

-- `lookupRootRpc`, without what protobufjs finds: the names of the service and the method.
unfoldable pub rpc_names : Text → Text × Text
rpc_names path =
    let parts = split b'.' path in (service_name (but_last parts), to_pascal_case (last_part parts))

unfoldable pub is_wrapper : ProtoMessage → Bool
is_wrapper (proto_message name [] subs comment discriminator) = false
is_wrapper (proto_message name (field ∷ []) subs comment discriminator) =
    text_eq field.name (codes "value")
is_wrapper (proto_message name (field ∷ next ∷ fields) subs comment discriminator) = false

unfoldable pub find_message : ProtoMessages → Text → Option ProtoMessage
find_message no_messages name = none
find_message (messages (proto_message n fields subs comment discriminator) rest) name =
    let nested = find_message subs name in
    let later = find_message rest name in
    if text_eq n name
    then some (proto_message n fields subs comment discriminator)
    else elim nested [ some m ↦ some m | none ↦ later ]

-- The message of the scope itself, one in it, or one of the schema.
unfoldable pub resolve_message : ProtoSchema → Text → Option ProtoMessage → Option ProtoMessage
resolve_message schema name none = find_message schema.message_list name
resolve_message schema name (some (proto_message n fields subs comment discriminator)) =
    if text_eq n name
    then some (proto_message n fields subs comment discriminator)
    else elim (find_message subs name) [
      | some m ↦ some m
      | none ↦ find_message schema.message_list name
    ]

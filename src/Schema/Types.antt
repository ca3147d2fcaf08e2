-- ===== src/Schema/Types.antt =====
-- packages/schema_ir/src/ir/types.ts: the schema that the generator writes and the runtime reads.
-- An optional property of the source is an `Option`, or a list that may be empty.
use trpc_proto.Base.{ℕ, Bool, List, Option, none, some, if◌then◌else◌}
use trpc_proto.Base.Text.{Text, text_eq}

pub data ProtoScalar : Type 0 where
  double float int32 int64 uint32 uint64 sint32 sint64 : ProtoScalar
  fixed32 fixed64 sfixed32 sfixed64 bool string bytes : ProtoScalar

pub data ProtoType : Type 0 where
  scalar : ProtoScalar → ProtoType
  enum message : Text → ProtoType
  map_of : ProtoScalar → ProtoType → ProtoType

pub record ProtoField : Type 0 where
  pub name : Text
  pub number : ℕ
  pub type : ProtoType
  pub repeated : Bool
  pub optional : Bool
  pub comment : Text
  pub oneof : Option Text
  pub discriminator_value : Option Text

-- `subMessages` is a list of messages.
mutual
  pub data ProtoMessage : Type 0 where
    proto_message : Text → List ProtoField → ProtoMessages → Text → Option Text → ProtoMessage

  pub data ProtoMessages : Type 0 where
    no_messages : ProtoMessages
    messages : ProtoMessage → ProtoMessages → ProtoMessages

pub record ProtoEnum : Type 0 where
  pub name : Text
  pub values : List (Text × ℕ)
  pub comment : Text

pub data ProcedureType : Type 0 where
  query mutation subscription : ProcedureType

pub record ProtoMethod : Type 0 where
  pub name : Text
  pub path : Text
  pub type : ProcedureType
  pub request_type : Text
  pub response_type : Text
  pub is_response_streaming : Bool

pub record ProtoService : Type 0 where
  pub name : Text
  pub methods : List ProtoMethod

-- A record with number keys, which JavaScript keeps in ascending order.
abbrev pub UsedIds : Type 0
UsedIds = List (ℕ × Text)

-- `PropertyGenCache`, and the dictionaries of such.
mutual
  pub data PropertyGenCache : Type 0 where
    property : Option ℕ → Option Text → Properties → UsedIds → PropertyGenCache

  pub data Properties : Type 0 where
    empty : Properties
    entry : Text → PropertyGenCache → Properties → Properties

abbrev pub tag_in : PropertyGenCache → Option ℕ
tag_in (property tag type children used) = tag

abbrev pub nested_in : PropertyGenCache → Properties
nested_in (property tag type children used) = children

abbrev pub used_in : PropertyGenCache → UsedIds
used_in (property tag type children used) = used

abbrev pub get_property : Text → Properties → Option PropertyGenCache
get_property name empty = none
get_property name (entry n p ps) = if text_eq n name then some p else get_property name ps

-- A value of `ProtoFileOptions`; a number is a natural one.
pub data OptionValue : Type 0 where
  text_value : Text → OptionValue
  bool_value : Bool → OptionValue
  number_value : ℕ → OptionValue

pub record ProtoSchema : Type 0 where
  pub package_name : Text
  pub services : List ProtoService
  pub message_list : ProtoMessages
  pub enums : List ProtoEnum
  pub options : List (Text × OptionValue)
  pub generate_cache : Option Properties

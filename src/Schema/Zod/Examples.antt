-- ===== src/Schema/Zod/Examples.antt =====
-- Small graphs of Zod nodes.
use trpc_proto.Base.{ℕ, zero, suc, ◌≡◌, refl, false, List, [], ◌∷◌, none, some, arith}
use trpc_proto.Base.Text.{Text}
use trpc_proto.Schema.Zod.{
  ZodKind, z_object, z_array, z_optional, z_lazy, z_other, other_format, ZodNode, ZodGraph,
  unwrap_step, unwrap_loop, unwrap,
}
use trpc_proto.Schema.Zod.Unwrap.{Wraps, IsEnd, IsBounded, unwrap-IsEnd}

abbrev pub blank : ZodNode
blank = record {
  type = z_other [];
  inner_type = none;
  unwrapped = none;
  out = none;
  input = none;
  getter = none;
  element = none;
  key_type = none;
  value_type = none;
  left = none;
  right = none;
  shape = [];
  entries = [];
  values = [];
  options = [];
  items = [];
  discriminator = none;
  format = other_format;
  is_int = false;
  meta = none;
  description = none;
  yield_schema = none;
}

abbrev pub of_kind : ZodKind → ZodNode
of_kind kind = record blank { type = kind }

abbrev pub node_at : List ZodNode → ℕ → ZodNode
node_at [] i = blank
node_at (n ∷ ns) zero = n
node_at (n ∷ ns) (suc i) = node_at ns i

abbrev pub count : List ZodNode → ℕ
count [] = 0
count (n ∷ ns) = suc (count ns)

abbrev pub graph_of : List ZodNode → ZodGraph
graph_of ns = record { size = count ns; node = node_at ns }

abbrev pub object_node : List (Text × ℕ) → ZodNode
object_node shape = record blank { type = z_object; shape = shape }

abbrev pub array_node : ℕ → ZodNode
array_node element = record blank {
  type = z_array;
  element = some element;
  unwrapped = some element;
}

abbrev pub optional_node : ℕ → ZodNode
optional_node inner = record blank {
  type = z_optional;
  inner_type = some inner;
  unwrapped = some inner;
}

abbrev pub lazy_node : ℕ → ZodNode
lazy_node inner = record blank { type = z_lazy; unwrapped = some inner; getter = some inner }

-- A lazy schema that gives an optional of itself.
abbrev circular : ZodGraph
circular = graph_of (lazy_node 1 ∷ optional_node 0 ∷ [])

circle : unwrap circular 0 ≡ 0
unfolding unwrap unwrap_loop unwrap_step
circle = refl

circular-IsBounded : IsBounded circular
unfolding unwrap_step
circular-IsBounded zero j h = ground arith
circular-IsBounded (suc zero) j h = ground arith
circular-IsBounded (suc (suc i)) j h = absurd (cc)

unwrap-IsEnd_example : Wraps circular 0 (unwrap circular 0) × IsEnd circular (unwrap circular 0)
unwrap-IsEnd_example = unwrap-IsEnd circular circular-IsBounded 0 (omega arith)

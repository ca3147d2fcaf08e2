-- ===== src/Batch/Wire.antt =====
-- packages/runtime/src/batch/proto/wire.ts: the envelope of a batch, and the check of a request.
-- The protobuf codec of the envelope is a parameter: what it decodes is a value of a dynamic
-- language, of which `Decoded` keeps what the check looks at.
pub mod Calls
use trpc_proto.Base.{
  ℕ, suc, Bool, true, false, not, ◌||◌, List, [], ◌∷◌, Option, none, some, ◌==◌, if◌then◌else◌,
  Bytes, has,
}
use trpc_proto.Base.Text.{Text, codes}

pub record BatchWireCall : Type 0 where
  pub id : ℕ
  pub path : Text
  pub input : Option Bytes

pub data BatchWireResult : Type 0 where
  success : ℕ → Option Bytes → BatchWireResult
  error : ℕ → ℕ → Text → BatchWireResult

-- A value at a field: `negative n` is the integer -(n + 1).
pub data IdValue : Type 0 where
  whole negative : ℕ → IdValue
  no_integer : IdValue

pub data PathValue : Type 0 where
  string : Text → PathValue
  no_string : PathValue

pub data InputValue : Type 0 where
  missing : InputValue
  bytes : Bytes → InputValue
  no_bytes : InputValue

pub data CallValue : Type 0 where
  no_call : CallValue
  call : IdValue → PathValue → InputValue → CallValue

-- What `batchCodec.decode` returns or throws.
pub data Decoded : Type 0 where
  throws : Text → Decoded
  no_object : Decoded
  no_array : Decoded
  array : List CallValue → Decoded

pub data BatchValidation : Type 0 where
  calls : List BatchWireCall → BatchValidation
  invalid : Text → BatchValidation

abbrev pub is_empty : Text → Bool
is_empty [] = true
is_empty (c ∷ s) = false

-- The test of one call, with the ids before it.
unfoldable pub check_call : CallValue → List ℕ → Option BatchWireCall
check_call no_call ids = none
check_call (call (whole id) (string path) missing) ids =
    if id == 0 || has ids id || is_empty path
    then none
    else some (record { id = id; path = path; input = none })
check_call (call (whole id) (string path) (bytes body)) ids =
    if id == 0 || has ids id || is_empty path
    then none
    else some (record { id = id; path = path; input = some body })
check_call (call (whole id) (string path) no_bytes) ids = none
check_call (call (whole id) no_string input) ids = none
check_call (call (negative n) path input) ids = none
check_call (call no_integer path input) ids = none

-- The loop over the calls.
unfoldable pub check_calls : List CallValue → List ℕ → Option (List BatchWireCall)
check_calls [] ids = some []
check_calls (value ∷ values) ids = elim (check_call value ids) [
  | none ↦ none
  | some c ↦ elim (check_calls values (c.id ∷ ids)) [ none ↦ none | some cs ↦ some (c ∷ cs) ]
]

abbrev pub no_array_error : Text
no_array_error = codes "batch request calls must be an array"

abbrev pub call_error : Text
call_error = codes "batch calls require a unique positive id, path, and bytes input"

unfoldable pub decode_batch_calls : Decoded → BatchValidation
decode_batch_calls (throws message) = invalid message
decode_batch_calls no_object = invalid (codes "batch request must be an object")
decode_batch_calls no_array = invalid no_array_error
decode_batch_calls (array values) = elim (check_calls values []) [
  | none ↦ invalid call_error
  | some cs ↦ calls cs
]

-- ===== src/Batch/Wire/Calls.antt =====
-- `decodeBatchCalls` of wire.ts accepts the well-formed lists of calls, and nothing else.
use trpc_proto.Base.{
  ℕ, ◌≤◌, ◌≡◌, ◌≢◌, refl, ◌↔◌, false, List, [], ◌∷◌, map, Option, none, some, arith, Bytes, has,
  Option-cases, inl, inr, ap,
}
use trpc_proto.Batch.Wire.{
  BatchWireCall, whole, negative, no_integer, string, no_string, InputValue, missing, bytes,
  no_bytes, CallValue, no_call, call, Decoded, throws, no_object, no_array, array, calls,
  check_call, check_calls, decode_batch_calls,
}

abbrev pub input_value : Option Bytes → InputValue
input_value none = missing
input_value (some body) = bytes body

-- The dynamic value that a call is.
abbrev pub value_of : BatchWireCall → CallValue
value_of c = call (whole c.id) (string c.path) (input_value c.input)

-- Ids are positive and new, paths are not empty.
abbrev pub AreValid : List ℕ → List BatchWireCall → Type 0
AreValid ids [] = Unit
AreValid ids (c ∷ cs) =
    (1 ≤ c.id) × (has ids c.id ≡ false) × (c.path ≢ []) × AreValid (c.id ∷ ids) cs

check_call_sound :
    (value : CallValue) (ids : List ℕ) {c : BatchWireCall}
    → check_call value ids ≡ some c
    → (value ≡ value_of c) × (1 ≤ c.id) × (has ids c.id ≡ false) × (c.path ≢ [])
unfolding check_call
check_call_sound no_call ids e = absurd (cc)
check_call_sound (call (whole id) (string path) missing) ids {c} e = ground arith
check_call_sound (call (whole id) (string path) (bytes body)) ids e = ground arith
check_call_sound (call (whole id) (string path) no_bytes) ids e = absurd (cc)
check_call_sound (call (whole id) no_string input) ids e = absurd (cc)
check_call_sound (call (negative n) path input) ids e = absurd (cc)
check_call_sound (call no_integer path input) ids e = absurd (cc)

check_call_complete :
    (c : BatchWireCall) (ids : List ℕ)
    → 1 ≤ c.id
    → has ids c.id ≡ false
    → c.path ≢ []
    → check_call (value_of c) ids ≡ some c
unfolding check_call
check_call_complete c ids p new named = ground arith

check_calls_sound :
    (values : List CallValue) (ids : List ℕ) {cs : List BatchWireCall}
    → check_calls values ids ≡ some cs
    → (values ≡ map value_of cs) × AreValid ids cs
unfolding check_calls
check_calls_sound [] ids {cs} e = let empty : [] ≡ cs = ground arith in rw (← empty) (refl, tt)
check_calls_sound (value ∷ values) ids {cs} e = elim (Option-cases (check_call value ids)) [
  | inl none_left ↦ absurd (cc (rw (none_left, check_calls) at e))
  | inr (c, first) ↦ elim (Option-cases (check_calls values (c.id ∷ ids))) [
    | inl stopped ↦ absurd (ground arith)
    | inr (later, rest) ↦
        let (shape, positive, new, named) = check_call_sound value ids first in
        let (shapes, valid) = check_calls_sound values (c.id ∷ ids) rest in
        let whole_list : (c ∷ later) ≡ cs = ground arith in
        rw (← whole_list) (cc, (positive, new, named, valid))
  ]
]

check_calls_complete :
    (cs : List BatchWireCall) (ids : List ℕ)
    → AreValid ids cs
    → check_calls (map value_of cs) ids ≡ some cs
check_calls_complete [] ids h = unfold check_calls in refl
check_calls_complete (c ∷ cs) ids (positive, new, named, h) =
    let first = check_call_complete c ids positive new named in
    go first (check_calls_complete cs (c.id ∷ ids) h)
  where
    go :
        check_call (value_of c) ids ≡ some c
        → check_calls (map value_of cs) (c.id ∷ ids) ≡ some cs
        → check_calls (map value_of (c ∷ cs)) ids ≡ some (c ∷ cs)
    go first rest = unfold check_calls in ground (arith, first, rest)

-- A decoded request is accepted exactly if it is an array of the dynamic values of calls whose ids
-- are positive and differ and whose paths are not empty; the calls are then those, in order.
pub decode_batch_calls_iff :
    (decoded : Decoded) (cs : List BatchWireCall)
    → (decode_batch_calls decoded ≡ calls cs)
      ↔ ((decoded ≡ array (map value_of cs)) × AreValid [] cs)
decode_batch_calls_iff decoded cs = (sound decoded, complete)
  where
    sound :
        (d : Decoded)
        → decode_batch_calls d ≡ calls cs
        → (d ≡ array (map value_of cs)) × AreValid [] cs
    sound (throws m) e = absurd (unfold decode_batch_calls in cc)
    sound no_object e = absurd (unfold decode_batch_calls in cc)
    sound no_array e = absurd (unfold decode_batch_calls in cc)
    sound (array values) e = elim (Option-cases (check_calls values [])) [
      | inl stopped ↦ absurd (unfold decode_batch_calls in ground arith)
      | inr (found, checked) ↦
          let same : found ≡ cs = unfold decode_batch_calls in ground arith in
          let (shapes, valid) = check_calls_sound values [] (rw same at checked) in
          (ap array shapes, valid)
    ]

    complete :
        (decoded ≡ array (map value_of cs)) × AreValid [] cs → decode_batch_calls decoded ≡ calls cs
    complete (shape, valid) =
        rw shape
          (unfold decode_batch_calls in rw (check_calls_complete cs [] valid, decode_batch_calls))

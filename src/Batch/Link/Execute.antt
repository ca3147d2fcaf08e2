-- ===== src/Batch/Link/Execute.antt =====
-- packages/runtime/src/batch/link/web_link.ts, `#execute` and the operations of `link`: a group of
-- operations is sent as one batch, and each of them is told its own result.
-- The codec of the application, the call of the batch and the operations that are cancelled while
-- it runs are parameters.
use trpc_proto.Base.{
  ℕ, suc, Bool, true, false, ◌||◌, List, [], ◌∷◌, map, Option, none, some, ◌==◌, if◌then◌else◌,
  Bytes, has, ◌⊎◌, inl, inr,
}
use trpc_proto.Base.Text.{Text}
use trpc_proto.Batch.Dispatch.Results.{result_id}
use trpc_proto.Batch.Wire.{BatchWireCall, BatchWireResult, success, error}

-- Why an operation fails.
pub data LinkError : Type 0 where
  no_mapping subscription_in_batch encode_failed decode_failed : LinkError
  omitted_result : ℕ → LinkError
  duplicate_ids : LinkError
  call_failed : Text → LinkError
  item_failed : ℕ → Text → LinkError

-- What an observer is told.
pub data Outcome (Value : Type 0) : Type 0 where
  delivered : Value → Outcome Value
  failed : LinkError → Outcome Value

-- `QueuedOperation` with its operation; `outcome` is there when it is completed.
pub record Operation (Value : Type 0) : Type 0 where
  pub path : Text
  pub input : Value
  pub aborted : Bool
  pub cancelled : Bool
  pub outcome : Option (Outcome Value)

pub record Rpc : Type 0 where
  pub request_type : Text
  pub response_type : Text
  pub response_stream : Bool

-- The codec of the application; `none` is an error that it throws.
pub record AppCodec (Value : Type 0) : Type 0 where
  pub lookup_rpc : Text → Option Rpc
  pub encode : Text → Value → Option Bytes
  pub decode : Text → Bytes → Option Value

-- A call that is in the request, with the type that its result is decoded by.
pub record SentCall : Type 0 where
  pub call : BatchWireCall
  pub response_type : Text

-- `results.get(id)`, where the ids differ.
abbrev pub result_for : ℕ → List BatchWireResult → Option BatchWireResult
result_for id [] = none
result_for id (r ∷ results) = if result_id r == id then some r else result_for id results

-- Two results with one id make the map smaller than the list.
abbrev pub has_duplicates : List BatchWireResult → List ℕ → Bool
has_duplicates [] ids = false
has_duplicates (r ∷ results) ids =
    has ids (result_id r) || has_duplicates results (result_id r ∷ ids)

module _ {Value : Type 0} where
  -- `deliver` and `fail`: a completed or cancelled operation is told nothing.
  unfoldable pub settle : Outcome Value → Operation Value → Operation Value
  settle outcome op = elim op.outcome [
    | some earlier ↦ op
    | none ↦ if op.cancelled then op else record op { outcome = some outcome }
  ]

  -- `abort` of `link`, for an operation whose flag says so.
  abbrev pub cancel_if : Bool → Operation Value → Operation Value
  cancel_if false op = op
  cancel_if true op = record op { cancelled = true }

module _ {Value : Type 0} (codec : AppCodec Value) where
  -- The call of one operation: an error, or the call with the type of its result.
  unfoldable pub prepare_call : ℕ → Operation Value → LinkError ⊎ SentCall
  prepare_call id op = elim (codec.lookup_rpc op.path) [
    | none ↦ inl no_mapping
    | some rpc ↦
        if rpc.response_stream
        then inl subscription_in_batch
        else elim (codec.encode rpc.request_type op.input) [
          | none ↦ inl encode_failed
          | some input ↦ inr (record {
            call = record { id = id; path = op.path; input = some input };
            response_type = rpc.response_type;
          })
        ]
  ]

  -- The loop over the operations that are active; `count` is the number of the calls before.
  unfoldable pub prepare : ℕ → List (Operation Value) → List (Operation Value × Option SentCall)
  prepare count [] = []
  prepare count (op ∷ ops) =
      let skipped = prepare count ops in
      let numbered = prepare (suc count) ops in
      if op.cancelled || op.aborted
      then (op, none) ∷ skipped
      else elim (prepare_call (suc count) op) [
        | inl e ↦ (settle (failed e) op, none) ∷ skipped
        | inr sent ↦ (op, some sent) ∷ numbered
      ]

  -- `request.calls`.
  abbrev pub calls_of : List (Operation Value × Option SentCall) → List BatchWireCall
  calls_of [] = []
  calls_of ((op, none) ∷ entries) = calls_of entries
  calls_of ((op, some sent) ∷ entries) = sent.call ∷ calls_of entries

  -- `result.output ?? new Uint8Array()`.
  abbrev output_of : Option Bytes → Bytes
  output_of none = []
  output_of (some output) = output

  -- What an operation is told by its result.
  unfoldable pub outcome_of : SentCall → Option BatchWireResult → Outcome Value
  outcome_of sent none = failed (omitted_result sent.call.id)
  outcome_of sent (some (error id code text)) = failed (item_failed code text)
  outcome_of sent (some (success id output)) =
      elim (codec.decode sent.response_type (output_of output)) [
        | none ↦ failed decode_failed
        | some value ↦ delivered value
      ]

  -- The loop over `byId`, or that of the catch clause if the results are an error.
  abbrev pub finish_one :
      LinkError ⊎ List BatchWireResult → Operation Value × Option SentCall → Operation Value
  finish_one answer (op, none) = op
  finish_one (inl e) (op, some sent) = settle (failed e) op
  finish_one (inr results) (op, some sent) =
      settle (outcome_of sent (result_for sent.call.id results)) op

  abbrev pub check_results : LinkError ⊎ List BatchWireResult → LinkError ⊎ List BatchWireResult
  check_results (inl e) = inl e
  check_results (inr results) = if has_duplicates results [] then inl duplicate_ids else inr results

  -- `cancels` says, by the id of its call, whether an operation is cancelled while the call runs.
  abbrev pub cancel_meanwhile :
      (ℕ → Bool) → Operation Value × Option SentCall → Operation Value × Option SentCall
  cancel_meanwhile cancels (op, none) = (op, none)
  cancel_meanwhile cancels (op, some sent) = (cancel_if (cancels sent.call.id) op, some sent)

  -- `#execute`. `invoke` is the call through the interceptors and the decoder of its response, and
  -- `cancels` says which operations are cancelled before it has ended, by the ids of their calls.
  unfoldable pub execute :
      (List BatchWireCall → LinkError ⊎ List BatchWireResult)
      → (ℕ → Bool)
      → List (Operation Value)
      → List (Operation Value)
  execute invoke cancels ops =
      let entries = prepare 0 ops in
      elim (calls_of entries) [
        | [] ↦ map (λ e. e.0) entries
        | c ∷ cs ↦
            map (λ e. finish_one (check_results (invoke (c ∷ cs))) (cancel_meanwhile cancels e))
              entries
      ]

-- ===== src/Batch/Link/Examples.antt =====
-- Three operations and batches of two.
use trpc_proto.Base.{map, false, Option, none, some, ◌⊎◌, inr, if◌then◌else◌, ◌==◌, Bytes, All}
use trpc_proto.Base.Text.{Text, codes, text_eq}
use trpc_proto.Batch.Wire.{BatchWireCall, BatchWireResult}
use trpc_proto.Batch.Link.Execute.{
  LinkError, no_mapping, delivered, failed, Operation, AppCodec, settle, prepare_call, prepare,
  outcome_of, execute,
}
use trpc_proto.Batch.Link.Settled.{Answer, answered, refused, alone, execute-alone}
use trpc_proto.Batch.Link.InOrder.{reply_to, in_order-AnswersAll}
use trpc_proto.Batch.Link.Done.{IsDone, asked, execute-IsDone}
use trpc_proto.Base.{ℕ, ◌≡◌, refl, false, List, [], ◌∷◌, arith, concat, All}
use trpc_proto.Batch.Link.{Queue, groups_from, groups, flush, enqueue_all}
use trpc_proto.Batch.Link.Groups.{FitsBatch, flush-enqueue_all}

abbrev no_items : Queue ℕ
no_items = record { pending = []; scheduled = false }

abbrev three : List ℕ
three = 5 ∷ 6 ∷ 7 ∷ []

two_groups : groups 2 three ≡ (5 ∷ 6 ∷ []) ∷ (7 ∷ []) ∷ []
unfolding groups groups_from
two_groups = refl

flush-enqueue_all_example :
    (concat (flush 2 (enqueue_all 2 three no_items)).0 ≡ three)
    × All (FitsBatch 2) (flush 2 (enqueue_all 2 three no_items)).0
    × ((flush 2 (enqueue_all 2 three no_items)).1 ≡ no_items)
flush-enqueue_all_example = flush-enqueue_all 2 three (omega arith)

-- A codec whose values are bytes; the path "x" has no mapping.
abbrev codec : AppCodec Bytes
codec = record {
  lookup_rpc = λ path.
      (if text_eq path (codes "x")
        then none
        else some (record { request_type = []; response_type = []; response_stream = false }));
  encode = λ type value. some value;
  decode = λ type bytes. some bytes;
}

abbrev operation : Text → Bytes → Operation Bytes
operation path input = record {
  path = path;
  input = input;
  aborted = false;
  cancelled = false;
  outcome = none;
}

abbrev group : List (Operation Bytes)
group =
    operation (codes "a") (1 ∷ []) ∷ operation (codes "x") [] ∷ operation (codes "b") (2 ∷ []) ∷ []

abbrev echo : Text → Option Bytes → Answer
echo path none = refused 3 (codes "no input")
echo path (some input) = answered (some (9 ∷ input))

abbrev server : List BatchWireCall → LinkError ⊎ List BatchWireResult
server cs = inr (map (reply_to echo) cs)

told_own :
    map (λ (op : Operation Bytes). op.outcome) (execute codec server (λ id. false) group)
    ≡ some (delivered (9 ∷ 1 ∷ [])) ∷ some (failed no_mapping) ∷ some (delivered (9 ∷ 2 ∷ [])) ∷ []
unfolding execute prepare prepare_call settle outcome_of
told_own = refl

execute-alone_example : execute codec server (λ id. false) group ≡ map (alone codec echo) group
execute-alone_example = execute-alone codec echo server group (in_order-AnswersAll echo)

execute-IsDone_example :
    (map asked (execute codec server (λ id. id == 2) group) ≡ map asked group)
    × All IsDone (execute codec server (λ id. id == 2) group)
execute-IsDone_example = execute-IsDone codec server (λ id. id == 2) group

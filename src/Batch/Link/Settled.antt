-- ===== src/Batch/Link/Settled.antt =====
-- What the operations of a group are told by `#execute` of web_link.ts.
use trpc_proto.Base.{
  ℕ, suc, ◌<◌, ◌≡◌, ◌∙◌, ap, refl, Bool, true, false, ◌||◌, List, [], ◌∷◌, map, Option, none, some,
  arith, if◌then◌else◌, Bytes, All, has, Distinct, ◌⊎◌, inl, inr, Bool-cases, Option-cases,
}
use trpc_proto.Base.Text.{Text}
use trpc_proto.Batch.Wire.{BatchWireCall, BatchWireResult, success, error}
use trpc_proto.Batch.Link.Execute.{
  LinkError, no_mapping, subscription_in_batch, encode_failed, failed, Operation, AppCodec,
  SentCall, result_for, has_duplicates, settle, prepare_call, prepare, calls_of, outcome_of,
  finish_one, check_results, cancel_meanwhile, execute,
}

List-cases :
    {A : Type 0} → (xs : List A) → (xs ≡ []) ⊎ ((x : A) × (rest : List A) × (xs ≡ x ∷ rest))
List-cases [] = inl refl
List-cases (x ∷ xs) = inr (x, xs, refl)

-- What the server has to say to a call, whatever its id.
pub data Answer : Type 0 where
  answered : Option Bytes → Answer
  refused : ℕ → Text → Answer

abbrev pub result_with : ℕ → Answer → BatchWireResult
result_with id (answered output) = success id output
result_with id (refused code text) = error id code text

-- The server answers the calls of a batch, in whatever order, each under its id.
pub record Answers (answer : Text → Option Bytes → Answer) (cs : List BatchWireCall)
    (results : List BatchWireResult) : Type 0 where
  pub once : has_duplicates results [] ≡ false
  pub each : All (λ c. result_for c.id results ≡ some (result_with c.id (answer c.path c.input))) cs

abbrev pub AnswersAll :
    (Text → Option Bytes → Answer)
    → (List BatchWireCall → LinkError ⊎ List BatchWireResult)
    → Type 0
AnswersAll answer invoke =
    (cs : List BatchWireCall)
    → Distinct (map (λ c. c.id) cs)
    → (results : List BatchWireResult) × (invoke cs ≡ inr results) × Answers answer cs results

abbrev IdsAbove : ℕ → List ℕ → Type 0
IdsAbove count ids = All (λ id. count < id) ids

module _ {Value : Type 0} (codec : AppCodec Value) where
  abbrev pub ids_of : List (Operation Value × Option SentCall) → List ℕ
  ids_of entries = map (λ c. c.id) (calls_of codec entries)

  -- What an operation is told that is sent alone.
  abbrev pub alone : (Text → Option Bytes → Answer) → Operation Value → Operation Value
  alone answer op = if op.cancelled || op.aborted then op else elim (prepare_call codec 1 op) [
    | inl e ↦ settle (failed e) op
    | inr sent ↦
        settle
          (outcome_of codec sent (some (result_with 1 (answer sent.call.path sent.call.input)))) op
  ]

  abbrev sent_with : ℕ → Text → Bytes → Text → SentCall
  sent_with id path input type = record {
    call = record { id = id; path = path; input = some input };
    response_type = type;
  }

  pub prepare_call-cases :
      (op : Operation Value)
      → ((e : LinkError) × ((id : ℕ) → prepare_call codec id op ≡ inl e))
        ⊎ ((input : Bytes) × (type : Text) × ((id : ℕ)
              → prepare_call codec id op ≡ inr (sent_with id op.path input type)))
  unfolding prepare_call
  prepare_call-cases op = elim (Option-cases (codec.lookup_rpc op.path)) [
    | inl missing ↦ inl (no_mapping, λ id. rw (missing, prepare_call) refl)
    | inr (rpc, found) ↦ elim (Bool-cases rpc.response_stream) [
      | inl stream ↦ inl (subscription_in_batch, λ id. rw (found, stream, prepare_call) refl)
      | inr unary ↦ elim (Option-cases (codec.encode rpc.request_type op.input)) [
        | inl broken ↦ inl (encode_failed, λ id. ground (arith, found, unary, broken))
        | inr (input, encoded) ↦
            inr (input, rpc.response_type, λ id. ground (arith, found, unary, encoded))
      ]
    ]
  ]

  above_fewer : (count : ℕ) (ids : List ℕ) → IdsAbove (suc count) ids → IdsAbove count ids
  above_fewer count [] h = tt
  above_fewer count (id ∷ ids) (first, h) = (omega arith, above_fewer count ids h)

  above-has : (count : ℕ) (ids : List ℕ) → IdsAbove count ids → has ids count ≡ false
  above-has count [] h = refl
  above-has count (id ∷ ids) (first, h) = ground (arith, above-has count ids h)

  -- The ids of the calls ascend.
  prepare-ids :
      (count : ℕ) (ops : List (Operation Value))
      → IdsAbove count (ids_of (prepare codec count ops))
        × Distinct (ids_of (prepare codec count ops))
  unfolding prepare
  prepare-ids count [] = (tt, tt)
  prepare-ids count (op ∷ ops) = elim (Bool-cases (op.cancelled || op.aborted)) [
    | inl skipped ↦ rw (skipped, prepare) (prepare-ids count ops)
    | inr active ↦ elim (prepare_call-cases op) [
      | inl (e, wrong) ↦ rw (active, wrong (suc count), prepare) (prepare-ids count ops)
      | inr (input, type, right) ↦
          let (above, distinct) = prepare-ids (suc count) ops in
          rw (active, right (suc count), prepare)
            (
              (omega arith, above_fewer count (ids_of (prepare codec (suc count) ops)) above),
              (above-has (suc count) (ids_of (prepare codec (suc count) ops)) above, distinct),
            )
    ]
  ]

  outcome_any_id :
      (id : ℕ) (path : Text) (input : Bytes) (type : Text) (answer : Answer)
      → outcome_of codec (sent_with id path input type) (some (result_with id answer))
        ≡ outcome_of codec (sent_with 1 path input type) (some (result_with 1 answer))
  unfolding outcome_of
  outcome_any_id id path input type (answered output) = refl
  outcome_any_id id path input type (refused code text) = refl

  alone_active :
      (answer : Text → Option Bytes → Answer) (op : Operation Value) {input : Bytes} {type : Text}
      → (op.cancelled || op.aborted) ≡ false
      → ((id : ℕ) → prepare_call codec id op ≡ inr (sent_with id op.path input type))
      → alone answer op
        ≡ settle
            (outcome_of codec
              (sent_with 1 op.path input type)
              (some (result_with 1 (answer op.path (some input)))))
            op
  alone_active answer op active right = rw (active, right 1) refl

  pub prepare_skipped :
      (count : ℕ) (op : Operation Value) (ops : List (Operation Value))
      → (op.cancelled || op.aborted) ≡ true
      → prepare codec count (op ∷ ops) ≡ (op, none) ∷ prepare codec count ops
  unfolding prepare
  prepare_skipped count op ops skipped = rw skipped refl

  pub prepare_failed :
      (count : ℕ) (op : Operation Value) (ops : List (Operation Value)) {e : LinkError}
      → (op.cancelled || op.aborted) ≡ false
      → prepare_call codec (suc count) op ≡ inl e
      → prepare codec count (op ∷ ops) ≡ (settle (failed e) op, none) ∷ prepare codec count ops
  unfolding prepare
  prepare_failed count op ops active wrong = rw (active, wrong) refl

  pub prepare_sent :
      (count : ℕ) (op : Operation Value) (ops : List (Operation Value)) {sent : SentCall}
      → (op.cancelled || op.aborted) ≡ false
      → prepare_call codec (suc count) op ≡ inr sent
      → prepare codec count (op ∷ ops) ≡ (op, some sent) ∷ prepare codec (suc count) ops
  unfolding prepare
  prepare_sent count op ops active right = rw (active, right) refl

  finished :
      (answer : Text → Option Bytes → Answer) (results : List BatchWireResult) (count : ℕ)
      (ops : List (Operation Value))
      → All
          (λ c. result_for c.id results ≡ some (result_with c.id (answer c.path c.input)))
          (calls_of codec (prepare codec count ops))
      → map
          (λ e. finish_one codec (inr results) (cancel_meanwhile codec (λ id. false) e))
          (prepare codec count ops)
        ≡ map (alone answer) ops
  finished answer results count [] h = unfold prepare in refl
  finished answer results count (op ∷ ops) h = elim (Bool-cases (op.cancelled || op.aborted)) [
    | inl skipped ↦
        let entries = prepare_skipped count op ops skipped in
        rw (entries, skipped) (ap (◌∷◌ op) (finished answer results count ops (rw entries at h)))
    | inr active ↦ elim (prepare_call-cases op) [
      | inl (e, wrong) ↦
          let entries = prepare_failed count op ops active (wrong (suc count)) in
          rw (entries, active, wrong 1)
            (ap (◌∷◌ (settle (failed e) op)) (finished answer results count ops (rw entries at h)))
      | inr (input, type, right) ↦
          let entries = prepare_sent count op ops active (right (suc count)) in
          let (mine, others) = rw entries at h in
          rw (entries, alone_active answer op active right, mine)
            (ap
                (λ outcome.
                  settle outcome op
                  ∷ map
                      (λ e. finish_one codec (inr results) (cancel_meanwhile codec (λ id. false) e))
                      (prepare codec (suc count) ops))
                (outcome_any_id (suc count) op.path input type (answer op.path (some input)))
              ∙ ap
                  (◌∷◌ (
                    settle
                      (outcome_of codec (sent_with 1 op.path input type)
                        (some (result_with 1 (answer op.path (some input)))))
                      op))
                  (finished answer results (suc count) ops others))
    ]
  ]

  -- Without a call in the request, no operation is told anything more.
  none_sent :
      (results : LinkError ⊎ List BatchWireResult) (cancels : ℕ → Bool)
      (entries : List (Operation Value × Option SentCall))
      → calls_of codec entries ≡ []
      → map (λ e. e.0) entries
        ≡ map (λ e. finish_one codec results (cancel_meanwhile codec cancels e)) entries
  none_sent results cancels [] h = refl
  none_sent results cancels ((op, none) ∷ entries) h =
      ap (◌∷◌ op) (none_sent results cancels entries h)
  none_sent results cancels ((op, some sent) ∷ entries) h = absurd (cc)

  pub execute-finish :
      (invoke : List BatchWireCall → LinkError ⊎ List BatchWireResult) (cancels : ℕ → Bool)
      (ops : List (Operation Value))
      → execute codec invoke cancels ops
        ≡ map
            (λ e.
              finish_one codec
                (check_results codec (invoke (calls_of codec (prepare codec 0 ops))))
                (cancel_meanwhile codec cancels e))
            (prepare codec 0 ops)
  unfolding execute
  execute-finish invoke cancels ops = elim (List-cases (calls_of codec (prepare codec 0 ops))) [
    | inl nothing ↦ rw (nothing, execute) (none_sent _ cancels (prepare codec 0 ops) nothing)
    | inr (c, cs, calls) ↦ rw (calls, execute) refl
  ]

  -- If the server answers every batch whose ids differ, in whatever order, then a batch tells every operation what it would be
  -- told if it were sent alone: the value or the error for its own path and input, or that it cannot
  -- be sent, whatever the other operations of the batch are. No operation is cancelled meanwhile.
  pub execute-alone :
      (answer : Text → Option Bytes → Answer)
      (invoke : List BatchWireCall → LinkError ⊎ List BatchWireResult)
      (ops : List (Operation Value))
      → AnswersAll answer invoke
      → execute codec invoke (λ id. false) ops ≡ map (alone answer) ops
  execute-alone answer invoke ops h =
      let (above, distinct) = prepare-ids 0 ops in
      let (results, returned, answers) = h (calls_of codec (prepare codec 0 ops)) distinct in
      execute-finish invoke (λ id. false) ops
      ∙ rw (returned, answers.once) (finished answer results 0 ops answers.each)

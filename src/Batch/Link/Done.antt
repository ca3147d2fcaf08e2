-- ===== src/Batch/Link/Done.antt =====
-- Every operation of a group that web_link.ts sends is told an outcome.
use trpc_proto.Base.{
  ℕ, suc, ◌≡◌, ◌∙◌, ap, refl, Bool, true, false, ◌||◌, List, [], ◌∷◌, map, Option, none, some,
  arith, All, ◌⊎◌, inl, inr, Bool-cases, Option-cases,
}
use trpc_proto.Base.Text.{Text}
use trpc_proto.Batch.Wire.{BatchWireCall, BatchWireResult}
use trpc_proto.Batch.Link.Execute.{
  LinkError, Outcome, failed, Operation, AppCodec, SentCall, result_for, settle, cancel_if, prepare,
  calls_of, outcome_of, finish_one, check_results, cancel_meanwhile, execute,
}
use trpc_proto.Batch.Link.Settled.{
  prepare_call-cases, prepare_skipped, prepare_failed, prepare_sent, execute-finish,
}

module _ {Value : Type 0} where
  -- Nobody waits for this operation any more, or its observer has been told an outcome.
  abbrev pub IsDone : Operation Value → Type 0
  IsDone op =
      (op.aborted ≡ true) ⊎ ((op.cancelled ≡ true) ⊎ ((o : Outcome Value) × (op.outcome ≡ some o)))

  settle-IsDone : (outcome : Outcome Value) (op : Operation Value) → IsDone (settle outcome op)
  unfolding settle
  settle-IsDone outcome op = elim (Option-cases op.outcome) [
    | inr (o, told) ↦
        let same : settle outcome op ≡ op = simp (told, settle) in rw same (inr (inr (o, told)))
    | inl open_still ↦ elim (Bool-cases op.cancelled) [
      | inl off ↦
          let same : settle outcome op ≡ op = simp (open_still, off, settle) in
          rw same (inr (inl off))
      | inr on ↦
          let same : settle outcome op ≡ record op { outcome = some outcome } =
            simp (open_still, on, settle) in
          rw same (inr (inr (outcome, refl)))
    ]
  ]

  -- The operation of an entry is done, or its call is sent.
  abbrev EntryIsDone : Operation Value × Option SentCall → Type 0
  EntryIsDone (op, none) = IsDone op
  EntryIsDone (op, some sent) = Unit

  abbrev pub asked : Operation Value → Text × Value
  asked op = (op.path, op.input)

  settle-asked :
      (outcome : Outcome Value) (op : Operation Value) → asked (settle outcome op) ≡ asked op
  unfolding settle
  settle-asked outcome op = elim (Option-cases op.outcome) [
    | inr (o, told) ↦ let same : settle outcome op ≡ op = simp (told, settle) in ap asked same
    | inl open_still ↦ elim (Bool-cases op.cancelled) [
      | inl off ↦
          let same : settle outcome op ≡ op = simp (open_still, off, settle) in ap asked same
      | inr on ↦
          let same : settle outcome op ≡ record op { outcome = some outcome } =
            simp (open_still, on, settle) in
          ap asked same
    ]
  ]

  inactive-IsDone : (op : Operation Value) → (op.cancelled || op.aborted) ≡ true → IsDone op
  inactive-IsDone op h = elim (Bool-cases op.cancelled) [
    | inl off ↦ inr (inl off)
    | inr on ↦ inl (ground (arith, on))
  ]

  module _ (codec : AppCodec Value) where
    prepare-IsDone :
        (count : ℕ) (ops : List (Operation Value))
        → (map (λ e. asked e.0) (prepare codec count ops) ≡ map asked ops)
          × All EntryIsDone (prepare codec count ops)
    prepare-IsDone count [] = unfold prepare in (refl, tt)
    prepare-IsDone count (op ∷ ops) = elim (Bool-cases (op.cancelled || op.aborted)) [
      | inl skipped ↦
          let (same, done) = prepare-IsDone count ops in
          rw (prepare_skipped codec count op ops skipped)
            (ap (◌∷◌ (asked op)) same, (inactive-IsDone op skipped, done))
      | inr active ↦ elim (prepare_call-cases codec op) [
        | inl (e, wrong) ↦
            let (same, done) = prepare-IsDone count ops in
            rw (prepare_failed codec count op ops active (wrong (suc count))) (
              rw (settle-asked (failed e) op) (ap (◌∷◌ (asked op)) same),
              (settle-IsDone (failed e) op, done),
            )
        | inr (input, type, right) ↦
            let (same, done) = prepare-IsDone (suc count) ops in
            rw (prepare_sent codec count op ops active (right (suc count)))
              (ap (◌∷◌ (asked op)) same, (tt, done))
      ]
    ]

    finish_one-IsDone :
        (results : LinkError ⊎ List BatchWireResult) (cancels : ℕ → Bool)
        (e : Operation Value × Option SentCall)
        → EntryIsDone e
        → IsDone (finish_one codec results (cancel_meanwhile codec cancels e))
    finish_one-IsDone results cancels (op, none) h = h
    finish_one-IsDone (inl thrown) cancels (op, some sent) h = settle-IsDone _ _
    finish_one-IsDone (inr results) cancels (op, some sent) h = settle-IsDone _ _

    cancel_if-asked :
        (cancels : Bool) (op : Operation Value) → asked (cancel_if cancels op) ≡ asked op
    cancel_if-asked true op = refl
    cancel_if-asked false op = refl

    finish_one-asked :
        (results : LinkError ⊎ List BatchWireResult) (cancels : ℕ → Bool)
        (e : Operation Value × Option SentCall)
        → asked (finish_one codec results (cancel_meanwhile codec cancels e)) ≡ asked e.0
    finish_one-asked results cancels (op, none) = refl
    finish_one-asked (inl thrown) cancels (op, some sent) =
        settle-asked (failed thrown) (cancel_if (cancels sent.call.id) op)
        ∙ cancel_if-asked (cancels sent.call.id) op
    finish_one-asked (inr results) cancels (op, some sent) =
        settle-asked (outcome_of codec sent (result_for sent.call.id results))
          (cancel_if (cancels sent.call.id) op)
        ∙ cancel_if-asked (cancels sent.call.id) op

    finish-IsDone :
        (results : LinkError ⊎ List BatchWireResult) (cancels : ℕ → Bool)
        (entries : List (Operation Value × Option SentCall))
        → All EntryIsDone entries
        → (map asked
              (map (λ e. finish_one codec results (cancel_meanwhile codec cancels e)) entries)
            ≡ map (λ e. asked e.0) entries)
          × All IsDone
              (map (λ e. finish_one codec results (cancel_meanwhile codec cancels e)) entries)
    finish-IsDone results cancels [] h = (refl, tt)
    finish-IsDone results cancels (e ∷ entries) (first, h) =
        let (same, done) = finish-IsDone results cancels entries h in
        (
          rw (finish_one-asked results cancels e) (ap (◌∷◌ (asked e.0)) same),
          (finish_one-IsDone results cancels e first, done),
        )

    -- When a batch has ended, every operation of its group has been told an outcome, or it was
    -- cancelled or aborted: whatever the call of the batch returns or throws, and whichever
    -- operations are cancelled while it runs. The operations are those of the group, in their order.
    pub execute-IsDone :
        (invoke : List BatchWireCall → LinkError ⊎ List BatchWireResult) (cancels : ℕ → Bool)
        (ops : List (Operation Value))
        → (map asked (execute codec invoke cancels ops) ≡ map asked ops)
          × All IsDone (execute codec invoke cancels ops)
    execute-IsDone invoke cancels ops =
        let (same, done) = prepare-IsDone 0 ops in
        let (kept, ended) =
          finish-IsDone (check_results codec (invoke (calls_of codec (prepare codec 0 ops))))
            cancels (prepare codec 0 ops) done in
        rw (execute-finish codec invoke cancels ops) (kept ∙ same, ended)

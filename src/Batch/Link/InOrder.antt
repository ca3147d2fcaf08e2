-- ===== src/Batch/Link/InOrder.antt =====
-- A server that answers the calls of a batch in their order, for the client of web_link.ts.
use trpc_proto.Base.{
  ℕ, ◌≡◌, refl, false, List, [], ◌∷◌, map, Option, some, arith, Bytes, All, has, Distinct, inr,
}
use trpc_proto.Base.Text.{Text}
use trpc_proto.Batch.Wire.{BatchWireCall, BatchWireResult}
use trpc_proto.Batch.Link.Execute.{result_for, has_duplicates}
use trpc_proto.Batch.Dispatch.Results.{result_id}
use trpc_proto.Batch.Link.Settled.{Answer, answered, refused, result_with, AnswersAll}

-- A server that answers in the order of the calls.
abbrev pub reply_to : (Text → Option Bytes → Answer) → BatchWireCall → BatchWireResult
reply_to answer c = result_with c.id (answer c.path c.input)

result_id-result_with : (id : ℕ) (a : Answer) → result_id (result_with id a) ≡ id
result_id-result_with id (answered output) = refl
result_id-result_with id (refused code text) = refl

module _ (answer : Text → Option Bytes → Answer) where
  still_new :
      (id : ℕ) (seen : List ℕ) (cs : List BatchWireCall)
      → has (map (λ c. c.id) cs) id ≡ false
      → All (λ c. has seen c.id ≡ false) cs
      → All (λ c. has (id ∷ seen) c.id ≡ false) cs
  still_new id seen [] h new = tt
  still_new id seen (c ∷ cs) h (first, new) =
      (ground (arith, first), still_new id seen cs (ground arith) new)

  no_duplicates :
      (cs : List BatchWireCall) (seen : List ℕ)
      → Distinct (map (λ c. c.id) cs)
      → All (λ c. has seen c.id ≡ false) cs
      → has_duplicates (map (reply_to answer) cs) seen ≡ false
  no_duplicates [] seen d new = refl
  no_duplicates (c ∷ cs) seen (first, d) (n, new) =
      rw (result_id-result_with c.id (answer c.path c.input), n)
        (no_duplicates cs (c.id ∷ seen) d (still_new c.id seen cs first new))

  found_behind :
      (r : BatchWireResult) (results : List BatchWireResult) (cs : List BatchWireCall)
      → has (map (λ c. c.id) cs) (result_id r) ≡ false
      → All (λ c. result_for c.id results ≡ some (reply_to answer c)) cs
      → All (λ c. result_for c.id (r ∷ results) ≡ some (reply_to answer c)) cs
  found_behind r results [] h found = tt
  found_behind r results (c ∷ cs) h (first, found) =
      (ground (arith, first), found_behind r results cs (ground arith) found)

  all_found :
      (cs : List BatchWireCall)
      → Distinct (map (λ c. c.id) cs)
      → All (λ c. result_for c.id (map (reply_to answer) cs) ≡ some (reply_to answer c)) cs
  all_found [] d = tt
  all_found (c ∷ cs) (first, d) = (
    rw (result_id-result_with c.id (answer c.path c.input)) (ground arith),
    found_behind (reply_to answer c) (map (reply_to answer) cs) cs
        (rw (result_id-result_with c.id (answer c.path c.input)) first) (all_found cs d),
  )

  none_seen : (cs : List BatchWireCall) → All (λ c. has [] c.id ≡ false) cs
  none_seen [] = tt
  none_seen (c ∷ cs) = (refl, none_seen cs)

  -- Such a server answers every batch.
  pub in_order-AnswersAll : AnswersAll answer (λ cs. inr (map (reply_to answer) cs))
  in_order-AnswersAll cs d = (
    map (reply_to answer) cs,
    refl,
    record { once = no_duplicates cs [] d (none_seen cs); each = all_found cs d },
  )

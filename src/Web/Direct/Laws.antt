-- ===== src/Web/Direct/Laws.antt =====
-- When a subscription ends with the status OK.
use trpc_proto.Base.{
  ◌≡◌, ◌≢◌, ◌↔◌, ap, refl, arith, Bool, true, false, List, [], ◌∷◌, map, Option, none, some, ◌⊎◌,
  inl, inr, Bytes, All,
}
use std.Path.{subst}
use trpc_proto.Base.Text.{Text}
use trpc_proto.Grpc.Status as GrpcStatus
use trpc_proto.Grpc.Status.{TrpcCode, grpc_status}
use trpc_proto.Grpc.Status.Laws.{grpc_status_range}
use trpc_proto.Web.Direct.{
  Thrown, trpc_error, other_error, thrown_status, end_status, Router, emit_items,
}

thrown_status-ne : (e : Thrown) → (thrown_status e).code ≢ GrpcStatus.ok
thrown_status-ne (trpc_error code text) =
    λ z. let (above, below) = grpc_status_range code in omega (arith, z)
thrown_status-ne (other_error text) = λ z. omega (arith, z)

Thrown-cases :
    {A : Type 0} (x : Thrown ⊎ A) → ((e : Thrown) × (x ≡ inl e)) ⊎ ((a : A) × (x ≡ inr a))
Thrown-cases (inl e) = inl (e, refl)
Thrown-cases (inr a) = inr (a, refl)

module _ {Value : Type 0} {Context : Type 0} (router : Router Value Context) where
  -- Every item came before the call was aborted, was encoded, and these are the messages.
  pub record IsComplete (type : Text) (aborted : Bool) (items : List (Value × Bool))
      (thrown : Option Thrown) (messages : List Bytes) : Type 0 where
    pub goes_on : aborted ≡ false
    pub no_error : thrown ≡ none
    pub in_time : All (λ i. i.1 ≡ false) items
    pub encoded : map (λ i. router.encode type i.0) items ≡ map inr messages

  emit_items-IsComplete :
      (type : Text) (aborted : Bool) (items : List (Value × Bool)) (thrown : Option Thrown)
      → (emit_items router type aborted items thrown).1.code ≡ GrpcStatus.ok
      → IsComplete type aborted items thrown (emit_items router type aborted items thrown).0
  unfolding emit_items
  emit_items-IsComplete type aborted [] none h = record {
    goes_on = ground (arith);
    no_error = refl;
    in_time = tt;
    encoded = refl;
  }
  emit_items-IsComplete type aborted [] (some e) h = absurd (thrown_status-ne e h)
  emit_items-IsComplete type aborted ((item, true) ∷ items) thrown h = absurd (omega (arith, h))
  emit_items-IsComplete type aborted ((item, false) ∷ items) thrown h =
      elim (Thrown-cases (router.encode type item)) [
        | inl (e, broken) ↦ absurd (thrown_status-ne e (rw broken at h))
        | inr (message, fine) ↦
            let later = emit_items-IsComplete type aborted items thrown (rw fine at h) in
            record {
              goes_on = later.goes_on;
              no_error = later.no_error;
              in_time = (refl, later.in_time);
              encoded = rw fine (ap (◌∷◌ (inr message)) later.encoded);
            }
      ]

  IsComplete-emit_items :
      (type : Text) (aborted : Bool) (items : List (Value × Bool)) (thrown : Option Thrown)
      (messages : List Bytes)
      → IsComplete type aborted items thrown messages
      → emit_items router type aborted items thrown ≡ (messages, end_status false)
  unfolding emit_items
  IsComplete-emit_items type aborted [] none [] h = rw (h.goes_on) refl
  IsComplete-emit_items type aborted [] (some e) [] h = absurd (cc h.no_error)
  IsComplete-emit_items type aborted [] thrown (m ∷ messages) h = absurd (cc h.encoded)
  IsComplete-emit_items type aborted ((item, stops) ∷ items) thrown [] h = absurd (cc h.encoded)
  IsComplete-emit_items type aborted ((item, stops) ∷ items) thrown (message ∷ messages) h =
      let mine : router.encode type item ≡ inr message = cc h.encoded in
      let others : map (λ i. router.encode type i.0) items ≡ map inr messages = cc h.encoded in
      rw
        (
          h.in_time.0,
          mine,
          IsComplete-emit_items type aborted items thrown messages (record {
            goes_on = h.goes_on;
            no_error = h.no_error;
            in_time = h.in_time.1;
            encoded = others;
          }),
        )
        refl

  -- The items of a subscription are emitted as these messages, and the call ends with the status OK,
  -- exactly if every item came before the call was aborted and was encoded, the router threw
  -- nothing, the call is not aborted, and the messages are the encodings, in the order of the items.
  pub emit_items_iff :
      (type : Text) (aborted : Bool) (items : List (Value × Bool)) (thrown : Option Thrown)
      (messages : List Bytes)
      → (emit_items router type aborted items thrown ≡ (messages, end_status false))
        ↔ IsComplete type aborted items thrown messages
  emit_items_iff type aborted items thrown messages = (
    λ e.
        subst (IsComplete type aborted items thrown) (ap (λ r. r.0) e)
          (emit_items-IsComplete type aborted items thrown (ap (λ r. r.1.code) e)),
    IsComplete-emit_items type aborted items thrown messages,
  )

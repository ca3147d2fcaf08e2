-- ===== src/Proto/Convert/Fits/Depth.antt =====
-- Room for more calls than a value needs does no harm.
use trpc_proto.Base.{ℕ, zero, suc, ◌≤◌, List, Option, arith}
use trpc_proto.Base.Text.{Text}
use trpc_proto.Schema.Types.{ProtoType, ProtoField, ProtoMessage, ProtoSchema}
use trpc_proto.Proto.Values.{Value, Items, Entries}
use trpc_proto.Proto.Convert.Fits.{
  FitsValue, a_long, a_scalar, an_enum, a_date, a_message, a_map, FitsEntries, no_more, one_more,
  FitsItems, none_left, one_left, FitsField, singular_field, repeated_field, FitsFields, no_fields,
  without, with_field, Fits, nothing, with_fields, a_wrapped, an_arm, FitsMessage,
}

module _ (P Q : Text → Option ProtoMessage → Value → Type 0) (scope : Option ProtoMessage)
    (weaken : (name : Text) (v : Value) → P name scope v → Q name scope v) where
  mutual
    FitsValue-weaken :
        {type : ProtoType} {v : Value} → FitsValue P scope type v → FitsValue Q scope type v
    FitsValue-weaken (a_long h) = a_long h
    FitsValue-weaken (a_scalar h u) = a_scalar h u
    FitsValue-weaken (an_enum u) = an_enum u
    FitsValue-weaken (a_date h r) = a_date h r
    FitsValue-weaken (a_message {name} {v} t p) = a_message t (weaken name v p)
    FitsValue-weaken (a_map d fs) = a_map d (FitsEntries-weaken fs)

    FitsEntries-weaken :
        {type : ProtoType} {es : Entries}
        → FitsEntries P scope type es
        → FitsEntries Q scope type es
    FitsEntries-weaken no_more = no_more
    FitsEntries-weaken (one_more f fs) = one_more (FitsValue-weaken f) (FitsEntries-weaken fs)

  FitsItems-weaken :
      {type : ProtoType} {items : Items}
      → FitsItems P scope type items
      → FitsItems Q scope type items
  FitsItems-weaken none_left = none_left
  FitsItems-weaken (one_left f fs) = one_left (FitsValue-weaken f) (FitsItems-weaken fs)

  FitsField-weaken : {f : ProtoField} {v : Value} → FitsField P scope f v → FitsField Q scope f v
  FitsField-weaken (singular_field r h) = singular_field r (FitsValue-weaken h)
  FitsField-weaken (repeated_field r h) = repeated_field r (FitsItems-weaken h)

  FitsFields-weaken :
      {fs : List ProtoField} {es : Entries} → FitsFields P scope fs es → FitsFields Q scope fs es
  FitsFields-weaken no_fields = no_fields
  FitsFields-weaken (without fs) = without (FitsFields-weaken fs)
  FitsFields-weaken (with_field h fs) = with_field (FitsField-weaken h) (FitsFields-weaken fs)

module _ (schema : ProtoSchema) where
  Fits-weaken :
      (P Q : Text → Option ProtoMessage → Value → Type 0)
      (weaken : (name : Text) (scope : Option ProtoMessage) (v : Value)
        → P name scope v
        → Q name scope v)
      {name : Text} {scope : Option ProtoMessage} {v : Value}
      → Fits schema P name scope v
      → Fits schema Q name scope v
  Fits-weaken P Q weaken nothing = nothing
  Fits-weaken P Q weaken (with_fields r plain apart fits) =
      with_fields r plain apart (FitsFields-weaken P Q _ (λ name. weaken name _) fits)
  Fits-weaken P Q weaken (a_wrapped r wrapper wrapped fits) =
      a_wrapped r wrapper wrapped (FitsField-weaken P Q _ (λ name. weaken name _) fits)
  Fits-weaken P Q weaken (an_arm r apart place found type other distinct p) =
      an_arm r apart place found type other distinct (weaken _ _ _ p)

  pub FitsMessage-mono :
      (n k : ℕ) (name : Text) (scope : Option ProtoMessage) (v : Value)
      → n ≤ k
      → FitsMessage schema n name scope v
      → FitsMessage schema k name scope v
  FitsMessage-mono zero k name scope v le h = absurd (cc)
  FitsMessage-mono (suc n) zero name scope v le h = absurd (omega arith)
  FitsMessage-mono (suc n) (suc k) name scope v le h =
      Fits-weaken (FitsMessage schema n) (FitsMessage schema k)
        (λ name scope v. FitsMessage-mono n k name scope v (omega arith)) h

-- ===== src/Web/Protocol/Status.antt =====
-- The status of a trailer block: what is written is read, and nothing else is accepted.
use trpc_proto.Base.{ℕ, ◌≤◌, ◌≡◌, ◌↔◌, true, some, arith}
use trpc_proto.Base.Text.{Text}
use trpc_proto.Base.Decimal.{
  decimal_value, is_decimal, decimal, decimal_value-decimal, decimal-is_decimal,
}
use trpc_proto.Web.Protocol.{parsed, parse_grpc_status}

-- A status is accepted exactly if its text consists of decimal digits, one at least, that denote at
-- most 16; it is then the number that they denote.
pub parse_grpc_status_iff :
    (encoded : Text) (status : ℕ)
    → (parse_grpc_status (some encoded) ≡ parsed status)
      ↔ ((is_decimal encoded ≡ true) × (decimal_value 0 encoded ≡ status) × (status ≤ 16))
unfolding parse_grpc_status
parse_grpc_status_iff encoded status = (λ h. ground arith, λ h. ground arith)

-- A status of at most 16 is read back from what is written for it.
pub parse_grpc_status-decimal :
    (status : ℕ) → status ≤ 16 → parse_grpc_status (some (decimal status)) ≡ parsed status
parse_grpc_status-decimal status h =
    (parse_grpc_status_iff (decimal status) status).1
      (decimal-is_decimal status, decimal_value-decimal status, h)

-- ===== src/Proto/Timestamp/Laws.antt =====
-- Which dates come back from their timestamps.
use trpc_proto.Base.{ℕ, ◌+◌, ◌-◌, ◌*◌, ◌/◌, ◌%◌, ◌≡◌, ◌↔◌, arith, ap}
use trpc_proto.Proto.Timestamp.{ℤ, pos, negsuc, date_to_timestamp, timestamp_to_date}

-- From 1970 on, or a whole number of seconds before it.
abbrev pub IsKept : ℤ → Type 0
IsKept (pos ms) = Unit
IsKept (negsuc n) = (n + 1) % 1000 ≡ 0

pub before :
    (n : ℕ)
    → timestamp_to_date (date_to_timestamp (negsuc n))
      ≡ negsuc ((n / 1000 + 1) * 1000 + (n + 1) % 1000 - 1)
unfolding date_to_timestamp timestamp_to_date
before n = ground arith

after : (ms : ℕ) → timestamp_to_date (date_to_timestamp (pos ms)) ≡ pos ms
unfolding date_to_timestamp timestamp_to_date
after ms = ap pos (omega arith)

-- A date comes back from its timestamp exactly if it is not before 1970 or a whole number of seconds.
pub timestamp_to_date_iff :
    (date : ℤ) → (timestamp_to_date (date_to_timestamp date) ≡ date) ↔ IsKept date
timestamp_to_date_iff (pos ms) = (λ e. tt, λ h. after ms)
timestamp_to_date_iff (negsuc n) = (λ e. ground (arith, before n), λ h. ground (arith, before n))

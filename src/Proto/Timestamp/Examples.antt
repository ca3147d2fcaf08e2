-- ===== src/Proto/Timestamp/Examples.antt =====
-- A millisecond before 1970 comes back as 1001, and a time after it as it was.
use trpc_proto.Base.{◌≡◌, ◌↔◌, refl}
use trpc_proto.Proto.Timestamp.{pos, negsuc, date_to_timestamp, timestamp_to_date}
use trpc_proto.Proto.Timestamp.Laws.{IsKept, timestamp_to_date_iff}

one_before : timestamp_to_date (date_to_timestamp (negsuc 0)) ≡ negsuc 1000
unfolding date_to_timestamp timestamp_to_date
one_before = refl

half_after : timestamp_to_date (date_to_timestamp (pos 1500)) ≡ pos 1500
unfolding date_to_timestamp timestamp_to_date
half_after = refl

timestamp_to_date_iff_example :
    (timestamp_to_date (date_to_timestamp (negsuc 0)) ≡ negsuc 0) ↔ IsKept (negsuc 0)
timestamp_to_date_iff_example = timestamp_to_date_iff (negsuc 0)

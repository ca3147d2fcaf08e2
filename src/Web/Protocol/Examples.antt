-- ===== src/Web/Protocol/Examples.antt =====
-- A message, and the end of a call that was not found.
use trpc_proto.Base.{◌≡◌, ◌↔◌, ◌≤◌, refl, true, [], ◌∷◌, Option, some, Bytes}
use trpc_proto.Base.Text.{Text, codes}
use trpc_proto.Web.Frame.{Trailers}
use trpc_proto.Base.Decimal.{decimal_value, is_decimal, decimal_digits, decimal}
use trpc_proto.Web.Protocol.{
  parsed, rejected, invalid_status, parse_grpc_status, trailer_entries, other_entries, Inflated,
  inflated,
}
use trpc_proto.Web.Protocol.Status.{parse_grpc_status_iff}

-- A compressor that marks its output, and texts without percent signs.
abbrev mark : Bytes → Bytes
mark payload = 31 ∷ payload

abbrev unmark : Bytes → Inflated
unmark [] = inflated []
unmark (b ∷ payload) = inflated payload

abbrev plain : Text → Option Text
plain text = some text

abbrev metadata : Trailers
metadata = (codes "Grpc-Status", codes "0") ∷ (codes "X-Trace", codes "7") ∷ []

leading_zero : parse_grpc_status (some (codes "016")) ≡ parsed 16
unfolding parse_grpc_status decimal_value
leading_zero = refl

too_large : parse_grpc_status (some (codes "17")) ≡ rejected (invalid_status (codes "17"))
unfolding parse_grpc_status decimal_value
too_large = refl

sixteen : decimal 16 ≡ codes "16"
unfolding decimal decimal_digits
sixteen = refl

rest_of_trailers :
    other_entries (trailer_entries 5 (codes "gone") metadata) ≡ (codes "x-trace", codes "7") ∷ []
unfolding decimal decimal_digits
rest_of_trailers = refl

parse_grpc_status_iff_example :
    (parse_grpc_status (some (codes "12")) ≡ parsed 12)
    ↔ ((is_decimal (codes "12") ≡ true) × (decimal_value 0 (codes "12") ≡ 12) × (12 ≤ 16))
parse_grpc_status_iff_example = parse_grpc_status_iff (codes "12") 12

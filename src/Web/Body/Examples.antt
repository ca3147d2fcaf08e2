-- ===== src/Web/Body/Examples.antt =====
-- A compressed message and a final status with metadata, cut within the frames.
use trpc_proto.Base.{◌≡◌, refl, [], ◌∷◌, map, concat, All, Bytes}
use trpc_proto.Base.Text.{codes, is_space, trim_start, trim_end}
use trpc_proto.Web.ContentType.{raw, gzip}
use trpc_proto.Web.Frame.{Trailers, trailer_block, decode_trailers}
use trpc_proto.Web.Frame.TrailerText.{IsName, received, decode_trailers-trailer_block}
use trpc_proto.Web.Protocol.{protocol_trailers, trailer_entries}
use trpc_proto.Web.Body.{encode_value}
use trpc_proto.Web.Body.Plain.{plain}
use trpc_proto.Web.Body.Trailers.{reply_values}

abbrev metadata : Trailers
metadata = (codes "X-Trace", codes "a b%") ∷ []

abbrev entries : Trailers
entries = trailer_entries 5 (codes "50% off") metadata

names : All (λ e. IsName e.0) entries
unfolding trim_end trim_start is_space
names = (
  record { lower = refl; trimmed = refl; not_empty = refl; no_colon = refl; no_return = refl },
  (
    record { lower = refl; trimmed = refl; not_empty = refl; no_colon = refl; no_return = refl },
    (
      record { lower = refl; trimmed = refl; not_empty = refl; no_colon = refl; no_return = refl },
      tt,
    ),
  ),
)

abbrev body : Bytes
body = concat (
    map (encode_value plain raw gzip)
      (reply_values ((7 ∷ 8 ∷ []) ∷ []) (protocol_trailers 5 (codes "50% off") metadata)))

decode_trailers-trailer_block_example :
    decode_trailers plain.utf8 (trailer_block plain.utf8 entries)
    ≡ map (received plain.utf8) entries
decode_trailers-trailer_block_example =
    decode_trailers-trailer_block plain.utf8 entries names (refl, (refl, (refl, tt))) refl

-- ===== src/Web/Base64/Examples.antt =====
-- Base64 text in pieces, with line breaks.
use trpc_proto.Base.{◌≡◌, ◌↔◌, ◌%◌, refl, List, [], ◌∷◌, length, concat}
use trpc_proto.Base.Text.{Text, codes, is_space, index_of}
use trpc_proto.Web.Base64.{
  strip_spaces, encoded_length, complete_segments, push_text, segments_from,
}
use trpc_proto.Web.Base64.Segments.{IsCut, segments_from-concat}

abbrev pieces : List Text
pieces = codes "AAE" ∷ codes "CAw\n==" ∷ codes "AAEC" ∷ codes "AA" ∷ []

segments_example : segments_from [] pieces ≡ (codes "AAECAw==" ∷ codes "AAEC" ∷ [], codes "AA")
unfolding segments_from push_text complete_segments encoded_length strip_spaces is_space index_of
segments_example = refl

segments_from-concat_example :
    IsCut (strip_spaces (concat pieces)) (segments_from [] pieces)
    × ((length (segments_from [] pieces).1 ≡ 0) ↔ (length (strip_spaces (concat pieces)) % 4 ≡ 0))
segments_from-concat_example = segments_from-concat pieces

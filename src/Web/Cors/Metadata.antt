-- ===== src/Web/Cors/Metadata.antt =====
-- Which headers become metadata.
use trpc_proto.Base.{◌≡◌, ◌∙◌, refl, true, false, List, [], ◌∷◌, none, arith, Bool-cases, inl, inr}
use trpc_proto.Base.Text.{Text, codes, join, text_eq_iff, to_lower, lookup, lookup-insert}
use trpc_proto.Web.Cors.{
  HeaderValue, undefined_value, one_value, many_values, Headers, HttpRequest, is_skipped,
  set_metadata, add_header, add_headers, metadata_from_request,
}

set_metadata-skipped :
    (name key text : Text)
    → (metadata : Headers) → is_skipped name ≡ true
    → is_skipped key ≡ false
    → lookup name (set_metadata key text metadata) ≡ lookup name metadata
set_metadata-skipped name key [] metadata h k = refl
set_metadata-skipped name key (c ∷ text) metadata h k =
    ground (arith, lookup-insert key name (c ∷ text) metadata, text_eq_iff key name)

add_header-skipped :
    (name key : Text) (value : HeaderValue) (metadata : Headers)
    → is_skipped name ≡ true
    → lookup name (add_header key value metadata) ≡ lookup name metadata
add_header-skipped name key undefined_value metadata h = refl
add_header-skipped name key (one_value text) metadata h =
    elim (Bool-cases (is_skipped (to_lower key))) [
      | inl skipped ↦ rw skipped
      | inr kept ↦ rw kept (set_metadata-skipped name (to_lower key) text metadata h kept)
    ]
add_header-skipped name key (many_values texts) metadata h =
    elim (Bool-cases (is_skipped (to_lower key))) [
      | inl skipped ↦ rw skipped
      | inr kept ↦
          rw kept
            (set_metadata-skipped name (to_lower key) (join (codes ",") texts) metadata h kept)
    ]

add_headers-skipped :
    (name : Text) (headers : List (Text × HeaderValue)) (metadata : Headers)
    → is_skipped name ≡ true
    → lookup name (add_headers headers metadata) ≡ lookup name metadata
unfolding add_headers
add_headers-skipped name [] metadata h = refl
add_headers-skipped name ((key, value) ∷ headers) metadata h =
    add_headers-skipped name headers (add_header key value metadata) h
    ∙ add_header-skipped name key value metadata h

-- No header of the transport, and none whose name begins with a colon, becomes metadata of the call,
-- however its name is spelled.
pub metadata_from_request-skipped :
    (request : HttpRequest) (name : Text)
    → is_skipped name ≡ true
    → lookup name (metadata_from_request request) ≡ none
unfolding metadata_from_request
metadata_from_request-skipped request name h = add_headers-skipped name request.headers [] h

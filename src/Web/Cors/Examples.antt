-- ===== src/Web/Cors/Examples.antt =====
-- A preflight for one header, and a request with transport headers.
use trpc_proto.Base.{◌≡◌, ◌↔◌, refl, true, [], ◌∷◌, none, some}
use trpc_proto.Base.Text.{codes, split, trim_end, trim_start, is_space}
use trpc_proto.Web.Cors.{
  HttpRequest, CorsPolicy, one_value, many_values, request_header, is_skipped, add_headers,
  metadata_from_request, origin_of, asks_for_post, requested_cors_headers, asks_for_other_headers,
  allowed_preflight, handle_cors_preflight, create_cors_policy, no_whole_number,
}
use trpc_proto.Web.Cors.Preflight.{Passes, status_of, handle_cors_preflight_iff}

abbrev policy : CorsPolicy
policy = record {
  allowed_origins = codes "https://a.test" ∷ [];
  allowed_headers = codes "x-user-agent" ∷ codes "x-trace" ∷ [];
  max_age_seconds = 600;
}

abbrev preflight : HttpRequest
preflight = record {
  method = codes "OPTIONS";
  headers =
      (codes "origin", one_value (codes "https://a.test"))
      ∷ (codes "access-control-request-method", one_value (codes "post"))
      ∷ (codes "access-control-request-headers", one_value (codes " X-Trace,,"))
      ∷ [];
  url_pathname = some (codes "/a.B/c");
  body = [];
}

abbrev call : HttpRequest
call = record {
  method = codes "POST";
  headers =
      (codes "host", one_value (codes "a.test"))
      ∷ (codes "X-Trace", many_values (codes "7" ∷ codes "8" ∷ []))
      ∷ (codes "x-empty", one_value [])
      ∷ [];
  url_pathname = some (codes "/a.B/c");
  body = [];
}

passed : status_of (handle_cors_preflight preflight (some policy)) ≡ 204
unfolding handle_cors_preflight origin_of request_header allowed_preflight asks_for_post
    asks_for_other_headers requested_cors_headers split trim_end trim_start is_space
passed = refl

bad_age :
    create_cors_policy (record {
      allowed_origins = [];
      additional_allowed_headers = [];
      max_age_seconds = some no_whole_number;
    })
    ≡ none
unfolding create_cors_policy
bad_age = refl

joined : metadata_from_request call ≡ (codes "x-trace", codes "7,8") ∷ []
unfolding metadata_from_request add_headers is_skipped
joined = refl

host-is_skipped : is_skipped (codes "host") ≡ true
unfolding is_skipped
host-is_skipped = refl

handle_cors_preflight_iff_example :
    (status_of (handle_cors_preflight preflight (some policy)) ≡ 204) ↔ Passes preflight policy
handle_cors_preflight_iff_example = handle_cors_preflight_iff preflight policy

-- ===== src/Web/Cors/Preflight.antt =====
-- Who passes the preflight.
use trpc_proto.Base.{
  ℕ, ◌≡◌, ◌≢◌, ◌⊎◌, ◌↔◌, ◌∙◌, ap, refl, not, List, [], ◌∷◌, map, any, All, true, false, Option,
  none, some, arith, Bool-cases, Option-cases, inl, inr,
}
use trpc_proto.Base.Text.{
  Text, codes, text_eq, text_eq→eq, has_text, to_upper, to_lower, trim, trim_start, trim_end, split,
}
use trpc_proto.Utility.Case.{non_empty}
use trpc_proto.Web.Cors.{
  HttpRequest, Reply, CorsPolicy, request_header, requested_cors_headers, origin_of, asks_for_post,
  asks_for_other_headers, allowed_preflight, handle_cors_preflight,
}

-- An empty name asks for nothing.
abbrev pub IsAllowed : CorsPolicy → Text → Type 0
IsAllowed cors name = (name ≡ []) ⊎ (has_text cors.allowed_headers name ≡ true)

-- What a preflight has to be to pass: the headers it names are those between commas, without white
-- space around them and in lower case.
pub record Passes (request : HttpRequest) (cors : CorsPolicy) : Type 0 where
  pub method : request.method ≡ codes "OPTIONS"
  pub origin : Text
  pub sent : request_header request (codes "origin") ≡ some origin
  pub not_empty : origin ≢ []
  pub allowed : has_text cors.allowed_origins origin ≡ true
  pub asked : Text
  pub names_method : request_header request (codes "access-control-request-method") ≡ some asked
  pub post : to_upper asked ≡ codes "POST"
  pub headers :
      (listed : Text)
      → request_header request (codes "access-control-request-headers") ≡ some listed
      → All (IsAllowed cors) (map (λ name. to_lower (trim name)) (split b',' listed))

abbrev pub status_of : Option Reply → ℕ
status_of none = 0
status_of (some reply) = reply.status

origin_of-header :
    (request : HttpRequest) (origin : Text)
    → origin_of request ≡ some origin
    → (request_header request (codes "origin") ≡ some origin) × (origin ≢ [])
unfolding origin_of
origin_of-header request origin h = elim (Option-cases (request_header request (codes "origin"))) [
  | inl missing ↦ absurd (ground (arith, missing))
  | inr ([], found) ↦ absurd (ground (arith, found))
  | inr (c ∷ text, found) ↦
      let same : c ∷ text ≡ origin = ground (arith, found) in
      (found ∙ ap some same, λ empty. cc (same, empty))
]

header-origin_of :
    (request : HttpRequest) (origin : Text)
    → request_header request (codes "origin") ≡ some origin
    → origin ≢ []
    → origin_of request ≡ some origin
unfolding origin_of
header-origin_of request [] found h = absurd (h refl)
header-origin_of request (c ∷ text) found h = rw (found, origin_of) refl

-- The method that a preflight asks for.
abbrev AsksForPost : HttpRequest → Type 0
AsksForPost request =
    (asked : Text) × (request_header request (codes "access-control-request-method") ≡ some asked)
    × (to_upper asked ≡ codes "POST")

asks-AsksForPost : (request : HttpRequest) → asks_for_post request ≡ true → AsksForPost request
unfolding asks_for_post
asks-AsksForPost request h =
    elim (Option-cases (request_header request (codes "access-control-request-method"))) [
      | inl missing ↦ absurd (ground (arith, missing))
      | inr (asked, found) ↦
          (asked, found, text_eq→eq (to_upper asked) (codes "POST") (ground (arith, found)))
    ]

AsksForPost-asks : (request : HttpRequest) → AsksForPost request → asks_for_post request ≡ true
unfolding asks_for_post
AsksForPost-asks request (asked, found, post) = rw (found, asks_for_post) (rw post refl)

module _ (cors : CorsPolicy) where
  names-IsAllowed :
      (names : List Text)
      → any (λ name. not (has_text cors.allowed_headers name)) (non_empty names) ≡ false
      → All (IsAllowed cors) names
  names-IsAllowed [] h = tt
  names-IsAllowed ([] ∷ names) h = (inl refl, names-IsAllowed names h)
  names-IsAllowed ((c ∷ name) ∷ names) h =
      (inr (ground arith), names-IsAllowed names (ground arith))

  IsAllowed-names :
      (names : List Text)
      → All (IsAllowed cors) names
      → any (λ name. not (has_text cors.allowed_headers name)) (non_empty names) ≡ false
  IsAllowed-names [] h = refl
  IsAllowed-names ([] ∷ names) (first, h) = IsAllowed-names names h
  IsAllowed-names ((c ∷ name) ∷ names) (inl empty, h) = absurd (cc)
  IsAllowed-names ((c ∷ name) ∷ names) (inr there, h) = rw there (IsAllowed-names names h)

  -- Every header that a preflight asks for is allowed.
  abbrev AllAllowed : HttpRequest → Type 0
  AllAllowed request =
      (listed : Text)
      → request_header request (codes "access-control-request-headers") ≡ some listed
      → All (IsAllowed cors) (map (λ name. to_lower (trim name)) (split b',' listed))

  asks-AllAllowed :
      (request : HttpRequest) → asks_for_other_headers request cors ≡ false → AllAllowed request
  unfolding asks_for_other_headers requested_cors_headers
  asks-AllAllowed request h listed found =
      names-IsAllowed (map (λ name. to_lower (trim name)) (split b',' listed)) (rw (found) at h)

  AllAllowed-asks :
      (request : HttpRequest) → AllAllowed request → asks_for_other_headers request cors ≡ false
  unfolding asks_for_other_headers requested_cors_headers split trim_start trim_end
  AllAllowed-asks request h =
      elim (Option-cases (request_header request (codes "access-control-request-headers"))) [
        | inl missing ↦ rw missing refl
        | inr (listed, found) ↦ rw found (IsAllowed-names _ (h listed found))
      ]

allowed_preflight_passes :
    (request : HttpRequest) (cors : CorsPolicy) (origin : Text)
    → (allowed_preflight request cors origin).status ≡ 204
    → (asks_for_post request ≡ true) × (asks_for_other_headers request cors ≡ false)
unfolding allowed_preflight
allowed_preflight_passes request cors origin h = ground arith

passes-allowed_preflight :
    (request : HttpRequest) (cors : CorsPolicy) (origin : Text)
    → asks_for_post request ≡ true
    → asks_for_other_headers request cors ≡ false
    → (allowed_preflight request cors origin).status ≡ 204
unfolding allowed_preflight
passes-allowed_preflight request cors origin p h = rw (p, h)

preflight-Passes :
    (request : HttpRequest) (cors : CorsPolicy)
    → status_of (handle_cors_preflight request (some cors)) ≡ 204
    → Passes request cors
unfolding handle_cors_preflight
preflight-Passes request cors h = elim (Bool-cases (text_eq request.method (codes "OPTIONS"))) [
  | inr other ↦ absurd (omega (arith, rw other at h))
  | inl options ↦ elim (Option-cases (origin_of request)) [
    | inl missing ↦ absurd (ground (arith, options, missing))
    | inr (origin, sent) ↦ elim (Bool-cases (has_text cors.allowed_origins origin)) [
      | inr foreign ↦ absurd (ground (arith, options, sent, foreign))
      | inl allowed ↦
          let (post, headers) =
            allowed_preflight_passes request cors origin (ground (arith, options, sent, allowed)) in
          let (found, filled) = origin_of-header request origin sent in
          let (asked, names_method, is_post) = asks-AsksForPost request post in
          record {
            method = text_eq→eq request.method (codes "OPTIONS") options;
            origin = origin;
            sent = found;
            not_empty = filled;
            allowed = allowed;
            asked = asked;
            names_method = names_method;
            post = is_post;
            headers = asks-AllAllowed cors request headers;
          }
    ]
  ]
]

Passes-preflight :
    (request : HttpRequest) (cors : CorsPolicy)
    → Passes request cors
    → status_of (handle_cors_preflight request (some cors)) ≡ 204
unfolding handle_cors_preflight
Passes-preflight request cors h =
    let method : text_eq request.method (codes "OPTIONS") ≡ true = rw (h.method) refl in
    rw (method, header-origin_of request h.origin h.sent h.not_empty, h.allowed)
      (passes-allowed_preflight request cors h.origin
        (AsksForPost-asks request (h.asked, h.names_method, h.post))
        (AllAllowed-asks cors request h.headers))

-- A preflight is answered with 204 exactly if it is an OPTIONS request with an origin that the policy
-- allows, it asks for the method POST, and each header that it asks for by name is one that the policy
-- allows, in lower case and without white space around it.
pub handle_cors_preflight_iff :
    (request : HttpRequest) (cors : CorsPolicy)
    → (status_of (handle_cors_preflight request (some cors)) ≡ 204) ↔ Passes request cors
handle_cors_preflight_iff request cors =
    (preflight-Passes request cors, Passes-preflight request cors)

-- ===== src/Web/Handler/Origins.antt =====
-- Which origins a reply of http_handler.ts lets in.
use trpc_proto.Base.{
  ◌≡◌, refl, ◌∙◌, sym, Bool, true, false, Option, none, some, arith, Bool-cases, Option-cases, inl,
  inr,
}
use trpc_proto.Base.Text.{Text, codes, text_eq, has_text, lookup, lookup-insert}
use trpc_proto.Web.ContentType.{Encoding, Compression}
use trpc_proto.Web.Body.{Platform}
use trpc_proto.Web.Cors.{
  Headers, HttpRequest, Reply, CorsPolicy, request_encoding, allow_origin, preflight_headers,
  grpc_web_headers, origin_of, allowed_preflight, handle_cors_preflight,
}
use trpc_proto.Web.Handler.{
  HttpDispatcher, RequestError, OneMessage-cases, request_message, refuse, respond, answer,
  is_refused, response_origin, handle,
}

abbrev allowed_origin : Headers → Option Text
allowed_origin headers = lookup allow_origin headers

-- The origin is the request's, and the policy allows it.
pub record IsLetIn (request : HttpRequest) (cors : Option CorsPolicy) (origin : Text) : Type 0 where
  pub policy : CorsPolicy
  pub applies : cors ≡ some policy
  pub sent : origin_of request ≡ some origin
  pub allowed : has_text policy.allowed_origins origin ≡ true

grpc_web_headers-origin :
    (encoding : Encoding) (compression : Option Compression) (origin : Option Text)
    → allowed_origin (grpc_web_headers encoding compression origin) ≡ origin
unfolding grpc_web_headers
grpc_web_headers-origin encoding none none = refl
grpc_web_headers-origin encoding (some c) none = refl
grpc_web_headers-origin encoding none (some origin) = refl
grpc_web_headers-origin encoding (some c) (some origin) = refl

allowed_preflight-origin :
    (request : HttpRequest) (cors : CorsPolicy) (origin : Text)
    → allowed_origin (allowed_preflight request cors origin).headers ≡ some origin
unfolding allowed_preflight preflight_headers
allowed_preflight-origin request cors origin = ground arith

preflight-IsLetIn :
    (request : HttpRequest) (cors : Option CorsPolicy) {reply : Reply} {origin : Text}
    → handle_cors_preflight request cors ≡ some reply
    → allowed_origin reply.headers ≡ some origin
    → IsLetIn request cors origin
unfolding handle_cors_preflight
preflight-IsLetIn request none e h = absurd (cc)
preflight-IsLetIn request (some cors) {reply} {origin} e h =
    elim (Bool-cases (text_eq request.method (codes "OPTIONS"))) [
      | inr other ↦ absurd (ground (arith, other))
      | inl options ↦ elim (Option-cases (origin_of request)) [
        | inl missing ↦ absurd (ground (arith, options, missing))
        | inr (from, sent) ↦ elim (Bool-cases (has_text cors.allowed_origins from)) [
          | inr foreign ↦ absurd (ground (arith, options, sent, foreign))
          | inl allowed ↦
              let made : reply ≡ allowed_preflight request cors from =
                ground (arith, options, sent, allowed) in
              let same : some origin ≡ some from =
                sym h ∙ rw made (allowed_preflight-origin request cors from) in
              let one : origin ≡ from = cc in
              rw one (record { policy = cors; applies = refl; sent = sent; allowed = allowed })
        ]
      ]
    ]

response_origin-IsLetIn :
    (request : HttpRequest) (cors : Option CorsPolicy) {origin : Text}
    → response_origin (origin_of request) cors ≡ some origin
    → IsLetIn request cors origin
unfolding response_origin
response_origin-IsLetIn request none h = absurd (ground arith)
response_origin-IsLetIn request (some cors) {origin} h = elim (Option-cases (origin_of request)) [
  | inl missing ↦ absurd (ground (arith, missing))
  | inr (from, sent) ↦ elim (Bool-cases (has_text cors.allowed_origins from)) [
    | inr foreign ↦ absurd (ground (arith, sent, foreign))
    | inl allowed ↦
        let one : origin ≡ from = ground (arith, sent, allowed) in
        rw one (record { policy = cors; applies = refl; sent = sent; allowed = allowed })
  ]
]

some-inj : {r s : Reply} → some r ≡ some s → r ≡ s
some-inj e = cc

module _ (p : Platform) (error_text : RequestError → Text) where
  refuse-origin :
      (encoding : Encoding) (headers : Headers) (is_open : Bool) (text : Text) {origin : Text}
      → allowed_origin (refuse p error_text encoding headers is_open text).headers ≡ some origin
      → allowed_origin headers ≡ some origin
  unfolding refuse
  refuse-origin encoding headers true text h =
      sym (lookup-insert (codes "content-length") allow_origin _ headers) ∙ h
  refuse-origin encoding headers false text h = absurd (cc)

  answer-origin :
      (request : HttpRequest) (encoding : Encoding) (allowed : Option Text)
      (dispatch : HttpDispatcher) (is_open : Bool) {origin : Text}
      → allowed_origin (answer p error_text request encoding allowed dispatch is_open).headers
        ≡ some origin
      → allowed ≡ some origin
  unfolding answer respond
  answer-origin request encoding allowed dispatch is_open h =
      elim (OneMessage-cases (request_message p error_text request encoding)) [
        | inl (e, refused) ↦
            sym (grpc_web_headers-origin _ _ allowed)
            ∙ refuse-origin _ _ is_open _ (rw (refused, answer) at h)
        | inr (payload, found) ↦ sym (grpc_web_headers-origin _ _ allowed) ∙ rw (found, answer) at h
      ]

  handle_post-IsLetIn :
      (request : HttpRequest) (cors : Option CorsPolicy) (dispatch : HttpDispatcher)
      (is_open : Bool) {reply : Reply} {origin : Text}
      → handle_cors_preflight request cors ≡ none
      → handle p error_text request cors dispatch is_open ≡ some reply
      → allowed_origin reply.headers ≡ some origin
      → IsLetIn request cors origin
  unfolding handle
  handle_post-IsLetIn request cors dispatch is_open {reply} {origin} pre e h =
      elim (Bool-cases (text_eq request.method (codes "POST"))) [
        | inr other ↦ absurd (ground (arith, pre, other))
        | inl post ↦ elim (Option-cases (request_encoding request)) [
          | inl unknown ↦ absurd (ground (arith, pre, post, unknown))
          | inr (encoding, known) ↦ elim (Bool-cases (is_refused (origin_of request) cors)) [
            | inl refused ↦ absurd (ground (arith, pre, post, known, refused))
            | inr fine ↦
                let made : reply
                    ≡ answer p error_text request encoding
                        (response_origin (origin_of request) cors) dispatch is_open =
                  ground (arith, pre, post, known, fine) in
                response_origin-IsLetIn request cors (
                  answer-origin request encoding (response_origin (origin_of request) cors) dispatch
                    is_open (rw made at h))
          ]
        ]
      ]

  handle_preflight :
      (request : HttpRequest) (cors : Option CorsPolicy) (dispatch : HttpDispatcher)
      (is_open : Bool) {reply : Reply}
      → handle_cors_preflight request cors ≡ some reply
      → handle p error_text request cors dispatch is_open ≡ some reply
  unfolding handle
  handle_preflight request cors dispatch is_open e = rw (e, handle)

  -- Whatever the request, the policy and the dispatcher, a reply names an origin that may read it
  -- only if there is a policy, the policy allows that origin, and it is the origin of the request.
  pub handle-IsLetIn :
      (request : HttpRequest) (cors : Option CorsPolicy) (dispatch : HttpDispatcher)
      (is_open : Bool) {reply : Reply} {origin : Text}
      → handle p error_text request cors dispatch is_open ≡ some reply
      → lookup allow_origin reply.headers ≡ some origin
      → IsLetIn request cors origin
  handle-IsLetIn request cors dispatch is_open {reply} e h =
      elim (Option-cases (handle_cors_preflight request cors)) [
        | inl pre ↦ handle_post-IsLetIn request cors dispatch is_open pre e h
        | inr (early, pre) ↦
            let same : early ≡ reply =
              some-inj (sym (handle_preflight request cors dispatch is_open pre) ∙ e) in
            preflight-IsLetIn request cors pre (rw same h)
      ]

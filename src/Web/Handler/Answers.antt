-- ===== src/Web/Handler/Answers.antt =====
-- What the body of a reply is, on every path through http_handler.ts.
use std.Path.{subst}
use trpc_proto.Base.{
  sym, ℕ, ◌≡◌, refl, ap, Bool, true, List, [], ◌∷◌, ◌++◌, map, Option, none, some, arith, concat,
  inl, inr, Bytes, All, Option-cases,
}
use trpc_proto.Base.Text.{Text, codes}
use trpc_proto.Web.ContentType.{
  Encoding, Compression, identity, parse_compression, negotiate_response_encoding,
}
use trpc_proto.Web.Frame.{Trailers}
use trpc_proto.Web.Body.{Platform, encode_value, decode_values}
use trpc_proto.Web.Protocol.{ProtocolValue, protocol_message, protocol_trailers}
use trpc_proto.Batch.Dispatch.{DispatchStatus}
use trpc_proto.Web.Cors.{
  HttpRequest, Headers, grpc_web_headers, request_header, negotiated_response_compression,
  metadata_from_request,
}
use trpc_proto.Web.Handler.{
  DispatchEnd, returned, failed, Dispatching, HttpDispatcher, RequestError, single, messages_of,
  compression_or_identity, one_message, OneMessage-cases, metadata_or_empty, request_message,
  status_block, message_block, written, end_block, refuse, respond, run_dispatch, answer,
}

-- The connection is open at each write.
abbrev pub IsOpen : Dispatching → Type 0
IsOpen d = All (λ e. e.1 ≡ true) d.emitted × (d.open_at_end ≡ true)

-- The messages of a reply, and the status, the text and the metadata of its trailers.
abbrev pub Outcome : Type 0
Outcome = List Bytes × ℕ × Text × Trailers

abbrev pub end_outcome : DispatchEnd → ℕ × Text × Trailers
end_outcome (returned status) = (status.code, status.message, metadata_or_empty status.metadata)
end_outcome (failed text) = (13, text, [])

module _ (p : Platform) (error_text : RequestError → Text) where
  -- A request whose body reads as one message, under the compression that its headers name.
  pub record Reads (request : HttpRequest) (encoding : Encoding) (payload : Bytes) : Type 0 where
    pub compression : Compression
    pub named :
        parse_compression (request_header request (codes "grpc-encoding")) ≡ some compression
    pub values : List ProtocolValue
    pub decoded : decode_values p encoding compression (concat request.body ∷ []) ≡ (values, none)
    pub one : messages_of values ≡ payload ∷ []

  -- What is answered: what the dispatcher emits and its status, or INTERNAL where it throws, where the
  -- URL has no path, or where the body does not read as one message.
  pub data Answered (request : HttpRequest) (encoding : Encoding) (dispatch : HttpDispatcher)
      : Outcome → Type 0 where
    by_status :
        (payload : Bytes) (path : Text) (status : DispatchStatus)
        → Reads request encoding payload
        → request.url_pathname ≡ some path
        → (dispatch path payload (metadata_from_request request)).end ≡ returned status
        → Answered request encoding dispatch (
          map (λ e. e.0) (dispatch path payload (metadata_from_request request)).emitted,
          status.code,
          status.message,
          metadata_or_empty status.metadata,
        )
    by_throw :
        (payload : Bytes) (path text : Text)
        → Reads request encoding payload
        → request.url_pathname ≡ some path
        → (dispatch path payload (metadata_from_request request)).end ≡ failed text
        → Answered request encoding dispatch (
          map (λ e. e.0) (dispatch path payload (metadata_from_request request)).emitted,
          13,
          text,
          [],
        )
    no_path :
        (payload : Bytes)
        → Reads request encoding payload
        → request.url_pathname ≡ none
        → Answered request encoding dispatch ([], 13, codes "Invalid URL", [])
    not_one :
        (e : RequestError)
        → ((payload : Bytes) → ¬ Reads request encoding payload)
        → Answered request encoding dispatch ([], 13, error_text e, [])

  single-one :
      (payloads : List Bytes) (payload : Bytes)
      → single payloads ≡ one_message payload
      → payloads ≡ payload ∷ []
  single-one [] payload h = cc
  single-one (first ∷ []) payload h = ground arith
  single-one (first ∷ next ∷ more) payload h = cc

  request_message-Reads :
      (request : HttpRequest) (encoding : Encoding) (payload : Bytes)
      → request_message p error_text request encoding ≡ one_message payload
      → Reads request encoding payload
  unfolding request_message
  request_message-Reads request encoding payload h =
      elim (Option-cases (parse_compression (request_header request (codes "grpc-encoding")))) [
        | inl unknown ↦ absurd (ground (arith, unknown))
        | inr (compression, named) ↦
            let read = decode_values p encoding compression (concat request.body ∷ []) in
            elim (Option-cases read.1) [
              | inr (e, thrown) ↦ absurd (ground (arith, named, thrown))
              | inl fine ↦ record {
                compression = compression;
                named = named;
                values = read.0;
                decoded = ap (λ t. (read.0, t)) fine;
                one = single-one (messages_of read.0) payload (ground (arith, named, fine));
              }
            ]
      ]

  Reads-request_message :
      (request : HttpRequest) (encoding : Encoding) (payload : Bytes)
      → Reads request encoding payload
      → request_message p error_text request encoding ≡ one_message payload
  unfolding request_message
  Reads-request_message request encoding payload r =
      rw (r.named, request_message)
        (rw (ap (λ e. e.1) r.decoded, ap (λ e. e.0) r.decoded, r.one) refl)

  written_open :
      (encoding : Encoding) (compression : Option Compression) (emitted : List (Bytes × Bool))
      → All (λ e. e.1 ≡ true) emitted
      → written p error_text encoding compression emitted
        ≡ map (message_block p error_text encoding compression) (map (λ e. e.0) emitted)
  written_open encoding compression [] h = refl
  written_open encoding compression ((payload, is_open) ∷ emitted) (o, h) = rw o (
      ap (◌∷◌ (message_block p error_text encoding compression payload))
        (written_open encoding compression emitted h))

  -- The messages, and behind them one block with the status.
  abbrev pub body_of : Encoding → Option Compression → Outcome → List Bytes
  body_of encoding compression (payloads, status, text, metadata) =
      map
        (λ payload.
          encode_value p encoding (compression_or_identity compression) (protocol_message payload))
        payloads
      ++ (encode_value p encoding identity (protocol_trailers status text metadata) ∷ [])

  end_block-outcome :
      (encoding : Encoding) (e : DispatchEnd)
      → end_block p error_text encoding e ≡ (
          let (status, text, metadata) = end_outcome e in
          status_block p error_text encoding status text metadata)
  end_block-outcome encoding (returned status) = refl
  end_block-outcome encoding (failed text) = refl

  run-IsOpen :
      (dispatch : HttpDispatcher) (request : HttpRequest) (payload : Bytes)
      → ((path : Text) (body : Bytes) → IsOpen (dispatch path body (metadata_from_request request)))
      → IsOpen (run_dispatch p error_text dispatch request payload true)
  unfolding metadata_from_request
  run-IsOpen dispatch request payload stays = elim (Option-cases request.url_pathname) [
    | inl wrong ↦ rw wrong (tt, refl)
    | inr (path, right) ↦ rw right (stays path payload)
  ]

  pub respond_open :
      (encoding : Encoding) (compression : Option Compression) (headers : Headers) (d : Dispatching)
      → IsOpen d
      → ((respond p error_text encoding compression headers d).status ≡ 200)
        × ((respond p error_text encoding compression headers d).ended ≡ true)
        × ((respond p error_text encoding compression headers d).body
            ≡ body_of encoding compression (
              map (λ e. e.0) d.emitted,
              (end_outcome d.end).0,
              (end_outcome d.end).1,
              (end_outcome d.end).2,
            ))
  unfolding respond
  respond_open encoding compression headers d (all_open, open_at_end) = (
    refl,
    open_at_end,
    rw (
      open_at_end,
      written_open encoding compression d.emitted all_open,
      end_block-outcome encoding d.end,
    ),
  )

  -- The dispatcher's answer, by how it ends.
  end-Answered :
      (request : HttpRequest) (encoding : Encoding) (dispatch : HttpDispatcher) (payload : Bytes)
      (path : Text) (end : DispatchEnd)
      → Reads request encoding payload
      → request.url_pathname ≡ some path
      → (dispatch path payload (metadata_from_request request)).end ≡ end
      → Answered request encoding dispatch (
        map (λ e. e.0) (dispatch path payload (metadata_from_request request)).emitted,
        (end_outcome end).0,
        (end_outcome end).1,
        (end_outcome end).2,
      )
  end-Answered request encoding dispatch payload path (returned status) r found ends =
      by_status payload path status r found ends
  end-Answered request encoding dispatch payload path (failed text) r found ends =
      by_throw payload path text r found ends

  -- The outcome of a dispatcher's run.
  abbrev outcome_of : Dispatching → Outcome
  outcome_of d = (
    map (λ e. e.0) d.emitted,
    (end_outcome d.end).0,
    (end_outcome d.end).1,
    (end_outcome d.end).2,
  )

  run_dispatch-path :
      (dispatch : HttpDispatcher) (request : HttpRequest) (payload : Bytes) {path : Text}
      → request.url_pathname ≡ some path
      → run_dispatch p error_text dispatch request payload true
        ≡ dispatch path payload (metadata_from_request request)
  unfolding metadata_from_request
  run_dispatch-path dispatch request payload found = rw found refl

  abbrev invalid_url : Dispatching
  invalid_url = record { emitted = []; end = failed (codes "Invalid URL"); open_at_end = true }

  run_dispatch-none :
      (dispatch : HttpDispatcher) (request : HttpRequest) (payload : Bytes)
      → request.url_pathname ≡ none
      → run_dispatch p error_text dispatch request payload true ≡ invalid_url
  run_dispatch-none dispatch request payload wrong = rw wrong refl

  run-Answered :
      (request : HttpRequest) (encoding : Encoding) (dispatch : HttpDispatcher) (payload : Bytes)
      → Reads request encoding payload
      → Answered request encoding dispatch
          (outcome_of (run_dispatch p error_text dispatch request payload true))
  run-Answered request encoding dispatch payload r = elim (Option-cases request.url_pathname) [
    | inl wrong ↦
        subst (λ d. Answered request encoding dispatch (outcome_of d))
          (sym (run_dispatch-none dispatch request payload wrong)) (no_path payload r wrong)
    | inr (path, found) ↦
        subst (λ d. Answered request encoding dispatch (outcome_of d))
          (sym (run_dispatch-path dispatch request payload found))
          (end-Answered request encoding dispatch payload path _ r found refl)
  ]

  -- A request that is answered while the connection stays open gets a reply with the HTTP status 200
  -- that is ended. Its body is messages, each encoded as one block with the negotiated encoding and
  -- compression, and behind them one block of trailers. If the body of the request reads as one
  -- message, under the compression that its headers name, and the URL has a path, these are what the
  -- dispatcher emits for them, and the status, text and metadata that it returns, or INTERNAL with
  -- the text of what it throws. Otherwise there are no messages, and the status is INTERNAL.
  pub answer-body :
      (request : HttpRequest) (encoding : Encoding) (origin : Option Text)
      (dispatch : HttpDispatcher)
      → ((path : Text) (payload : Bytes)
          → IsOpen (dispatch path payload (metadata_from_request request)))
      → (outcome : Outcome) × Answered request encoding dispatch outcome
        × ((answer p error_text request encoding origin dispatch true).status ≡ 200)
        × ((answer p error_text request encoding origin dispatch true).ended ≡ true)
        × ((answer p error_text request encoding origin dispatch true).body
            ≡ body_of
                (negotiate_response_encoding (request_header request (codes "accept")) encoding)
                (negotiated_response_compression request)
                outcome)
  unfolding answer refuse respond
  answer-body request encoding origin dispatch stays =
      elim (OneMessage-cases (request_message p error_text request encoding)) [
        | inl (e, refused) ↦
            rw (refused, answer)
              (
                ([], 13, error_text e, []),
                not_one e
                    (λ payload r. cc (refused, Reads-request_message request encoding payload r)),
                refl,
                refl,
                refl,
              )
        | inr (payload, found) ↦
            let r = request_message-Reads request encoding payload found in
            let d = run_dispatch p error_text dispatch request payload true in
            let (ok, ended, body) =
              respond_open
                (negotiate_response_encoding (request_header request (codes "accept")) encoding)
                (negotiated_response_compression request)
                (grpc_web_headers
                  (negotiate_response_encoding (request_header request (codes "accept")) encoding)
                  (negotiated_response_compression request) origin)
                d (run-IsOpen dispatch request payload stays) in
            rw (found, answer)
              (_, run-Answered request encoding dispatch payload r, ok, ended, body)
      ]

-- ===== src/Web/Call/Server.antt =====
-- The client of fetch_call.ts against the server of http_handler.ts, over raw frames.
use trpc_proto.Base.{◌≡◌, Bool, true, List, [], Option, none, some, concat, Bytes}
use trpc_proto.Base.Text.{Text, has_text, codes, lookup}
use trpc_proto.Web.ContentType.{raw, gzip}
use trpc_proto.Web.Body.{Platform}
use trpc_proto.Web.Cors.{
  HttpRequest, Headers, HeaderValue, one_value, Reply, metadata_from_request, grpc_web_headers,
}
use trpc_proto.Web.Handler.{Dispatching, HttpDispatcher, RequestError, respond, handle}
use trpc_proto.Web.Call.{FetchRequest, Response, StubRequest, fetch_request, or_no_bytes}
use trpc_proto.Web.Call.Headers.{own_names, AreHeaders, raw_options}

-- What is between `fetch` and the server: the path of an URL, the headers that come of those of a
-- request, and how a body is cut into chunks. The headers that the client sends of its own arrive;
-- others may be added, but not grpc-encoding.
pub record Network : Type 0 where
  pub pathname : Text → Option Text
  pub headers : Headers → List (Text × HeaderValue)
  pub kept :
      (sent : Headers) (name : Text) {value : Text}
      → AreHeaders sent
      → has_text own_names name ≡ true
      → lookup name sent ≡ some value
      → lookup name (headers sent) ≡ some (one_value value)
  pub not_encoded :
      (sent : Headers)
      → AreHeaders sent
      → lookup (codes "grpc-encoding") sent ≡ none
      → lookup (codes "grpc-encoding") (headers sent) ≡ none
  pub cut : Bytes → List Bytes
  pub whole : (body : Bytes) → concat (cut body) ≡ body

module _ (p : Platform) (error_text : RequestError → Text) (network : Network)
    (dispatch : HttpDispatcher) where
  -- The request as the server gets it.
  abbrev pub http_request : FetchRequest → HttpRequest
  http_request request = record {
    method = codes "POST";
    headers = network.headers request.headers;
    url_pathname = network.pathname request.url;
    body = network.cut request.body;
  }

  abbrev response : Reply → Response
  response reply = record {
    status = reply.status;
    status_text = [];
    headers = reply.headers;
    body = some (network.cut (concat reply.body));
  }

  abbrev pub response_of : Option Reply → Option Response
  response_of none = none
  response_of (some reply) = some (response reply)

  -- `fetch`, with the server behind it: there is no CORS policy, and the connection stays open.
  abbrev pub fetch_from_server : FetchRequest → Option Response
  fetch_from_server request =
      response_of (handle p error_text (http_request request) none dispatch true)

  -- The reply of a call that is dispatched.
  abbrev served : Dispatching → Reply
  served d = respond p error_text raw (some gzip) (grpc_web_headers raw (some gzip) none) d

  module _ (base_url : Text) (compress : Bool) (request : StubRequest) where
    abbrev fetched : FetchRequest
    fetched = fetch_request p (raw_options base_url compress) request

    abbrev pub server_request : HttpRequest
    server_request = http_request fetched

    -- The message of the call.
    abbrev pub payload_of : Bytes
    payload_of = or_no_bytes request.bytes

    -- What the dispatcher does for the call.
    abbrev pub delivered : Text → Dispatching
    delivered path = dispatch path payload_of (metadata_from_request server_request)

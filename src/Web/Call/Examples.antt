-- ===== src/Web/Call/Examples.antt =====
-- Calls over a network that delivers bytes one by one.
use trpc_proto.Base.{◌≡◌, refl, ap, true, [], ◌∷◌, map, none, some, concat, Bytes}
use trpc_proto.Base.Text.{Text, codes}
use trpc_proto.Batch.Dispatch.{DispatchStatus}
use trpc_proto.Schema.Types.{query}
use trpc_proto.Web.Handler.{returned, HttpDispatcher, RequestError}
use trpc_proto.Web.Call.{StubRequest}
use trpc_proto.Web.Call.Headers.{values_of, lookup-values_of, lookup-values_of-none}
use trpc_proto.Web.Call.Server.{Network}

concat-single : (body : Bytes) → concat (map (λ b. b ∷ []) body) ≡ body
concat-single [] = refl
concat-single (b ∷ body) = ap (◌∷◌ b) (concat-single body)

abbrev slow : Network
slow = record {
  pathname = some;
  headers = values_of;
  kept = λ sent name h own found. lookup-values_of name sent found;
  not_encoded = λ sent h missing. lookup-values_of-none (codes "grpc-encoding") sent missing;
  cut = λ body. map (λ b. b ∷ []) body;
  whole = concat-single;
}

abbrev error_text : RequestError → Text
error_text e = codes "Bad request"

abbrev status : DispatchStatus
status = record { code = 0; message = []; metadata = none }

abbrev dispatch : HttpDispatcher
dispatch path message metadata = record {
  emitted = ((9 ∷ message), true) ∷ [];
  end = returned status;
  open_at_end = true;
}

abbrev request : StubRequest
request = record {
  type = query;
  grpc_path = codes "/a.B/c";
  bytes = some (7 ∷ 8 ∷ []);
  metadata = (codes "authorization", codes "Bearer t") ∷ [];
}

-- ===== src/Upstream/Client.antt =====
-- src/upstream.rs: `UpstreamError` and `UpstreamClient`. Building the client and sending a request are
-- parameters.
use patchbay.Common.{
  ℕ, Bool, true, ◌&&◌, ◌||◌, Option, none, some, ◌++◌, Result, ok, err, take, ltb, leb, ◌==◌,
  if◌then◌else◌,
}
use patchbay.Common.Texts.{Text}
use patchbay.Config.{Backend, expose}
use patchbay.Upstream.{Bytes}

pub data UpstreamError : Type 0 where
  http : Text → UpstreamError
  bad_status : Text → ℕ → Text → UpstreamError

unfoldable pub is_retryable : UpstreamError → Bool
is_retryable (http e) = true
is_retryable (bad_status backend status body) = status == 429 || leb 500 status

unfoldable pub upstream_status : UpstreamError → Option ℕ
upstream_status (http e) = none
upstream_status (bad_status backend status body) = some status

-- `UpstreamClient::new`: building the client, with the seconds that connecting may take, is the
-- parameter.
unfoldable pub new_client : (ℕ → Result Text (Unit {0})) → Result UpstreamError (Unit {0})
new_client build = elim (build 10) [ ok client ↦ ok client | err e ↦ err (http e) ]

-- The request that `open_sse` builds; its content type and accepted type are constants.
pub record HttpRequest : Type 0 where
  pub url : Text
  pub bearer : Option Text
  pub body : Bytes

-- A response: its head, and what reading its body as text (empty on an error) or as bytes gives.
pub record HttpResponse : Type 0 where
  pub status : ℕ
  pub content_type : Option Text
  pub text : Text
  pub bytes : Result Text Bytes

unfoldable pub upstream_request : Backend → Text → Bytes → HttpRequest
upstream_request b path body = record {
  url = b.base_url ++ path;
  bearer = elim b.api_key [ none ↦ none | some key ↦ some (expose key) ];
  body = body;
}

-- `StatusCode::is_success`
abbrev is_success : ℕ → Bool
is_success status = leb 200 status && ltb status 300

answered : Backend → Result Text HttpResponse → Result UpstreamError HttpResponse
answered b (err e) = err (http e)
answered b (ok resp) =
    if is_success resp.status
    then ok resp
    else err (bad_status b.name resp.status (take 2048 resp.text))

unfoldable pub open_sse :
    (HttpRequest → Result Text HttpResponse)
    → Backend
    → Text
    → Bytes
    → Result UpstreamError HttpResponse
unfolding answered
open_sse send b path body = answered b (send (upstream_request b path body))

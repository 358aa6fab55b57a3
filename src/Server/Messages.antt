-- ===== src/Server/Messages.antt =====
-- src/server.rs, src/auth.rs: the bodies of error responses, before they are written as JSON. `debug` is
-- the `{:?}` of a vector of strings.
use patchbay.Common.{ℕ, ◌≡◌, refl, Option, none, some, List, ◌++◌, err, arith}
use patchbay.Common.Texts.{Text, codes}
use patchbay.Metrics.{decimal}
use patchbay.Limits.{LimitExceeded, Governor, check_rpm}
use patchbay.Limits.Display.{limit_text, read_limit, Fits, read_limit-limit_text}
use patchbay.Router.{RouteError}
use patchbay.Auth.{AuthError, KeyIdentity}
use patchbay.Upstream.{Bytes}
use patchbay.Upstream.Client.{UpstreamError}
use patchbay.Server.{Cause, Response, World, AppState}
use patchbay.Server.Handler.{chat_completions}
use patchbay.Server.Routes.{Reply}

-- `code` is the number of the status, or a text.
pub data Code : Type 0 where
  status_number : ℕ → Code
  code_name : Text → Code

pub record ErrorBody : Type 0 where
  pub status : ℕ
  pub message : Text
  pub type : Text
  pub code : Code

-- `AuthError::into_response`
abbrev pub unauthorized_body : AuthError → ErrorBody
unauthorized_body e = record {
  status = 401;
  message = e.message;
  type = codes "invalid_request_error";
  code = code_name (codes "invalid_api_key");
}

-- `error_response`
abbrev pub error_response : ℕ → Text → Text → ErrorBody
error_response status err_type message = record {
  status = status;
  message = message;
  type = err_type;
  code = status_number status;
}

-- The text of an `UpstreamError`
abbrev pub upstream_text : UpstreamError → Text
upstream_text (UpstreamError.http e) = codes "http client error: " ++ e
upstream_text (UpstreamError.bad_status backend status body) =
    codes "upstream `"
    ++ (backend ++ (codes "` returned " ++ (decimal status ++ (codes ": " ++ body))))

module _ (debug : List Text → Text) where
  -- The text of a `RouteError`
  abbrev pub route_text : RouteError → Text
  route_text (RouteError.no_eligible_backend model required_tags privacy) =
      codes "no eligible backend for model `"
      ++ (model
          ++ (codes "` ("
              ++ (privacy
                  ++ (codes " request, required tags " ++ (debug required_tags ++ codes ")")))))

  -- The message that the handler gives for a cause.
  abbrev pub message_of : Cause → Text
  message_of (Cause.limited e) = limit_text e
  message_of Cause.model_required = codes "field `model` is required"
  message_of Cause.unreachable = codes "upstream unreachable"
  message_of (Cause.unroutable e) = route_text e
  message_of (Cause.failed e) = upstream_text e
  message_of (Cause.unread e) = e

  -- The error body of a response, when it is an error.
  abbrev pub error_of : Response → Option ErrorBody
  error_of (Response.error status err_type cause) =
      some (error_response status err_type (message_of cause))
  error_of (Response.streaming type relay) = none
  error_of (Response.buffered status type body) = none

  -- The error body of a reply, when it is an error.
  abbrev pub error_of_reply : Reply → Option ErrorBody
  error_of_reply (Reply.unauthorized e) = some (unauthorized_body e)
  error_of_reply (Reply.completion r) = error_of r
  error_of_reply _ = none

  -- A body that tells of a rejection: a client reads it back from the message.
  pub record Tells (body : Option ErrorBody) (e : LimitExceeded) : Type 0 where
    pub told : ErrorBody
    pub sent : body ≡ some told
    pub status : told.status ≡ 429
    pub code : told.code ≡ status_number 429
    pub type : told.type ≡ codes "rate_limit_exceeded"
    pub message : read_limit told.message ≡ some e

  module _ (g : Governor) (w : World) where
    -- A request that the limit of its key rejects, with numbers below 10^20 as those of the source are,
    -- is answered by an error with the status 429, in the response and in the body, and a message from
    -- which the rejection is read back: the kind of the limit, and its numbers.
    pub chat_completions-Tells :
        (now : ℕ) (identity : KeyIdentity) (body : Bytes) (s : AppState g) (e : LimitExceeded)
        → (check_rpm g s.limits identity.name now).1 ≡ err e
        → Fits e
        → Tells (error_of (chat_completions g w now identity body s).1) e
    unfolding chat_completions
    chat_completions-Tells now identity body s e rejected small = record {
      told = error_response 429 (codes "rate_limit_exceeded") (limit_text e);
      sent = ground arith;
      status = refl;
      code = refl;
      type = refl;
      message = read_limit-limit_text e small;
    }

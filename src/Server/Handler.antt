-- ===== src/Server/Handler.antt =====
-- src/server.rs: `chat_completions`, the loop over its attempts, and `buffered_response`.
use patchbay.Common.{
  ℕ, zero, suc, ◌+◌, true, false, ◌&&◌, Option, none, some, List, [], ◌∷◌, ok, err, ltb, leb,
  if◌then◌else◌, is_empty,
}
use patchbay.Common.Texts.{Text, codes}
use patchbay.Config.{Backend}
use patchbay.Router.{query_for, route}
use patchbay.Auth.{KeyIdentity}
use patchbay.Upstream.{Bytes}
use patchbay.Upstream.Relay.{new_relay}
use patchbay.Upstream.Client.{
  UpstreamError, is_retryable, upstream_status, HttpResponse, upstream_request, open_sse,
}
use patchbay.Limits.{Governor, check_rpm}
use patchbay.Metrics.{record_request, record_upstream_error, record_rate_limit_rejection}
use patchbay.Server.{
  max_retries, stall_timeout_ms, backoff_ms, jitter, CompletionRequest, Cause, Response, Attempt,
  completions_path, World, AppState, account_usage,
}

-- `unwrap_or_default`
abbrev pub request_or_default : Option CompletionRequest → CompletionRequest
request_or_default none = record { model = []; stream = false }
request_or_default (some r) = r

abbrev json_type : Text
json_type = codes "application/json"

unfoldable pub content_type_or : Text → Option Text → Text
content_type_or default none = default
content_type_or default (some t) = t

-- `StatusCode::from_u16`, and 502 when that fails or there is no status
abbrev pub status_or_bad_gateway : Option ℕ → ℕ
status_or_bad_gateway none = 502
status_or_bad_gateway (some s) = if leb 100 s && ltb s 1000 then s else 502

last_cause : Option UpstreamError → Cause
last_cause none = Cause.unreachable
last_cause (some e) = Cause.failed e

module _ (g : Governor) (w : World) where
  unfoldable pub buffered_response :
      ℕ → Text → Text → HttpResponse → AppState g → AppState g × Response
  unfolding content_type_or
  buffered_response now key backend resp s = elim resp.bytes [
    | err e ↦ (
      record s { metrics = record_upstream_error s.metrics backend },
      Response.error 502 (codes "upstream_error") (Cause.unread e),
    )
    | ok body ↦ (
      account_usage g now key (w.usage_of_body body) s,
      Response.buffered resp.status (content_type_or json_type resp.content_type) body,
    )
  ]

  -- What the handler does with a response of the backend.
  unfoldable pub relay_response :
      ℕ
      → KeyIdentity
      → CompletionRequest
      → Backend
      → HttpResponse
      → AppState g
      → AppState g × Response
  unfolding content_type_or
  relay_response now identity req backend resp s =
      let s' : AppState g = record s {
        metrics = record_request s.metrics backend.name req.model (codes "2xx");
      } in
      if req.stream
      then (
        s',
        Response.streaming (content_type_or (codes "text/event-stream") resp.content_type)
            (new_relay now stall_timeout_ms),
      )
      else buffered_response now identity.name backend.name resp s'

  -- The wait before an attempt.
  unfoldable pub wait_before : ℕ → ℕ
  wait_before zero = 0
  wait_before (suc n) = jitter (backoff_ms n) (w.noise (suc n))

  -- The loop over the attempts, of which `left` are left.
  unfoldable pub forward :
      ℕ
      → KeyIdentity
      → CompletionRequest
      → Backend
      → Bytes
      → (left : ℕ) → (attempt : ℕ) → Option UpstreamError
      → AppState g
      → AppState g × Response × List Attempt
  unfolding last_cause
  forward now identity req backend body zero attempt last_err s = (
    record s { metrics = record_request s.metrics backend.name req.model (codes "5xx") },
    Response.error 502 (codes "upstream_error") (last_cause last_err),
    [],
  )
  forward now identity req backend body (suc left) attempt last_err s =
      let here : Attempt = record {
        wait_ms = wait_before attempt;
        backend = backend;
        request = upstream_request backend completions_path body;
      } in
      elim (open_sse (w.send attempt) backend completions_path body) [
        | ok resp ↦
            let (s', response) = relay_response now identity req backend resp s in
            (s', response, here ∷ [])
        | err e ↦
            let s' : AppState g = record s {
              metrics = record_upstream_error s.metrics backend.name;
            } in
            elim (is_retryable e) [
              | false ↦ (
                s',
                Response.error (status_or_bad_gateway (upstream_status e)) (codes "upstream_error")
                    (Cause.failed e),
                here ∷ [],
              )
              | true ↦
                  let (last, response, attempts) =
                    forward now identity req backend body left (attempt + 1) (some e) s' in
                  (last, response, here ∷ attempts)
            ]
      ]

  -- `chat_completions`, at the time `now` in milliseconds: the state, the response, and the requests sent.
  unfoldable pub chat_completions :
      ℕ → KeyIdentity → Bytes → AppState g → AppState g × Response × List Attempt
  chat_completions now identity body s =
      let (limits, admitted) = check_rpm g s.limits identity.name now in
      let s' : AppState g = record s { limits = limits } in
      let req = request_or_default (w.parse_request body) in
      elim admitted [
        | err e ↦ (
          record s' { metrics = record_rate_limit_rejection s'.metrics identity.name },
          Response.error 429 (codes "rate_limit_exceeded") (Cause.limited e),
          [],
        )
        | ok _ ↦ elim (is_empty req.model) [
          | true ↦ (s', Response.error 400 (codes "invalid_request_error") Cause.model_required, [])
          | false ↦ elim (route s'.router (query_for req.model) identity.enforce_private) [
            | err e ↦
                (s', Response.error 502 (codes "no_eligible_backend") (Cause.unroutable e), [])
            | ok backend ↦ forward now identity req backend body (max_retries + 1) 0 none s'
          ]
        ]
      ]

-- ===== src/Server/Tasks.antt =====
-- src/server.rs: requests that are served at the same time. A handler runs without interruption from
-- one `await` to the next, here; in the source several threads may run such segments at the same time.
-- A task is where a handler stands, and a step resumes one of them.
pub mod Proceed
pub mod Alone
pub mod Cases
pub mod Routed
pub mod Exported
pub mod Counted
pub mod Relayed
pub mod Faithful
pub mod Tracked
pub mod Billing
pub mod Ledger
pub mod Billed
use patchbay.Common.{
  ℕ, suc, ◌+◌, ◌==◌, ◌≡◌, Bool, true, false, Option, none, some, List, [], ◌∷◌, ◌++◌, Result, ok,
  err, get_elem?, set_at, is_empty, if◌then◌else◌,
}
use patchbay.Common.Texts.{Text, codes}
use patchbay.Config.{Backend}
use patchbay.Router.{query_for, route}
use patchbay.Auth.{KeyIdentity}
use patchbay.Upstream.{Bytes, Usage}
use patchbay.Upstream.Relay.{UpstreamPoll, RelayPoll, SseRelay, new_relay, drop_relay, poll_next}
use patchbay.Upstream.Client.{UpstreamError, is_retryable, upstream_status, HttpResponse}
use patchbay.Limits.{Governor, check_rpm}
use patchbay.Metrics.{record_request, record_upstream_error, record_rate_limit_rejection}
use patchbay.Server.{
  max_retries, stall_timeout_ms, CompletionRequest, Cause, Response, World, AppState,
  account_stream,
}
use patchbay.Server.Handler.{
  request_or_default, content_type_or, status_or_bad_gateway, buffered_response,
}

-- A stream that a client has: `got` are the chunks that it was given, `waiting` says whether the
-- spawned task still waits for the summary, and `dropped` whether the client has let go.
pub record Stream : Type 0 where
  pub key : Text
  pub backend : Text
  pub content_type : Text
  pub relay : SseRelay
  pub got : List Bytes
  pub waiting : Bool
  pub dropped : Bool

-- A request waits for the answer to an attempt of the given number, or for the body of a response; or
-- it has been answered, by a stream that may still run or otherwise. `answered` has the key's name.
pub data Task : Type 0 where
  forwarding : KeyIdentity → CompletionRequest → Backend → Bytes → ℕ → Task
  reading : Text → Text → HttpResponse → Task
  streaming : Stream → Task
  answered : Text → Response → Task

delivered : List Bytes → RelayPoll → List Bytes
delivered got (RelayPoll.chunk c) = got ++ (c ∷ [])
delivered got _ = got

module _ (g : Governor) (w : World) where
  -- `chat_completions` up to its first `await`
  unfoldable pub begin : ℕ → KeyIdentity → Bytes → AppState g → AppState g × Task
  begin now identity body s =
      let (limits, admitted) = check_rpm g s.limits identity.name now in
      let s' : AppState g = record s { limits = limits } in
      let req = request_or_default (w.parse_request body) in
      elim admitted [
        | err e ↦ (
          record s' { metrics = record_rate_limit_rejection s'.metrics identity.name },
          answered identity.name
              (Response.error 429 (codes "rate_limit_exceeded") (Cause.limited e)),
        )
        | ok _ ↦ elim (is_empty req.model) [
          | true ↦ (
            s',
            answered identity.name
                (Response.error 400 (codes "invalid_request_error") Cause.model_required),
          )
          | false ↦ elim (route s'.router (query_for req.model) identity.enforce_private) [
            | err e ↦ (
              s',
              answered identity.name
                  (Response.error 502 (codes "no_eligible_backend") (Cause.unroutable e)),
            )
            | ok backend ↦ (s', forwarding identity req backend body 0)
          ]
        ]
      ]

  -- The loop over the attempts, from the answer to one up to the next `await`.
  unfoldable pub on_answer :
      ℕ
      → Result UpstreamError HttpResponse
      → KeyIdentity
      → CompletionRequest
      → Backend
      → Bytes
      → ℕ
      → AppState g
      → AppState g × Task
  unfolding content_type_or
  on_answer now (ok resp) identity req backend body attempt s =
      let s' : AppState g = record s {
        metrics = record_request s.metrics backend.name req.model (codes "2xx");
      } in
      if req.stream
      then (
        s',
        streaming (record {
          key = identity.name;
          backend = backend.name;
          content_type = content_type_or (codes "text/event-stream") resp.content_type;
          relay = new_relay now stall_timeout_ms;
          got = [];
          waiting = true;
          dropped = false;
        }),
      )
      else (s', reading identity.name backend.name resp)
  on_answer now (err e) identity req backend body attempt s =
      let s' : AppState g = record s { metrics = record_upstream_error s.metrics backend.name } in
      elim (is_retryable e) [
        | false ↦ (
          s',
          answered identity.name (
              Response.error (status_or_bad_gateway (upstream_status e)) (codes "upstream_error")
                (Cause.failed e)),
        )
        | true ↦
            if attempt == max_retries
            then (
              record s' {
                metrics = record_request s'.metrics backend.name req.model (codes "5xx");
              },
              answered identity.name (Response.error 502 (codes "upstream_error") (Cause.failed e)),
            )
            else (s', forwarding identity req backend body (attempt + 1))
      ]

  -- `buffered_response`, once the body has been read
  abbrev pub on_body : ℕ → Text → Text → HttpResponse → AppState g → AppState g × Task
  on_body now key backend resp s =
      let (s', response) = buffered_response g w now key backend resp s in
      (s', answered key response)

  -- The state that the tasks share, and the tasks in the order of their requests.
  pub record Gateway : Type 0 where
    pub state : AppState g
    pub tasks : List Task

  module _ (parse_envelope : Bytes → Option (Option Usage)) (fired : ℕ → ℕ → Bool) where
    -- The client polls its stream.
    unfoldable pub on_poll : ℕ → UpstreamPoll → Stream → Stream
    unfolding delivered
    on_poll now answer st =
        let (relay, out) = poll_next parse_envelope fired now answer st.relay in
        record st { relay = relay; got = delivered st.got out }

    abbrev pub on_drop : Stream → Stream
    on_drop st = record st { relay = drop_relay st.relay; dropped = true }

    -- The spawned task gets the summary.
    abbrev pub on_summary : Stream → Stream
    on_summary st = record st { waiting = false }

    abbrev pub moved : Gateway → ℕ → AppState g × Task → Gateway
    moved s i (state, t) = record { state = state; tasks = set_at s.tasks i t }

    -- The clients, the backends and the scheduler choose the step, its time and the answers.
    pub data Step (s : Gateway) : Gateway → Type 0 where
      arrive :
          (now : ℕ) (identity : KeyIdentity) (body : Bytes)
          → Step s (record {
            state = (begin now identity body s.state).0;
            tasks = s.tasks ++ ((begin now identity body s.state).1 ∷ []);
          })
      answer :
          (now i : ℕ) (result : Result UpstreamError HttpResponse) (identity : KeyIdentity)
          (req : CompletionRequest) (b : Backend) (body : Bytes) (attempt : ℕ)
          → get_elem? s.tasks i ≡ some (forwarding identity req b body attempt)
          → Step s (moved s i (on_answer now result identity req b body attempt s.state))
      read :
          (now i : ℕ) (key backend : Text) (resp : HttpResponse)
          → get_elem? s.tasks i ≡ some (reading key backend resp)
          → Step s (moved s i (on_body now key backend resp s.state))
      poll :
          (now i : ℕ) (up : UpstreamPoll) (st : Stream)
          → get_elem? s.tasks i ≡ some (streaming st)
          → st.dropped ≡ false
          → Step s (moved s i (s.state, streaming (on_poll now up st)))
      drop :
          (i : ℕ) (st : Stream)
          → get_elem? s.tasks i ≡ some (streaming st)
          → st.dropped ≡ false
          → Step s (moved s i (s.state, streaming (on_drop st)))
      summarised :
          (now i : ℕ) (st : Stream)
          → get_elem? s.tasks i ≡ some (streaming st)
          → st.waiting ≡ true
          → is_empty st.relay.sent ≡ false
          → Step s (
              moved s i (
                account_stream g now st.key st.backend st.relay.sent s.state,
                streaming (on_summary st),
              ))

    pub data Reach (s : AppState g) : Gateway → Type 0 where
      start : Reach s (record { state = s; tasks = [] })
      later : {t u : Gateway} → Reach s t → Step t u → Reach s u

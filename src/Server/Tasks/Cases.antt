-- ===== src/Server/Tasks/Cases.antt =====
-- src/server.rs: what each step of a task leaves of the state, and what the task becomes.
use patchbay.Common.{
  ℕ, ◌+◌, ◌==◌, ◌≡◌, ◌≢◌, refl, inl, inr, ◌⊎◌, true, false, Option, none, some, List, [], ◌∷◌,
  arith, Result, ok, err, Result-cases, Bool-cases, is_empty,
}
use patchbay.Common.Texts.{Text, codes}
use patchbay.Config.{Backend}
use patchbay.Router.{query_for, route}
use patchbay.Auth.{KeyIdentity}
use patchbay.Upstream.{Bytes, Usage, RelaySummary}
use patchbay.Upstream.Relay.{new_relay}
use patchbay.Upstream.Client.{UpstreamError, is_retryable, upstream_status, HttpResponse}
use patchbay.Limits.{Governor, check_rpm}
use patchbay.Server.{
  max_retries, stall_timeout_ms, CompletionRequest, Cause, Response, World, AppState, account_usage,
  account_outcome, account_stream,
}
use patchbay.Server.Handler.{
  request_or_default, buffered_response, status_or_bad_gateway, content_type_or,
}
use patchbay.Server.Tasks.{Stream, Task, forwarding, reading, streaming, answered, begin, on_answer}

-- The router and the keys are as before.
pub record Fixed {g : Governor} (t t' : AppState g) : Type 0 where
  pub router : t'.router ≡ t.router
  pub keys : t'.keys ≡ t.keys

abbrev pub IsError : Text → Task → Type 0
IsError key t =
    (status : ℕ) × (type : Text) × (cause : Cause) × (t
      ≡ answered key (Response.error status type cause))

module _ (g : Governor) (w : World) (now : ℕ) where
  module _ (identity : KeyIdentity) (body : Bytes) (t : AppState g) where
    abbrev pub asks : CompletionRequest
    asks = request_or_default (w.parse_request body)

    abbrev begun : AppState g × Task
    begun = begin g w now identity body t

    pub begin-Fixed : Fixed t begun.0 × (begun.0.budget ≡ t.budget)
    unfolding begin
    begin-Fixed = elim (Result-cases (check_rpm g t.limits identity.name now).1) [
      | inr (e, limited) ↦ (record { router = ground arith; keys = ground arith }, ground arith)
      | inl (_, admitted) ↦ (record { router = ground arith; keys = ground arith }, ground arith)
    ]

    pub begin-cases :
        IsError identity.name begun.1
        ⊎ ((b : Backend) × (route t.router (query_for asks.model) identity.enforce_private ≡ ok b)
            × (begun.1 ≡ forwarding identity asks b body 0))
    unfolding begin
    begin-cases = elim (Result-cases (check_rpm g t.limits identity.name now).1) [
      | inr (e, limited) ↦ inl (429, codes "rate_limit_exceeded", Cause.limited e, ground arith)
      | inl (_, admitted) ↦ elim (Bool-cases (is_empty asks.model)) [
        | inl missing ↦ inl (400, codes "invalid_request_error", Cause.model_required, ground arith)
        | inr given ↦
            elim (Result-cases (route t.router (query_for asks.model) identity.enforce_private)) [
              | inr (e, unroutable) ↦
                  inl (502, codes "no_eligible_backend", Cause.unroutable e, ground arith)
              | inl (b, routed) ↦ inr (b, routed, ground arith)
            ]
      ]
    ]

  -- A stream that has just been handed out: its relay is new, and nothing has happened to it.
  pub record IsFresh (key : Text) (st : Stream) : Type 0 where
    pub owner : st.key ≡ key
    pub relay : st.relay ≡ new_relay now stall_timeout_ms
    pub got : st.got ≡ []
    pub waiting : st.waiting ≡ true
    pub dropped : st.dropped ≡ false

  module _ (result : Result UpstreamError HttpResponse) (identity : KeyIdentity)
      (req : CompletionRequest) (b : Backend) (body : Bytes) (attempt : ℕ) (t : AppState g) where
    abbrev after_answer : AppState g × Task
    after_answer = on_answer g w now result identity req b body attempt t

    pub on_answer-Fixed : Fixed t after_answer.0 × (after_answer.0.budget ≡ t.budget)
    unfolding on_answer
    on_answer-Fixed = (record { router = ground arith; keys = ground arith }, ground arith)

  pub on_answer-cases :
      (result : Result UpstreamError HttpResponse) (identity : KeyIdentity)
      (req : CompletionRequest) (b : Backend) (body : Bytes) (attempt : ℕ) (t : AppState g)
      → IsError identity.name (on_answer g w now result identity req b body attempt t).1
        ⊎ (((on_answer g w now result identity req b body attempt t).1
              ≡ forwarding identity req b body (attempt + 1))
            × (attempt ≢ max_retries))
        ⊎ ((resp : HttpResponse) × ((on_answer g w now result identity req b body attempt t).1
              ≡ reading identity.name b.name resp))
        ⊎ ((st : Stream) × ((on_answer g w now result identity req b body attempt t).1
              ≡ streaming st)
            × IsFresh identity.name st)
  unfolding on_answer
  on_answer-cases (err e) identity req b body attempt t = elim (Bool-cases (is_retryable e)) [
    | inr final ↦ inl (
      status_or_bad_gateway (upstream_status e),
      codes "upstream_error",
      Cause.failed e,
      ground arith,
    )
    | inl again ↦ elim (Bool-cases (attempt == max_retries)) [
      | inl last ↦ inl (502, codes "upstream_error", Cause.failed e, ground arith)
      | inr more ↦ inr (inl (ground arith, ground arith))
    ]
  ]
  on_answer-cases (ok resp) identity req b body attempt t = elim (Bool-cases req.stream) [
    | inl streams ↦
        let st : Stream = record {
          key = identity.name;
          backend = b.name;
          content_type = content_type_or (codes "text/event-stream") resp.content_type;
          relay = new_relay now stall_timeout_ms;
          got = [];
          waiting = true;
          dropped = false;
        } in
        inr (
          inr (
            inr (
              st,
              ground arith,
              record { owner = refl; relay = refl; got = refl; waiting = refl; dropped = refl },
            )))
    | inr whole ↦ inr (inr (inl (resp, ground arith)))
  ]

module _ (g : Governor) where
  pub account_usage-Fixed :
      (now : ℕ) (key : Text) (u : Option Usage) (t : AppState g)
      → Fixed t (account_usage g now key u t)
  unfolding account_usage
  account_usage-Fixed now key none t = record { router = refl; keys = refl }
  account_usage-Fixed now key (some u) t = record { router = refl; keys = refl }

  pub account_stream-Fixed :
      (now : ℕ) (key backend : Text) (sent : List RelaySummary) (t : AppState g)
      → Fixed t (account_stream g now key backend sent t)
  unfolding account_stream account_outcome account_usage
  account_stream-Fixed now key backend [] t = record { router = refl; keys = refl }
  account_stream-Fixed now key backend (summary ∷ later) t = record {
    router = ground arith;
    keys = ground arith;
  }

  pub buffered_response-Fixed :
      (w : World) (now : ℕ) (key backend : Text) (resp : HttpResponse) (t : AppState g)
      → Fixed t (buffered_response g w now key backend resp t).0
  unfolding buffered_response account_usage
  buffered_response-Fixed w now key backend resp t = record {
    router = ground arith;
    keys = ground arith;
  }

-- ===== src/Server/Handled.antt =====
-- src/server.rs: what `chat_completions` does with a request, on every path.
use patchbay.Common.{
  ℕ, zero, suc, ◌+◌, ◌<◌, ◌≡◌, refl, ap, sym, ◌∙◌, inl, inr, true, false, Option, none, some, List,
  [], ◌∷◌, arith, Result, ok, err, Result-cases, Bool-cases, is_empty,
}
use mathlib.Core.Path.{subst}
use patchbay.Common.Texts.{codes}
use patchbay.Config.{Backend}
use patchbay.Router.{RouteError, query_for, route}
use patchbay.Auth.{KeyIdentity}
use patchbay.Upstream.{Bytes}
use patchbay.Upstream.Client.{UpstreamError, is_retryable, upstream_status, HttpResponse}
use patchbay.Limits.{Governor, LimitExceeded, check_rpm}
use patchbay.Metrics.{record_request, record_upstream_error, record_rate_limit_rejection}
use patchbay.Server.{CompletionRequest, Response, Attempt, Cause, World, AppState}
use patchbay.Server.Handler.{
  status_or_bad_gateway, relay_response, forward, chat_completions, request_or_default,
}
use patchbay.Server.Retries.{asked, attempt_at, forward-ok, forward-refused, forward-retry}
use patchbay.Server.Outcomes.{after_failures, AllRetryable}

module _ (g : Governor) (w : World) (now : ℕ) (identity : KeyIdentity) (req : CompletionRequest)
    (b : Backend) (body : Bytes) where
  -- The attempts of the given number, from `first` on.
  pub tried : ℕ → ℕ → List Attempt
  tried zero first = []
  tried (suc n) first = attempt_at g w now identity req b body first ∷ tried n (first + 1)

  -- What a loop with `left` attempts, from `first` on, may come to: the first answer that is no
  -- retryable error decides, and without one the last error does.
  pub data IsOutcome (left first : ℕ) (s : AppState g)
      : AppState g × Response × List Attempt → Type 0 where
    relayed :
        (k : ℕ) (resp : HttpResponse)
        → k < left
        → AllRetryable g w now identity req b body k first
        → asked g w now identity req b body (first + k) ≡ ok resp
        → IsOutcome left first s (
          (relay_response g w now identity req b resp (after_failures k b s)).0,
          (relay_response g w now identity req b resp (after_failures k b s)).1,
          tried (suc k) first,
        )
    refused :
        (k : ℕ) (e : UpstreamError)
        → k < left
        → AllRetryable g w now identity req b body k first
        → asked g w now identity req b body (first + k) ≡ err e
        → is_retryable e ≡ false
        → IsOutcome left first s (
          after_failures (suc k) b s,
          Response.error
              (status_or_bad_gateway (upstream_status e))
              (codes "upstream_error")
              (Cause.failed e),
          tried (suc k) first,
        )
    exhausted :
        (k : ℕ) (e : UpstreamError)
        → left ≡ suc k
        → AllRetryable g w now identity req b body left first
        → asked g w now identity req b body (first + k) ≡ err e
        → IsOutcome left first s (
          record (after_failures left b s) {
            metrics =
                record_request (after_failures left b s).metrics b.name req.model (codes "5xx");
          },
          Response.error 502 (codes "upstream_error") (Cause.failed e),
          tried left first,
        )

  IsOutcome-retry :
      (left first : ℕ) (s : AppState g) (e : UpstreamError)
      {r : AppState g × Response × List Attempt}
      → asked g w now identity req b body first ≡ err e
      → is_retryable e ≡ true
      → IsOutcome left (first + 1) (record s { metrics = record_upstream_error s.metrics b.name }) r
      → IsOutcome (suc left) first s (r.0, r.1, attempt_at g w now identity req b body first ∷ r.2)
  unfolding tried
  IsOutcome-retry left first s e answer again (relayed k resp few before got) =
      relayed (suc k) resp (omega arith) ((e, answer, again), before)
        (ap (asked g w now identity req b body)
            (let z : first + suc k ≡ first + 1 + k = omega arith in z)
          ∙ got)
  IsOutcome-retry left first s e answer again (refused k e' few before got final) =
      refused (suc k) e' (omega arith) ((e, answer, again), before)
        (ap (asked g w now identity req b body)
            (let z : first + suc k ≡ first + 1 + k = omega arith in z)
          ∙ got)
        final
  IsOutcome-retry left first s e answer again (exhausted k e' all before got) =
      exhausted (suc k) e' (omega arith) ((e, answer, again), before)
        (ap (asked g w now identity req b body)
            (let z : first + suc k ≡ first + 1 + k = omega arith in z)
          ∙ got)

  abbrev noted : AppState g → AppState g
  noted s = record s { metrics = record_upstream_error s.metrics b.name }

  abbrev attempts_from :
      ℕ → ℕ → Option UpstreamError → AppState g → AppState g × Response × List Attempt
  attempts_from left first last s = forward g w now identity req b body left first last s

  -- One round, given what comes of the rounds behind it.
  forward-round :
      (left first : ℕ) (last : Option UpstreamError) (s : AppState g)
      → ((e : UpstreamError)
          → asked g w now identity req b body first ≡ err e
          → is_retryable e ≡ true
          → IsOutcome (suc left) first s (
            (attempts_from left (first + 1) (some e) (noted s)).0,
            (attempts_from left (first + 1) (some e) (noted s)).1,
            attempt_at g w now identity req b body first
                ∷ (attempts_from left (first + 1) (some e) (noted s)).2,
          ))
      → IsOutcome (suc left) first s (attempts_from (suc left) first last s)
  unfolding tried
  forward-round left first last s again =
      let place : first ≡ first + 0 = omega arith in
      elim (Result-cases (asked g w now identity req b body first)) [
        | inl (resp, e) ↦ rw (forward-ok g w now identity req b body left first last s resp e) (
            relayed 0 resp (omega arith) tt
              (ap (asked g w now identity req b body) (sym place) ∙ e))
        | inr (e, answer) ↦ elim (Bool-cases (is_retryable e)) [
          | inr final ↦
              rw (forward-refused g w now identity req b body left first last s e answer final) (
                refused 0 e (omega arith) tt
                  (ap (asked g w now identity req b body) (sym place) ∙ answer) final)
          | inl retryable ↦
              rw (forward-retry g w now identity req b body left first last s e answer retryable)
                (again e answer retryable)
        ]
      ]

  forward-IsOutcome :
      (left first : ℕ) (last : Option UpstreamError) (s : AppState g)
      → IsOutcome (suc left) first s (attempts_from (suc left) first last s)
  unfolding tried forward
  forward-IsOutcome zero first last s = forward-round zero first last s (λ e answer retryable.
      exhausted 0 e refl ((e, answer, retryable), tt)
        (ap (asked g w now identity req b body) (let z : first + 0 ≡ first = omega arith in z)
          ∙ answer))
  forward-IsOutcome (suc left) first last s =
      forward-round (suc left) first last s (λ e answer retryable.
        IsOutcome-retry (suc left) first s e answer retryable
          (forward-IsOutcome left (first + 1) (some e) (noted s)))

module _ (g : Governor) (w : World) (now : ℕ) (identity : KeyIdentity) (body : Bytes)
    (s : AppState g) where
  abbrev asks : CompletionRequest
  asks = request_or_default (w.parse_request body)

  abbrev checked : AppState g
  checked = record s { limits = (check_rpm g s.limits identity.name now).0 }

  abbrev admission : Result LimitExceeded (Unit {0})
  admission = (check_rpm g s.limits identity.name now).1

  -- The paths of the handler.
  pub data IsHandled : AppState g × Response × List Attempt → Type 0 where
    limited :
        (e : LimitExceeded)
        → admission ≡ err e
        → IsHandled (
          record checked { metrics = record_rate_limit_rejection s.metrics identity.name },
          Response.error 429 (codes "rate_limit_exceeded") (Cause.limited e),
          [],
        )
    modelless :
        admission ≡ ok tt
        → is_empty asks.model ≡ true
        → IsHandled
            (checked, Response.error 400 (codes "invalid_request_error") Cause.model_required, [])
    unroutable :
        (e : RouteError)
        → admission ≡ ok tt
        → is_empty asks.model ≡ false
        → route s.router (query_for asks.model) identity.enforce_private ≡ err e
        → IsHandled
            (checked, Response.error 502 (codes "no_eligible_backend") (Cause.unroutable e), [])
    forwarded :
        (b : Backend) {r : AppState g × Response × List Attempt}
        → admission ≡ ok tt
        → is_empty asks.model ≡ false
        → route s.router (query_for asks.model) identity.enforce_private ≡ ok b
        → IsOutcome g w now identity asks b body 6 0 checked r
        → IsHandled r

  -- Whatever backends answer, a request comes to one of these: it is over the rate limit, names no
  -- model or has no eligible backend, and nothing is sent; or it is sent to the backend of its route,
  -- six times at most, until an answer that is no retryable error, which is relayed or passed on.
  -- After six retryable errors the last of them is passed on with status 502. Each failed attempt is
  -- counted once.
  pub chat_completions-IsHandled : IsHandled (chat_completions g w now identity body s)
  unfolding chat_completions
  chat_completions-IsHandled = elim (Result-cases admission) [
    | inr (e, over) ↦ subst IsHandled (ground arith) (limited e over)
    | inl (_, admitted) ↦ elim (Bool-cases (is_empty asks.model)) [
      | inl missing ↦ subst IsHandled (ground arith) (modelless admitted missing)
      | inr given ↦
          elim (Result-cases (route s.router (query_for asks.model) identity.enforce_private)) [
            | inr (e, refusal) ↦
                subst IsHandled (ground arith) (unroutable e admitted given refusal)
            | inl (b, routed) ↦
                let r = forward g w now identity asks b body 6 0 none checked in
                let same : r ≡ chat_completions g w now identity body s = ground arith in
                subst IsHandled same (
                  forwarded b admitted given routed
                    (forward-IsOutcome g w now identity asks b body 5 0 none checked))
          ]
    ]
  ]

-- ===== src/Server/Outcomes.antt =====
-- src/server.rs: how the loop of attempts ends, and the responses of a state made by `from_config`.
use patchbay.Common.{
  ℕ, zero, suc, ◌+◌, ◌<◌, ◌≡◌, refl, ◌/◌, ap, ◌∙◌, inl, inr, true, Option, none, some, List, [],
  ◌∷◌, arith, length, ok, err, Result-cases, Bool-cases, is_empty, All, Option-cases,
}
use patchbay.Common.Texts.{Text, codes}
use patchbay.Common.Order.{Float64}
use patchbay.Config.{Backend, GatewayConfig}
use patchbay.Router.Ewma.{router_from_config}
use patchbay.Budget.{Codec, Files}
use patchbay.Router.{query_for, route}
use patchbay.Auth.{KeyIdentity}
use patchbay.Upstream.{Bytes, Usage}
use patchbay.Upstream.Client.{UpstreamError, is_retryable, HttpResponse}
use patchbay.Limits.{Governor, RateLimitStore, new_store, record_tpm, tpm_counter}
use patchbay.Limits.Admission.{check_rpm-unlimited}
use patchbay.Metrics.{record_upstream_error}
use patchbay.Server.{
  max_retries, CompletionRequest, Response, Cause, World, AppState, from_config, account_usage,
}
use patchbay.Server.Handler.{
  buffered_response, relay_response, forward, chat_completions, request_or_default,
}
use patchbay.Server.Retries.{asked, forward-ok, forward-refused, forward-retry}

-- The state after `k` failed attempts at a backend.
abbrev pub after_failures : {g : Governor} → ℕ → Backend → AppState g → AppState g
after_failures zero b s = s
after_failures (suc k) b s =
    after_failures k b (record s { metrics = record_upstream_error s.metrics b.name })

module _ (g : Governor) (w : World) (now : ℕ) (identity : KeyIdentity) (req : CompletionRequest)
    (b : Backend) (body : Bytes) where
  -- The attempts from `first` on, `k` of them, end in errors that a retry may resolve.
  abbrev pub AllRetryable : ℕ → ℕ → Type 0
  AllRetryable zero first = Unit
  AllRetryable (suc k) first =
      ((e : UpstreamError) × (asked g w now identity req b body first ≡ err e)
        × (is_retryable e ≡ true))
      × AllRetryable k (first + 1)

  -- When the attempts before it fail with errors that a retry may resolve, the response of the first
  -- attempt that succeeds is relayed, with one upstream error counted for each attempt before.
  pub forward-first :
      (k left first : ℕ) (last : Option UpstreamError) (s : AppState g) (resp : HttpResponse)
      → k < left
      → AllRetryable k first
      → asked g w now identity req b body (first + k) ≡ ok resp
      → ((forward g w now identity req b body left first last s).0
          ≡ (relay_response g w now identity req b resp (after_failures k b s)).0)
        × ((forward g w now identity req b body left first last s).1
            ≡ (relay_response g w now identity req b resp (after_failures k b s)).1)
        × (length (forward g w now identity req b body left first last s).2 ≡ k + 1)
  forward-first k zero first last s resp few failures answer = absurd (omega arith)
  forward-first zero (suc left) first last s resp few failures answer =
      let e : asked g w now identity req b body first ≡ ok resp =
        ap (asked g w now identity req b body) (let z : first ≡ first + 0 = omega arith in z)
        ∙ answer in
      rw (forward-ok g w now identity req b body left first last s resp e) (refl, refl, omega arith)
  forward-first (suc k) (suc left) first last s resp few ((e, failed, again), failures) answer =
      let place : first + 1 + k ≡ first + suc k = omega arith in
      let s' : AppState g = record s { metrics = record_upstream_error s.metrics b.name } in
      let later =
        forward-first k left (first + 1) (some e) s' resp (omega arith) failures
          (ap (asked g w now identity req b body) place ∙ answer) in
      rw (forward-retry g w now identity req b body left first last s e failed again)
        (later.0, later.1, omega (arith, later.2))

-- The response of a request that the rate limit turned down.
abbrev pub IsLimited : Response → Type 0
IsLimited (Response.error status type (Cause.limited e)) = Unit
IsLimited _ = ⊥

module _ (g : Governor) where
  table_of-record_tpm :
      (l : RateLimitStore g) (key : Text) (tokens now : ℕ)
      → (record_tpm g l key tokens now).0.limits ≡ l.limits
  unfolding record_tpm tpm_counter
  table_of-record_tpm l key tokens now = ground arith

  table_of-account_usage :
      (now : ℕ) (key : Text) (u : Option Usage) (s : AppState g)
      → (account_usage g now key u s).limits.limits ≡ s.limits.limits
  unfolding account_usage
  table_of-account_usage now key none s = refl
  table_of-account_usage now key (some u) s =
      table_of-record_tpm s.limits key u.total_tokens (now / 1000)

  -- The table of limits is as before, and the response is none of the rate limit.
  record IsUnlimited (s s' : AppState g) (r : Response) : Type 0 where
    table : s'.limits.limits ≡ s.limits.limits
    response : ¬ IsLimited r

  module _ (w : World) (now : ℕ) (identity : KeyIdentity) (body : Bytes) where
    buffered_response-IsUnlimited :
        (backend : Text) (resp : HttpResponse) (s : AppState g)
        → IsUnlimited s
            (buffered_response g w now identity.name backend resp s).0
            (buffered_response g w now identity.name backend resp s).1
    unfolding buffered_response
    buffered_response-IsUnlimited backend resp s = elim (Result-cases resp.bytes) [
      | inr (e, unread) ↦ rw unread (record { table = refl; response = λ l. l })
      | inl (bytes, read) ↦ rw read (record {
        table = table_of-account_usage now identity.name (w.usage_of_body bytes) s;
        response = λ l. l;
      })
    ]

    relay_response-IsUnlimited :
        (req : CompletionRequest) (b : Backend) (resp : HttpResponse) (s : AppState g)
        → IsUnlimited s
            (relay_response g w now identity req b resp s).0
            (relay_response g w now identity req b resp s).1
    unfolding relay_response
    relay_response-IsUnlimited req b resp s = elim (Bool-cases req.stream) [
      | inl streams ↦ rw streams (record { table = refl; response = λ l. l })
      | inr whole ↦ rw whole (record {
        table = (buffered_response-IsUnlimited b.name resp _).table;
        response = (buffered_response-IsUnlimited b.name resp _).response;
      })
    ]

    forward-IsUnlimited :
        (req : CompletionRequest) (b : Backend) (left attempt : ℕ) (last : Option UpstreamError)
        (s : AppState g)
        → IsUnlimited s
            (forward g w now identity req b body left attempt last s).0
            (forward g w now identity req b body left attempt last s).1
    forward-IsUnlimited req b zero attempt none s =
        unfold forward in (record { table = refl; response = λ l. l })
    forward-IsUnlimited req b zero attempt (some e) s =
        unfold forward in (record { table = refl; response = λ l. l })
    forward-IsUnlimited req b (suc left) attempt last s =
        elim (Result-cases (asked g w now identity req b body attempt)) [
          | inl (resp, e) ↦
              rw (forward-ok g w now identity req b body left attempt last s resp e)
                (relay_response-IsUnlimited req b resp s)
          | inr (e, answer) ↦ elim (Bool-cases (is_retryable e)) [
            | inr final ↦
                rw (forward-refused g w now identity req b body left attempt last s e answer final)
                  (record { table = refl; response = λ l. l })
            | inl again ↦
                let s' : AppState g = record s {
                  metrics = record_upstream_error s.metrics b.name;
                } in
                let later = forward-IsUnlimited req b left (attempt + 1) (some e) s' in
                rw (forward-retry g w now identity req b body left attempt last s e answer again)
                  (record { table = later.table; response = later.response })
          ]
        ]

    chat_completions-IsUnlimited :
        (s : AppState g)
        → s.limits.limits ≡ []
        → IsUnlimited s
            (chat_completions g w now identity body s).0
            (chat_completions g w now identity body s).1
    unfolding chat_completions
    chat_completions-IsUnlimited s none_set =
        let req : CompletionRequest = request_or_default (w.parse_request body) in
        let limit = check_rpm-unlimited g s.limits identity.name now none_set in
        elim (Bool-cases (is_empty req.model)) [
          | inl missing ↦
              let e : chat_completions g w now identity body s ≡ (
                s,
                Response.error 400 (codes "invalid_request_error") Cause.model_required,
                [],
              ) =
                ground (arith, limit) in
              rw e (record { table = refl; response = λ l. l })
          | inr given ↦
              elim (Result-cases (route s.router (query_for req.model) identity.enforce_private)) [
                | inr (u, unroutable) ↦
                    let e : chat_completions g w now identity body s ≡ (
                      s,
                      Response.error 502 (codes "no_eligible_backend") (Cause.unroutable u),
                      [],
                    ) =
                      ground (arith, limit) in
                    rw e (record { table = refl; response = λ l. l })
                | inl (b, routed) ↦
                    let e : chat_completions g w now identity body s
                        ≡ forward g w now identity req b body (max_retries + 1) 0 none s =
                      ground (arith, limit) in
                    rw e (forward-IsUnlimited req b (max_retries + 1) 0 none s)
              ]
        ]

  -- Requests of clients, each with its time, its identity and its body, and the answers of others.
  pub record Visit : Type 0 where
    pub world : World
    pub now : ℕ
    pub identity : KeyIdentity
    pub body : Bytes

  pub serve_all : AppState g → List Visit → List Response
  serve_all s [] = []
  serve_all s (v ∷ visits) =
      let (s', response, attempts) = chat_completions g v.world v.now v.identity v.body s in
      response ∷ serve_all s' visits

  serve_all-unlimited :
      (s : AppState g) (visits : List Visit)
      → s.limits.limits ≡ []
      → All (λ r. ¬ IsLimited r) (serve_all s visits)
  unfolding serve_all
  serve_all-unlimited s [] none_set = tt
  serve_all-unlimited s (v ∷ visits) none_set =
      let here = chat_completions-IsUnlimited v.world v.now v.identity v.body s none_set in
      (
        here.response,
        serve_all-unlimited (chat_completions g v.world v.now v.identity v.body s).0 visits
            (here.table ∙ none_set),
      )

  -- A state that is made from a configuration turns down no request for its rate, whatever the
  -- requests are and in whatever order they come.
  pub from_config-unlimited :
      (x : Float64) {Addr : Type 0} (codec : Codec) (files : Files) (start : ℕ)
      (cfg : GatewayConfig Addr x.F) (visits : List Visit) {s : AppState g}
      → from_config g x codec files start cfg ≡ some s
      → All (λ r. ¬ IsLimited r) (serve_all s visits)
  unfolding from_config new_store
  from_config-unlimited x codec files start cfg visits {s} made =
      serve_all-unlimited s visits (elim (Option-cases (router_from_config x cfg)) [
        | inl failed ↦ ground arith
        | inr (r, e) ↦ ground arith
      ])

-- ===== src/Server/Opaque.antt =====
-- src/server.rs: `chat_completions` with other API keys for the backends.
use patchbay.Common.{
  ℕ, zero, suc, ◌+◌, ◌≡◌, refl, ap, ◌∙◌, inl, inr, Option, none, some, List, map, arith, Result,
  Result-cases, Bool-cases, Option-cases, is_empty,
}
use patchbay.Common.Texts.{Text, codes}
use patchbay.Config.{Backend}
use patchbay.Config.Secrets.{map_some}
use patchbay.Router.{query_for, route}
use patchbay.Router.Opaque.{rekeyed, IsBlind, rekeyed_router, route-rekeyed}
use patchbay.Auth.{KeyIdentity}
use patchbay.Upstream.{Bytes}
use patchbay.Upstream.Client.{
  UpstreamError, is_retryable, HttpRequest, HttpResponse, upstream_request, open_sse,
}
use patchbay.Limits.{Governor, check_rpm}
use patchbay.Metrics.{record_request, record_upstream_error}
use patchbay.Server.{
  CompletionRequest, Response, Attempt, World, AppState, completions_path, account_usage,
}
use patchbay.Server.Retries.{asked, attempt_at, forward-ok, forward-refused, forward-retry}
use patchbay.Server.Handler.{
  wait_before, buffered_response, relay_response, forward, chat_completions, request_or_default,
}

module _ (f : Text → Text) where
  abbrev pub rekeyed_request : HttpRequest → HttpRequest
  rekeyed_request r = record r { bearer = map_some f r.bearer }

  abbrev pub rekeyed_attempt : Attempt → Attempt
  rekeyed_attempt a = record a {
    backend = (rekeyed f) a.backend;
    request = rekeyed_request a.request;
  }

  upstream_request-rekeyed :
      (b : Backend) (path : Text) (body : Bytes)
      → upstream_request (rekeyed f b) path body ≡ rekeyed_request (upstream_request b path body)
  unfolding upstream_request
  upstream_request-rekeyed b path body = elim (Option-cases b.api_key) [
    | inl bare ↦ ground arith
    | inr (key, set) ↦ ground arith
  ]

  module _ (g : Governor) where
    abbrev pub rekeyed_state : AppState g → AppState g
    rekeyed_state s = record s { router = rekeyed_router f s.router }

    abbrev pub rekeyed_result :
        AppState g × Response × List Attempt → AppState g × Response × List Attempt
    rekeyed_result (s, r, attempts) = (rekeyed_state s, r, map rekeyed_attempt attempts)

    module _ (w : World) (send : ℕ → HttpRequest → Result Text HttpResponse)
        (alike : (n : ℕ) (r : HttpRequest) → send n (rekeyed_request r) ≡ w.send n r) where
      abbrev other_world : World
      other_world = record w { send = send }

      buffered_response-rekeyed :
          (now : ℕ) (key backend : Text) (resp : HttpResponse) (s : AppState g)
          → buffered_response g other_world now key backend resp (rekeyed_state s) ≡ (
            rekeyed_state (buffered_response g w now key backend resp s).0,
            (buffered_response g w now key backend resp s).1,
          )
      unfolding buffered_response account_usage
      buffered_response-rekeyed now key backend resp s = elim (Result-cases resp.bytes) [
        | inr (e, unread) ↦ ground arith
        | inl (bytes, got) ↦ elim (Option-cases (w.usage_of_body bytes)) [
          | inl none_there ↦ ground arith
          | inr (u, used) ↦ ground arith
        ]
      ]

      module _ (now : ℕ) (identity : KeyIdentity) (req : CompletionRequest) (b : Backend)
          (body : Bytes) where
        relay_response-rekeyed :
            (resp : HttpResponse) (s : AppState g)
            → relay_response g other_world now identity req (rekeyed f b) resp (rekeyed_state s) ≡ (
              rekeyed_state (relay_response g w now identity req b resp s).0,
              (relay_response g w now identity req b resp s).1,
            )
        unfolding relay_response
        relay_response-rekeyed resp s = elim (Bool-cases req.stream) [
          | inl streams ↦ ground arith
          | inr whole ↦ rw whole (
              buffered_response-rekeyed now identity.name b.name resp
                (record s { metrics = record_request s.metrics b.name req.model (codes "2xx") }))
        ]

        asked-rekeyed :
            (n : ℕ)
            → open_sse (send n) (rekeyed f b) completions_path body
              ≡ open_sse (w.send n) b completions_path body
        unfolding open_sse
        asked-rekeyed n =
            let same : send n (upstream_request (rekeyed f b) completions_path body)
                ≡ w.send n (upstream_request b completions_path body) =
              ap (send n) (upstream_request-rekeyed b completions_path body)
              ∙ alike n (upstream_request b completions_path body) in
            rw same refl

        attempt_at-rekeyed :
            (n : ℕ)
            → attempt_at g other_world now identity req (rekeyed f b) body n
              ≡ rekeyed_attempt (attempt_at g w now identity req b body n)
        unfolding wait_before
        attempt_at-rekeyed zero =
            ap (λ r. record { wait_ms = 0; backend = (rekeyed f) b; request = r })
              (upstream_request-rekeyed b completions_path body)
        attempt_at-rekeyed (suc n) =
            ap
              (λ r. record {
                wait_ms = wait_before g w (suc n);
                backend = (rekeyed f) b;
                request = r;
              })
              (upstream_request-rekeyed b completions_path body)

        forward-rekeyed :
            (left n : ℕ) (last : Option UpstreamError) (s : AppState g)
            → forward g other_world now identity req
                (rekeyed f b)
                body
                left
                n
                last
                (rekeyed_state s)
              ≡ rekeyed_result (forward g w now identity req b body left n last s)
        forward-rekeyed zero n last s = unfold forward in refl
        forward-rekeyed (suc left) n last s =
            let here = attempt_at-rekeyed n in
            let other : AppState g = rekeyed_state s in
            elim (Result-cases (asked g w now identity req b body n)) [
              | inl (resp, e) ↦
                  let mine = forward-ok g w now identity req b body left n last s resp e in
                  let theirs =
                    forward-ok g other_world now identity req (rekeyed f b) body left n last other
                      resp (asked-rekeyed n ∙ e) in
                  let relayed = relay_response-rekeyed resp s in
                  rw (mine, theirs, relayed, here) refl
              | inr (e, answer) ↦ elim (Bool-cases (is_retryable e)) [
                | inr final ↦
                    let mine =
                      forward-refused g w now identity req b body left n last s e answer final in
                    let theirs =
                      forward-refused g other_world now identity req (rekeyed f b) body left n last
                        other e (asked-rekeyed n ∙ answer) final in
                    rw (mine, theirs, here) refl
                | inl again ↦
                    let noted : AppState g = record s {
                      metrics = record_upstream_error s.metrics b.name;
                    } in
                    let mine =
                      forward-retry g w now identity req b body left n last s e answer again in
                    let theirs =
                      forward-retry g other_world now identity req (rekeyed f b) body left n last
                        other e (asked-rekeyed n ∙ answer) again in
                    let later = forward-rekeyed left (n + 1) (some e) noted in
                    rw (mine, theirs, later, here) refl
              ]
            ]

      -- The API keys of the backends are opaque: when the value of each is replaced by another, as long
      -- as the backends answer alike and the policy does not look at the keys, a request gets the same
      -- response, waits as long before each attempt and leaves the same state but for the keys in the
      -- router, and the requests that are sent differ in the bearer tokens alone.
      pub chat_completions-rekeyed :
          (now : ℕ) (identity : KeyIdentity) (body : Bytes) (s : AppState g)
          → IsBlind f s.router
          → chat_completions g other_world now identity body (rekeyed_state s)
            ≡ rekeyed_result (chat_completions g w now identity body s)
      unfolding chat_completions
      chat_completions-rekeyed now identity body s blind =
          let req = request_or_default (w.parse_request body) in
          let checked : AppState g = record s {
            limits = (check_rpm g s.limits identity.name now).0;
          } in
          let routed =
            route-rekeyed f s.router (query_for req.model) identity.enforce_private blind in
          elim (Result-cases (check_rpm g s.limits identity.name now).1) [
            | inr (e, limited) ↦ ground arith
            | inl (_, admitted) ↦ elim (Bool-cases (is_empty req.model)) [
              | inl missing ↦ ground arith
              | inr given ↦
                  elim (Result-cases
                    (route s.router (query_for req.model) identity.enforce_private)) [
                      | inr (e, refusal) ↦ ground (arith, routed)
                      | inl (b, found) ↦
                          let same = forward-rekeyed now identity req b body 6 0 none checked in
                          ground (arith, routed, same)
                    ]
            ]
          ]

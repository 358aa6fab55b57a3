-- ===== src/Server/Retries.antt =====
-- src/server.rs: the attempts that the handler makes.
use mathlib.Core.Path.{subst}
use patchbay.Common.{
  ℕ, zero, suc, ◌+◌, ◌/◌, ◌≤◌, ◌≡◌, refl, ap, sym, ◌∙◌, inl, inr, true, false, Option, none, some,
  List, [], ◌∷◌, arith, length, Result, ok, err, Result-cases, Bool-cases, In, is_empty, ◌⊎◌,
}
use patchbay.Common.Texts.{codes}
use patchbay.Config
use patchbay.Config.{Backend, serves_model}
use patchbay.Router.{query_for, route}
use patchbay.Router.Eligible.{route-eligible}
use patchbay.Auth.{KeyIdentity}
use patchbay.Upstream.{Bytes}
use patchbay.Upstream.Client.{
  UpstreamError, is_retryable, upstream_status, HttpResponse, upstream_request, open_sse,
}
use patchbay.Metrics.{record_upstream_error}
use patchbay.Limits.{Governor, check_rpm}
use patchbay.Server.{
  max_retries, backoff_ms, jitter, CompletionRequest, Response, Attempt, completions_path, World,
  AppState, Cause,
}
use patchbay.Server.Handler.{
  relay_response, wait_before, forward, chat_completions, status_or_bad_gateway, request_or_default,
}

abbrev pub total_wait : List Attempt → ℕ
total_wait [] = 0
total_wait (a ∷ attempts) = a.wait_ms + total_wait attempts

-- Every attempt goes to the backend with the body of the client.
abbrev pub AllTo : Backend → Bytes → List Attempt → Type 0
AllTo b body [] = Unit
AllTo b body (a ∷ attempts) =
    (a.backend ≡ b) × (a.request ≡ upstream_request b completions_path body) × AllTo b body attempts

jitter-bound : (ms noise : ℕ) → jitter ms noise ≤ ms + ms / 4
unfolding jitter
jitter-bound ms noise = grind arith

module _ (g : Governor) (w : World) (now : ℕ) (identity : KeyIdentity) (req : CompletionRequest)
    (b : Backend) (body : Bytes) where
  abbrev pub attempts_from :
      ℕ → ℕ → Option UpstreamError → AppState g → AppState g × Response × List Attempt
  attempts_from left attempt last s = forward g w now identity req b body left attempt last s

  abbrev pub asked : ℕ → Result UpstreamError HttpResponse
  asked attempt = open_sse (w.send attempt) b completions_path body

  abbrev pub attempt_at : ℕ → Attempt
  attempt_at attempt = record {
    wait_ms = wait_before g w attempt;
    backend = b;
    request = upstream_request b completions_path body;
  }

  abbrev noted : AppState g → AppState g
  noted s = record s { metrics = record_upstream_error s.metrics b.name }

  abbrev passed_on : UpstreamError → Response
  passed_on e =
      Response.error (status_or_bad_gateway (upstream_status e)) (codes "upstream_error")
        (Cause.failed e)

  pub forward-ok :
      (left attempt : ℕ) (last : Option UpstreamError) (s : AppState g) (resp : HttpResponse)
      → asked attempt ≡ ok resp
      → attempts_from (suc left) attempt last s ≡ (
        (relay_response g w now identity req b resp s).0,
        (relay_response g w now identity req b resp s).1,
        attempt_at attempt ∷ [],
      )
  unfolding forward
  forward-ok left attempt last s resp e = ground arith

  pub forward-refused :
      (left attempt : ℕ) (last : Option UpstreamError) (s : AppState g) (e : UpstreamError)
      → asked attempt ≡ err e
      → is_retryable e ≡ false
      → attempts_from (suc left) attempt last s ≡ (noted s, passed_on e, attempt_at attempt ∷ [])
  unfolding forward
  forward-refused left attempt last s e answer final = ground arith

  pub forward-retry :
      (left attempt : ℕ) (last : Option UpstreamError) (s : AppState g) (e : UpstreamError)
      → asked attempt ≡ err e
      → is_retryable e ≡ true
      → attempts_from (suc left) attempt last s ≡ (
        (attempts_from left (attempt + 1) (some e) (noted s)).0,
        (attempts_from left (attempt + 1) (some e) (noted s)).1,
        attempt_at attempt ∷ (attempts_from left (attempt + 1) (some e) (noted s)).2,
      )
  unfolding forward
  forward-retry left attempt last s e answer again = ground arith

  forward-AllTo :
      (left attempt : ℕ) (last : Option UpstreamError) (s : AppState g)
      → AllTo b body (attempts_from left attempt last s).2
  forward-AllTo zero attempt last s = unfold forward in tt
  forward-AllTo (suc left) attempt last s = elim (Result-cases (asked attempt)) [
    | inl (resp, e) ↦ rw (forward-ok left attempt last s resp e) (refl, refl, tt)
    | inr (e, answer) ↦ elim (Bool-cases (is_retryable e)) [
      | inr final ↦ rw (forward-refused left attempt last s e answer final) (refl, refl, tt)
      | inl again ↦
          rw (forward-retry left attempt last s e answer again)
            (refl, refl, forward-AllTo left (attempt + 1) (some e) (noted s))
    ]
  ]

  AllTo-In :
      (attempts : List Attempt) (a : Attempt)
      → AllTo b body attempts
      → In a attempts
      → (a.backend ≡ b) × (a.request ≡ upstream_request b completions_path body)
  AllTo-In [] a _ m = elim m [ ]
  AllTo-In (c ∷ attempts) a (here, sent, later) (inl e) = (cc, cc)
  AllTo-In (c ∷ attempts) a (here, sent, later) (inr member) = AllTo-In attempts a later member

  -- The most that the attempts can wait.
  abbrev pub longest : ℕ → ℕ → ℕ
  longest zero attempt = 0
  longest (suc left) zero = longest left (0 + 1)
  longest (suc left) (suc n) = backoff_ms n + backoff_ms n / 4 + longest left (suc n + 1)

  wait_before-longest :
      (left attempt : ℕ)
      → wait_before g w attempt + longest left (attempt + 1) ≤ longest (suc left) attempt
  unfolding wait_before
  wait_before-longest left zero = ground arith
  wait_before-longest left (suc n) = omega (arith, jitter-bound (backoff_ms n) (w.noise (suc n)))

  forward-waits :
      (left attempt : ℕ) (last : Option UpstreamError) (s : AppState g)
      → (length (attempts_from left attempt last s).2 ≤ left)
        × (total_wait (attempts_from left attempt last s).2 ≤ longest left attempt)
  forward-waits zero attempt last s = unfold forward in (omega arith, omega arith)
  forward-waits (suc left) attempt last s =
      let bound = wait_before-longest left attempt in
      elim (Result-cases (asked attempt)) [
        | inl (resp, e) ↦
            rw (forward-ok left attempt last s resp e) (omega arith, omega (arith, bound))
        | inr (e, answer) ↦ elim (Bool-cases (is_retryable e)) [
          | inr final ↦
              rw (forward-refused left attempt last s e answer final)
                (omega arith, omega (arith, bound))
          | inl again ↦
              let later = forward-waits left (attempt + 1) (some e) (noted s) in
              rw (forward-retry left attempt last s e answer again)
                (omega (arith, later.0), omega (arith, bound, later.1))
        ]
      ]

module _ (g : Governor) (w : World) (now : ℕ) (identity : KeyIdentity) (body : Bytes)
    (s : AppState g) where
  abbrev pub req : CompletionRequest
  req = request_or_default (w.parse_request body)

  -- The state behind the check of the rate.
  abbrev pub counted : AppState g
  counted = record s { limits = (check_rpm g s.limits identity.name now).0 }

  pub chat_completions-cases :
      (((chat_completions g w now identity body s).2 ≡ [])
        × ((chat_completions g w now identity body s).0.router ≡ s.router)
        × ((chat_completions g w now identity body s).0.keys ≡ s.keys))
      ⊎ ((b : Backend) × (route s.router (query_for req.model) identity.enforce_private ≡ ok b)
          × (chat_completions g w now identity body s
              ≡ forward g w now identity req b body (max_retries + 1) 0 none counted))
  unfolding chat_completions
  chat_completions-cases = elim (Result-cases (check_rpm g s.limits identity.name now).1) [
    | inr (e, limited) ↦ inl (ground arith, ground arith, ground arith)
    | inl (_, admitted) ↦ elim (Bool-cases (is_empty req.model)) [
      | inl missing ↦ inl (ground arith, ground arith, ground arith)
      | inr given ↦
          elim (Result-cases (route s.router (query_for req.model) identity.enforce_private)) [
            | inr (e, unroutable) ↦ inl (ground arith, ground arith, ground arith)
            | inl (b, routed) ↦ inr (b, routed, ground arith)
          ]
    ]
  ]

  -- Whoever asks, each request that is sent goes to a backend of the router which serves the model
  -- asked for, carries the body of the client, and has the URL and the credentials of that backend;
  -- when the key enforces privacy, that backend is local.
  pub chat_completions-eligible :
      (a : Attempt)
      → In a (chat_completions g w now identity body s).2
      → In a.backend s.router.backends
        × (identity.enforce_private ≡ true → a.backend.privacy ≡ Config.Privacy.local)
        × (serves_model a.backend req.model ≡ true)
        × (a.request ≡ upstream_request a.backend completions_path body)
  chat_completions-eligible a member = elim chat_completions-cases [
    | inl (silent, router, keys) ↦ absurd (subst (λ (l : List Attempt). In a l) silent member)
    | inr (b, routed, e) ↦
        let attempts = (forward g w now identity req b body (max_retries + 1) 0 none counted).2 in
        let sent : In a attempts = subst (λ r. In a r.2) e member in
        let (here, request) =
          AllTo-In g w now identity req b body attempts a
            (forward-AllTo g w now identity req b body (max_retries + 1) 0 none counted) sent in
        let (known, local, serves, tags) =
          route-eligible s.router (query_for req.model) identity.enforce_private routed in
        (
          rw here known,
          λ private. rw here (local private),
          rw here serves,
          request ∙ ap (λ c. upstream_request c completions_path body) (sym here),
        )
  ]

  -- The handler sends six requests at most, and waits 3875 ms between them at most.
  pub chat_completions-waits :
      (length (chat_completions g w now identity body s).2 ≤ 6)
      × (total_wait (chat_completions g w now identity body s).2 ≤ 3875)
  chat_completions-waits = elim chat_completions-cases [
    | inl (silent, router, keys) ↦ rw silent (omega arith, omega arith)
    | inr (b, routed, e) ↦
        let (few, soon) =
          forward-waits g w now identity req b body (max_retries + 1) 0 none counted in
        let most : longest g w now identity req b body 6 0 ≡ 3875 = (unfold backoff_ms in refl) in
        rw e (few, omega (arith, soon, most))
  ]

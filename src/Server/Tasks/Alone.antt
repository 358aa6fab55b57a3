-- ===== src/Server/Tasks/Alone.antt =====
-- src/server.rs: a request that is served without another beside it.
use patchbay.Common.{
  ℕ, ◌≡◌, ap, sym, ◌∙◌, inl, inr, none, some, List, [], arith, Result-cases, Bool-cases, is_empty,
}
use patchbay.Common.Texts.{codes}
use patchbay.Config.{Backend}
use patchbay.Router.{query_for, route}
use patchbay.Auth.{KeyIdentity}
use patchbay.Upstream.{Bytes}
use patchbay.Metrics.{record_rate_limit_rejection}
use patchbay.Limits.{Governor, check_rpm}
use patchbay.Server.{CompletionRequest, Cause, Response, Attempt, World, AppState}
use patchbay.Server.Handler.{request_or_default, forward, chat_completions}
use patchbay.Server.Tasks.{forwarding, answered, begin}
use patchbay.Server.Tasks.Proceed.{response_of, proceed, Agrees, Agrees-along, forward-proceed}

module _ (g : Governor) (w : World) (now : ℕ) where
  module _ (identity : KeyIdentity) (body : Bytes) (s : AppState g) where
    abbrev asks : CompletionRequest
    asks = request_or_default (w.parse_request body)

    abbrev checked : AppState g
    checked = record s { limits = (check_rpm g s.limits identity.name now).0 }

    abbrev chat : AppState g × Response × List Attempt
    chat = chat_completions g w now identity body s

    -- Both are the same error at once.
    proceed-error :
        (state : AppState g) (r : Response)
        → begin g w now identity body s ≡ (state, answered identity.name r)
        → chat ≡ (state, r, [])
        → Agrees g w now (proceed g w now 7 (begin g w now identity body s)) chat.0 chat.1
    unfolding proceed
    proceed-error state r e d = record {
      same_state = ap (λ x. (proceed g w now 7 x).0) e ∙ ap (λ x. x.0) (sym d);
      same_response = ap (λ x. response_of (proceed g w now 7 x).1) e ∙ ap (λ x. some x.1) (sym d);
    }

    proceed-routed :
        (b : Backend)
        → begin g w now identity body s ≡ (checked, forwarding identity asks b body 0)
        → chat ≡ forward g w now identity asks b body 6 0 none checked
        → Agrees g w now (proceed g w now 7 (begin g w now identity body s)) chat.0 chat.1
    unfolding proceed
    proceed-routed b e d =
        let a = forward-proceed g w now identity asks b body 5 0 none checked (omega arith) in
        Agrees-along g w now identity asks b body (ap (proceed g w now 7) e) d
          (record { same_state = a.same_state; same_response = a.same_response })

    -- A request that is served alone, resumed seven times at most, is answered, and leaves the state
    -- and gets the response that the whole handler gives.
    pub proceed-chat_completions :
        ((proceed g w now 7 (begin g w now identity body s)).0
          ≡ (chat_completions g w now identity body s).0)
        × (response_of (proceed g w now 7 (begin g w now identity body s)).1
            ≡ some (chat_completions g w now identity body s).1)
    unfolding begin chat_completions
    proceed-chat_completions =
        let a : Agrees g w now (proceed g w now 7 (begin g w now identity body s)) chat.0 chat.1 =
          elim (Result-cases (check_rpm g s.limits identity.name now).1) [
            | inr (e, limited) ↦
                proceed-error
                  (record checked { metrics = record_rate_limit_rejection s.metrics identity.name })
                  (Response.error 429 (codes "rate_limit_exceeded") (Cause.limited e))
                  (ground arith) (ground arith)
            | inl (_, admitted) ↦ elim (Bool-cases (is_empty asks.model)) [
              | inl missing ↦
                  proceed-error checked
                    (Response.error 400 (codes "invalid_request_error") Cause.model_required)
                    (ground arith) (ground arith)
              | inr given ↦
                  elim (Result-cases
                    (route s.router (query_for asks.model) identity.enforce_private)) [
                      | inr (e, unroutable) ↦
                          proceed-error checked
                            (Response.error 502 (codes "no_eligible_backend") (Cause.unroutable e))
                            (ground arith) (ground arith)
                      | inl (b, routed) ↦ proceed-routed b (ground arith) (ground arith)
                    ]
            ]
          ] in
        (a.same_state, a.same_response)

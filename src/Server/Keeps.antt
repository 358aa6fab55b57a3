-- ===== src/Server/Keeps.antt =====
-- src/server.rs: what the handlers never change.
use patchbay.Common.{
  ℕ, zero, suc, ◌+◌, ◌≡◌, refl, inl, inr, Option, none, some, List, arith, Result-cases, Bool-cases,
}
use patchbay.Config.{Backend}
use patchbay.Auth.{KeyIdentity}
use patchbay.Upstream.{Bytes, Usage}
use patchbay.Upstream.Client.{UpstreamError, is_retryable, HttpResponse}
use patchbay.Limits.{Governor}
use patchbay.Metrics.{record_upstream_error}
use patchbay.Server.{max_retries, CompletionRequest, World, AppState, account_usage}
use patchbay.Server.Handler.{buffered_response, relay_response, forward, chat_completions}
use patchbay.Server.Retries.{
  asked, forward-ok, forward-refused, forward-retry, req, counted, chat_completions-cases,
}

module _ (g : Governor) where
  -- The router and the keys are as before.
  pub record Keeps (s s' : AppState g) : Type 0 where
    pub router : s'.router ≡ s.router
    pub keys : s'.keys ≡ s.keys

  account_usage-Keeps :
      (now : ℕ) (key : List ℕ) (u : Option Usage) (s : AppState g)
      → Keeps s (account_usage g now key u s)
  unfolding account_usage
  account_usage-Keeps now key none s = record { router = refl; keys = refl }
  account_usage-Keeps now key (some u) s = record { router = refl; keys = refl }

  module _ (w : World) (now : ℕ) (identity : KeyIdentity) (body : Bytes) where
    relay_response-Keeps :
        (req : CompletionRequest) (b : Backend) (resp : HttpResponse) (s : AppState g)
        → Keeps s (relay_response g w now identity req b resp s).0
    unfolding relay_response buffered_response account_usage
    relay_response-Keeps req b resp s = record { router = ground arith; keys = ground arith }

    forward-Keeps :
        (req : CompletionRequest) (b : Backend) (left attempt : ℕ) (last : Option UpstreamError)
        (s : AppState g)
        → Keeps s (forward g w now identity req b body left attempt last s).0
    forward-Keeps req b zero attempt last s =
        unfold forward in (record { router = refl; keys = refl })
    forward-Keeps req b (suc left) attempt last s =
        elim (Result-cases (asked g w now identity req b body attempt)) [
          | inl (resp, e) ↦
              rw (forward-ok g w now identity req b body left attempt last s resp e)
                (relay_response-Keeps req b resp s)
          | inr (e, answer) ↦ elim (Bool-cases (is_retryable e)) [
            | inr final ↦
                rw (forward-refused g w now identity req b body left attempt last s e answer final)
                  (record { router = refl; keys = refl })
            | inl again ↦
                let s' : AppState g = record s {
                  metrics = record_upstream_error s.metrics b.name;
                } in
                let later = forward-Keeps req b left (attempt + 1) (some e) s' in
                rw (forward-retry g w now identity req b body left attempt last s e answer again)
                  (record { router = later.router; keys = later.keys })
          ]
        ]

    pub chat_completions-Keeps :
        (s : AppState g) → Keeps s (chat_completions g w now identity body s).0
    chat_completions-Keeps s = elim (chat_completions-cases g w now identity body s) [
      | inl (silent, router, keys) ↦ record { router = router; keys = keys }
      | inr (b, routed, e) ↦
          let later =
            forward-Keeps (req g w now identity body s) b (max_retries + 1) 0 none
              (counted g w now identity body s) in
          rw e (record { router = later.router; keys = later.keys })
    ]

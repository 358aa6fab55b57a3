-- ===== src/Server/Tasks/Exported.antt =====
-- src/server.rs: the token counters of the metrics beside those of the ledger, in requests that are
-- served at the same time.
use patchbay.Common.{
  ℕ, ◌≡◌, refl, inl, inr, Bool, Option, none, some, List, [], ◌∷◌, arith, Result, Result-cases,
  Option-cases,
}
use patchbay.Common.Texts.{Text, codes}
use patchbay.Common.Maps.{get}
use patchbay.Common.Order.{Float64}
use patchbay.Config.{GatewayConfig}
use patchbay.Router.Ewma.{router_from_config}
use patchbay.Auth.{KeyIdentity}
use patchbay.Upstream.{
  Bytes, Usage, RelaySummary, RelayOutcome, completed, stalled, client_disconnected, upstream_error,
}
use patchbay.Upstream.Client.{HttpResponse}
use patchbay.Limits.{Governor, check_rpm}
use patchbay.Budget.{Codec, Files, counters_for, new_ledger, add_usage}
use patchbay.Budget.Accounting.{used_by}
use patchbay.Metrics.{
  new_metrics, count, record_request, record_upstream_error, record_rate_limit_rejection,
}
use patchbay.Metrics.Tokens.{tokens_of, tokens_of-record_tokens}
use patchbay.Server.{World, AppState, from_config, account_usage, account_outcome, account_stream}
use patchbay.Server.Handler.{buffered_response}
use patchbay.Server.Tasks.{
  begin, on_answer, on_body, Gateway, Step, arrive, answer, read, poll, drop, summarised, Reach,
  start, later,
}
use patchbay.Server.Tasks.Cases.{begin-Fixed, on_answer-Fixed}
use patchbay.Server.Tasks.Ledger.{account_usage-before}

module _ (g : Governor) (key : Text) where
  -- The counters that are exported for the key are those of its budget.
  pub record IsExported (s : AppState g) : Type 0 where
    pub prompt : tokens_of s.metrics key (codes "prompt") ≡ (used_by s.budget key).prompt_tokens
    pub completion :
        tokens_of s.metrics key (codes "completion") ≡ (used_by s.budget key).completion_tokens
    pub total : tokens_of s.metrics key (codes "total") ≡ (used_by s.budget key).total_tokens

  IsExported-same :
      (s t : AppState g)
      → IsExported s
      → t.metrics.tokens ≡ s.metrics.tokens
      → t.budget ≡ s.budget
      → IsExported t
  IsExported-same s t e tokens budget = record {
    prompt = rw (tokens, budget) e.prompt;
    completion = rw (tokens, budget) e.completion;
    total = rw (tokens, budget) e.total;
  }

  account_usage-IsExported :
      (now : ℕ) (k : Text) (u : Option Usage) (s : AppState g)
      → IsExported s
      → IsExported (account_usage g now k u s)
  account_usage-IsExported now k none s e = unfold account_usage in e
  account_usage-IsExported now k (some u) s e =
      let before = account_usage-before g now k key (some u) s in
      let (prompt, completion, total) = tokens_of-record_tokens s.metrics k key u in
      unfold account_usage add_usage in
      (record {
        prompt = ground (arith, before, prompt, e.prompt);
        completion = ground (arith, before, completion, e.completion);
        total = ground (arith, before, total, e.total);
      })

  account_outcome-IsExported :
      (backend : Text) (o : RelayOutcome) (s : AppState g)
      → IsExported s
      → IsExported (account_outcome g backend o s)
  unfolding account_outcome record_upstream_error
  account_outcome-IsExported backend completed s e = e
  account_outcome-IsExported backend stalled s e = IsExported-same s _ e refl refl
  account_outcome-IsExported backend client_disconnected s e = e
  account_outcome-IsExported backend (upstream_error text) s e = IsExported-same s _ e refl refl

  account_stream-IsExported :
      (now : ℕ) (k backend : Text) (sent : List RelaySummary) (s : AppState g)
      → IsExported s
      → IsExported (account_stream g now k backend sent s)
  unfolding account_stream
  account_stream-IsExported now k backend [] s e = e
  account_stream-IsExported now k backend (summary ∷ rest) s e =
      account_outcome-IsExported backend summary.outcome _
        (account_usage-IsExported now k summary.usage s e)

  from_config-IsExported :
      (x : Float64) {Addr : Type 0} (codec : Codec) (files : Files) (now : ℕ)
      (cfg : GatewayConfig Addr x.F) {s : AppState g}
      → from_config g x codec files now cfg ≡ some s
      → IsExported s
  unfolding from_config new_ledger get
  from_config-IsExported x codec files now cfg {s} made =
      elim (Option-cases (router_from_config x cfg)) [
        | inl panicked ↦ ground arith
        | inr (r, routed) ↦
            let tokens : s.metrics ≡ new_metrics = ground arith in
            let budget : s.budget ≡ new_ledger codec files now [] 3600 none = ground arith in
            unfold count counters_for in
            (record {
              prompt = rw (tokens, budget) refl;
              completion = rw (tokens, budget) refl;
              total = rw (tokens, budget) refl;
            })
      ]

  module _ (w : World) (parse_envelope : Bytes → Option (Option Usage)) (fired : ℕ → ℕ → Bool) where
    begin-tokens :
        (now : ℕ) (identity : KeyIdentity) (body : Bytes) (s : AppState g)
        → (begin g w now identity body s).0.metrics.tokens ≡ s.metrics.tokens
    unfolding begin record_rate_limit_rejection
    begin-tokens now identity body s =
        elim (Result-cases (check_rpm g s.limits identity.name now).1) [
          | inr (e, limited) ↦ ground arith
          | inl (_, admitted) ↦ ground arith
        ]

    on_answer-tokens :
        (now : ℕ) (result : Result _ HttpResponse) (identity : KeyIdentity) (req : _) (b : _)
        (body : Bytes) (attempt : ℕ) (s : AppState g)
        → (on_answer g w now result identity req b body attempt s).0.metrics.tokens
          ≡ s.metrics.tokens
    unfolding on_answer record_request record_upstream_error
    on_answer-tokens now result identity req b body attempt s = ground arith

    on_body-IsExported :
        (now : ℕ) (k backend : Text) (resp : HttpResponse) (s : AppState g)
        → IsExported s
        → IsExported (on_body g w now k backend resp s).0
    unfolding buffered_response record_upstream_error
    on_body-IsExported now k backend resp s e = elim (Result-cases resp.bytes) [
      | inr (message, failed) ↦ rw failed (IsExported-same s _ e refl refl)
      | inl (bytes, got) ↦ rw got (account_usage-IsExported now k (w.usage_of_body bytes) s e)
    ]

    Step-IsExported :
        {t u : Gateway g w}
        → Step g w parse_envelope fired t u
        → IsExported t.state
        → IsExported u.state
    Step-IsExported {t} (arrive now identity body) e =
        IsExported-same t.state _ e (begin-tokens now identity body t.state)
          (begin-Fixed g w now identity body t.state).1
    Step-IsExported {t} (answer now i result identity req b body attempt found) e =
        IsExported-same t.state _ e
          (on_answer-tokens now result identity req b body attempt t.state)
          (on_answer-Fixed g w now result identity req b body attempt t.state).1
    Step-IsExported {t} (read now i k backend resp found) e =
        on_body-IsExported now k backend resp t.state e
    Step-IsExported (poll now i up st found live) e = e
    Step-IsExported (drop i st found live) e = e
    Step-IsExported {t} (summarised now i st found waits ready) e =
        account_stream-IsExported now st.key st.backend st.relay.sent t.state e

    -- In a gateway whose state `from_config` made, the three token counters that the metrics export for
    -- a key are those of the key in the ledger, after every step. A scrape in the middle of a step, from
    -- another thread, may see that only one of the two has been raised.
    pub Reach-IsExported :
        (x : Float64) (Addr : Type 0) (codec : Codec) (files : Files) (now : ℕ)
        (cfg : GatewayConfig Addr x.F) (s : AppState g) (t : Gateway g w)
        → from_config g x codec files now cfg ≡ some s
        → Reach g w parse_envelope fired s t
        → IsExported t.state
    Reach-IsExported x Addr codec files now cfg s _ made start =
        from_config-IsExported x codec files now cfg made
    Reach-IsExported x Addr codec files now cfg s _ made (later {t} before step) =
        Step-IsExported step (Reach-IsExported x Addr codec files now cfg s t made before)

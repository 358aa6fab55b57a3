-- ===== src/Server/Accounts.antt =====
-- src/server.rs: what a response charges to the key that asked for it.
use patchbay.Common.{ℕ, ◌≡◌, refl, ap, ◌∙◌, Bool, Option, none, some, List, arith, if◌then◌else◌}
use patchbay.Common.Texts.{Text, text_eq, text_eq_iff}
use patchbay.Upstream.{
  Bytes, Usage, RelayOutcome, completed, stalled, client_disconnected, upstream_error,
}
use patchbay.Upstream.Scanner.{new_scanner}
use patchbay.Upstream.Scanner.Feed.{feed_all}
use patchbay.Upstream.Relay.{UpstreamPoll, RelayPoll, new_relay, drop_relay, run}
use patchbay.Upstream.Relay.Report.{chunks_of, summary_of, run-summary}
use patchbay.Limits.{Governor}
use patchbay.Budget.{KeyCounters, add_usage}
use patchbay.Budget.Accounting.{used_by, used_by-record_usage}
use patchbay.Server.{AppState, account_usage, account_outcome, account_stream, stall_timeout_ms}

-- The counters of a key to which a usage is charged, when there is one.
abbrev pub charged : Option Usage → KeyCounters → KeyCounters
charged none c = c
charged (some u) c = add_usage c u

module _ (g : Governor) where
  pub account_usage-charged :
      (now : ℕ) (key other : Text) (u : Option Usage) (s : AppState g)
      → used_by (account_usage g now key u s).budget other
        ≡ (if text_eq key other then charged u (used_by s.budget key) else used_by s.budget other)
  unfolding account_usage
  account_usage-charged now key other none s =
      ground (arith, text_eq_iff key other, ap (used_by s.budget))
  account_usage-charged now key other (some u) s = used_by-record_usage s.budget key other u

  pub account_outcome-budget :
      (backend : Text) (o : RelayOutcome) (s : AppState g)
      → (account_outcome g backend o s).budget ≡ s.budget
  unfolding account_outcome
  account_outcome-budget backend completed s = refl
  account_outcome-budget backend stalled s = refl
  account_outcome-budget backend client_disconnected s = refl
  account_outcome-budget backend (upstream_error e) s = refl

  module _ (parse_envelope : Bytes → Option (Option Usage)) (fired : ℕ → ℕ → Bool) where
    -- The usage that the scanner has after the chunks that the client got.
    abbrev pub seen_usage : List RelayPoll → Option Usage
    seen_usage out = (feed_all parse_envelope new_scanner (chunks_of out)).last_usage

    -- However the client polls a stream and whenever it drops it, what the stream adds to the
    -- budget of the key is the usage that the scanner has after exactly the chunks that the client
    -- got, once, and nothing when there is none; no other key is charged.
    pub account_stream-charged :
        (start now : ℕ) (ps : List (ℕ × UpstreamPoll)) (key backend other : Text) (s : AppState g)
        → used_by
            (account_stream g now key backend
              (drop_relay (run parse_envelope fired (new_relay start stall_timeout_ms) ps).0).sent
              s).budget
            other
          ≡ (if text_eq key other
              then charged
                  (seen_usage (run parse_envelope fired (new_relay start stall_timeout_ms) ps).1)
                  (used_by s.budget key)
              else used_by s.budget other)
    unfolding account_stream
    account_stream-charged start now ps key backend other s =
        let relay = new_relay start stall_timeout_ms in
        let out = (run parse_envelope fired relay ps).1 in
        let told = summary_of parse_envelope fired relay out in
        let after = account_usage g now key told.usage s in
        ap (λ sent. used_by (account_stream g now key backend sent s).budget other)
          (run-summary parse_envelope fired start stall_timeout_ms ps)
        ∙ ap (λ l. used_by l other) (account_outcome-budget backend told.outcome after)
        ∙ account_usage-charged now key other told.usage s
        ∙ (unfold new_relay in refl)

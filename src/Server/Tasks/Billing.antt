-- ===== src/Server/Tasks/Billing.antt =====
-- src/server.rs: what the keys of requests that are served at the same time are charged.
use patchbay.Common.{
  ℕ, zero, suc, ◌+◌, ◌≡◌, ap, Bool, true, false, Option, none, some, List, [], ◌∷◌, ◌++◌, arith,
  get_elem?, set_at, if◌then◌else◌,
}
use patchbay.Common.Texts.{Text, text_eq}
use patchbay.Upstream.{Bytes, Usage}
use patchbay.Limits.{Governor}
use patchbay.Budget.{KeyCounters, add_usage}
use patchbay.Budget.Accounting.{Log, spent, IsSpent}
use patchbay.Server.{Response, World}
use patchbay.Server.Accounts.{charged}
use patchbay.Server.Tasks.{Stream, Task, forwarding, reading, streaming, answered}
use patchbay.Server.Tasks.Tracked.{scanned}

-- A usage under its key, when there is one.
abbrev pub entry : Text → Option Usage → Log
entry key none = []
entry key (some u) = (key, u) ∷ []

spent-append :
    (count : Usage → ℕ) (xs ys : Log) (key : Text)
    → spent count (xs ++ ys) key ≡ spent count xs key + spent count ys key
spent-append count [] ys key = omega arith
spent-append count ((k, u) ∷ xs) ys key = omega (arith, spent-append count xs ys key)

-- When a key is charged and the log has one entry more, the log still explains the counters.
pub IsSpent-charged :
    (first before after : KeyCounters) (log log' : Log) (k key : Text) (u : Option Usage)
    → IsSpent first before log key
    → after ≡ (if text_eq k key then charged u before else before)
    → ((count : Usage → ℕ)
        → spent count log' key ≡ spent count log key + spent count (entry k u) key)
    → IsSpent first after log' key
unfolding add_usage
IsSpent-charged first before after log log' k key none i e grows =
    let same : after ≡ before = ground arith in
    record {
      prompt = ground (arith, same, i.prompt, grows (λ v. v.prompt_tokens));
      completion = ground (arith, same, i.completion, grows (λ v. v.completion_tokens));
      total = ground (arith, same, i.total, grows (λ v. v.total_tokens));
    }
IsSpent-charged first before after log log' k key (some u) i e grows = record {
  prompt = ground (arith, e, i.prompt, grows (λ v. v.prompt_tokens));
  completion = ground (arith, e, i.completion, grows (λ v. v.completion_tokens));
  total = ground (arith, e, i.total, grows (λ v. v.total_tokens));
}

pub IsSpent-same :
    (first before after : KeyCounters) (log log' : Log) (key : Text)
    → IsSpent first before log key
    → after ≡ before
    → ((count : Usage → ℕ) → spent count log' key ≡ spent count log key)
    → IsSpent first after log' key
IsSpent-same first before after log log' key i e same = record {
  prompt = ground (arith, e, i.prompt, same (λ v. v.prompt_tokens));
  completion = ground (arith, e, i.completion, same (λ v. v.completion_tokens));
  total = ground (arith, e, i.total, same (λ v. v.total_tokens));
}

module _ (g : Governor) (w : World) (parse_envelope : Bytes → Option (Option Usage))
    (fired : ℕ → ℕ → Bool) where
  abbrev pub stream_charge : Bool → Stream → Log
  stream_charge true st = []
  stream_charge false st = entry st.key (scanned g w parse_envelope fired st).last_usage

  -- What a task has charged: the usage in the body that the client got, or, once the stream has been
  -- accounted for, the usage that the scanner has after the chunks that the client got.
  abbrev pub charge : Task → Log
  charge (forwarding identity req b body attempt) = []
  charge (reading key backend resp) = []
  charge (streaming st) = stream_charge st.waiting st
  charge (answered key (Response.error status type cause)) = []
  charge (answered key (Response.streaming content_type relay)) = []
  charge (answered key (Response.buffered status content_type body)) =
      entry key (w.usage_of_body body)

  abbrev pub charges : List Task → Log
  charges [] = []
  charges (t ∷ ts) = charge t ++ charges ts

  pub charges-set_at :
      (count : Usage → ℕ) (key : Text) (ts : List Task) (i : ℕ) (t t' : Task)
      → get_elem? ts i ≡ some t
      → spent count (charges (set_at ts i t')) key + spent count (charge t) key
        ≡ spent count (charges ts) key + spent count (charge t') key
  charges-set_at count key [] i t t' e = cc
  charges-set_at count key (x ∷ ts) zero t t' e =
      let same : spent count (charge x) key ≡ spent count (charge t) key =
        let q : x ≡ t = cc in ap (λ (y : Task). spent count (charge y) key) q in
      omega (
        arith,
        same,
        spent-append count (charge x) (charges ts) key,
        spent-append count (charge t') (charges ts) key,
      )
  charges-set_at count key (x ∷ ts) (suc i) t t' e = omega (
    arith,
    charges-set_at count key ts i t t' e,
    spent-append count (charge x) (charges ts) key,
    spent-append count (charge x) (charges (set_at ts i t')) key,
  )

  pub charges-append :
      (count : Usage → ℕ) (key : Text) (ts : List Task) (t : Task)
      → spent count (charges (ts ++ (t ∷ []))) key
        ≡ spent count (charges ts) key + spent count (charge t) key
  charges-append count key [] t = omega (arith, spent-append count (charge t) [] key)
  charges-append count key (x ∷ ts) t = omega (
    arith,
    charges-append count key ts t,
    spent-append count (charge x) (charges ts) key,
    spent-append count (charge x) (charges (ts ++ (t ∷ []))) key,
  )

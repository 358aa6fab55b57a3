-- ===== src/Server/Tasks/Ledger.antt =====
-- src/server.rs: the ledger beside the requests that are served at the same time.
use patchbay.Common.{
  ℕ, ◌≡◌, refl, ap, ◌∙◌, inl, inr, Bool, Option, none, some, List, [], ◌∷◌, arith, Result,
  Result-cases, Bool-cases, get_elem?, set_at, All, All-set_at, if◌then◌else◌,
}
use patchbay.Common.Texts.{Text, text_eq, text_eq_iff}
use patchbay.Auth.{KeyIdentity}
use patchbay.Upstream.{Bytes, Usage, RelaySummary}
use patchbay.Upstream.Client.{HttpResponse}
use patchbay.Limits.{Governor}
use patchbay.Budget.Accounting.{used_by, Log, spent, IsSpent}
use patchbay.Server.{World, AppState, account_usage, account_stream}
use patchbay.Server.Accounts.{charged, account_usage-charged, account_outcome-budget}
use patchbay.Server.Handler.{buffered_response}
use patchbay.Server.Tasks.{Task, streaming, begin, on_answer, on_body, Gateway}
use patchbay.Server.Tasks.Cases.{begin-cases, on_answer-cases}
use patchbay.Server.Tasks.Tracked.{IsTracked, IsFresh-IsTracked}
use patchbay.Server.Tasks.Billing.{
  entry, stream_charge, charge, charges, charges-set_at, IsSpent-charged, IsSpent-same,
}

module _ (g : Governor) where
  pub account_usage-before :
      (now : ℕ) (k key : Text) (u : Option Usage) (t : AppState g)
      → used_by (account_usage g now k u t).budget key
        ≡ (if text_eq k key then charged u (used_by t.budget key) else used_by t.budget key)
  account_usage-before now k key u t = elim (Bool-cases (text_eq k key)) [
    | inl same ↦
        account_usage-charged g now k key u t
        ∙ (rw same (ap (λ j. charged u (used_by t.budget j)) ((text_eq_iff k key).0 same)))
    | inr differs ↦ account_usage-charged g now k key u t ∙ rw differs refl
  ]

  pub account_stream-before :
      (now : ℕ) (k backend key : Text) (summary : RelaySummary) (sent : List RelaySummary)
      (t : AppState g)
      → sent ≡ summary ∷ []
      → used_by (account_stream g now k backend sent t).budget key ≡ (
          if text_eq k key
          then charged summary.usage (used_by t.budget key)
          else used_by t.budget key)
  unfolding account_stream
  account_stream-before now k backend key summary sent t e =
      ap (λ l. used_by (account_stream g now k backend l t).budget key) e
      ∙ ap (λ b. used_by b key)
          (account_outcome-budget g backend summary.outcome (account_usage g now k summary.usage t))
      ∙ account_usage-before now k key summary.usage t

module _ (g : Governor) (w : World) (parse_envelope : Bytes → Option (Option Usage))
    (fired : ℕ → ℕ → Bool) where
  abbrev charged_by : Task → Log
  charged_by = charge g w parse_envelope fired

  abbrev pub Tracks : Task → Type 0
  Tracks (streaming st) = IsTracked g w parse_envelope fired st
  Tracks _ = Unit

  pub begin-charge :
      (now : ℕ) (identity : KeyIdentity) (body : Bytes) (t : AppState g)
      → (charged_by (begin g w now identity body t).1 ≡ [])
        × Tracks (begin g w now identity body t).1
  begin-charge now identity body t = elim (begin-cases g w now identity body t) [
    | inl (status, type, cause, e) ↦ rw e (refl, tt)
    | inr (b, routed, e) ↦ rw e (refl, tt)
  ]

  pub on_answer-charge :
      (now : ℕ) (result : Result _ HttpResponse) (identity : KeyIdentity) (req : _) (b : _)
      (body : Bytes) (attempt : ℕ) (t : AppState g)
      → (charged_by (on_answer g w now result identity req b body attempt t).1 ≡ [])
        × Tracks (on_answer g w now result identity req b body attempt t).1
  on_answer-charge now result identity req b body attempt t =
      elim (on_answer-cases g w now result identity req b body attempt t) [
        | inl (status, type, cause, e) ↦ rw e (refl, tt)
        | inr (inl (e, more)) ↦ rw e (refl, tt)
        | inr (inr (inl (resp, e))) ↦ rw e (refl, tt)
        | inr (inr (inr (st, e, fresh))) ↦ rw e (
          ap (λ b. stream_charge g w parse_envelope fired b st) fresh.waiting,
          IsFresh-IsTracked g w parse_envelope fired now identity.name st fresh,
        )
      ]

  -- What reading a body charges is the charge of the answer.
  pub on_body-charge :
      (now : ℕ) (k backend key : Text) (resp : HttpResponse) (t : AppState g)
      → (u : Option Usage) × (used_by (on_body g w now k backend resp t).0.budget key
          ≡ (if text_eq k key then charged u (used_by t.budget key) else used_by t.budget key))
        × (charged_by (on_body g w now k backend resp t).1 ≡ entry k u)
  unfolding buffered_response
  on_body-charge now k backend key resp t = elim (Result-cases resp.bytes) [
    | inr (e, unread) ↦ (none, ground arith, ground arith)
    | inl (bytes, got) ↦
        let before = account_usage-before g now k key (w.usage_of_body bytes) t in
        (w.usage_of_body bytes, ground (arith, before), ground arith)
  ]

  module _ (s : AppState g) (key : Text) where
    -- Each stream knows the chunks that its client has got, and the charges of the tasks explain the
    -- counters of the key.
    pub record IsBilled (t : Gateway g w) : Type 0 where
      pub tracked : All Tracks t.tasks
      pub billed :
          IsSpent
            (used_by s.budget key)
            (used_by t.state.budget key)
            (charges g w parse_envelope fired t.tasks)
            key

    -- A task that changes without a charge.
    pub set_uncharged :
        (t : Gateway g w) (i : ℕ) (old new : Task) (after : AppState g)
        → IsBilled t
        → get_elem? t.tasks i ≡ some old
        → charged_by new ≡ charged_by old
        → used_by after.budget key ≡ used_by t.state.budget key
        → Tracks new
        → IsBilled (record { state = after; tasks = set_at t.tasks i new })
    set_uncharged t i old new after b found same kept tracks = record {
      tracked = All-set_at Tracks t.tasks i new b.tracked tracks;
      billed =
          IsSpent-same (used_by s.budget key) (used_by t.state.budget key)
            (used_by after.budget key) (charges g w parse_envelope fired t.tasks) _ key b.billed
            kept
            (λ count. omega (
              arith,
              charges-set_at g w parse_envelope fired count key t.tasks i old new found,
              ap (λ l. spent count l key) same,
            ));
    }

    -- A task that changes with the charge of a usage.
    pub set_charged :
        (t : Gateway g w) (i : ℕ) (old new : Task) (after : AppState g) (k : Text)
        (u : Option Usage)
        → IsBilled t
        → get_elem? t.tasks i ≡ some old
        → charged_by old ≡ []
        → charged_by new ≡ entry k u
        → used_by after.budget key ≡ (
            if text_eq k key
            then charged u (used_by t.state.budget key)
            else used_by t.state.budget key)
        → Tracks new
        → IsBilled (record { state = after; tasks = set_at t.tasks i new })
    set_charged t i old new after k u b found free paid kept tracks = record {
      tracked = All-set_at Tracks t.tasks i new b.tracked tracks;
      billed =
          IsSpent-charged (used_by s.budget key) (used_by t.state.budget key)
            (used_by after.budget key) (charges g w parse_envelope fired t.tasks) _ k key u b.billed
            kept
            (λ count. omega (
              arith,
              charges-set_at g w parse_envelope fired count key t.tasks i old new found,
              ap (λ l. spent count l key) free,
              ap (λ l. spent count l key) paid,
            ));
    }

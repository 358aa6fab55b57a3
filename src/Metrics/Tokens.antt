-- ===== src/Metrics/Tokens.antt =====
-- src/metrics.rs: the token counters of a key.
use patchbay.Common.{
  ℕ, ◌≡◌, ◌≢◌, ◌+◌, ◌%◌, ap, ◌∙◌, false, ◌++◌, arith, drop, inl, inr, Bool-cases, if◌then◌else◌,
}
use patchbay.Common.Texts.{Text, codes, text_eq, text_eq_iff}
use patchbay.Upstream.{Usage, u64_mod}
use patchbay.Metrics.{LabeledCounters, count, add, token_label, MetricsHandle, record_tokens}
use patchbay.Metrics.Labels.{escape-same, count-add}

abbrev pub tokens_of : MetricsHandle → Text → Text → ℕ
tokens_of m key kind = count m.tokens (token_label key kind)

token_label-injective :
    (a b kind other : Text)
    → token_label a kind ≡ token_label b other
    → (a ≡ b) × (kind ++ codes "\"}" ≡ other ++ codes "\"}")
unfolding token_label
token_label-injective a b kind other h =
    let first = escape-same a b _ _ (ap (drop 6) h) in (first.0, ap (drop 7) first.1)

text_eq-token_label :
    (a b kind : Text) → text_eq (token_label a kind) (token_label b kind) ≡ text_eq a b
text_eq-token_label a b kind = ground (
  arith,
  text_eq_iff (token_label a kind) (token_label b kind),
  text_eq_iff a b,
  token_label-injective a b kind kind,
)

token_label-kinds :
    (a b kind other : Text)
    → kind ++ codes "\"}" ≢ other ++ codes "\"}"
    → text_eq (token_label a kind) (token_label b other) ≡ false
token_label-kinds a b kind other differ = ground (
  arith,
  text_eq_iff (token_label a kind) (token_label b other),
  token_label-injective a b kind other,
)

abbrev counted : Text → Text → ℕ → ℕ → ℕ
counted k key before n = if text_eq k key then (before + n) % u64_mod else before

count-token_label :
    (m : LabeledCounters) (k key kind : Text) (n : ℕ)
    → count (add m (token_label k kind) n) (token_label key kind)
      ≡ counted k key (count m (token_label key kind)) n
count-token_label m k key kind n = elim (Bool-cases (text_eq k key)) [
  | inl same ↦ ground (
    arith,
    count-add m (token_label k kind) (token_label key kind) n,
    text_eq-token_label k key kind,
    ap (λ j. count m (token_label j kind)) ((text_eq_iff k key).0 same),
  )
  | inr other ↦ ground (
    arith,
    count-add m (token_label k kind) (token_label key kind) n,
    text_eq-token_label k key kind,
  )
]

count-other_kind :
    (m : LabeledCounters) (k key kind other : Text) (n : ℕ)
    → kind ++ codes "\"}" ≢ other ++ codes "\"}"
    → count (add m (token_label k kind) n) (token_label key other) ≡ count m (token_label key other)
count-other_kind m k key kind other n differ = ground (
  arith,
  count-add m (token_label k kind) (token_label key other) n,
  token_label-kinds k key kind other differ,
)

-- A usage is added to the three counters of its key, and to no other.
pub tokens_of-record_tokens :
    (m : MetricsHandle) (k key : Text) (u : Usage)
    → (tokens_of (record_tokens m k u) key (codes "prompt")
        ≡ counted k key (tokens_of m key (codes "prompt")) u.prompt_tokens)
      × (tokens_of (record_tokens m k u) key (codes "completion")
          ≡ counted k key (tokens_of m key (codes "completion")) u.completion_tokens)
      × (tokens_of (record_tokens m k u) key (codes "total")
          ≡ counted k key (tokens_of m key (codes "total")) u.total_tokens)
unfolding record_tokens
tokens_of-record_tokens m k key u =
    let prompt = add m.tokens (token_label k (codes "prompt")) u.prompt_tokens in
    let completion = add prompt (token_label k (codes "completion")) u.completion_tokens in
    (
      count-other_kind completion k key (codes "total") (codes "prompt") u.total_tokens
            (ground arith)
          ∙ count-other_kind prompt k key (codes "completion") (codes "prompt") u.completion_tokens
              (ground arith)
          ∙ count-token_label m.tokens k key (codes "prompt") u.prompt_tokens,
      count-other_kind completion k key (codes "total") (codes "completion") u.total_tokens
            (ground arith)
          ∙ count-token_label prompt k key (codes "completion") u.completion_tokens
          ∙ ap (λ n. counted k key n u.completion_tokens)
              (count-other_kind m.tokens k key (codes "prompt") (codes "completion") u.prompt_tokens
                (ground arith)),
      count-token_label completion k key (codes "total") u.total_tokens
          ∙ ap (λ n. counted k key n u.total_tokens)
              (count-other_kind prompt k key (codes "completion") (codes "total")
                  u.completion_tokens (ground arith)
                ∙ count-other_kind m.tokens k key (codes "prompt") (codes "total") u.prompt_tokens
                    (ground arith)),
    )

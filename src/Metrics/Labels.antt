-- ===== src/Metrics/Labels.antt =====
-- src/metrics.rs: the labels of the counters, read as the Prometheus format says.
use mathlib.Core.List.{append_assoc}
use patchbay.Common.{
  ℕ, ◌≡◌, ◌+◌, ◌%◌, ◌<◌, refl, ap, sym, ◌∙◌, Bool, false, Option, none, some, List, [], ◌∷◌, ◌++◌,
  arith, not, ◌&&◌, drop, ◌==◌, if◌then◌else◌,
}
use patchbay.Common.Texts.{Text, codes, text_eq, text_eq_iff}
use patchbay.Common.Maps.{get-insert}
use patchbay.Upstream.{u64_mod}
use patchbay.Metrics.{
  LabeledCounters, count, add, replace, escape, request_label, MetricsHandle, record_request,
}

-- What one character is escaped to.
abbrev pub escaped : ℕ → Text
escaped c =
    if c == b'\\'
    then codes "\\\\"
    else if c == b'"'
    then codes "\\\""
    else if c == b'\n'
    then codes "\\n"
    else c ∷ []

pub escape-nil : escape [] ≡ []
unfolding escape replace
escape-nil = refl

pub escape-cons : (c : ℕ) (s : Text) → escape (c ∷ s) ≡ escaped c ++ escape s
unfolding escape replace
escape-cons c s = ground arith

-- A reader of a label value, which follows the Prometheus format: a backslash takes the next
-- character with it, and the value ends at the first quote that no backslash takes.
abbrev unescaped : ℕ → ℕ
unescaped d = if d == b'n' then b'\n' else d

abbrev consed : ℕ → Option (Text × Text) → Option (Text × Text)
consed c none = none
consed c (some (s, rest)) = some (c ∷ s, rest)

-- `taken` says that a backslash stands before.
pub read_value : Bool → Text → Option (Text × Text)
read_value taken [] = none
read_value taken (c ∷ s) =
    let later = read_value (not taken && c == b'\\') s in
    if taken
    then consed (unescaped c) later
    else if c == b'"'
    then some ([], s)
    else if c == b'\\'
    then later
    else consed c later

read_value-escaped :
    (c : ℕ) (t : Text) → read_value false (escaped c ++ t) ≡ consed c (read_value false t)
unfolding read_value
read_value-escaped c t = ground arith

pub read_value-escape :
    (s rest : Text) → read_value false (escape s ++ (b'"' ∷ rest)) ≡ some (s, rest)
unfolding read_value
read_value-escape [] rest = ap (λ (t : Text). read_value false (t ++ (b'"' ∷ rest))) escape-nil
read_value-escape (c ∷ s) rest =
    ap (λ (t : Text). read_value false (t ++ (b'"' ∷ rest))) (escape-cons c s)
    ∙ ap (read_value false) (append_assoc (escaped c) (escape s) (b'"' ∷ rest))
    ∙ read_value-escaped c (escape s ++ (b'"' ∷ rest))
    ∙ ap (consed c) (read_value-escape s rest)

abbrev value_then : Text → Text → Option (Text × Text)
value_then s rest = some (s, rest)

-- Two texts that begin with an escaped value and a quote agree in the value and in the rest.
pub escape-same :
    (a b rest more : Text)
    → escape a ++ (b'"' ∷ rest) ≡ escape b ++ (b'"' ∷ more)
    → (a ≡ b) × (rest ≡ more)
escape-same a b rest more h =
    let e : value_then a rest ≡ value_then b more =
      sym (read_value-escape a rest) ∙ ap (read_value false) h ∙ read_value-escape b more in
    (cc, cc)

-- Requests that differ in the backend, the model or the status class have different labels.
pub request_label-injective :
    (a b model other class status : Text)
    → request_label a model class ≡ request_label b other status
    → (a ≡ b) × (model ≡ other) × (class ≡ status)
unfolding request_label
request_label-injective a b model other class status h =
    let first = escape-same a b _ _ (ap (drop 10) h) in
    let second = escape-same model other _ _ (ap (drop 8) first.1) in
    let third = escape-same class status _ _ (ap (drop 9) second.1) in (first.0, second.0, third.0)

-- A request: its backend, its model and its status class.
pub record Request : Type 0 where
  pub backend : Text
  pub model : Text
  pub status_class : Text

abbrev pub same_request : Request → Request → Bool
same_request r q =
    text_eq r.backend q.backend
    && (text_eq r.model q.model && text_eq r.status_class q.status_class)

pub record_all : MetricsHandle → List Request → MetricsHandle
record_all m [] = m
record_all m (r ∷ rs) = record_all (record_request m r.backend r.model r.status_class) rs

abbrev pub occurrences : Request → List Request → ℕ
occurrences q [] = 0
occurrences q (r ∷ rs) = (if same_request r q then 1 else 0) + occurrences q rs

abbrev pub requests_of : MetricsHandle → Request → ℕ
requests_of m q = count m.requests (request_label q.backend q.model q.status_class)

pub count-add :
    (m : LabeledCounters) (key other : Text) (n : ℕ)
    → count (add m key n) other
      ≡ (if text_eq key other then (count m key + n) % u64_mod else count m other)
unfolding count add
count-add m key other n = ground (arith, get-insert m key other ((count m key + n) % u64_mod))

pub text_eq-request_label :
    (r q : Request)
    → text_eq
        (request_label r.backend r.model r.status_class)
        (request_label q.backend q.model q.status_class)
      ≡ same_request r q
text_eq-request_label r q = ground (
  arith,
  text_eq_iff (request_label r.backend r.model r.status_class)
      (request_label q.backend q.model q.status_class),
  text_eq_iff r.backend q.backend,
  text_eq_iff r.model q.model,
  text_eq_iff r.status_class q.status_class,
  request_label-injective r.backend q.backend r.model q.model r.status_class q.status_class,
)

requests_of-record_request :
    (m : MetricsHandle) (r q : Request)
    → requests_of (record_request m r.backend r.model r.status_class) q
      ≡ (if same_request r q then (requests_of m q + 1) % u64_mod else requests_of m q)
unfolding record_request
requests_of-record_request m r q = ground (
  arith,
  count-add m.requests (request_label r.backend r.model r.status_class)
      (request_label q.backend q.model q.status_class) 1,
  text_eq-request_label r q,
  text_eq_iff (request_label r.backend r.model r.status_class)
      (request_label q.backend q.model q.status_class),
)

-- After any requests, the counter of a backend, a model and a status class is what it was and the
-- number of requests with exactly these three, mod 2^64.
pub record_all-occurrences :
    (m : MetricsHandle) (rs : List Request) (q : Request)
    → requests_of m q < u64_mod
    → requests_of (record_all m rs) q ≡ (requests_of m q + occurrences q rs) % u64_mod
unfolding record_all
record_all-occurrences m [] q small = omega arith
record_all-occurrences m (r ∷ rs) q small =
    let m' : MetricsHandle = record_request m r.backend r.model r.status_class in
    let step : requests_of m' q
        ≡ (if same_request r q then (requests_of m q + 1) % u64_mod else requests_of m q) =
      requests_of-record_request m r q in
    let below : requests_of m' q < u64_mod = ground arith in
    let later = record_all-occurrences m' rs q below in ground arith

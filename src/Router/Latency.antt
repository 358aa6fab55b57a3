-- ===== src/Router/Latency.antt =====
-- src/router.rs: which backend the latency policy chooses.
use Prim.Native.Nat.{Ordering}
use mathlib.Core.Path.{fun_ext}
use native.Mathlib.Nat.{add-zero}
use patchbay.Common.{
  ℕ, suc, ◌+◌, ◌<◌, ◌≡◌, ◌≢◌, refl, ap, sym, ◌∙◌, ◌⊎◌, inl, inr, Bool, Option, none, some, List, [],
  ◌∷◌, arith, get_elem?, length,
}
use patchbay.Common.Maps.{get, get_or, get-empty}
use patchbay.Common.Order.{Float64, IsTotalOrder}
use patchbay.Config.{Backend}
use patchbay.Router.{Policy, RouteQuery, route, static_priority}
use patchbay.Router.Choice.{Chooses}
use patchbay.Router.Ewma.{EwmaLatency, score, min_from, ewma_choose, ewma_policy}

Ordering-gt : (o : Ordering) → (o ≡ Ordering.gt) ⊎ (o ≢ Ordering.gt)
Ordering-gt Ordering.lt = inr (λ e. cc)
Ordering-gt Ordering.eq = inr (λ e. cc)
Ordering-gt Ordering.gt = inl refl

below_suc : (j n : ℕ) → j < n + 1 → (j < n) ⊎ (j ≡ n)
below_suc j n h = grind arith

module _ (x : Float64) (laws : IsTotalOrder x) (s : EwmaLatency x) where
  abbrev cmp : Backend → Backend → Ordering
  cmp b c = x.total_cmp (score x s b) (score x s c)

  -- `b` stands at `best`, no candidate below `n` scores less, and those before it score more.
  pub record IsFirstMin (bs : List Backend) (n best : ℕ) (b : Backend) : Type 0 where
    pub at : get_elem? bs best ≡ some b
    pub least :
        (j : ℕ) (c : Backend)
        → j < n
        → get_elem? bs j ≡ some c
        → x.total_cmp (score x s b) (score x s c) ≢ Ordering.gt
    pub first :
        (j : ℕ) (c : Backend)
        → j < best
        → get_elem? bs j ≡ some c
        → x.total_cmp (score x s c) (score x s b) ≡ Ordering.gt

  -- The latency of a backend: what its samples average to, and 0 when it has none.
  abbrev pub latency : Backend → x.F
  latency b = get_or s.stats b.name (x.of_ℕ 0)

  -- The candidate that the policy is to choose: it has the least latency by `total_cmp`, and each one
  -- before it has more.
  pub record IsFastest (bs : List Backend) (best : ℕ) (b : Backend) : Type 0 where
    pub at : get_elem? bs best ≡ some b
    pub least :
        (j : ℕ) (c : Backend)
        → j < length bs
        → get_elem? bs j ≡ some c
        → x.total_cmp (latency b) (latency c) ≢ Ordering.gt
    pub first :
        (j : ℕ) (c : Backend)
        → j < best
        → get_elem? bs j ≡ some c
        → x.total_cmp (latency c) (latency b) ≡ Ordering.gt

  IsFirstMin-IsFastest :
      (bs : List Backend) (best : ℕ) (b : Backend)
      → IsFirstMin bs (length bs) best b
      → IsFastest bs best b
  unfolding score
  IsFirstMin-IsFastest bs best b h = record { at = h.at; least = h.least; first = h.first }

  one_at :
      (bs : List Backend) (j n : ℕ) (c d : Backend)
      → get_elem? bs n ≡ some c
      → get_elem? bs j ≡ some d
      → j ≡ n
      → c ≡ d
  one_at bs j n c d here there e = cc (here, there, ap (get_elem? bs) e)

  cmp-eq : (c d : Backend) → c ≡ d → cmp c d ≢ Ordering.gt
  cmp-eq c d e g = cc (laws.refl_eq (score x s c), ap (cmp c) e, g)

  cmp-flip : (b c : Backend) → cmp b c ≡ Ordering.gt → cmp c b ≢ Ordering.gt
  cmp-flip b c more g = cc (laws.flip (score x s b) (score x s c) more, g)

  -- `b` gives way to `c` at `n`
  replaced :
      (bs : List Backend) (n best : ℕ) (b c : Backend)
      → IsFirstMin bs n best b
      → get_elem? bs n ≡ some c
      → cmp b c ≡ Ordering.gt
      → IsFirstMin bs (n + 1) n c
  replaced bs n best b c h here more = record {
    at = here;
    least = λ j d below there. elim (below_suc j n below) [
      | inl earlier ↦ laws.trans _ _ _ (cmp-flip b c more) (h.least j d earlier there)
      | inr same ↦ cmp-eq c d (one_at bs j n c d here there same)
    ];
    first = λ j d below there. elim (Ordering-gt (cmp d c)) [
      | inl g ↦ g
      | inr ng ↦ absurd (laws.trans _ _ _ (h.least j d below there) ng more)
    ];
  }

  kept :
      (bs : List Backend) (n best : ℕ) (b c : Backend)
      → IsFirstMin bs n best b
      → get_elem? bs n ≡ some c
      → cmp b c ≢ Ordering.gt
      → IsFirstMin bs (n + 1) best b
  kept bs n best b c h here less = record {
    at = h.at;
    least = λ j d below there. elim (below_suc j n below) [
      | inl earlier ↦ h.least j d earlier there
      | inr same ↦ let e = one_at bs j n c d here there same in λ g. less (ap (cmp b) e ∙ g)
    ];
    first = h.first;
  }

  -- what is left of the table from index `n`
  abbrev Rest : List Backend → ℕ → List Backend → Type 0
  Rest bs n cs = (k : ℕ) → get_elem? bs (n + k) ≡ get_elem? cs k

  Rest-head :
      (bs : List Backend) (n : ℕ) (c : Backend) (cs : List Backend)
      → Rest bs n (c ∷ cs)
      → get_elem? bs n ≡ some c
  Rest-head bs n c cs rest = let e : n + 0 ≡ n = omega arith in ap (get_elem? bs) (sym e) ∙ rest 0

  Rest-tail :
      (bs : List Backend) (n : ℕ) (c : Backend) (cs : List Backend)
      → Rest bs n (c ∷ cs)
      → Rest bs (n + 1) cs
  Rest-tail bs n c cs rest k =
      let e : n + 1 + k ≡ n + suc k = omega arith in ap (get_elem? bs) e ∙ rest (suc k)

  min_from-gt :
      (best n : ℕ) (b d : Backend) (cs : List Backend)
      → cmp b d ≡ Ordering.gt
      → min_from x s best b n (d ∷ cs) ≡ min_from x s n d (n + 1) cs
  unfolding min_from
  min_from-gt best n b d cs more = ground arith

  min_from-ne_gt :
      (best n : ℕ) (b d : Backend) (cs : List Backend)
      → cmp b d ≢ Ordering.gt
      → min_from x s best b n (d ∷ cs) ≡ min_from x s best b (n + 1) cs
  unfolding min_from
  min_from-ne_gt best n b d cs less = ground arith

  min_from-IsFirstMin :
      (bs cs : List Backend) (n best : ℕ) (b : Backend)
      → Rest bs n cs
      → IsFirstMin bs n best b
      → (c : Backend) × IsFirstMin bs (n + length cs) (min_from x s best b n cs) c
  min_from-IsFirstMin bs [] n best b rest h = (b, unfold min_from in rw add-zero h)
  min_from-IsFirstMin bs (d ∷ cs) n best b rest h =
      let total : n + suc (length cs) ≡ n + 1 + length cs = omega arith in
      elim (Ordering-gt (cmp b d)) [
        | inl more ↦
            let found =
              min_from-IsFirstMin bs cs (n + 1) n d (Rest-tail bs n d cs rest)
                (replaced bs n best b d h (Rest-head bs n d cs rest) more) in
            (found.0, rw (min_from-gt best n b d cs more, total) found.1)
        | inr less ↦
            let found =
              min_from-IsFirstMin bs cs (n + 1) best b (Rest-tail bs n d cs rest)
                (kept bs n best b d h (Rest-head bs n d cs rest) less) in
            (found.0, rw (min_from-ne_gt best n b d cs less, total) found.1)
      ]

  first_alone : (b : Backend) (bs : List Backend) → IsFirstMin (b ∷ bs) 1 0 b
  first_alone b bs = record {
    at = refl;
    least = λ j d below there.
        let e : j ≡ 0 = omega arith in cmp-eq b d (one_at (b ∷ bs) j 0 b d refl there e);
    first = λ j d below there. elim below [ ];
  }

  -- Among one candidate or more the latency policy chooses one, at an index of the list: no other has
  -- less latency by `total_cmp`, and each before it has more, so that a tie goes to the earlier one. The
  -- latency of a backend is the average in the table, and 0 when the table has none for it.
  pub ewma_choose-IsFastest :
      (b : Backend) (bs : List Backend)
      → (i : ℕ) × (c : Backend) × (ewma_choose x s (b ∷ bs) ≡ some i) × IsFastest (b ∷ bs) i c
  unfolding ewma_choose
  ewma_choose-IsFastest b bs =
      let found =
        min_from-IsFirstMin (b ∷ bs) bs 1 0 b
          (λ k. let e : 1 + k ≡ suc k = omega arith in ap (get_elem? (b ∷ bs)) e)
          (first_alone b bs) in
      let total : suc (length bs) ≡ 1 + length bs = omega arith in
      (
        min_from x s 0 b 1 bs,
        found.0,
        refl,
        IsFirstMin-IsFastest (b ∷ bs) (min_from x s 0 b 1 bs) found.0 (rw total found.1),
      )

  pub ewma_policy-Chooses : Chooses (ewma_policy x s)
  unfolding ewma_policy
  ewma_policy-Chooses b bs =
      let (i, c, chosen, first) = ewma_choose-IsFastest b bs in (i, c, chosen, first.at)

  score-cold : (b : Backend) → s.stats ≡ [] → score x s b ≡ x.of_ℕ 0
  unfolding score
  score-cold b cold =
      let missing : get s.stats b.name ≡ none = ap (λ m. get m b.name) cold ∙ get-empty b.name in
      ground arith

  -- with no sample the scores tie, and the first candidate stays the minimum
  min_from-cold :
      (cs : List Backend) (best n : ℕ) (b : Backend)
      → s.stats ≡ []
      → min_from x s best b n cs ≡ best
  min_from-cold [] best n b cold = unfold min_from in refl
  min_from-cold (c ∷ cs) best n b cold =
      let tie : cmp b c ≢ Ordering.gt =
        λ g. cc (score-cold b cold, score-cold c cold, laws.refl_eq (x.of_ℕ 0), g) in
      min_from-ne_gt best n b c cs tie ∙ min_from-cold cs best (n + 1) b cold

  choose-cold :
      (cs : List Backend) → s.stats ≡ [] → (ewma_policy x s).choose cs ≡ static_priority.choose cs
  unfolding ewma_policy ewma_choose static_priority
  choose-cold [] cold = refl
  choose-cold (c ∷ cs) cold = ap some (min_from-cold cs 0 1 c cold)

  -- Before the first sample the latency policy routes every request as static priority does.
  pub route-cold :
      (bs : List Backend) (q : RouteQuery) (mark_private : Bool)
      → s.stats ≡ []
      → route (record { backends = bs; policy = ewma_policy x s }) q mark_private
        ≡ route (record { backends = bs; policy = static_priority }) q mark_private
  route-cold bs q mark_private cold =
      ap (λ (p : Policy). route (record { backends = bs; policy = p }) q mark_private)
        (let e : (ewma_policy x s).choose ≡ static_priority.choose =
            fun_ext (λ cs. choose-cold cs cold) in
          ap (λ (f : List Backend → Option ℕ). let p : Policy = record { choose = f } in p) e)

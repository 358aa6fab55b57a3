-- ===== src/Server/Tasks/Counted.antt =====
-- src/server.rs: how often a request is resumed, beside others.
use patchbay.Common.{
  ℕ, zero, suc, ◌+◌, ◌-◌, ◌≤◌, ◌≡◌, ◌==◌, inl, inr, Bool, Option, some, List, [], ◌∷◌, ◌++◌, arith,
  Result, get_elem?, set_at, All-get_elem?, if◌then◌else◌,
}
use patchbay.Auth.{KeyIdentity}
use patchbay.Config.{Backend}
use patchbay.Upstream.{Bytes, Usage}
use patchbay.Upstream.Client.{UpstreamError, HttpResponse}
use patchbay.Limits.{Governor}
use patchbay.Server.{CompletionRequest, World, AppState}
use patchbay.Server.Tasks.{
  Task, forwarding, reading, streaming, answered, begin, on_answer, on_body, on_poll, on_drop,
  on_summary, Gateway, arrive, answer, read, poll, drop, summarised, Reach, start, later,
}
use patchbay.Server.Tasks.Cases.{on_answer-cases}
use patchbay.Server.Tasks.Routed.{IsRouted, Reach-AllRouted}

-- How often a request may still be resumed by its backend.
abbrev pub rank : Task → ℕ
rank (forwarding identity req b body attempt) = 7 - attempt
rank (reading key backend resp) = 1
rank (streaming st) = 0
rank (answered key r) = 0

-- A request that has not come yet has all its steps before it.
abbrev pub rank_at : List Task → ℕ → ℕ
rank_at [] i = 7
rank_at (t ∷ ts) zero = rank t
rank_at (t ∷ ts) (suc i) = rank_at ts i

rank-bound : (t : Task) → rank t ≤ 7
rank-bound (forwarding identity req b body attempt) = omega arith
rank-bound (reading key backend resp) = omega arith
rank-bound (streaming st) = omega arith
rank-bound (answered key r) = omega arith

rank_at-append : (ts : List Task) (t : Task) (i : ℕ) → rank_at (ts ++ (t ∷ [])) i ≤ rank_at ts i
rank_at-append [] t zero = rank-bound t
rank_at-append [] t (suc i) = omega arith
rank_at-append (u ∷ ts) t zero = omega arith
rank_at-append (u ∷ ts) t (suc i) = rank_at-append ts t i

rank_at-set_at :
    (ts : List Task) (i j steps : ℕ) (old new : Task)
    → get_elem? ts i ≡ some old
    → rank new + steps ≤ rank old
    → (if i == j then steps else 0) + rank_at (set_at ts i new) j ≤ rank_at ts j
rank_at-set_at [] i j steps old new found less = cc
rank_at-set_at (t ∷ ts) zero zero steps old new found less =
    let same : rank t ≡ rank old = ground arith in omega (arith, same)
rank_at-set_at (t ∷ ts) zero (suc j) steps old new found less = grind arith
rank_at-set_at (t ∷ ts) (suc i) zero steps old new found less = grind arith
rank_at-set_at (t ∷ ts) (suc i) (suc j) steps old new found less =
    let rest = rank_at-set_at ts i j steps old new found less in ground arith

module _ (g : Governor) (w : World) where
  rank-on_answer :
      (now : ℕ) (result : Result UpstreamError HttpResponse) (identity : KeyIdentity)
      (req : CompletionRequest) (b : Backend) (body : Bytes) (attempt : ℕ) (s : AppState g)
      → attempt ≤ 5
      → rank (on_answer g w now result identity req b body attempt s).1 + 1 ≤ 7 - attempt
  rank-on_answer now result identity req b body attempt s few =
      elim (on_answer-cases g w now result identity req b body attempt s) [
        | inl (status, type, cause, e) ↦ rw e (omega arith)
        | inr (inl (e, more)) ↦ rw e (omega arith)
        | inr (inr (inl (resp, e))) ↦ rw e (omega arith)
        | inr (inr (inr (st, e, fresh))) ↦ rw e (omega arith)
      ]

  module _ (s : AppState g) (parse_envelope : Bytes → Option (Option Usage))
      (fired : ℕ → ℕ → Bool) where
    -- The answers and the bodies that the request at a place has got.
    pub resumed : (i : ℕ) {t : Gateway g w} → Reach g w parse_envelope fired s t → ℕ
    resumed i start = 0
    resumed i (later r (answer now j result identity req b body attempt found)) =
        (if j == i then 1 else 0) + resumed i r
    resumed i (later r (read now j key backend resp found)) =
        (if j == i then 1 else 0) + resumed i r
    resumed i (later r (arrive now identity body)) = resumed i r
    resumed i (later r (poll now j up st found live)) = resumed i r
    resumed i (later r (drop j st found live)) = resumed i r
    resumed i (later r (summarised now j st found waits ready)) = resumed i r

    -- However requests interleave, a request is resumed by an answer of its backend or by a body seven
    -- times at most, and each time leaves one less: what it has had and what its place may still have
    -- are never more than seven together. A request that has been answered may have none.
    pub Reach-resumed :
        (i : ℕ) (t : Gateway g w) (r : Reach g w parse_envelope fired s t)
        → resumed i r + rank_at t.tasks i ≤ 7
    unfolding resumed
    Reach-resumed i _ start = omega arith
    Reach-resumed i _ (later {t} r (answer now j result identity req b body attempt found)) =
        let few =
          (All-get_elem? (IsRouted g w s) t.tasks j
            (Reach-AllRouted g w s parse_envelope fired r).routed found).3 in
        let closer = rank-on_answer now result identity req b body attempt t.state few in
        omega (
          arith,
          Reach-resumed i t r,
          rank_at-set_at t.tasks j i 1 (forwarding identity req b body attempt) _ found closer,
        )
    Reach-resumed i _ (later {t} r (read now j key backend resp found)) = omega (
      arith,
      Reach-resumed i t r,
      rank_at-set_at t.tasks j i 1 (reading key backend resp)
          (on_body g w now key backend resp t.state).1 found (omega arith),
    )
    Reach-resumed i _ (later {t} r (arrive now identity body)) = omega (
      arith,
      Reach-resumed i t r,
      rank_at-append t.tasks (begin g w now identity body t.state).1 i,
    )
    Reach-resumed i _ (later {t} r (poll now j up st found live)) = omega (
      arith,
      Reach-resumed i t r,
      rank_at-set_at t.tasks j i 0 (streaming st)
          (streaming (on_poll g w parse_envelope fired now up st)) found (omega arith),
    )
    Reach-resumed i _ (later {t} r (drop j st found live)) = omega (
      arith,
      Reach-resumed i t r,
      rank_at-set_at t.tasks j i 0 (streaming st) (streaming (on_drop g w parse_envelope fired st))
          found (omega arith),
    )
    Reach-resumed i _ (later {t} r (summarised now j st found waits ready)) = omega (
      arith,
      Reach-resumed i t r,
      rank_at-set_at t.tasks j i 0 (streaming st)
          (streaming (on_summary g w parse_envelope fired st)) found (omega arith),
    )

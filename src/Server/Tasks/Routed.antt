-- ===== src/Server/Tasks/Routed.antt =====
-- src/server.rs: where the requests go that are served at the same time.
use patchbay.Common.{
  ℕ, ◌+◌, ◌≤◌, ◌≡◌, refl, ap, sym, ◌∙◌, inl, inr, Bool, true, Option, arith, Result, ok, All,
  All-get_elem?, All-set_at, All-append, In,
}
use patchbay.Config
use patchbay.Config.{Backend, serves_model}
use patchbay.Router.{Router, query_for, route}
use patchbay.Router.Eligible.{route-eligible}
use patchbay.Auth.{KeyIdentity}
use patchbay.Upstream.{Bytes, Usage}
use patchbay.Upstream.Client.{UpstreamError, HttpResponse}
use patchbay.Limits.{Governor}
use patchbay.Server.{CompletionRequest, World, AppState}
use patchbay.Server.Handler.{request_or_default}
use patchbay.Server.Tasks.Cases.{
  Fixed, begin-Fixed, begin-cases, on_answer-Fixed, on_answer-cases, account_stream-Fixed,
  buffered_response-Fixed,
}
use patchbay.Server.Tasks.{
  Task, forwarding, begin, on_answer, Gateway, Step, arrive, answer, read, poll, drop, summarised,
  Reach, start, later,
}

module _ (g : Governor) (w : World) (s : AppState g) where
  -- A request that waits for a backend of the router, which serves its model, and which is local when
  -- the key enforces privacy; at most five attempts came before.
  abbrev pub IsRouted : Task → Type 0
  IsRouted (forwarding identity req b body attempt) =
      In b s.router.backends
      × (identity.enforce_private ≡ true → b.privacy ≡ Config.Privacy.local)
      × (serves_model b req.model ≡ true)
      × (attempt ≤ 5)
  IsRouted _ = Unit

  abbrev pub asks : Bytes → CompletionRequest
  asks body = request_or_default (w.parse_request body)

  begin-IsRouted :
      (now : ℕ) (identity : KeyIdentity) (body : Bytes) (t : AppState g)
      → Fixed s t
      → IsRouted (begin g w now identity body t).1
  begin-IsRouted now identity body t k = elim (begin-cases g w now identity body t) [
    | inl (status, type, cause, e) ↦ rw e tt
    | inr (b, routed, e) ↦
        let same : route s.router (query_for (asks body).model) identity.enforce_private ≡ ok b =
          ap (λ (r : Router). route r (query_for (asks body).model) identity.enforce_private)
            (sym k.router)
          ∙ routed in
        let (known, local, serves, tags) =
          route-eligible s.router (query_for (asks body).model) identity.enforce_private same in
        rw e (known, local, serves, omega arith)
  ]

  on_answer-IsRouted :
      (now : ℕ) (result : Result UpstreamError HttpResponse) (identity : KeyIdentity)
      (req : CompletionRequest) (b : Backend) (body : Bytes) (attempt : ℕ) (t : AppState g)
      → IsRouted (forwarding identity req b body attempt)
      → IsRouted (on_answer g w now result identity req b body attempt t).1
  on_answer-IsRouted now result identity req b body attempt t (known, local, serves, few) =
      elim (on_answer-cases g w now result identity req b body attempt t) [
        | inl (status, type, cause, e) ↦ rw e tt
        | inr (inl (e, more)) ↦
            let fits : attempt + 1 ≤ 5 = omega arith in rw e (known, local, serves, fits)
        | inr (inr (inl (resp, e))) ↦ rw e tt
        | inr (inr (inr (st, e, fresh))) ↦ rw e tt
      ]

  Fixed-then : (t u : AppState g) → Fixed s t → Fixed t u → Fixed s u
  Fixed-then t u k l = record { router = l.router ∙ k.router; keys = l.keys ∙ k.keys }

  module _ (parse_envelope : Bytes → Option (Option Usage)) (fired : ℕ → ℕ → Bool) where
    pub record AllRouted (t : Gateway g w) : Type 0 where
      pub fixed : Fixed s t.state
      pub routed : All IsRouted t.tasks

    Step-AllRouted :
        {t u : Gateway g w} → Step g w parse_envelope fired t u → AllRouted t → AllRouted u
    Step-AllRouted {t} (arrive now identity body) a = record {
      fixed = Fixed-then t.state _ a.fixed (begin-Fixed g w now identity body t.state).0;
      routed =
          All-append IsRouted t.tasks _ a.routed (begin-IsRouted now identity body t.state a.fixed);
    }
    Step-AllRouted {t} (answer now i result identity req b body attempt found) a = record {
      fixed =
          Fixed-then t.state _ a.fixed
            (on_answer-Fixed g w now result identity req b body attempt t.state).0;
      routed = All-set_at IsRouted t.tasks i _ a.routed (
          on_answer-IsRouted now result identity req b body attempt t.state
            (All-get_elem? IsRouted t.tasks i a.routed found));
    }
    Step-AllRouted {t} (read now i key backend resp found) a = record {
      fixed =
          Fixed-then t.state _ a.fixed (buffered_response-Fixed g w now key backend resp t.state);
      routed = All-set_at IsRouted t.tasks i _ a.routed tt;
    }
    Step-AllRouted {t} (poll now i up st found live) a = record {
      fixed = a.fixed;
      routed = All-set_at IsRouted t.tasks i _ a.routed tt;
    }
    Step-AllRouted {t} (drop i st found live) a = record {
      fixed = a.fixed;
      routed = All-set_at IsRouted t.tasks i _ a.routed tt;
    }
    Step-AllRouted {t} (summarised now i st found waits ready) a = record {
      fixed =
          Fixed-then t.state _ a.fixed
            (account_stream-Fixed g now st.key st.backend st.relay.sent t.state);
      routed = All-set_at IsRouted t.tasks i _ a.routed tt;
    }

    -- However requests interleave, from a state with its router and keys: the router and the keys
    -- stay, and each request that waits for a backend waits for one of the router, which serves its
    -- model and which is local when the key enforces privacy, after at most five attempts before.
    pub Reach-AllRouted : {t : Gateway g w} → Reach g w parse_envelope fired s t → AllRouted t
    Reach-AllRouted start = record { fixed = record { router = refl; keys = refl }; routed = tt }
    Reach-AllRouted (later r st) = Step-AllRouted st (Reach-AllRouted r)

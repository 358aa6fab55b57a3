-- ===== src/Server/Tasks/Proceed.antt =====
-- src/server.rs: a request that is resumed until it is answered, beside the loop of attempts.
use patchbay.Common.{
  ℕ, zero, suc, ◌+◌, ◌≡◌, ◌<◌, refl, ap, sym, ◌∙◌, inl, inr, true, false, Option, none, some, List,
  [], arith, ok, err, Result-cases, Bool-cases,
}
use patchbay.Common.Texts.{Text, codes}
use patchbay.Config.{Backend}
use patchbay.Auth.{KeyIdentity}
use patchbay.Upstream.{Bytes}
use patchbay.Upstream.Relay.{new_relay}
use patchbay.Upstream.Client.{UpstreamError, is_retryable, upstream_status, HttpResponse, open_sse}
use patchbay.Metrics.{record_request, record_upstream_error}
use patchbay.Limits.{Governor}
use patchbay.Server.{
  CompletionRequest, Cause, Response, Attempt, stall_timeout_ms, World, AppState, completions_path,
}
use patchbay.Server.Handler.{
  status_or_bad_gateway, content_type_or, relay_response, buffered_response, forward,
}
use patchbay.Server.Retries.{asked, forward-ok, forward-refused, forward-retry}
use patchbay.Server.Tasks.{
  Stream, Task, forwarding, reading, streaming, answered, on_answer, on_body,
}

-- What the client is answered.
abbrev pub response_of : Task → Option Response
response_of (answered key r) = some r
response_of (streaming st) = some (Response.streaming st.content_type st.relay)
response_of _ = none

module _ (g : Governor) (w : World) (now : ℕ) where
  -- A task is resumed, at most so many times, as its backend answers.
  unfoldable pub proceed : ℕ → AppState g × Task → AppState g × Task
  proceed zero r = r
  proceed (suc fuel) (s, forwarding identity req b body attempt) = proceed fuel (
      on_answer g w now (open_sse (w.send attempt) b completions_path body) identity req b body
        attempt s)
  proceed (suc fuel) (s, reading key backend resp) =
      proceed fuel (on_body g w now key backend resp s)
  proceed (suc fuel) (s, streaming st) = (s, streaming st)
  proceed (suc fuel) (s, answered key r) = (s, answered key r)

  pub record Agrees (r : AppState g × Task) (state : AppState g) (response : Response)
      : Type 0 where
    pub same_state : r.0 ≡ state
    pub same_response : response_of r.1 ≡ some response

  module _ (identity : KeyIdentity) (req : CompletionRequest) (b : Backend) (body : Bytes) where
    abbrev answer_at : ℕ → AppState g → AppState g × Task
    answer_at n s =
        on_answer g w now (open_sse (w.send n) b completions_path body) identity req b body n s

    proceed-settled :
        (fuel : ℕ) (s : AppState g) (key : Text) (r : Response)
        → proceed fuel (s, answered key r) ≡ (s, answered key r)
    unfolding proceed
    proceed-settled zero s key r = refl
    proceed-settled (suc fuel) s key r = refl

    abbrev noted : AppState g → AppState g
    noted s = record s { metrics = record_upstream_error s.metrics b.name }

    answer_at-refused :
        (n : ℕ) (s : AppState g) (e : UpstreamError)
        → asked g w now identity req b body n ≡ err e
        → is_retryable e ≡ false
        → answer_at n s ≡ (
          noted s,
          answered identity.name (
              Response.error
                (status_or_bad_gateway (upstream_status e))
                (codes "upstream_error")
                (Cause.failed e)),
        )
    unfolding on_answer
    answer_at-refused n s e answer final = ground (arith, answer)

    answer_at-exhausted :
        (n : ℕ) (s : AppState g) (e : UpstreamError)
        → asked g w now identity req b body n ≡ err e
        → is_retryable e ≡ true
        → n ≡ 5
        → answer_at n s ≡ (
          record s { metrics = record_request (noted s).metrics b.name req.model (codes "5xx") },
          answered identity.name (Response.error 502 (codes "upstream_error") (Cause.failed e)),
        )
    unfolding on_answer
    answer_at-exhausted n s e answer again last = ground (arith, answer)

    answer_at-again :
        (n : ℕ) (s : AppState g) (e : UpstreamError)
        → asked g w now identity req b body n ≡ err e
        → is_retryable e ≡ true
        → n < 5
        → answer_at n s ≡ (noted s, forwarding identity req b body (n + 1))
    unfolding on_answer
    answer_at-again n s e answer again more = ground (arith, answer)

    pub Agrees-along :
        {r r' : AppState g × Task} {f f' : AppState g × Response × List Attempt}
        → r ≡ r'
        → f ≡ f'
        → Agrees r' f'.0 f'.1
        → Agrees r f.0 f.1
    Agrees-along e d a = record {
      same_state = ap (λ x. x.0) e ∙ a.same_state ∙ ap (λ x. x.0) (sym d);
      same_response = ap (λ x. response_of x.1) e ∙ a.same_response ∙ ap (λ x. some x.1) (sym d);
    }

    abbrev counted : HttpResponse → AppState g → AppState g
    counted resp s = record s { metrics = record_request s.metrics b.name req.model (codes "2xx") }

    relay_response-streams :
        (n : ℕ) (s : AppState g) (resp : HttpResponse)
        → asked g w now identity req b body n ≡ ok resp
        → req.stream ≡ true
        → (st : Stream) × (answer_at n s ≡ (counted resp s, streaming st))
          × (relay_response g w now identity req b resp s
              ≡ (counted resp s, Response.streaming st.content_type st.relay))
    unfolding on_answer relay_response
    relay_response-streams n s resp e streams = (
      record {
        key = identity.name;
        backend = b.name;
        content_type = content_type_or (codes "text/event-stream") resp.content_type;
        relay = new_relay now stall_timeout_ms;
        got = [];
        waiting = true;
        dropped = false;
      },
      ground (arith, e),
      ground arith,
    )

    relay_response-reads :
        (n : ℕ) (s : AppState g) (resp : HttpResponse)
        → asked g w now identity req b body n ≡ ok resp
        → req.stream ≡ false
        → (answer_at n s ≡ (counted resp s, reading identity.name b.name resp))
          × (relay_response g w now identity req b resp s
              ≡ buffered_response g w now identity.name b.name resp (counted resp s))
    unfolding on_answer relay_response
    relay_response-reads n s resp e whole = (ground (arith, e), ground arith)

    forward-proceed-ok :
        (left n : ℕ) (last : Option UpstreamError) (s : AppState g) (resp : HttpResponse)
        → asked g w now identity req b body n ≡ ok resp
        → Agrees
            (proceed (suc left) (answer_at n s))
            (forward g w now identity req b body (suc left) n last s).0
            (forward g w now identity req b body (suc left) n last s).1
    unfolding proceed
    forward-proceed-ok left n last s resp e = elim (Bool-cases req.stream) [
      | inl streams ↦
          let (st, q, d) = relay_response-streams n s resp e streams in
          Agrees-along (ap (proceed (suc left)) q)
            (forward-ok g w now identity req b body left n last s resp e)
            (record {
              same_state = ap (λ x. x.0) (sym d);
              same_response = ap (λ x. some x.1) (sym d);
            })
      | inr whole ↦
          let (q, d) = relay_response-reads n s resp e whole in
          let t = counted resp s in
          let body_read = buffered_response g w now identity.name b.name resp t in
          let settled = proceed-settled left body_read.0 identity.name body_read.1 in
          Agrees-along (ap (proceed (suc left)) q)
            (forward-ok g w now identity req b body left n last s resp e)
            (record {
              same_state = ap (λ x. x.0) settled ∙ ap (λ x. x.0) (sym d);
              same_response = ap (λ x. response_of x.1) settled ∙ ap (λ x. some x.1) (sym d);
            })
    ]

    forward-proceed-refused :
        (left n : ℕ) (last : Option UpstreamError) (s : AppState g) (e : UpstreamError)
        → asked g w now identity req b body n ≡ err e
        → is_retryable e ≡ false
        → Agrees
            (proceed (suc left) (answer_at n s))
            (forward g w now identity req b body (suc left) n last s).0
            (forward g w now identity req b body (suc left) n last s).1
    unfolding proceed
    forward-proceed-refused left n last s e answer final =
        Agrees-along (ap (proceed (suc left)) (answer_at-refused n s e answer final))
          (forward-refused g w now identity req b body left n last s e answer final)
          (record { same_state = refl; same_response = refl })

    pub forward-proceed :
        (left n : ℕ) (last : Option UpstreamError) (s : AppState g)
        → n + left ≡ 5
        → Agrees
            (proceed (suc left) (answer_at n s))
            (forward g w now identity req b body (suc left) n last s).0
            (forward g w now identity req b body (suc left) n last s).1
    unfolding proceed
    forward-proceed zero n last s place =
        elim (Result-cases (asked g w now identity req b body n)) [
          | inl (resp, e) ↦ forward-proceed-ok zero n last s resp e
          | inr (e, answer) ↦ elim (Bool-cases (is_retryable e)) [
            | inr final ↦ forward-proceed-refused zero n last s e answer final
            | inl again ↦
                Agrees-along (ap (proceed 1) (answer_at-exhausted n s e answer again (omega arith)))
                  (forward-retry g w now identity req b body zero n last s e answer again)
                  (unfold forward in (record { same_state = refl; same_response = refl }))
          ]
        ]
    forward-proceed (suc left) n last s place =
        elim (Result-cases (asked g w now identity req b body n)) [
          | inl (resp, e) ↦ forward-proceed-ok (suc left) n last s resp e
          | inr (e, answer) ↦ elim (Bool-cases (is_retryable e)) [
            | inr final ↦ forward-proceed-refused (suc left) n last s e answer final
            | inl again ↦
                let next = forward-proceed left (n + 1) (some e) (noted s) (omega arith) in
                Agrees-along
                  (ap (proceed (suc (suc left))) (answer_at-again n s e answer again (omega arith)))
                  (forward-retry g w now identity req b body (suc left) n last s e answer again)
                  (record { same_state = next.same_state; same_response = next.same_response })
          ]
        ]

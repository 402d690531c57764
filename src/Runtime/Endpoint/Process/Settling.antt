-- ===== src/Runtime/Endpoint/Process/Settling.antt =====
-- How a delivery is settled, in any environment.
use sisa_messaging_rs.Prelude.{
  ℕ, ◌≡◌, refl, ap, subst, inl, inr, List, [], ◌∷◌, Result, ok, err, Bool-cases, Result-cases,
}
use sisa_messaging_rs.Prelude.Text.{Text}
use sisa_messaging_rs.Prelude.Acts.{◌>>=◌}
use sisa_messaging_rs.Core.Envelope.Source.{Source}
use sisa_messaging_rs.Core.Envelope.Defs.{Envelope}
use sisa_messaging_rs.Core.Transport.{Sent}
use sisa_messaging_rs.Runtime.Retry
use sisa_messaging_rs.Runtime.Handler.{HandlerError, HandlerContext}
use sisa_messaging_rs.Runtime.Endpoint.{
  Unwind, returned, Failure, undecodable, failed_handler, Conversions,
}
use sisa_messaging_rs.Runtime.Endpoint.Settle.{
  error_envelope, send_held, give_up, report, settle, process,
}
use sisa_messaging_rs.Runtime.Endpoint.Process.{
  Handled, handled, published, History, Environment, transport, errors, delivery, endpoint, AllSent,
  Before, sent_all, not_handled, not_sent, IsFinal, undecodable_final, last_final, Settles, acks,
  retries, rejects, parks, Sends, all_sent, stopped,
}
use sisa_messaging_rs.Prelude.Text.{bytes}
use sisa_messaging_rs.Core.Envelope.Extensions
use sisa_messaging_rs.Runtime.Handler

module _ (env : Environment) (conversions : Conversions) where
  Sends-cons :
      {e : Envelope} {es : List Envelope} {h : History}
      {result : Result Failure (Unit {0}) × History}
      → Sends conversions es (published e (ok tt) ∷ h) result
      → Sends conversions (e ∷ es) h result
  Sends-cons (all_sent a) = all_sent a
  Sends-cons {e = e} (stopped pre rest same a) = stopped (e ∷ pre) rest (ap (λ l. e ∷ l) same) a

  send_held-Sends :
      (es : List Envelope) (h : History)
      → Sends conversions es h (send_held (transport env) conversions es h)
  unfolding send_held
  send_held-Sends [] h = all_sent refl
  send_held-Sends (e ∷ es) h = elim (Result-cases (env.answer h e)) [
    | inl (u, sent) ↦ rw (◌>>=◌, sent) (Sends-cons (send_held-Sends es (published e (ok tt) ∷ h)))
    | inr (error, refused) ↦ rw (◌>>=◌, refused) (stopped [] es refl refl)
  ]

module _ (env : Environment) (conversions : Conversions) (base : History) where
  -- The steps before the settling.
  abbrev outcome : Handled → History → Result Failure (Unit {0}) × History
  outcome (ok es) h = send_held (transport env) conversions es h
  outcome (err f) h = (err f, h)

  Sends-Before :
      {es : List Envelope} {result : Result Failure (Unit {0}) × History}
      → Sends conversions es (handled (ok es) ∷ base) result
      → Before conversions base result.0 result.1
  Sends-Before {es = es} (all_sent a) = sent_all es a
  Sends-Before {es = es} (stopped {h' = h'} pre rest same a) =
      not_sent pre rest (subst (λ l. AllSent pre (handled (ok l) ∷ base) h') same a)

  outcome-Before :
      (r : Handled)
      → Before conversions base (outcome r (handled r ∷ base)).0 (outcome r (handled r ∷ base)).1
  outcome-Before (ok es) =
      Sends-Before (send_held-Sends env conversions es (handled (ok es) ∷ base))
  outcome-Before (err f) = not_handled

-- An error envelope can always be built: no `expect` panics, for its four names follow the rules
-- for extensions.
pub error_envelope_returns :
    (envelope : Envelope) (name : Text) (e : HandlerError) (attempt : ℕ)
    → (failed : Envelope) × (error_envelope envelope name e attempt ≡ returned failed)
unfolding error_envelope Extensions.insert Extensions.check_name Extensions.is_reserved bytes
error_envelope_returns envelope name e attempt = (_, refl)

module _ (env : Environment) (conversions : Conversions) (name : Text) (retry : Retry.RetryPolicy)
    (envelope : Envelope) (attempt : ℕ) (base : History) where
  abbrev Settled : Unwind Sent × History → Type 0
  Settled result =
      (s : Sent) × (result.0 ≡ returned s)
      × Settles conversions name retry envelope attempt base result.1

  settle_error :
      (f : Failure) (e : HandlerError) (h : History)
      → Before conversions base (err f) h
      → IsFinal retry attempt f e
      → Settled (
          report
            (transport env)
            (errors env)
            conversions
            (endpoint env name retry)
            (delivery env envelope attempt)
            e
            h)
  unfolding report give_up
  settle_error f e h before final =
      let (failed, built) = error_envelope_returns envelope name e attempt in
      elim (Result-cases (env.error_answer h name failed)) [
        | inl (u, sent) ↦ rw (built, report, ◌>>=◌, sent) (_, refl, rejects before final built)
        | inr (error, refused) ↦
            rw (built, report, ◌>>=◌, refused) (_, refl, parks before final built)
      ]

  settle_lem :
      (r : Result Failure (Unit {0})) (h : History)
      → Before conversions base r h
      → Settled (
          settle
            (transport env)
            (errors env)
            conversions
            (endpoint env name retry)
            (delivery env envelope attempt)
            r
            h)
  unfolding settle
  settle_lem (ok u) h before = (_, refl, acks before)
  settle_lem (err (undecodable e)) h before =
      settle_error (undecodable e) e h before undecodable_final
  settle_lem (err (failed_handler e)) h before = elim (Bool-cases (Retry.is_last retry attempt)) [
    | inl last ↦ rw last (settle_error (failed_handler e) e h before (last_final last))
    | inr more ↦ rw more (_, refl, retries before more)
  ]

  -- One delivery, in every environment and after any events: `process` returns and settles it by one call, after all
  -- else. The delivery is acked only when the handling succeeded and each of its publishes was
  -- confirmed; it is retried with the policy's delay when a handler or a publish failed before the
  -- last attempt; it is rejected only once the broker has the error envelope, after a failure that
  -- no retry follows; and it is retried when the broker refused that envelope.
  pub process-Settles :
      (source : Source)
      → Settled (
          process
            (transport env)
            (errors env)
            conversions
            (endpoint env name retry)
            source
            (delivery env envelope attempt)
            base)
  unfolding process
  process-Settles source =
      let context = Handler.new source name envelope attempt in
      elim (Result-cases (env.pipeline base context)) [
        | inl (es, e) ↦ rw (◌>>=◌, e) (settle_lem _ _ (outcome-Before env conversions base (ok es)))
        | inr (f, e) ↦
            rw (◌>>=◌, e) (settle_lem (err f) _ (outcome-Before env conversions base (err f)))
      ]

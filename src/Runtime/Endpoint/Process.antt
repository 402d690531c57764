-- ===== src/Runtime/Endpoint/Process.antt =====
-- Deliveries in an arbitrary environment: the world is the list of what happened, newest first,
-- and every answer is any function of it.
pub mod Settling
use sisa_messaging_rs.Prelude.{
  ℕ, ◌≡◌, ◌≢◌, refl, sym, ap, subst, ◌∙◌, ◌⊎◌, inl, inr, Bool, true, false, List, [], ◌∷◌, ◌++◌,
  Result, ok, err, arith, Bool-cases, Result-cases,
}
use sisa_messaging_rs.Prelude.Text.{Text, codes}
use sisa_messaging_rs.Prelude.Acts.{Act, pure, ◌>>=◌, ◌>>?◌}
use sisa_messaging_rs.Core.Envelope.Source.{Source}
use sisa_messaging_rs.Core.Envelope.Defs.{Envelope}
use sisa_messaging_rs.Core.Store.{Duration}
use sisa_messaging_rs.Core.Transport.{
  TransportError, Sent, TransportPublisher, ErrorPublisher, Delivery,
}
use sisa_messaging_rs.Runtime.Retry
use sisa_messaging_rs.Runtime.Handler.{HandlerError, HandlerContext}
use sisa_messaging_rs.Runtime.Endpoint.{
  Unwind, returned, panicked, Failure, undecodable, failed_handler, Conversions, Pipeline,
}
use sisa_messaging_rs.Runtime.Endpoint.Settle.{
  Endpoint, error_envelope, send_held, give_up, report, settle, process,
}

abbrev pub Handled : Type 0
Handled = Result Failure (List Envelope)

-- What the receiving loop's `select!` meets: the stop signal, a delivery, an error of the transport,
-- or the end of the deliveries.
pub data Arrival : Type 0 where
  stopping : Arrival
  arrives : Envelope → ℕ → Arrival
  breaks : TransportError → Arrival
  over : Arrival

pub data Event : Type 0 where
  handled : Handled → Event
  published : Envelope → Sent → Event
  error_published : Text → Envelope → Sent → Event
  acked : Sent → Event
  retried : Duration → Sent → Event
  rejected : Sent → Event
  selected : Arrival → Event
  waited : Duration → Bool → Event

abbrev pub History : Type 0
History = List Event

pub record Environment : Type 0 where
  pub pipeline : History → HandlerContext (Unit {0}) → Handled
  pub answer : History → Envelope → Sent
  pub error_answer : History → Text → Envelope → Sent
  pub settled : History → Sent

module _ (env : Environment) where
  abbrev pub transport : TransportPublisher History
  transport = record { publish = λ e h. (env.answer h e, published e (env.answer h e) ∷ h) }

  abbrev pub errors : ErrorPublisher History
  errors = record {
    publish_error =
        λ n e h. (env.error_answer h n e, error_published n e (env.error_answer h n e) ∷ h);
  }

  abbrev pub delivery : Envelope → ℕ → Delivery History
  delivery envelope attempt = record {
    envelope = envelope;
    attempt = attempt;
    ack = λ h. (env.settled h, acked (env.settled h) ∷ h);
    retry = λ d h. (env.settled h, retried d (env.settled h) ∷ h);
    reject = λ h. (env.settled h, rejected (env.settled h) ∷ h);
  }

  abbrev pub endpoint : Text → Retry.RetryPolicy → Endpoint History
  endpoint name retry = record {
    name = name;
    retry = retry;
    pipeline = λ c h. (env.pipeline h c, handled (env.pipeline h c) ∷ h);
  }

-- The publishes of `es`, one after the other, all confirmed.
abbrev pub AllSent : List Envelope → History → History → Type 0
AllSent [] h h' = h' ≡ h
AllSent (e ∷ es) h h' = AllSent es (published e (ok tt) ∷ h) h'

-- How the handling ends, after the events `base`: the handler's publishes were all confirmed, the handling failed, or a
-- publish failed after those before it were confirmed.
pub data Before (conversions : Conversions) (base : History)
    : Result Failure (Unit {0}) → History → Type 0 where
  sent_all :
      {h : History} (es : List Envelope)
      → AllSent es (handled (ok es) ∷ base) h
      → Before conversions base (ok tt) h
  not_handled : {f : Failure} → Before conversions base (err f) (handled (err f) ∷ base)
  not_sent :
      {h : History} (pre rest : List Envelope) {e : Envelope} {error : TransportError}
      → AllSent pre (handled (ok (pre ++ (e ∷ rest))) ∷ base) h
      → Before conversions base
          (err (failed_handler (conversions.from_transport error)))
          (published e (err error) ∷ h)

-- The failures that no retry follows: undecodable data, and a handler's on the last attempt.
pub data IsFinal (retry : Retry.RetryPolicy) (attempt : ℕ) : Failure → HandlerError → Type 0 where
  undecodable_final : {e : HandlerError} → IsFinal retry attempt (undecodable e) e
  last_final :
      {e : HandlerError}
      → Retry.is_last retry attempt ≡ true
      → IsFinal retry attempt (failed_handler e) e

-- How a delivery may be settled after the events `base`: by one call, the last event.
pub data Settles (conversions : Conversions) (name : Text) (retry : Retry.RetryPolicy)
    (envelope : Envelope) (attempt : ℕ) (base : History) : History → Type 0 where
  acks :
      {h : History} {s : Sent}
      → Before conversions base (ok tt) h
      → Settles conversions name retry envelope attempt base (acked s ∷ h)
  retries :
      {h : History} {s : Sent} {e : HandlerError}
      → Before conversions base (err (failed_handler e)) h
      → Retry.is_last retry attempt ≡ false
      → Settles conversions name retry envelope attempt base
          (retried (Retry.delay retry attempt) s ∷ h)
  rejects :
      {h : History} {s : Sent} {f : Failure} {e : HandlerError} {failed : Envelope}
      → Before conversions base (err f) h
      → IsFinal retry attempt f e
      → error_envelope envelope name e attempt ≡ returned failed
      → Settles conversions name retry envelope attempt base
          (rejected s ∷ (error_published name failed (ok tt) ∷ h))
  parks :
      {h : History} {s : Sent} {f : Failure} {e : HandlerError} {failed : Envelope}
      {error : TransportError}
      → Before conversions base (err f) h
      → IsFinal retry attempt f e
      → error_envelope envelope name e attempt ≡ returned failed
      → Settles conversions name retry envelope attempt base
          (retried (Retry.delay retry attempt) s ∷ (error_published name failed (err error) ∷ h))

-- What `send_held` answers and leaves.
pub data Sends (conversions : Conversions) (es : List Envelope) (h : History)
    : Result Failure (Unit {0}) × History → Type 0 where
  all_sent : {h' : History} → AllSent es h h' → Sends conversions es h (ok tt, h')
  stopped :
      {h' : History} (pre rest : List Envelope) {e : Envelope} {error : TransportError}
      → es ≡ pre ++ (e ∷ rest)
      → AllSent pre h h'
      → Sends conversions es h
          (err (failed_handler (conversions.from_transport error)), published e (err error) ∷ h')

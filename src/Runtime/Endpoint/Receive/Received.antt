-- ===== src/Runtime/Endpoint/Receive/Received.antt =====
-- crates/runtime/src/endpoint.rs: the receiving loop in an arbitrary environment.
use sisa_messaging_rs.Prelude.{ℕ, zero, suc, ◌≡◌, Bool, true, false, ◌∷◌, none, some, ok, err}
use sisa_messaging_rs.Prelude.Text.{Text}
use sisa_messaging_rs.Prelude.Acts.{Act}
use sisa_messaging_rs.Core.Store.{Duration}
use sisa_messaging_rs.Core.Envelope.Source.{Source}
use sisa_messaging_rs.Core.Envelope.Defs.{Envelope}
use sisa_messaging_rs.Core.Transport.{TransportError}
use sisa_messaging_rs.Runtime.Retry
use sisa_messaging_rs.Runtime.Endpoint.{Unwind, returned, Conversions}
use sisa_messaging_rs.Runtime.Endpoint.Process.{
  Arrival, stopping, arrives, breaks, over, selected, waited, History, Environment, transport,
  errors, delivery, endpoint, Settles,
}
use sisa_messaging_rs.Runtime.Endpoint.Receive.{Selected, stopped, next, Incoming, receive}

-- What arrives, and whether the stop signal ends a wait: any functions of what happened before.
pub record Stream : Type 0 where
  pub arrival : History → Arrival
  pub is_stopped : History → Duration → Bool

module _ (env : Environment) where
  abbrev pub selection : Arrival → Selected History
  selection stopping = stopped
  selection (arrives envelope attempt) = next (some (ok (delivery env envelope attempt)))
  selection (breaks error) = next (some (err error))
  selection over = next none

  abbrev pub incoming : Stream → Incoming History
  incoming stream = record {
    select = λ h. (selection (stream.arrival h), selected (stream.arrival h) ∷ h);
    wait = λ d h. (stream.is_stopped h d, waited d (stream.is_stopped h d) ∷ h);
  }

-- So many turns from one history to another, and whether the loop ended in them.
pub data Receives (conversions : Conversions) (name : Text) (retry : Retry.RetryPolicy)
    : ℕ → Bool → History → History → Type 0 where
  turns_out : {h : History} → Receives conversions name retry zero false h h
  stops :
      {n : ℕ} {h : History} → Receives conversions name retry (suc n) true h (selected stopping ∷ h)
  ends : {n : ℕ} {h : History} → Receives conversions name retry (suc n) true h (selected over ∷ h)
  handles :
      {n : ℕ} {b : Bool} {envelope : Envelope} {attempt : ℕ} {h h₁ h₂ : History}
      → Settles conversions name retry envelope attempt (selected (arrives envelope attempt) ∷ h) h₁
      → Receives conversions name retry n b h₁ h₂
      → Receives conversions name retry (suc n) b h h₂
  waits :
      {n : ℕ} {b : Bool} {error : TransportError} {h h₁ : History}
      → Receives conversions name retry n b
          (waited retry.first_delay false ∷ (selected (breaks error) ∷ h))
          h₁
      → Receives conversions name retry (suc n) b h h₁
  stops_waiting :
      {n : ℕ} {error : TransportError} {h : History}
      → Receives conversions name retry
          (suc n)
          true
          h
          (waited retry.first_delay true ∷ (selected (breaks error) ∷ h))

module _ (env : Environment) (stream : Stream) (conversions : Conversions) (name : Text)
    (retry : Retry.RetryPolicy) (source : Source) where
  abbrev Received : ℕ → History → Unwind Bool × History → Type 0
  Received turns h result =
      (b : Bool) × (result.0 ≡ returned b) × Receives conversions name retry turns b h result.1

  abbrev pub run : ℕ → Act History (Unwind Bool)
  run turns =
      receive (transport env) (errors env) conversions (incoming env stream) turns
        (endpoint env name retry) source

-- ===== src/Runtime/Dispatch/Trace.antt =====
-- The dispatcher in an arbitrary environment: the world is the list of what happened, newest
-- first, and every answer is any function of it. Other dispatchers, the broker and the clock are
-- free to behave in any way, so what holds of every such environment holds of every run.
pub mod Runs
pub mod Confirmed
pub mod Round
pub mod Guarded
use sisa_messaging_rs.Prelude.{
  ℕ, Bool, true, false, List, [], ◌∷◌, Option, none, some, Result, ok, err,
}
use sisa_messaging_rs.Prelude.Acts.{Act, pure, ◌>>=◌}
use sisa_messaging_rs.Prelude.Text.{Text}
use sisa_messaging_rs.Core.Envelope.Defs.{Envelope}
use sisa_messaging_rs.Core.Store.{StoreError, OutboxRecord, OutboxStore, Duration}
use sisa_messaging_rs.Core.Transport.{TransportError, Sent, TransportPublisher}
use sisa_messaging_rs.Runtime.Dispatch.{Timing, ErrorText, DispatchSettings, round, publish_all}

abbrev pub Marked : Type 0
Marked = Result StoreError (Unit {0})

pub data Event : Type 0 where
  read_clock : Duration → Event
  read_stop : Bool → Event
  claimed : Result StoreError (List OutboxRecord) → Event
  published : Envelope → Sent → Event
  timer : Bool → Event  -- whether the deadline came before the answer
  dispatched : List OutboxRecord → Marked → Event
  retried : OutboxRecord → Text → Duration → Marked → Event
  failed : OutboxRecord → Text → Marked → Event

abbrev pub History : Type 0
History = List Event

pub record Environment : Type 0 where
  pub clock : History → Duration
  pub stop : History → Bool
  pub rows : History → Result StoreError (List OutboxRecord)
  pub answer : History → Envelope → Sent
  pub late : History → Bool
  pub mark : History → Marked
  pub show : TransportError → Text

module _ (env : Environment) where
  abbrev pub store : OutboxStore History
  store = record {
    claim = λ limit lease h. (env.rows h, claimed (env.rows h) ∷ h);
    mark_dispatched = λ rs h. (env.mark h, dispatched rs (env.mark h) ∷ h);
    mark_retry = λ r e d h. (env.mark h, retried r e d (env.mark h) ∷ h);
    mark_failed = λ r e h. (env.mark h, failed r e (env.mark h) ∷ h);
  }

  abbrev pub transport : TransportPublisher History
  transport = record { publish = λ e h. (env.answer h e, published e (env.answer h e) ∷ h) }

  -- The deadline may pass while the publish is under way; the broker may still have answered.
  abbrev pub waited : Bool → Sent → Option Sent
  waited true s = none
  waited false s = some s

  abbrev pub timing : Timing History
  timing = record {
    now = λ h. (env.clock h, read_clock (env.clock h) ∷ h);
    stopping = λ h. (env.stop h, read_stop (env.stop h) ∷ h);
    timeout_at = λ deadline m. do
      sent ← m
      late ← λ h. (env.late h, timer (env.late h) ∷ h)
      pure (waited late sent);
  }

  abbrev pub errors : ErrorText
  errors = record { to_string = env.show }

  abbrev pub run_loop :
      DispatchSettings
      → Duration
      → List OutboxRecord
      → List OutboxRecord
      → History
      → List OutboxRecord × History
  run_loop = publish_all store transport timing errors

  abbrev pub run_round : DispatchSettings → History → Bool × History
  run_round = round store transport timing errors

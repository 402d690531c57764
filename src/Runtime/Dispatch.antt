-- ===== src/Runtime/Dispatch.antt =====
-- crates/runtime/src/dispatch.rs: the worker that publishes committed outbox rows.
pub mod Run
pub mod Trace
use sisa_messaging_rs.Prelude.{
  ℕ, zero, suc, ◌+◌, ◌-◌, ◌^◌, Bool, true, false, not, ◌&&◌, ◌||◌, List, [], ◌∷◌, ◌++◌, Option,
  none, some, Result, ok, err, String, min, leb, ◌==◌, if◌then◌else◌,
}
use sisa_messaging_rs.Prelude.Lists.{length}
use sisa_messaging_rs.Prelude.Acts.{Act, pure, ◌>>=◌, ◌>>◌}
use sisa_messaging_rs.Prelude.Text.{Text}
use sisa_messaging_rs.Core.Store.{StoreError, OutboxRecord, OutboxStore, Duration}
use sisa_messaging_rs.Core.Transport.{TransportError, Sent, TransportPublisher}
use sisa_messaging_rs.Runtime.Retry
use sisa_messaging_rs.Runtime.Retry.{RetryPolicy, seconds}

pub record DispatchSettings : Type 0 where
  pub poll_interval : Duration
  pub batch_size : ℕ
  pub lease : Duration
  pub retry : RetryPolicy

unfoldable pub invalid : DispatchSettings → Option String
invalid s =
    if s.batch_size == 0
    then some "`batch_size` is 0"
    else if s.lease == 0
    then some "`lease` is 0"
    else if s.poll_interval == 0
    then some "`poll_interval` is 0"
    else none

abbrev pub default : DispatchSettings
default = record {
  poll_interval = seconds 1;
  batch_size = 100;
  lease = seconds 30;
  retry = record { attempts = 10; first_delay = seconds 1; max_delay = seconds 60 };
}

-- The clock, the stop signal and the timer: `Instant::now`, `stop.has_changed()` read as
-- `stopping` reads it, and `timeout_at`, which answers `none` when the deadline came first.
pub record Timing (W : Type 0) : Type 0 where
  pub now : Act W Duration
  pub stopping : Act W Bool
  pub timeout_at : Duration → Act W Sent → Act W (Option Sent)

-- `error.to_string()`, from the error's `Display`.
pub record ErrorText : Type 0 where
  pub to_string : TransportError → Text

-- `u32::saturating_add(1)`.
abbrev pub next_attempt : ℕ → ℕ
next_attempt attempts = min (attempts + 1) (2 ^ 32 - 1)

module _ {W : Type 0} (store : OutboxStore W) where
  -- Only logs are written on what the mark answers.
  unfoldable pub put_back : DispatchSettings → OutboxRecord → Text → Act W (Unit {0})
  put_back settings r error = do
    let attempt = next_attempt r.attempts
    if Retry.is_last settings.retry attempt
        then store.mark_failed r error
        else store.mark_retry r error (Retry.delay settings.retry attempt)
    pure tt

  -- The mark after the loop, of the published rows if there are any.
  abbrev pub mark_published : List OutboxRecord → Act W (Unit {0})
  mark_published [] = pure tt
  mark_published (r ∷ rs) = do store.mark_dispatched (r ∷ rs); pure tt

module _ {W : Type 0} (store : OutboxStore W) (transport : TransportPublisher W) (timing : Timing W)
    (errors : ErrorText) where
  -- The loop over the claimed records. `published` is newest last, as in the code.
  unfoldable pub publish_all :
      DispatchSettings
      → Duration
      → List OutboxRecord
      → List OutboxRecord
      → Act W (List OutboxRecord)
  publish_all settings claimed_at [] published = pure published
  publish_all settings claimed_at (r ∷ rs) published =
      let confirmed = publish_all settings claimed_at rs (published ++ (r ∷ [])) in
      let refused = publish_all settings claimed_at rs published in
      do
        stop ← timing.stopping
        if stop then pure published else do
          now ← timing.now
          if leb settings.lease (now - claimed_at) then pure published else do
            sent ← timing.timeout_at (claimed_at + settings.lease) (transport.publish r.envelope)
            elim sent [
              | none ↦ pure published
              | some answer ↦ elim answer [
                | ok _ ↦ confirmed
                | err error ↦ (put_back store settings r (errors.to_string error) >> refused)
              ]
            ]

  unfoldable pub round : DispatchSettings → Act W Bool
  round settings = do
    claimed_at ← timing.now
    claimed ← store.claim settings.batch_size settings.lease
    elim claimed [
      | err _ ↦ pure false
      | ok records ↦ do
        published ← publish_all settings claimed_at records []
        mark_published store published
        pure (length published == settings.batch_size)
    ]

-- ===== src/Core/Store.antt =====
-- crates/core/src/store.rs: what a database crate implements.
use sisa_messaging_rs.Prelude.{ℕ, List, Bool, Result, String}
use sisa_messaging_rs.Prelude.Acts.{Act}
use sisa_messaging_rs.Prelude.Text.{Text}
use sisa_messaging_rs.Core.Time.Timestamp.{Timestamp}
use sisa_messaging_rs.Core.Envelope.Defs.{Envelope}

-- What the store was doing, and the client's error as it writes itself.
pub data StoreError : Type 0 where
  database : String → Text → StoreError

pub record OutboxRecord : Type 0 where
  pub envelope : Envelope
  pub created_at : Timestamp
  pub attempts : ℕ  -- u32
  pub leased_until : Timestamp

-- Durations are nanoseconds.
abbrev pub Duration : Type 0
Duration = ℕ

-- The dispatcher's side of `OutboxStore`.
pub record OutboxStore (W : Type 0) : Type 0 where
  pub claim : ℕ → Duration → Act W (Result StoreError (List OutboxRecord))
  pub mark_dispatched : List OutboxRecord → Act W (Result StoreError (Unit {0}))
  pub mark_retry : OutboxRecord → Text → Duration → Act W (Result StoreError (Unit {0}))
  pub mark_failed : OutboxRecord → Text → Act W (Result StoreError (Unit {0}))

-- The writer's side: rows on the caller's transaction.
pub record OutboxWriter (W Transaction : Type 0) : Type 0 where
  pub insert : Transaction → List Envelope → Act W (Result StoreError (Unit {0}) × Transaction)

pub record InboxStore (W Transaction : Type 0) : Type 0 where
  pub begin : Act W (Result StoreError Transaction)
  pub record_receipt : Transaction → Text → Envelope → Act W (Result StoreError Bool × Transaction)
  pub commit : Transaction → Act W (Result StoreError (Unit {0}))

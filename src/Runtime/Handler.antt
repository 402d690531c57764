-- ===== src/Runtime/Handler.antt =====
-- crates/runtime/src/handler.rs: what a handler gets, and how it fails.
use sisa_messaging_rs.Prelude.{ℕ, List, [], ◌∷◌, ◌++◌, some, Result, ok}
use sisa_messaging_rs.Prelude.Acts.{Act, pure, ◌>>?◌}
use sisa_messaging_rs.Prelude.Text.{Text}
use sisa_messaging_rs.Core.Envelope.Source.{Source}
use sisa_messaging_rs.Core.Envelope.Defs.{Envelope}
use sisa_messaging_rs.Core.Codec.{Message}
use sisa_messaging_rs.Runtime.Publish.{PublishError, Fresh, encode}

pub record HandlerError : Type 0 where
  pub error_type : Text
  pub message : Text

pub record HandlerContext (Transaction : Type 0) : Type 0 where
  pub source : Source
  pub endpoint : Text
  pub envelope : Envelope
  pub attempt : ℕ
  pub held : List Envelope
  pub transaction : Transaction

unfoldable pub new : Source → Text → Envelope → ℕ → HandlerContext (Unit {0})
new source endpoint envelope attempt = record {
  source = source;
  endpoint = endpoint;
  envelope = envelope;
  attempt = attempt;
  held = [];
  transaction = tt;
}

unfoldable pub with_transaction :
    {Transaction Other : Type 0}
    → HandlerContext Transaction
    → Other
    → HandlerContext Other × Transaction
with_transaction c other = (
  record {
    source = c.source;
    endpoint = c.endpoint;
    envelope = c.envelope;
    attempt = c.attempt;
    held = c.held;
    transaction = other;
  },
  c.transaction,
)

-- The new envelope tied to the handled one.
unfoldable pub tie : Envelope → Envelope → Envelope
tie handled envelope = record envelope {
  correlation = record {
    correlation_id = handled.correlation.correlation_id;
    causation_id = some handled.id;
  };
  trace = handled.trace;
}

module _ {W Msg Transaction : Type 0} (fresh : Fresh W) (message : Message Msg) where
  -- `publish`: the context that holds one more envelope.
  unfoldable pub publish :
      HandlerContext Transaction → Msg → Act W (Result PublishError (HandlerContext Transaction))
  unfolding tie
  publish c m = encode fresh message c.source m >>? λ envelope.
      pure (ok (record c { held = c.held ++ (tie c.envelope envelope ∷ []) }))

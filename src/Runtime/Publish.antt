-- ===== src/Runtime/Publish.antt =====
-- crates/runtime/src/publish.rs: turning a message into an envelope.
use sisa_messaging_rs.Prelude.{List, ℕ, ◌≡◌, refl, Result, ok, err}
use sisa_messaging_rs.Prelude.Acts.{Act, pure, ◌>>=◌}
use sisa_messaging_rs.Prelude.Text.{is_control}
use sisa_messaging_rs.Core.Error.{EnvelopeError}
use sisa_messaging_rs.Core.MessageType
use sisa_messaging_rs.Core.MessageType.{MessageType}
use sisa_messaging_rs.Core.MessageId.{MessageId}
use sisa_messaging_rs.Core.Time.Timestamp.{Timestamp}
use sisa_messaging_rs.Core.Envelope.Source.{Source}
use sisa_messaging_rs.Core.Envelope.ContentType
use sisa_messaging_rs.Core.Envelope.ContentType.{ContentType}
use sisa_messaging_rs.Core.Envelope.Defs
use sisa_messaging_rs.Core.Envelope.Defs.{Envelope}
use sisa_messaging_rs.Core.Codec
use sisa_messaging_rs.Core.Codec.{CodecError, Message, json_content_type}
use sisa_messaging_rs.Core.Store.{StoreError}
use sisa_messaging_rs.Core.Transport.{TransportError}

pub data PublishError : Type 0 where
  message_type : EnvelopeError → PublishError
  encoding : CodecError → PublishError
  transport : TransportError → PublishError
  store : StoreError → PublishError

-- `MessageId::new` and `Timestamp::now`, from the clock module.
pub record Fresh (W : Type 0) : Type 0 where
  pub new_id : Act W MessageId
  pub now : Act W Timestamp

-- The codec's content type passes the check that the code expects it to pass.
json_content_type-new :
    ContentType.new json_content_type ≡ ok (record { value = json_content_type })
unfolding ContentType.new is_control
json_content_type-new = refl

module _ {W Msg : Type 0} (fresh : Fresh W) (message : Message Msg) where
  stamp : MessageType → Source → List ℕ → Act W Envelope
  stamp checked source body = do
    id ← fresh.new_id
    now ← fresh.now
    pure (Defs.new id now checked source (record { value = json_content_type }) body)

  unfoldable pub encode : Source → Msg → Act W (Result PublishError Envelope)
  unfolding stamp
  encode source m = elim (MessageType.new message.type_name) [
    | err e ↦ pure (err (message_type e))
    | ok checked ↦ elim (Codec.encode message m) [
      | err e ↦ pure (err (encoding e))
      | ok body ↦ do envelope ← stamp checked source body; pure (ok envelope)
    ]
  ]

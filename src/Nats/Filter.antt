-- ===== src/Nats/Filter.antt =====
-- crates/nats/src/subscribe.rs: the subjects that a consumer is filtered on. The world is the list of
-- the consumers that were created, newest first, and the server's answers are any function of it.
use sisa_messaging_rs.Prelude.{◌≡◌, Bool, false, not, ◌&&◌, ◌||◌, List, ◌∷◌, Result, ok, err, map}
use sisa_messaging_rs.Prelude.Lists.{any_of}
use sisa_messaging_rs.Prelude.Text.{Text, text_eq}
use sisa_messaging_rs.Core.MessageType.{is_empty}
use sisa_messaging_rs.Core.Transport.{EndpointSpec}
use sisa_messaging_rs.Nats.{
  NatsSettings, InfoError, not_found, other_info, ConsumerFilter, ConsumerConfig, Jetstream,
  subject,
}
use sisa_messaging_rs.Nats.Subscribe.{create}

abbrev pub History : Type 0
History = List ConsumerConfig

-- The server's answers.
pub record Server : Type 0 where
  pub stream : History → Result Text (Unit {0})
  pub info : History → Result InfoError ConsumerFilter
  pub create : History → Result Text (Unit {0})
  pub pull : History → Result Text (Unit {0})
  pub other : History → Result Text (Unit {0})

module _ {H : Type 0} (answers : Server) where
  abbrev pub server : Jetstream History H (Unit {0}) (Unit {0}) (Unit {0})
  server = record {
    publish_with_headers = λ to headers payload h. (answers.other h, h);
    wait_ack = λ ack h. (answers.other h, h);
    get_stream = λ name h. (answers.stream h, h);
    consumer_info = λ name h. (answers.info h, h);
    create_consumer = λ config h. (answers.create h, config ∷ h);
    messages = λ consumer h. (answers.pull h, h);
    double_ack_with = λ message kind h. (answers.other h, h);
  }

abbrev pub has : Text → List Text → Bool
has s = any_of (text_eq s)

-- Whether an existing consumer is filtered on a subject: by its list, or by its one subject.
abbrev pub was_filtered : Text → Result InfoError ConsumerFilter → Bool
was_filtered s (ok info) =
    has s info.filter_subjects
    || (text_eq s info.filter_subject && not (is_empty info.filter_subject))
was_filtered s (err e) = false

-- The server said which consumer of the name there is, or that there is none.
abbrev pub IsKnown : Result InfoError ConsumerFilter → Type 0
IsKnown (ok info) = Unit
IsKnown (err not_found) = Unit
IsKnown (err (other_info e)) = ⊥

-- The consumer that a subscription creates.
pub record IsWidened (settings : NatsSettings) (spec : EndpointSpec)
    (info : Result InfoError ConsumerFilter) (config : ConsumerConfig) : Type 0 where
  pub known : IsKnown info
  pub durable_name : config.durable_name ≡ spec.name
  pub ack_wait : config.ack_wait ≡ settings.ack_wait
  pub filter :
      (s : Text)
      → has s config.filter_subjects
        ≡ (has s (map (subject settings) spec.message_types) || was_filtered s info)

-- ===== src/Nats/Subscribe.antt =====
-- crates/nats/src/subscribe.rs: the subscription of an endpoint, which widens its consumer's filter.
use sisa_messaging_rs.Prelude.{
  Bool, true, false, List, [], ◌∷◌, ◌++◌, Result, ok, err, map, if◌then◌else◌,
}
use sisa_messaging_rs.Prelude.Lists.{any_of}
use sisa_messaging_rs.Prelude.Acts.{Act, pure, ◌>>=◌}
use sisa_messaging_rs.Prelude.Text.{Text, codes, text_eq}
use sisa_messaging_rs.Core.MessageType.{MessageType}
use sisa_messaging_rs.Core.MessageId.{UuidText}
use sisa_messaging_rs.Core.Transport.{TransportError, broker, EndpointSpec}
use sisa_messaging_rs.Nats.{
  NatsSettings, HeaderMaps, InfoError, not_found, other_info, ConsumerFilter, ConsumerConfig,
  Jetstream, subject, at,
}

abbrev pub is_empty_list : List MessageType → Bool
is_empty_list [] = true
is_empty_list (t ∷ ts) = false

abbrev pub existing_of : ConsumerFilter → List Text
existing_of info =
    info.filter_subjects
    ++ (elim info.filter_subject [ [] ↦ [] | c ∷ s ↦ info.filter_subject ∷ [] ])

-- The loop that adds the subjects the filter lacks.
unfoldable pub widen : List Text → List Text → List Text
widen [] subjects = subjects
widen (s ∷ existing) subjects =
    widen existing (if any_of (text_eq s) subjects then subjects else subjects ++ (s ∷ []))

unfoldable pub filter_of :
    List Text → Result InfoError ConsumerFilter → Result TransportError (List Text)
unfolding widen
filter_of subjects (ok info) = ok (widen (existing_of info) subjects)
filter_of subjects (err not_found) = ok subjects
filter_of subjects (err (other_info e)) = err (broker "reading the JetStream consumer" e)

module _ {W H Ack Consumer Messages : Type 0} (maps : HeaderMaps H)
    (server : Jetstream W H Ack Consumer Messages) (uuid : UuidText) (settings : NatsSettings) where
  abbrev pub config_of : Text → List Text → ConsumerConfig
  config_of name filter = record {
    durable_name = name;
    filter_subjects = filter;
    ack_wait = settings.ack_wait;
  }

  abbrev pub create : ConsumerConfig → Act W (Result TransportError Messages)
  create config = do
    created ← server.create_consumer config
    elim created [
      | err e ↦ pure (err (broker "creating the JetStream consumer" e))
      | ok consumer ↦ do
        pulled ← server.messages consumer
        pure (at "pulling from JetStream" pulled)
    ]

  -- The subscription; `deliver` is what its stream does with each message.
  unfoldable pub subscribe : EndpointSpec → Act W (Result TransportError Messages)
  unfolding filter_of
  subscribe spec =
      if is_empty_list spec.message_types
      then pure (
          err (
            broker "creating the JetStream consumer"
              (codes "an endpoint needs at least one message type")))
      else do
        found ← server.get_stream settings.stream
        elim found [
          | err e ↦ pure (err (broker "creating the JetStream consumer" e))
          | ok _ ↦ do
            info ← server.consumer_info spec.name
            elim (filter_of (map (subject settings) spec.message_types) info) [
              | err e ↦ pure (err e)
              | ok filter ↦ create (config_of spec.name filter)
            ]
        ]

-- ===== src/Nats.antt =====
-- crates/nats/src/transport.rs and crates/nats/src/subscribe.rs: the NATS JetStream transport. What
-- async-nats does is a parameter: its header maps, and the calls to the server.
pub mod Subscribe
pub mod Filter
pub mod Aside
pub mod Headers
pub mod Connect
pub mod Subjects
use sisa_messaging_rs.Prelude.{
  ℕ, ◌+◌, ◌-◌, ◌^◌, Bool, true, false, not, ◌&&◌, ◌||◌, List, [], ◌∷◌, ◌++◌, Option, none, some,
  String, Result, ok, err, map_err, map, min, leb, ◌==◌, ◌>>=◌ as ◌>>!◌, if◌then◌else◌,
}
use sisa_messaging_rs.Prelude.Lists.{any_of}
use sisa_messaging_rs.Prelude.Acts.{Act, pure, ◌>>=◌, ◌>>?◌}
use sisa_messaging_rs.Prelude.Text.{Text, codes, text_eq}
use sisa_messaging_rs.Prelude.Maps
use sisa_messaging_rs.Core.Error.{EnvelopeError}
use sisa_messaging_rs.Core.MessageType.{MessageType}
use sisa_messaging_rs.Core.MessageId
use sisa_messaging_rs.Core.MessageId.{UuidText}
use sisa_messaging_rs.Core.Envelope.Defs.{Envelope}
use sisa_messaging_rs.Core.Envelope.Attributes.{Attributes, to_attributes, from_attributes}
use sisa_messaging_rs.Core.Store.{Duration}
use sisa_messaging_rs.Core.Transport.{TransportError, broker, EndpointSpec, Sent}

-- `CE` and `MSG_ID`.
abbrev pub ce : Text
ce = codes "ce-"

abbrev pub msg_id : Text
msg_id = codes "Nats-Msg-Id"

pub record NatsSettings : Type 0 where
  pub url : Text
  pub prefix : Text
  pub stream : Text
  pub duplicate_window : Duration
  pub ack_wait : Duration

-- async-nats' `HeaderMap`, and the check of a `HeaderValue` read from a text.
pub record HeaderMaps (H : Type 0) : Type 0 where
  pub new : H
  pub insert : Text → Text → H → H
  pub append : Text → Text → H → H
  pub iter : H → List (Text × List Text)
  pub parse_value : Text → Result Text Text

-- A message: its headers if it has any, its payload, and how often it was delivered.
pub record Message (H : Type 0) : Type 0 where
  pub headers : Option H
  pub payload : List ℕ
  pub delivered : Result Text ℕ

pub data AckKind : Type 0 where
  acked : AckKind
  naked : Duration → AckKind
  termed : AckKind

pub data InfoError : Type 0 where
  not_found : InfoError
  other_info : Text → InfoError

-- What `consumer_info` tells of an existing consumer.
pub record ConsumerFilter : Type 0 where
  pub filter_subjects : List Text
  pub filter_subject : Text

-- The fields of the consumer's configuration that are not constant.
pub record ConsumerConfig : Type 0 where
  pub durable_name : Text
  pub filter_subjects : List Text
  pub ack_wait : Duration

-- The calls to the server, with the errors' text.
pub record Jetstream (W H Ack Consumer Messages : Type 0) : Type 0 where
  pub publish_with_headers : Text → H → List ℕ → Act W (Result Text Ack)
  pub wait_ack : Ack → Act W (Result Text (Unit {0}))
  pub get_stream : Text → Act W (Result Text (Unit {0}))
  pub consumer_info : Text → Act W (Result InfoError ConsumerFilter)
  pub create_consumer : ConsumerConfig → Act W (Result Text Consumer)
  pub messages : Consumer → Act W (Result Text Messages)
  pub double_ack_with : Message H → AckKind → Act W (Result Text (Unit {0}))

unfoldable pub subject : NatsSettings → MessageType → Text
subject settings t = settings.prefix ++ (codes "." ++ t.value)

unfoldable pub error_subject : NatsSettings → Text → Text
error_subject settings endpoint = settings.prefix ++ (codes "._error." ++ endpoint)

-- `value.replace(['\r', '\n'], " ")`.
unfoldable pub one_line : Text → Text
one_line value = map (λ c. if (c == 13) || (c == 10) then 32 else c) value

-- `str::to_ascii_lowercase` and `str::strip_prefix`.
abbrev pub to_ascii_lowercase : Text → Text
to_ascii_lowercase = map (λ c. if leb 65 c && leb c 90 then c + 32 else c)

abbrev pub strip_prefix : Text → Text → Option Text
strip_prefix [] s = some s
strip_prefix (p ∷ prefix) [] = none
strip_prefix (p ∷ prefix) (c ∷ s) = if p == c then strip_prefix prefix s else none

abbrev pub at : {A : Type 0} → String → Result Text A → Result TransportError A
at context r = map_err (broker context) r

module _ {H : Type 0} (maps : HeaderMaps H) (uuid : UuidText) where
  -- The loop of `headers`.
  unfoldable pub insert_parsed : Attributes → H → Result TransportError H
  insert_parsed [] h = ok h
  insert_parsed ((name, value) ∷ attributes) h =
      at "writing the CloudEvents headers" (maps.parse_value value) >>! λ v.
      insert_parsed attributes (maps.insert (ce ++ name) v h)

  unfoldable pub headers : Envelope → Result TransportError H
  unfolding insert_parsed
  headers e = insert_parsed (to_attributes uuid e) maps.new >>! λ h.
      ok (maps.insert msg_id (MessageId.to_string uuid e.id) h)

  -- The loop of `publish_error`.
  unfoldable pub insert_one_line : Attributes → H → H
  insert_one_line [] h = h
  insert_one_line ((name, value) ∷ attributes) h =
      insert_one_line attributes (maps.insert (ce ++ name) (one_line value) h)

  abbrev append_all : Text → List Text → H → H
  append_all name [] h = h
  append_all name (v ∷ vs) h = append_all name vs (maps.append name v h)

  -- The loop of `set_aside`.
  unfoldable pub copy_headers : List (Text × List Text) → H → H
  copy_headers [] h = h
  copy_headers ((name, values) ∷ rest) h =
      copy_headers rest (if text_eq name msg_id then h else append_all name values h)

  abbrev iter_of : Option H → List (Text × List Text)
  iter_of none = []
  iter_of (some h) = maps.iter h

  unfoldable pub aside_headers : Text → Message H → Text → H
  unfolding copy_headers one_line
  aside_headers endpoint message error = maps.insert (ce ++ codes "errormessage") (one_line error) (
      maps.insert (ce ++ codes "errortype") (codes "invalid_envelope") (
        maps.insert (ce ++ codes "errorendpoint") endpoint
          (copy_headers (iter_of message.headers) maps.new)))

  -- One header of `read`: its attribute and first value, if it has them.
  abbrev pub attribute : Text × List Text → Option (Text × Text)
  attribute (name, []) = none
  attribute (name, value ∷ values) = elim (strip_prefix ce (to_ascii_lowercase name)) [
    | none ↦ none
    | some stripped ↦ some (stripped, value)
  ]

  abbrev pub insert_read : Option (Text × Text) → Attributes → Attributes
  insert_read none m = m
  insert_read (some (k, v)) m = Maps.insert k v m

  -- The headers collected into a map.
  unfoldable pub read_headers : List (Text × List Text) → Attributes → Attributes
  read_headers [] m = m
  read_headers (h ∷ rest) m = read_headers rest (insert_read (attribute h) m)

  -- `read`, with the envelope's error as `show` writes it.
  unfoldable pub read : (EnvelopeError → Text) → Message H → Result Text (Envelope × ℕ)
  unfolding read_headers
  read show message = message.delivered >>! λ delivered.
      map_err show
        (from_attributes uuid (read_headers (iter_of message.headers) []) message.payload)
      >>! λ envelope. ok (envelope, min delivered (2 ^ 32 - 1))

module _ {W H Ack Consumer Messages : Type 0} (maps : HeaderMaps H)
    (server : Jetstream W H Ack Consumer Messages) (uuid : UuidText) (settings : NatsSettings) where
  -- Publishes, and waits for the acknowledgement.
  unfoldable pub publish_to : Text → H → List ℕ → Act W Sent
  publish_to to h payload = do
    published ← server.publish_with_headers to h payload
    elim published [
      | err e ↦ pure (err (broker "publishing to JetStream" e))
      | ok ack ↦ do
        waited ← server.wait_ack ack
        pure (at "waiting for the JetStream acknowledgement" waited)
    ]

  unfoldable pub publish : Envelope → Act W Sent
  unfolding publish_to headers
  publish e = elim (headers maps uuid e) [
    | err x ↦ pure (err x)
    | ok h ↦ publish_to (subject settings e.message_type) h e.body
  ]

  unfoldable pub publish_error : Text → Envelope → Act W Sent
  unfolding publish_to
  publish_error endpoint e =
      publish_to (error_subject settings endpoint)
        (insert_one_line maps uuid (to_attributes uuid e) maps.new) e.body

  -- `double_ack_with`, and its error.
  unfoldable pub settle : Message H → AckKind → Act W Sent
  settle message kind = do
    r ← server.double_ack_with message kind
    pure (at "settling a JetStream message" r)

  unfoldable pub set_aside : Text → Message H → Text → Act W Sent
  set_aside endpoint message error =
      publish_to (error_subject settings endpoint) (aside_headers maps uuid endpoint message error)
        message.payload
      >>? λ _. settle message termed

  -- What one pulled message becomes: a delivery, an error, or nothing.
  unfoldable pub deliver :
      (EnvelopeError → Text)
      → Text
      → Result Text (Message H)
      → Act W (Option (Result TransportError (Envelope × ℕ × Message H)))
  deliver show endpoint (err e) = pure (some (err (broker "pulling from JetStream" e)))
  deliver show endpoint (ok message) = elim (read maps uuid show message) [
    | ok (envelope, attempt) ↦ pure (some (ok (envelope, attempt, message)))
    | err e ↦ do
      moved ← set_aside endpoint message e
      elim moved [ ok _ ↦ pure none | err x ↦ pure (some (err x)) ]
  ]

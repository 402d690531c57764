-- ===== src/Nats/Aside.antt =====
-- crates/nats/src/subscribe.rs: what becomes of a pulled message. The world is the list of what was
-- sent to the server, each with what the server answered, newest first; the answers are any function
-- of it.
use sisa_messaging_rs.Prelude.{
  ℕ, ◌≡◌, List, ◌∷◌, Option, none, some, Result, ok, err, Result-cases, inl, inr,
}
use sisa_messaging_rs.Prelude.Text.{Text}
use sisa_messaging_rs.Core.Error.{EnvelopeError}
use sisa_messaging_rs.Core.MessageId.{UuidText}
use sisa_messaging_rs.Core.Envelope.Defs.{Envelope}
use sisa_messaging_rs.Core.Transport.{TransportError, broker}
use sisa_messaging_rs.Nats.{
  NatsSettings, HeaderMaps, Message, AckKind, termed, InfoError, ConsumerFilter, Jetstream,
  error_subject, aside_headers, read, publish_to, settle, set_aside, deliver,
}

pub data Event (H : Type 0) : Type 0 where
  published : Text → H → List ℕ → Result Text (Unit {0}) → Event H
  waited : Result Text (Unit {0}) → Event H
  settled : Message H → AckKind → Result Text (Unit {0}) → Event H

abbrev pub History : Type 0 → Type 0
History H = List (Event H)

-- The server's answers.
pub record Server (H : Type 0) : Type 0 where
  pub publish : History H → Result Text (Unit {0})
  pub acknowledge : History H → Result Text (Unit {0})
  pub settle : History H → Result Text (Unit {0})
  pub info : History H → Result InfoError ConsumerFilter
  pub other : History H → Result Text (Unit {0})

module _ {H : Type 0} where
  abbrev pub server : Server H → Jetstream (History H) H (Unit {0}) (Unit {0}) (Unit {0})
  server answers = record {
    publish_with_headers = λ to headers payload h.
        (answers.publish h, published to headers payload (answers.publish h) ∷ h);
    wait_ack = λ ack h. (answers.acknowledge h, waited (answers.acknowledge h) ∷ h);
    get_stream = λ name h. (answers.other h, h);
    consumer_info = λ name h. (answers.info h, h);
    create_consumer = λ config h. (answers.other h, h);
    messages = λ consumer h. (answers.other h, h);
    double_ack_with =
        λ message kind h. (answers.settle h, settled message kind (answers.settle h) ∷ h);
  }

abbrev pub Answer : Type 0 → Type 0
Answer H = Option (Result TransportError (Envelope × ℕ × Message H))

module _ {H : Type 0} (maps : HeaderMaps H) (uuid : UuidText) (settings : NatsSettings)
    (show : EnvelopeError → Text) (endpoint : Text) where
  -- The copy of a message that is no envelope, on the error subject, and the server's answer to it.
  abbrev pub copied : Message H → Text → Result Text (Unit {0}) → History H → History H
  copied message error answer h =
      published (error_subject settings endpoint) (aside_headers maps uuid endpoint message error)
        message.payload answer
      ∷ h

  -- What becomes of a pulled message: a delivery if it is an envelope. If it is none, a copy is
  -- published, and the message is terminated only after the copy was acknowledged.
  pub data Delivers (h : History H) : Result Text (Message H) → Answer H × History H → Type 0 where
    not_pulled : (e : Text) → Delivers h (err e) (some (err (broker "pulling from JetStream" e)), h)
    readable :
        (message : Message H) (envelope : Envelope) (attempt : ℕ)
        → read maps uuid show message ≡ ok (envelope, attempt)
        → Delivers h (ok message) (some (ok (envelope, attempt, message)), h)
    not_published :
        (message : Message H) (error e : Text)
        → read maps uuid show message ≡ err error
        → Delivers h
            (ok message)
            (some (err (broker "publishing to JetStream" e)), copied message error (err e) h)
    not_acknowledged :
        (message : Message H) (error e : Text)
        → read maps uuid show message ≡ err error
        → Delivers h (ok message) (
          some (err (broker "waiting for the JetStream acknowledgement" e)),
          waited (err e) ∷ copied message error (ok tt) h,
        )
    not_terminated :
        (message : Message H) (error e : Text)
        → read maps uuid show message ≡ err error
        → Delivers h (ok message) (
          some (err (broker "settling a JetStream message" e)),
          settled message termed (err e) ∷ (waited (ok tt) ∷ copied message error (ok tt) h),
        )
    set_apart :
        (message : Message H) (error : Text)
        → read maps uuid show message ≡ err error
        → Delivers h (ok message) (
          none,
          settled message termed (ok tt) ∷ (waited (ok tt) ∷ copied message error (ok tt) h),
        )

  module _ (answers : Server H) where
    -- A message that is an envelope becomes a delivery. One that is none is never dropped without a copy:
    -- the server is asked to terminate it only right after a copy of it on the error subject was
    -- acknowledged. When the server refuses the copy, its acknowledgement or the termination, nothing
    -- further is sent and the stream's next item is that error; the message is passed over without an
    -- item only when the server accepted all three.
    pub deliver-Delivers :
        (pulled : Result Text (Message H)) (h : History H)
        → Delivers h pulled (deliver maps (server answers) uuid settings show endpoint pulled h)
    unfolding deliver set_aside publish_to settle
    deliver-Delivers (err e) h = not_pulled e
    deliver-Delivers (ok message) h = elim (Result-cases (read maps uuid show message)) [
      | inl ((envelope, attempt), r) ↦ rw (deliver, r) (readable message envelope attempt r)
      | inr (error, r) ↦ elim (Result-cases (answers.publish h)) [
        | inr (e, p) ↦ rw (deliver, r, p) (not_published message error e r)
        | inl (tt, p) ↦ elim (Result-cases (answers.acknowledge (copied message error (ok tt) h))) [
          | inr (e, q) ↦ rw (deliver, r, p, q) (not_acknowledged message error e r)
          | inl (tt, q) ↦
              elim (Result-cases
                (answers.settle (waited (ok tt) ∷ copied message error (ok tt) h))) [
                  | inr (e, s) ↦ rw (deliver, r, p, q, s) (not_terminated message error e r)
                  | inl (tt, s) ↦ rw (deliver, r, p, q, s) (set_apart message error r)
                ]
        ]
      ]
    ]

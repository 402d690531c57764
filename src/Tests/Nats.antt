-- ===== src/Tests/Nats.antt =====
-- A subscription whose consumer exists with another subject, and a message without headers.
use sisa_messaging_rs.Prelude.{◌≡◌, ◌↔◌, ◌≤◌, List, [], ◌∷◌, ◌++◌, none, ok, err, ◌⊎◌}
use sisa_messaging_rs.Prelude.Text.{Text, codes}
use sisa_messaging_rs.Prelude.Lists.{length}
use sisa_messaging_rs.Core.MessageType.{MessageType, check_message_type}
use sisa_messaging_rs.Core.MessageType.Grammar.{IsLevels}
use sisa_messaging_rs.Nats.Subjects.{IsVersion, error_subject_iff}
use sisa_messaging_rs.Core.Transport.{EndpointSpec}
use sisa_messaging_rs.Nats
use sisa_messaging_rs.Nats.{NatsSettings, HeaderMaps, Message, deliver, subject, error_subject}
use sisa_messaging_rs.Nats.Filter
use sisa_messaging_rs.Nats.Aside
use sisa_messaging_rs.Nats.Aside.{Delivers, deliver-Delivers}
use sisa_messaging_rs.Tests.Sample.{uuid}

abbrev Headers : Type 0
Headers = List (Text × List Text)

abbrev maps : HeaderMaps Headers
maps = record {
  new = [];
  insert = λ k v h. (k, v ∷ []) ∷ h;
  append = λ k v h. h ++ ((k, v ∷ []) ∷ []);
  iter = λ h. h;
  parse_value = λ v. ok v;
}

abbrev settings : NatsSettings
settings = record {
  url = codes "nats://localhost:4222";
  prefix = codes "sisa";
  stream = codes "SISA";
  duplicate_window = 120;
  ack_wait = 30;
}

abbrev spec : EndpointSpec
spec = record {
  name = codes "billing";
  message_types = record { value = codes "order_placed.v1" } ∷ [];
}

abbrev answers : Filter.Server
answers = record {
  stream = λ h. ok tt;
  info =
      λ h. ok (record { filter_subjects = codes "sisa.order_paid.v1" ∷ []; filter_subject = [] });
  create = λ h. ok tt;
  pull = λ h. ok tt;
  other = λ h. ok tt;
}

abbrev message : Message Headers
message = record { headers = none; payload = 1 ∷ []; delivered = ok 1 }

abbrev aside_answers : Aside.Server Headers
aside_answers = record {
  publish = λ h. ok tt;
  acknowledge = λ h. ok tt;
  settle = λ h. ok tt;
  info = λ h. err Nats.not_found;
  other = λ h. ok tt;
}

deliver-Delivers_example :
    Delivers maps uuid settings
      (λ e. [])
      (codes "billing")
      []
      (ok message)
      (deliver maps
        (Aside.server aside_answers)
        uuid
        settings
        (λ e. [])
        (codes "billing")
        (ok message)
        [])
deliver-Delivers_example =
    deliver-Delivers maps uuid settings (λ e. []) (codes "billing") aside_answers (ok message) []

error_subject_iff_example :
    ((t : MessageType) × (check_message_type t.value ≡ ok tt)
      × (subject settings t ≡ error_subject settings (codes "v1")))
    ↔ ((IsVersion (codes "v1") ⊎ IsLevels (codes "v1")) × (length (codes "v1") ≤ 242))
error_subject_iff_example = error_subject_iff settings (codes "v1")

-- ===== src/Nats/Connect.antt =====
-- crates/nats/src/settings.rs and `NatsTransport::connect` of crates/nats/src/transport.rs. The
-- client and the calls to the server are parameters.
use sisa_messaging_rs.Prelude.{List, [], ◌∷◌, ◌++◌, Result, ok, err}
use sisa_messaging_rs.Prelude.Acts.{Act, pure, ◌>>=◌}
use sisa_messaging_rs.Prelude.Text.{Text, codes}
use sisa_messaging_rs.Core.Store.{Duration}
use sisa_messaging_rs.Core.Transport.{TransportError, broker}
use sisa_messaging_rs.Runtime.Retry.{seconds}
use sisa_messaging_rs.Nats.{NatsSettings}

abbrev pub default : NatsSettings
default = record {
  url = codes "nats://localhost:4222";
  prefix = codes "sisa";
  stream = codes "SISA";
  duplicate_window = seconds 120;
  ack_wait = seconds 30;
}

-- The fields of the stream's configuration that are set.
pub record StreamConfig : Type 0 where
  pub name : Text
  pub subjects : List Text
  pub duplicate_window : Duration

-- `async_nats::connect`, with `jetstream::new` of what it answers, and the call that creates the
-- stream or updates it.
pub record Client (W Context : Type 0) : Type 0 where
  pub connect : Text → Act W (Result Text Context)
  pub create_or_update_stream : Context → StreamConfig → Act W (Result Text (Unit {0}))

pub record NatsTransport (Context : Type 0) : Type 0 where
  pub jetstream : Context
  pub settings : NatsSettings

unfoldable pub stream_config : NatsSettings → StreamConfig
stream_config settings = record {
  name = settings.stream;
  subjects = (settings.prefix ++ codes ".>") ∷ [];
  duplicate_window = settings.duplicate_window;
}

module _ {W Context : Type 0} (client : Client W Context) where
  unfoldable pub connect : NatsSettings → Act W (Result TransportError (NatsTransport Context))
  unfolding stream_config
  connect settings = do
    connected ← client.connect settings.url
    elim connected [
      | err e ↦ pure (err (broker "connecting to NATS" e))
      | ok jetstream ↦ do
        created ← client.create_or_update_stream jetstream (stream_config settings)
        elim created [
          | err e ↦ pure (err (broker "creating the JetStream stream" e))
          | ok _ ↦ pure (ok (record { jetstream = jetstream; settings = settings }))
        ]
    ]

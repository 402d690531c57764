-- ===== src/Runtime/Endpoint/Receive.antt =====
-- crates/runtime/src/endpoint.rs: the loop that receives deliveries until the bus stops.
pub mod Received
use sisa_messaging_rs.Prelude.{
  ℕ, zero, suc, Bool, true, false, Option, none, some, Result, ok, err, if◌then◌else◌,
}
use sisa_messaging_rs.Prelude.Acts.{Act, pure, ◌>>=◌}
use sisa_messaging_rs.Core.Envelope.Source.{Source}
use sisa_messaging_rs.Core.Transport.{TransportError, TransportPublisher, ErrorPublisher, Delivery}
use sisa_messaging_rs.Runtime.Dispatch.Run.{Wait}
use sisa_messaging_rs.Runtime.Endpoint.{Unwind, returned, panicked, Conversions}
use sisa_messaging_rs.Runtime.Endpoint.Settle.{Endpoint, process}

-- The biased `select!` of the stop signal and `deliveries.next()`.
pub data Selected (W : Type 0) : Type 0 where
  stopped : Selected W
  next : Option (Result TransportError (Delivery W)) → Selected W

-- The endpoint's deliveries with the stop signal, and its `select!` with a sleep.
pub record Incoming (W : Type 0) : Type 0 where
  pub select : Act W (Selected W)
  pub wait : Wait W

module _ {W : Type 0} (transport : TransportPublisher W) (errors : ErrorPublisher W)
    (conversions : Conversions) (incoming : Incoming W) where
  abbrev pub unless_panicked : {A : Type 0} → Act W (Unwind Bool) → Unwind A → Act W (Unwind Bool)
  unless_panicked again (returned a) = again
  unless_panicked again (panicked p) = pure (panicked p)

  -- One turn of the loop, with what follows it.
  unfoldable pub turn : Act W (Unwind Bool) → Endpoint W → Source → Selected W → Act W (Unwind Bool)
  turn again endpoint source stopped = pure (returned true)
  turn again endpoint source (next (some (ok delivery))) =
      process transport errors conversions endpoint source delivery >>= unless_panicked again
  turn again endpoint source (next (some (err error))) = do
    stop ← incoming.wait endpoint.retry.first_delay
    if stop then pure (returned true) else again
  turn again endpoint source (next none) = pure (returned true)

  -- At most so many turns of the loop: whether it ended in them.
  unfoldable pub receive : ℕ → Endpoint W → Source → Act W (Unwind Bool)
  unfolding turn
  receive zero endpoint source = pure (returned false)
  receive (suc turns) endpoint source =
      let again = receive turns endpoint source in incoming.select >>= turn again endpoint source

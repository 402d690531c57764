-- ===== src/Tests/Bus.antt =====
-- A bus with one endpoint of one handler, and one that adds an endpoint twice.
use sisa_messaging_rs.Prelude.{ℕ, ◌≡◌, refl, false, List, [], ◌∷◌, Result, ok, err}
use sisa_messaging_rs.Prelude.Text.{codes, bytes}
use sisa_messaging_rs.Prelude.Maps
use sisa_messaging_rs.Runtime.StartError.{duplicate_endpoint}
use sisa_messaging_rs.Core.MessageType
use sisa_messaging_rs.Core.Transport.{TransportError, EndpointSpec}
use sisa_messaging_rs.Runtime.Endpoint.{returned, ErasedHandler}
use sisa_messaging_rs.Runtime.Inbox.{no_outbox}
use sisa_messaging_rs.Runtime.Endpoint.Builder
use sisa_messaging_rs.Runtime.Endpoint.Builder.{EndpointBuilder, BuiltEndpoint, Added, build}
use sisa_messaging_rs.Runtime.Endpoint.Builder.Built.{IsBuilt, build-IsBuilt}
use sisa_messaging_rs.Runtime.Bus
use sisa_messaging_rs.Runtime.Bus.{BusBuilder, AddedEndpoint, check_endpoints, start}
use sisa_messaging_rs.Runtime.Bus.Started.{Checked, check_endpoints-Checked}
use sisa_messaging_rs.Runtime.Bus.Started.Spawned.{History, runtime, Starts, start-Starts}

abbrev handler : ErasedHandler History (Unit {0})
handler c h = (returned (ok c), h)

abbrev billing : EndpointBuilder History (Unit {0})
billing = Builder.handle (codes "order_placed.v1") handler (Builder.new (codes "billing"))

abbrev built : BuiltEndpoint History
built = record {
  endpoint = record {
    name = codes "billing";
    retry = billing.retry;
    pipeline =
        billing.inbox.pipeline no_outbox (codes "billing")
          ((codes "order_placed.v1", handler) ∷ []);
  };
  message_types = record { value = codes "order_placed.v1" } ∷ [];
  is_transactional = false;
}

billing-built : build billing no_outbox ≡ ok built
unfolding build Builder.handle Builder.new Builder.add_handlers MessageType.new
    MessageType.check_message_type MessageType.split MessageType.split_level bytes Maps.get
    Maps.insert
billing-built = refl

build-IsBuilt_example : IsBuilt billing no_outbox built
build-IsBuilt_example = build-IsBuilt billing no_outbox built billing-built

abbrev twice : List (AddedEndpoint History)
twice = (codes "billing", ok built) ∷ ((codes "billing", ok built) ∷ [])

check_endpoints-Checked_example : Checked [] twice (check_endpoints [] twice)
check_endpoints-Checked_example = check_endpoints-Checked [] twice

test_twice : check_endpoints [] twice ≡ err (duplicate_endpoint (codes "billing"))
unfolding check_endpoints
test_twice = refl

abbrev bus : BusBuilder History
bus = Bus.endpoint billing no_outbox (Bus.builder (codes "/orders"))

abbrev answer : History → EndpointSpec → Result TransportError ℕ
answer h spec = ok 0

start-Starts_example : Starts answer bus [] (start (runtime answer) bus [])
start-Starts_example = start-Starts answer bus []

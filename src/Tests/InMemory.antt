-- ===== src/Tests/InMemory.antt =====
-- A message published to an endpoint, received, and retried.
use sisa_messaging_rs.Prelude.{◌+◌, ◌≡◌, ◌&&◌, false, [], ◌∷◌, if◌then◌else◌}
use sisa_messaging_rs.Prelude.Text.{Text, codes}
use sisa_messaging_rs.Prelude.Maps.{IsSorted}
use sisa_messaging_rs.Runtime.InMemory
use sisa_messaging_rs.Runtime.InMemory.{
  State, InMemoryDelivery, subscribe, receive, publish, drop, retry,
}
use sisa_messaging_rs.Runtime.InMemory.Copies.{
  System, Test, Change, Steps, in_flight, takes, number, start, later, publishes,
}
use sisa_messaging_rs.Runtime.InMemory.Copies.Conserved.{Steps-Accounts}
use sisa_messaging_rs.Tests.Sample.{order}

abbrev subscribed : State
subscribed = record InMemory.new {
  endpoints = (codes "billing", record { value = codes "order_placed.v1" } ∷ []) ∷ [];
}

abbrev before : System
before = record { state = subscribed; held = []; asleep = [] }

abbrev published : System
published = record before { state = (publish (order 7) subscribed).1 }

abbrev change : Change
change = record {
  made = λ p n.
      0 + (if false then 0 else number (takes n (order 7).message_type subscribed && p (order 7)));
  done = λ p n. 0 + 0;
}

one_step : Steps before change published
one_step = later before before published _ _ (start before) (publishes before (order 7))

Steps-Accounts_example :
    IsSorted published.state.endpoints
    × ((p : Test) (n : Text)
        → in_flight p n published + change.done p n ≡ in_flight p n before + change.made p n)
Steps-Accounts_example = Steps-Accounts before published change (tt, tt) one_step

-- ===== src/Tests/Run.antt =====
-- A dispatcher with an empty outbox on a bus that is stopping.
use sisa_messaging_rs.Prelude.{true, false, [], ◌∷◌, some, ok}
use sisa_messaging_rs.Core.Store.{OutboxStore}
use sisa_messaging_rs.Core.Transport.{TransportPublisher}
use sisa_messaging_rs.Runtime.Dispatch.{Timing, ErrorText}
use sisa_messaging_rs.Runtime.Retry
use sisa_messaging_rs.Runtime.Endpoint.Process.{stopping, arrives}
use sisa_messaging_rs.Runtime.Endpoint.Receive.Received
use sisa_messaging_rs.Runtime.Endpoint.Receive.Received.{Stream}
use sisa_messaging_rs.Tests.Sample.{order}
use sisa_messaging_rs.Runtime.Dispatch.Run.{Wait}

abbrev World : Type 0
World = Unit {0}

abbrev store : OutboxStore World
store = record {
  claim = λ limit lease w. (ok [], w);
  mark_dispatched = λ rs w. (ok tt, w);
  mark_retry = λ r error delay w. (ok tt, w);
  mark_failed = λ r error w. (ok tt, w);
}

abbrev transport : TransportPublisher World
transport = record { publish = λ e w. (ok tt, w) }

abbrev timing : Timing World
timing = record {
  now = λ w. (5, w);
  stopping = λ w. (true, w);
  timeout_at = λ d m w. let (r, w') = m w in (some r, w');
}

abbrev errors : ErrorText
errors = record { to_string = λ e. [] }

abbrev wait : Wait World
wait d w = (true, w)

-- A delivery whose handler fails on the last attempt, and then the stop signal.
abbrev arrivals : Stream
arrivals = record {
  arrival = λ h. elim h [ [] ↦ arrives (order 7) 5 | e ∷ es ↦ stopping ];
  is_stopped = λ h d. false;
}

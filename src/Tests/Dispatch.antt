-- ===== src/Tests/Dispatch.antt =====
-- A round over two claimed rows, of which the broker confirms the first and refuses the second.
use sisa_messaging_rs.Prelude.{
  ℕ, ◌*◌, ◌^◌, min, ◌≡◌, refl, arith, ◌==◌, false, [], ◌∷◌, ok, err, if◌then◌else◌,
}
use sisa_messaging_rs.Prelude.Lists.{length}
use sisa_messaging_rs.Prelude.Int.{pos}
use sisa_messaging_rs.Core.Envelope.Defs.{Envelope}
use sisa_messaging_rs.Core.Store.{OutboxRecord}
use sisa_messaging_rs.Core.Transport.{Sent, closed}
use sisa_messaging_rs.Runtime.Retry.{RetryPolicy, max_duration, delay, seconds}
use sisa_messaging_rs.Runtime.Retry
use sisa_messaging_rs.Runtime.Retry.Delay.{delay_closed}
use sisa_messaging_rs.Runtime.Dispatch
use sisa_messaging_rs.Runtime.Dispatch.{DispatchSettings, round, publish_all, put_back}
use sisa_messaging_rs.Runtime.Dispatch.Trace.{Environment, History, run_round}
use sisa_messaging_rs.Runtime.Dispatch.Trace.Confirmed.{
  confirmed, refusals, attempted, marked, put_backs,
}
use sisa_messaging_rs.Runtime.Dispatch.Trace.Guarded.{IsOrderly}
use sisa_messaging_rs.Runtime.Dispatch.Trace.Round.{round-marked, round-put_backs, round-IsOrderly}
use sisa_messaging_rs.Tests.Sample.{order}

abbrev row : ℕ → OutboxRecord
row id = record {
  envelope = order id;
  created_at = record { seconds = pos 1_700_000_000; nanos = 0 };
  attempts = 0;
  leased_until = record { seconds = pos 1_700_000_030; nanos = 0 };
}

abbrev answer : Envelope → Sent
answer e = if e.id.uuid == 1 then ok tt else err closed

-- The clock moves by one nanosecond with each event.
abbrev env : Environment
env = record {
  clock = λ h. length h;
  stop = λ h. false;
  rows = λ h. ok (row 1 ∷ (row 2 ∷ []));
  answer = λ h e. answer e;
  late = λ h. false;
  mark = λ h. ok tt;
  show = λ e. [];
}

abbrev settings : DispatchSettings
settings = Dispatch.default

abbrev after : History
after = (run_round env settings []).1

test_confirmed : confirmed after ≡ order 1 ∷ []
unfolding round publish_all put_back Retry.delay Retry.is_last
test_confirmed = refl

test_attempted : attempted after ≡ order 1 ∷ (order 2 ∷ [])
unfolding round publish_all put_back Retry.delay Retry.is_last
test_attempted = refl

round-marked_example : marked after ≡ confirmed after
round-marked_example = round-marked env settings

round-put_backs_example : put_backs after ≡ refusals after
round-put_backs_example = round-put_backs env settings

round-IsOrderly_example : IsOrderly settings 0 after
round-IsOrderly_example = round-IsOrderly env settings

test_delays :
    (delay Retry.default 1 ≡ seconds 1)
    × (delay Retry.default 6 ≡ seconds 32)
    × (delay Retry.default 7 ≡ seconds 60)
unfolding delay Retry.delay_loop
test_delays = (refl, refl, refl)

delay_closed_example :
    delay Retry.default 8 ≡ min (Retry.default.first_delay * 2 ^ 7) Retry.default.max_delay
delay_closed_example = delay_closed Retry.default 7 (omega arith)

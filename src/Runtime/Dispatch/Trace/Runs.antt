-- ===== src/Runtime/Dispatch/Trace/Runs.antt =====
-- The loop over the claimed rows as a relation: what may happen for each row, in which order.
use sisa_messaging_rs.Prelude.{
  ◌-◌, ◌≤◌, ◌<◌, ◌≡◌, sym, ◌∙◌, true, false, List, [], ◌∷◌, ◌++◌, ok, err, leb, arith, append_assoc,
  append-nil, inl, inr, Bool-cases, Result-cases,
}
use sisa_messaging_rs.Prelude.Text.{Text}
use sisa_messaging_rs.Prelude.Acts.{◌>>=◌}
use sisa_messaging_rs.Core.Store.{OutboxRecord, Duration}
use sisa_messaging_rs.Core.Transport.{TransportError, Sent}
use sisa_messaging_rs.Runtime.Retry
use sisa_messaging_rs.Runtime.Dispatch.{DispatchSettings, publish_all, put_back, next_attempt}
use sisa_messaging_rs.Runtime.Dispatch.Trace.{
  read_clock, read_stop, published, timer, retried, failed, History, Environment, Marked, run_loop,
}

-- What came before the publish of a row: the stop signal was not set, and the lease still ran.
abbrev pub asked : Duration → History → History
asked now h = read_clock now ∷ (read_stop false ∷ h)

abbrev pub answered : OutboxRecord → Sent → Duration → History → History
answered r sent now h = timer false ∷ (published r.envelope sent ∷ asked now h)

-- `Runs s c rs h qs h'`: from `h`, the rows `rs` claimed at `c` lead to `h'`, with `qs` confirmed.
pub data Runs (s : DispatchSettings) (c : Duration)
    : List OutboxRecord → History → List OutboxRecord → History → Type 0 where
  ends : {h : History} → Runs s c [] h [] h
  halts :
      {r : OutboxRecord} {rs : List OutboxRecord} {h : History}
      → Runs s c (r ∷ rs) h [] (read_stop true ∷ h)
  expires :
      {r : OutboxRecord} {rs : List OutboxRecord} {h : History} {now : Duration}
      → s.lease ≤ now - c
      → Runs s c (r ∷ rs) h [] (asked now h)
  times_out :
      {r : OutboxRecord} {rs : List OutboxRecord} {h : History} {now : Duration} {sent : Sent}
      → now - c < s.lease
      → Runs s c (r ∷ rs) h [] (timer true ∷ (published r.envelope sent ∷ asked now h))
  confirms :
      {r : OutboxRecord} {rs qs : List OutboxRecord} {h h' : History} {now : Duration}
      → now - c < s.lease
      → Runs s c rs (answered r (ok tt) now h) qs h'
      → Runs s c (r ∷ rs) h (r ∷ qs) h'
  retries :
      {r : OutboxRecord} {rs qs : List OutboxRecord} {h h' : History} {now : Duration}
      {error : TransportError} {text : Text} {m : Marked}
      → now - c < s.lease
      → Retry.is_last s.retry (next_attempt r.attempts) ≡ false
      → Runs s c rs
          (retried r text (Retry.delay s.retry (next_attempt r.attempts)) m
            ∷ answered r (err error) now h)
          qs
          h'
      → Runs s c (r ∷ rs) h qs h'
  gives_up :
      {r : OutboxRecord} {rs qs : List OutboxRecord} {h h' : History} {now : Duration}
      {error : TransportError} {text : Text} {m : Marked}
      → now - c < s.lease
      → Retry.is_last s.retry (next_attempt r.attempts) ≡ true
      → Runs s c rs (failed r text m ∷ answered r (err error) now h) qs h'
      → Runs s c (r ∷ rs) h qs h'

-- The loop's answer and history, from the rows published before it.
pub record Outcome (s : DispatchSettings) (c : Duration) (rs ps : List OutboxRecord) (h : History)
    (result : List OutboxRecord × History) : Type 0 where
  pub news : List OutboxRecord
  pub answer : result.0 ≡ ps ++ news
  pub runs : Runs s c rs h news result.1

module _ {s : DispatchSettings} {c : Duration} {r : OutboxRecord} {rs ps : List OutboxRecord} where
  stopped : {h h' : History} → Runs s c (r ∷ rs) h [] h' → Outcome s c (r ∷ rs) ps h (ps, h')
  stopped run = record { news = []; answer = sym (append-nil ps); runs = run }

  confirmed :
      {h : History} {now : Duration} {result : List OutboxRecord × History}
      → now - c < s.lease
      → Outcome s c rs (ps ++ (r ∷ [])) (answered r (ok tt) now h) result
      → Outcome s c (r ∷ rs) ps h result
  confirmed lt o = record {
    news = r ∷ o.news;
    answer = o.answer ∙ append_assoc ps (r ∷ []) o.news;
    runs = confirms lt o.runs;
  }

  refused :
      {h h' : History} {result : List OutboxRecord × History}
      → ((qs : List OutboxRecord) (h'' : History)
          → Runs s c rs h' qs h''
          → Runs s c (r ∷ rs) h qs h'')
      → Outcome s c rs ps h' result
      → Outcome s c (r ∷ rs) ps h result
  refused {result = result} step o = record {
    news = o.news;
    answer = o.answer;
    runs = step o.news result.1 o.runs;
  }

module _ (env : Environment) (s : DispatchSettings) (c : Duration) where
  -- The loop, in any environment, does what the relation allows.
  pub loop-Outcome :
      (rs ps : List OutboxRecord) (h : History) → Outcome s c rs ps h (run_loop env s c rs ps h)
  unfolding publish_all put_back
  loop-Outcome [] ps h = record { news = []; answer = sym (append-nil ps); runs = ends }
  loop-Outcome (r ∷ rs) ps h = elim (Bool-cases (env.stop h)) [
    | inl halt ↦ rw halt (stopped halts)
    | inr go ↦
        let now = env.clock (read_stop false ∷ h) in
        elim (Bool-cases (leb s.lease (now - c))) [
          | inl late ↦ rw (go, ◌>>=◌, late) (stopped (expires (ground arith)))
          | inr early ↦
              let lt : now - c < s.lease = ground arith in
              let sent = env.answer (asked now h) r.envelope in
              elim (Bool-cases (env.late (published r.envelope sent ∷ asked now h))) [
                | inl late ↦ rw (go, ◌>>=◌, early, late) (stopped (times_out lt))
                | inr in_time ↦ elim (Result-cases sent) [
                  | inl (u, e) ↦
                      rw (go, ◌>>=◌, early, in_time, e)
                        (confirmed lt (loop-Outcome rs (ps ++ (r ∷ [])) (answered r (ok tt) now h)))
                  | inr (error, e) ↦
                      let attempt = next_attempt r.attempts in
                      let text = env.show error in
                      let h4 = answered r (err error) now h in
                      elim (Bool-cases (Retry.is_last s.retry attempt)) [
                        | inl last ↦
                            rw (go, ◌>>=◌, early, in_time, e, last)
                              (refused (λ qs h' run. gives_up lt last run)
                                (loop-Outcome rs ps (failed r text (env.mark h4) ∷ h4)))
                        | inr more ↦
                            rw (go, ◌>>=◌, early, in_time, e, more)
                              (refused (λ qs h' run. retries lt more run)
                                (loop-Outcome rs ps (
                                  retried r text (Retry.delay s.retry attempt) (env.mark h4) ∷ h4)))
                      ]
                ]
              ]
        ]
  ]

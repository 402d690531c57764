-- ===== src/Runtime/Dispatch/Trace/Confirmed.antt =====
-- What a round tells the store and the broker: which rows it marks dispatched, which it puts back,
-- and when it publishes at all.
use sisa_messaging_rs.Prelude.{
  ℕ, suc, ◌≡◌, refl, sym, ap, ◌∙◌, false, List, [], ◌∷◌, ◌++◌, ok, err, map, append_assoc,
  append-nil,
}
use sisa_messaging_rs.Prelude.Lists.{take}
use sisa_messaging_rs.Core.Envelope.Defs.{Envelope}
use sisa_messaging_rs.Core.Store.{OutboxRecord, Duration}
use sisa_messaging_rs.Runtime.Dispatch.{DispatchSettings}
use sisa_messaging_rs.Runtime.Dispatch.Trace.{
  published, timer, dispatched, retried, failed, History,
}
use sisa_messaging_rs.Runtime.Dispatch.Trace.Runs.{
  Runs, ends, halts, expires, times_out, confirms, retries, gives_up,
}

abbrev pub envelope_of : OutboxRecord → Envelope
envelope_of r = r.envelope

-- The envelopes whose publish was confirmed before the deadline, oldest first.
abbrev pub confirmed : History → List Envelope
confirmed [] = []
confirmed (timer false ∷ (published e (ok _) ∷ h)) = confirmed h ++ (e ∷ [])
confirmed (_ ∷ h) = confirmed h

-- The envelopes whose publish was refused before the deadline.
abbrev pub refusals : History → List Envelope
refusals [] = []
refusals (timer false ∷ (published e (err _) ∷ h)) = refusals h ++ (e ∷ [])
refusals (_ ∷ h) = refusals h

-- The envelopes that were given to the broker.
abbrev pub attempted : History → List Envelope
attempted [] = []
attempted (published e _ ∷ h) = attempted h ++ (e ∷ [])
attempted (_ ∷ h) = attempted h

-- The envelopes of the rows that the store was asked to mark dispatched.
abbrev pub marked : History → List Envelope
marked [] = []
marked (dispatched rs _ ∷ h) = marked h ++ map envelope_of rs
marked (_ ∷ h) = marked h

-- The envelopes of the rows that were put back or marked failed.
abbrev pub put_backs : History → List Envelope
put_backs [] = []
put_backs (retried r _ _ _ ∷ h) = put_backs h ++ (r.envelope ∷ [])
put_backs (failed r _ _ ∷ h) = put_backs h ++ (r.envelope ∷ [])
put_backs (_ ∷ h) = put_backs h

module _ {s : DispatchSettings} {c : Duration} where
  pub confirmed-Runs :
      {rs qs : List OutboxRecord} {h h' : History}
      → Runs s c rs h qs h'
      → confirmed h' ≡ confirmed h ++ map envelope_of qs
  confirmed-Runs {h = h} ends = sym (append-nil (confirmed h))
  confirmed-Runs {h = h} halts = sym (append-nil (confirmed h))
  confirmed-Runs {h = h} (expires _) = sym (append-nil (confirmed h))
  confirmed-Runs {h = h} (times_out _) = sym (append-nil (confirmed h))
  confirmed-Runs {h = h} (confirms {r = r} {qs = qs} _ run) =
      confirmed-Runs run ∙ append_assoc (confirmed h) (r.envelope ∷ []) (map envelope_of qs)
  confirmed-Runs (retries _ _ run) = confirmed-Runs run
  confirmed-Runs (gives_up _ _ run) = confirmed-Runs run

  pub marked-Runs :
      {rs qs : List OutboxRecord} {h h' : History} → Runs s c rs h qs h' → marked h' ≡ marked h
  marked-Runs ends = refl
  marked-Runs halts = refl
  marked-Runs (expires _) = refl
  marked-Runs (times_out _) = refl
  marked-Runs (confirms _ run) = marked-Runs run
  marked-Runs (retries _ _ run) = marked-Runs run
  marked-Runs (gives_up _ _ run) = marked-Runs run

  pub put_backs-Runs :
      {rs qs : List OutboxRecord} {h h' : History}
      → Runs s c rs h qs h'
      → put_backs h ≡ refusals h
      → put_backs h' ≡ refusals h'
  put_backs-Runs ends e = e
  put_backs-Runs halts e = e
  put_backs-Runs (expires _) e = e
  put_backs-Runs (times_out _) e = e
  put_backs-Runs (confirms _ run) e = put_backs-Runs run e
  put_backs-Runs (retries {r = r} _ _ run) e =
      put_backs-Runs run (ap (λ es. es ++ (r.envelope ∷ [])) e)
  put_backs-Runs (gives_up {r = r} _ _ run) e =
      put_backs-Runs run (ap (λ es. es ++ (r.envelope ∷ [])) e)

  pub attempted-Runs :
      {rs qs : List OutboxRecord} {h h' : History}
      → Runs s c rs h qs h'
      → (n : ℕ) × (attempted h' ≡ attempted h ++ map envelope_of (take n rs))
  attempted-Runs {h = h} ends = (0, sym (append-nil (attempted h)))
  attempted-Runs {h = h} halts = (0, sym (append-nil (attempted h)))
  attempted-Runs {h = h} (expires _) = (0, sym (append-nil (attempted h)))
  attempted-Runs {h = h} (times_out _) = (1, refl)
  attempted-Runs {h = h} (confirms {r = r} {rs = rs} _ run) =
      let (n, e) = attempted-Runs run in
      (suc n, e ∙ append_assoc (attempted h) (r.envelope ∷ []) (map envelope_of (take n rs)))
  attempted-Runs {h = h} (retries {r = r} {rs = rs} _ _ run) =
      let (n, e) = attempted-Runs run in
      (suc n, e ∙ append_assoc (attempted h) (r.envelope ∷ []) (map envelope_of (take n rs)))
  attempted-Runs {h = h} (gives_up {r = r} {rs = rs} _ _ run) =
      let (n, e) = attempted-Runs run in
      (suc n, e ∙ append_assoc (attempted h) (r.envelope ∷ []) (map envelope_of (take n rs)))

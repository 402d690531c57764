-- ===== src/Runtime/Endpoint/Builder/Built.antt =====
-- crates/runtime/src/endpoint.rs: what a built endpoint does with the handlers that were added.
use sisa_messaging_rs.Prelude.{
  ◌≡◌, refl, ap, sym, subst, false, List, [], ◌∷◌, Option, none, some, Result, ok, err, Bool-cases,
  Result-cases, inl, inr,
}
use sisa_messaging_rs.Prelude.Text.{Text, text_eq, text_eq_iff}
use sisa_messaging_rs.Prelude.Maps
use sisa_messaging_rs.Prelude.Maps.Laws.{get-insert, text_eq_refl}
use mathlib.Core.List.{Memᴰ}
use mathlib.Core.List.Memᴰ
use sisa_messaging_rs.Core.Error.{EnvelopeError}
use sisa_messaging_rs.Core.MessageType.{MessageType}
use sisa_messaging_rs.Core.Envelope.Defs.{Envelope}
use sisa_messaging_rs.Runtime.Endpoint.{ErasedHandler, Handlers, find}
use sisa_messaging_rs.Runtime.Inbox.{HandlerOutbox}
use sisa_messaging_rs.Runtime.StartError.{StartError}
use sisa_messaging_rs.Runtime.Endpoint.Builder.{
  Added, EndpointBuilder, BuiltEndpoint, is_some, add_handlers, types_of, build,
}

is_some-false : {A : Type 0} (o : Option A) → is_some o ≡ false → o ≡ none
is_some-false none h = refl
is_some-false (some a) h = absurd (cc h)

module _ {W Transaction : Type 0} where
  -- The first handler's step of the loop, when the loop ends without an error.
  record IsAdded (name : Text) (a : Added W Transaction) (added : List (Added W Transaction))
      (before after : Handlers W Transaction) : Type 0 where
    message_type : MessageType
    checked : a.0 ≡ ok message_type
    unmet : Maps.get message_type.value before ≡ none
    rest : add_handlers name added (Maps.insert message_type.value a.1 before) ≡ ok after

  add_handlers-cons :
      (name : Text) (a : Added W Transaction) (added : List (Added W Transaction))
      (before after : Handlers W Transaction)
      → add_handlers name (a ∷ added) before ≡ ok after
      → IsAdded name a added before after
  unfolding add_handlers
  add_handlers-cons name (err e, h) added before after q = absurd (cc q)
  add_handlers-cons name (ok m, h) added before after q =
      elim (Bool-cases (is_some (Maps.get m.value before))) [
        | inl e ↦ absurd (cc (rw e at q))
        | inr e ↦ record {
          message_type = m;
          checked = refl;
          unmet = is_some-false (Maps.get m.value before) e;
          rest = rw e at q;
        }
      ]

  -- A handler is never replaced by a later one.
  add_handlers_keeps :
      (name k : Text) (h : ErasedHandler W Transaction) (added : List (Added W Transaction))
      (before after : Handlers W Transaction)
      → add_handlers name added before ≡ ok after
      → Maps.get k before ≡ some h
      → Maps.get k after ≡ some h
  unfolding add_handlers
  add_handlers_keeps name k h [] before after q g =
      let e : before ≡ after = cc q in subst (λ m. Maps.get k m ≡ some h) e g
  add_handlers_keeps name k h (a ∷ added) before after q g =
      let s = add_handlers-cons name a added before after q in
      add_handlers_keeps name k h added (Maps.insert s.message_type.value a.1 before) after s.rest
        (elim (Bool-cases (text_eq s.message_type.value k)) [
          | inl e ↦
              let same = (text_eq_iff s.message_type.value k).0 e in
              absurd (cc (subst (λ t. Maps.get t before ≡ none) same s.unmet, g))
          | inr e ↦ rw (get-insert s.message_type.value k a.1 before, e) g
        ])

  -- The type that a handler was added with.
  record IsKept (mt : Result EnvelopeError MessageType) (h : ErasedHandler W Transaction)
      (after : Handlers W Transaction) : Type 0 where
    message_type : MessageType
    checked : mt ≡ ok message_type
    kept : Maps.get message_type.value after ≡ some h

  add_handlers_lem :
      (name : Text) (added : List (Added W Transaction)) (before after : Handlers W Transaction)
      (a : Added W Transaction)
      → add_handlers name added before ≡ ok after
      → Memᴰ a added
      → IsKept a.0 a.1 after
  add_handlers_lem name [] before after a q m = absurd (Memᴰ.not-nil m)
  add_handlers_lem name (x ∷ added) before after a q m =
      let s = add_handlers-cons name x added before after q in
      elim (Memᴰ.cases_cons m) [
        | inl e ↦
            subst (λ z. IsKept z.0 z.1 after) (sym e)
              (record {
                message_type = s.message_type;
                checked = s.checked;
                kept =
                    add_handlers_keeps name s.message_type.value x.1 added
                      (Maps.insert s.message_type.value x.1 before) after s.rest
                      (rw
                        (
                          get-insert s.message_type.value s.message_type.value x.1 before,
                          text_eq_refl s.message_type.value,
                        )
                        refl);
              })
        | inr m' ↦
            add_handlers_lem name added (Maps.insert s.message_type.value x.1 before) after a s.rest
              m'
      ]

  types_of-Memᴰ :
      (m : MessageType) (h : ErasedHandler W Transaction) (handlers : Handlers W Transaction)
      → Maps.get m.value handlers ≡ some h
      → Memᴰ m (types_of handlers)
  unfolding Maps.get
  types_of-Memᴰ m h [] g = absurd (cc g)
  types_of-Memᴰ m h ((k, v) ∷ handlers) g = elim (Bool-cases (text_eq k m.value)) [
    | inl e ↦ Memᴰ.head (
        let same : k ≡ m.value = (text_eq_iff k m.value).0 e in
        ap (λ (t : Text). record { value = t }) (sym same))
    | inr e ↦ Memᴰ.tail (types_of-Memᴰ m h handlers (rw e at g))
  ]

-- A built endpoint: for each handler that was added, the endpoint subscribes to the handler's type,
-- and a message of that type finds this handler.
pub record IsBuilt {W Transaction : Type 0} (b : EndpointBuilder W Transaction)
    (outbox : HandlerOutbox W Transaction) (e : BuiltEndpoint W) : Type 0 where
  pub handlers : Handlers W Transaction
  pub pipeline : e.endpoint.pipeline ≡ b.inbox.pipeline outbox b.name handlers
  pub name : e.endpoint.name ≡ b.name
  pub retry : e.endpoint.retry ≡ b.retry
  pub is_transactional : e.is_transactional ≡ b.inbox.is_transactional
  pub routes :
      (a : Added W Transaction)
      → Memᴰ a b.handlers
      → (m : MessageType) × (a.0 ≡ ok m)
        × Memᴰ m e.message_types
        × ((envelope : Envelope)
            → envelope.message_type ≡ m
            → find handlers b.name envelope ≡ ok a.1)

ok_injective : {A : Type 0} (a b : A) (r : Result StartError A) → r ≡ ok a → r ≡ ok b → a ≡ b
ok_injective a b r h k = cc (h, k)

module _ {W Transaction : Type 0} where
  found :
      (handlers : Handlers W Transaction) (name : Text) (h : ErasedHandler W Transaction)
      (m : MessageType) (envelope : Envelope)
      → Maps.get m.value handlers ≡ some h
      → envelope.message_type ≡ m
      → find handlers name envelope ≡ ok h
  unfolding find
  found handlers name h m envelope g e =
      let g' : Maps.get envelope.message_type.value handlers ≡ some h =
        subst (λ (t : MessageType). Maps.get t.value handlers ≡ some h) (sym e) g in
      rw (find, g') refl

  built_of :
      EndpointBuilder W Transaction
      → HandlerOutbox W Transaction
      → Handlers W Transaction
      → BuiltEndpoint W
  built_of b outbox handlers = record {
    endpoint = record {
      name = b.name;
      retry = b.retry;
      pipeline = b.inbox.pipeline outbox b.name handlers;
    };
    message_types = types_of handlers;
    is_transactional = b.inbox.is_transactional;
  }

  build-cases :
      (b : EndpointBuilder W Transaction) (outbox : HandlerOutbox W Transaction)
      (e : BuiltEndpoint W)
      → build b outbox ≡ ok e
      → (handlers : Handlers W Transaction) × (add_handlers b.name b.handlers [] ≡ ok handlers)
        × (e ≡ built_of b outbox handlers)
  unfolding build built_of
  build-cases b outbox e q = elim (Result-cases (add_handlers b.name b.handlers [])) [
    | inl (handlers, h) ↦ (
      handlers,
      h,
      ok_injective e (built_of b outbox handlers) (build b outbox) q (rw (build, h) refl),
    )
    | inr (x, h) ↦ absurd (cc (rw h at q))
  ]

  -- An endpoint that is built without an error keeps every handler that was added: it subscribes to the
  -- handler's message type, which is valid, and a message of that type finds this handler and no other
  -- in the endpoint's pipeline. Its name, retry policy and inbox are those of the builder.
  pub build-IsBuilt :
      (b : EndpointBuilder W Transaction) (outbox : HandlerOutbox W Transaction)
      (e : BuiltEndpoint W)
      → build b outbox ≡ ok e
      → IsBuilt b outbox e
  unfolding built_of
  build-IsBuilt b outbox e q =
      let (handlers, h, same) = build-cases b outbox e q in
      subst (IsBuilt b outbox) (sym same) (record {
        handlers = handlers;
        pipeline = refl;
        name = refl;
        retry = refl;
        is_transactional = refl;
        routes = λ a m.
            let kept = add_handlers_lem b.name b.handlers [] handlers a h m in
            (
              kept.message_type,
              kept.checked,
              types_of-Memᴰ kept.message_type a.1 handlers kept.kept,
              λ envelope t. found handlers b.name a.1 kept.message_type envelope kept.kept t,
            );
      })

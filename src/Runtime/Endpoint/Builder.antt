-- ===== src/Runtime/Endpoint/Builder.antt =====
-- crates/runtime/src/endpoint.rs: `EndpointBuilder`, which sets up one endpoint.
pub mod Built
use sisa_messaging_rs.Prelude.{
  Bool, true, false, List, [], ◌∷◌, ◌++◌, Option, none, some, Result, ok, err, map_err, map,
  ◌>>=◌ as ◌>>!◌, if◌then◌else◌,
}
use sisa_messaging_rs.Prelude.Text.{Text}
use sisa_messaging_rs.Prelude.Maps
use sisa_messaging_rs.Core.Error.{EnvelopeError}
use sisa_messaging_rs.Core.MessageType
use sisa_messaging_rs.Core.MessageType.{MessageType}
use sisa_messaging_rs.Core.Store.{InboxStore}
use sisa_messaging_rs.Runtime.Retry
use sisa_messaging_rs.Runtime.Retry.{RetryPolicy}
use sisa_messaging_rs.Runtime.Endpoint.{
  Conversions, ErasedHandler, Handlers, Pipeline, plain, without_transaction,
}
use sisa_messaging_rs.Runtime.Endpoint.Settle.{Endpoint}
use sisa_messaging_rs.Runtime.Inbox.{HandlerOutbox, transactional}
use sisa_messaging_rs.Runtime.StartError.{StartError, envelope, duplicate_handler}

-- An endpoint's inbox as `InboxPipeline` sees it: whether it is one, and the pipeline it makes.
pub record EndpointInbox (W Transaction : Type 0) : Type 0 where
  pub is_transactional : Bool
  pub pipeline : HandlerOutbox W Transaction → Text → Handlers W Transaction → Pipeline W

-- `NoInbox`.
abbrev pub no_inbox : {W : Type 0} → EndpointInbox W (Unit {0})
no_inbox = record {
  is_transactional = false;
  pipeline = λ outbox endpoint handlers. plain endpoint handlers;
}

abbrev pub store_inbox :
    {W Transaction : Type 0} → Conversions → InboxStore W Transaction → EndpointInbox W Transaction
store_inbox conversions store = record {
  is_transactional = true;
  pipeline = λ outbox endpoint handlers. transactional conversions store outbox endpoint handlers;
}

-- A handler as added, with the message type it handles.
abbrev pub Added : Type 0 → Type 0 → Type 0
Added W Transaction = Result EnvelopeError MessageType × ErasedHandler W Transaction

pub record EndpointBuilder (W Transaction : Type 0) : Type 0 where
  pub name : Text
  pub retry : RetryPolicy
  pub inbox : EndpointInbox W Transaction
  pub handlers : List (Added W Transaction)

unfoldable pub new : {W : Type 0} → Text → EndpointBuilder W (Unit {0})
new name = record { name = name; retry = Retry.default; inbox = no_inbox; handlers = [] }

-- `EndpointBuilder::inbox`: the handlers added before go on without the transaction.
unfoldable pub with_inbox :
    {W Transaction : Type 0}
    → EndpointInbox W Transaction
    → EndpointBuilder W (Unit {0})
    → EndpointBuilder W Transaction
with_inbox store b = record {
  name = b.name;
  retry = b.retry;
  inbox = store;
  handlers = map (λ h. (h.0, without_transaction h.1)) b.handlers;
}

-- What a bus keeps of an endpoint.
pub record BuiltEndpoint (W : Type 0) : Type 0 where
  pub endpoint : Endpoint W
  pub message_types : List MessageType
  pub is_transactional : Bool

abbrev is_some : {A : Type 0} → Option A → Bool
is_some none = false
is_some (some a) = true

module _ {W Transaction : Type 0} where
  -- `message_type` is `MessageType::of::<Msg>()`, so `Msg::TYPE` as `MessageType::new` checks it.
  unfoldable pub handle :
      Text
      → ErasedHandler W Transaction
      → EndpointBuilder W Transaction
      → EndpointBuilder W Transaction
  handle message_type handler b = record b {
    handlers = b.handlers ++ ((MessageType.new message_type, handler) ∷ []);
  }

  unfoldable pub retry : RetryPolicy → EndpointBuilder W Transaction → EndpointBuilder W Transaction
  retry policy b = record b { retry = policy }

  -- The loop of `build`.
  unfoldable pub add_handlers :
      Text
      → List (Added W Transaction)
      → Handlers W Transaction
      → Result StartError (Handlers W Transaction)
  add_handlers name [] handlers = ok handlers
  add_handlers name ((message_type, handler) ∷ added) handlers =
      map_err envelope message_type >>! λ m.
      if is_some (Maps.get m.value handlers)
      then err (duplicate_handler name m.value)
      else add_handlers name added (Maps.insert m.value handler handlers)

  abbrev pub types_of : Handlers W Transaction → List MessageType
  types_of handlers = map (λ h. record { value = h.0 }) handlers

  unfoldable pub build :
      EndpointBuilder W Transaction
      → HandlerOutbox W Transaction
      → Result StartError (BuiltEndpoint W)
  unfolding add_handlers
  build b outbox = add_handlers b.name b.handlers [] >>! λ handlers. ok (record {
    endpoint = record {
      name = b.name;
      retry = b.retry;
      pipeline = b.inbox.pipeline outbox b.name handlers;
    };
    message_types = types_of handlers;
    is_transactional = b.inbox.is_transactional;
  })

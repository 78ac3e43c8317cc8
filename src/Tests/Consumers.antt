-- ===== src/Tests/Consumers.antt =====
-- Consumers, and the stores of the messages they have processed.
use logistics_platform.Prelude.{none, some, []}
use logistics_platform.Act.{Act}
use logistics_platform.Contracts.Envelope.{Envelope}
use logistics_platform.Observability.Correlation.{CorrelationContext}
use logistics_platform.Result.{known_request, err}
use logistics_platform.Messaging.Consumer.{stays_open, ConsumerOptions, on_message}
use logistics_platform.Messaging.Consumer.Settlements.{Settled, event_of, on_message-Settled}
use logistics_platform.Messaging.ProcessedStore.{IsProcessedStore}
use logistics_platform.Notifications.ProcessedMessages as Store
use logistics_platform.Notifications.ProcessedMessages.{mark_processed-IsProcessedStore}
use logistics_platform.Tracking.ProcessedMessages as Repository
use logistics_platform.Tracking.ProcessedMessages.{repository-IsProcessedStore}
use logistics_platform.Contracts.OrderCreated.{
  OrderCreatedPayload, order_created_event_schema, order_created_json,
}
use logistics_platform.Tests.Samples.{rt, created_payload, enveloped}
use logistics_platform.Tests.Database.{
  undoing, undoing-IsTransaction, Record, record_of, insert, insert-IsInsert, create,
  create-IsCreate, nothing,
}

abbrev consumer : ConsumerOptions
consumer = record {
  consumer_name = "tracking";
  queue = "tracking.order-created";
  retry_on_error = none;
}

mark_processed-IsProcessedStore_example :
    IsProcessedStore (Store.mark_processed undoing insert) record_of
mark_processed-IsProcessedStore_example =
    mark_processed-IsProcessedStore undoing insert record_of undoing-IsTransaction insert-IsInsert

repository-IsProcessedStore_example :
    IsProcessedStore (Repository.mark_processed undoing create) record_of
repository-IsProcessedStore_example =
    repository-IsProcessedStore undoing create record_of undoing-IsTransaction create-IsCreate

abbrev failing : Act Record (Unit {0})
failing w = (err (known_request "P2002" "Unique constraint failed"), w)

abbrev handle : CorrelationContext → Envelope OrderCreatedPayload → Act Record (Unit {0})
handle context event = failing

on_message-Settled_example :
    Settled stays_open
      (Repository.mark_processed undoing create)
      consumer
      rt
      (order_created_event_schema rt)
      handle
      (event_of stays_open
        (Repository.mark_processed undoing create)
        consumer
        rt
        (order_created_event_schema rt)
        handle
        (some (order_created_json (enveloped "order.created" created_payload))))
      nothing
      []
      (on_message stays_open
        (Repository.mark_processed undoing create)
        consumer
        rt
        (order_created_event_schema rt)
        handle
        (some (some (order_created_json (enveloped "order.created" created_payload))))
        (nothing, []))
on_message-Settled_example =
    on_message-Settled stays_open (Repository.mark_processed undoing create) consumer rt
      (order_created_event_schema rt) handle
      (some (order_created_json (enveloped "order.created" created_payload))) nothing []

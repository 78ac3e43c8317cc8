-- ===== src/Notifications/Consumers.antt =====
-- apps/notification-service/src/consumers: the options of the two consumers, and their handlers.
use Prim.Native.String.{◌++◌}
use logistics_platform.Prelude.{ℕ, true, some, length}
use logistics_platform.Number.{nat}
use logistics_platform.Act.{Act, pure, ◌>>◌}
use logistics_platform.Runtime.{Runtime}
use logistics_platform.Contracts.Envelope.{Envelope, order_created, shipment_status_changed}
use logistics_platform.Contracts.OrderCreated.{OrderCreatedPayload}
use logistics_platform.Contracts.ShipmentStatusChanged
use logistics_platform.Contracts.ShipmentStatusChanged.{ShipmentStatusChangedPayload}
use logistics_platform.Observability.Correlation.{CorrelationContext}
use logistics_platform.Messaging.Consumer.{ConsumerOptions}
use logistics_platform.Notifications.Providers.{
  NotificationChannel, email, sms, NotificationProvider,
}
use logistics_platform.Notifications.Dispatch.{DispatchNotificationInput, DeliverySql, dispatch}

abbrev pub order_created_options : ConsumerOptions
order_created_options = record {
  consumer_name = "notification-service.order-created";
  queue = "notification.order.created";
  retry_on_error = some true;
}

abbrev pub shipment_status_changed_options : ConsumerOptions
shipment_status_changed_options = record {
  consumer_name = "notification-service.shipment-status-changed";
  queue = "notification.shipment.status_changed";
  retry_on_error = some true;
}

unfoldable pub order_created_input :
    Runtime → Envelope OrderCreatedPayload → DispatchNotificationInput
order_created_input rt event = record {
  event_id = event.event_id;
  event_type = order_created;
  channel = email;
  recipient = "customer:" ++ event.payload.customer_id;
  content =
      "Order "
      ++ (event.payload.order_id
          ++ (" was created with "
              ++ (rt.number_text (nat (length event.payload.items))
                  ++ (" item(s) totaling "
                      ++ (rt.number_text event.payload.total_cents
                          ++ (" " ++ (event.payload.currency ++ ".")))))));
}

unfoldable pub shipment_status_changed_input :
    Envelope ShipmentStatusChangedPayload → DispatchNotificationInput
shipment_status_changed_input event = record {
  event_id = event.event_id;
  event_type = shipment_status_changed;
  channel = sms;
  recipient = "order:" ++ event.payload.order_id;
  content =
      "Shipment "
      ++ (event.payload.shipment_id
          ++ (" status changed to "
              ++ (ShipmentStatusChanged.status_text event.payload.current_status ++ ".")));
}

module _ {W : Type 0} (sql : DeliverySql W) (resolve : NotificationChannel → NotificationProvider W)
    (now : ℕ) where
  unfoldable pub handle_order_created :
      Runtime → CorrelationContext → Envelope OrderCreatedPayload → Act W (Unit {0})
  handle_order_created rt context event =
      dispatch sql resolve now (order_created_input rt event) >> pure tt

  unfoldable pub handle_shipment_status_changed :
      CorrelationContext → Envelope ShipmentStatusChangedPayload → Act W (Unit {0})
  handle_shipment_status_changed context event =
      dispatch sql resolve now (shipment_status_changed_input event) >> pure tt

-- ===== src/Tests/Handlers.antt =====
-- The handlers of the order service.
use logistics_platform.Prelude.{none, some, [], ◌≡◌, refl, ap}
use logistics_platform.Messaging.Relay.Control.{initial}
use logistics_platform.Orders.Repository.{order_row}
use logistics_platform.Orders.Commands.{CreateOrderCommand, Inputs, view}
use logistics_platform.Orders.Handlers.{create_order, cancel_order, get_order}
use logistics_platform.Orders.Handlers.Create
use logistics_platform.Orders.Handlers.Create.{create_order-Ended}
use logistics_platform.Orders.Handlers.Cancel
use logistics_platform.Orders.Handlers.Cancel.{cancel_order-Ended}
use logistics_platform.Orders.Handlers.Get.{get_order-view}
use logistics_platform.Result.{ok}
use logistics_platform.Tests.Orders.{order-IsOrder}
use logistics_platform.Tests.Samples.{rt, uuid_a, order, order_props}
use logistics_platform.Tests.Database.{Shop, orders, outbox, shop, shop-IsOrderClient}

abbrev pub command : CreateOrderCommand
command = record {
  customer_id = uuid_a;
  currency = "usd";
  items = order_props.items;
  shipping_address = order_props.shipping_address;
}

abbrev pub inputs : Inputs
inputs = record {
  order_uuid = uuid_a;
  event_uuid = uuid_a;
  correlation_uuid = uuid_a;
  now = 5;
  context = none;
}

create_order-Ended_example :
    Create.Ended shop orders outbox shop-IsOrderClient rt inputs command
      ((none, []), initial)
      (create_order shop rt inputs command ((none, []), initial))
create_order-Ended_example =
    create_order-Ended shop orders outbox shop-IsOrderClient rt inputs command (none, []) initial

abbrev pub open_shop : Shop
open_shop = (some (order_row order), [])

cancel_order-Ended_example :
    Cancel.Ended shop orders outbox shop-IsOrderClient rt uuid_a open_shop
      (cancel_order shop rt uuid_a open_shop)
cancel_order-Ended_example =
    cancel_order-Ended shop orders outbox shop-IsOrderClient rt uuid_a open_shop

pub found_row : orders open_shop uuid_a ≡ some (order_row order)
unfolding order_row
found_row = refl

get_order-view_example : (get_order shop rt uuid_a open_shop).0 ≡ ok (view rt order)
get_order-view_example =
    get_order-view shop orders outbox shop-IsOrderClient rt order order-IsOrder open_shop
      (some (order_row order)) found_row (ap ok found_row)

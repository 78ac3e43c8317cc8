-- ===== src/Tests/Http.antt =====
-- Requests to the order service.
use logistics_platform.Prelude.{
  ℕ, String, ◌≡◌, refl, Bool, true, ◌&&◌, Option, none, some, ◌==◌, leb, arith,
}
use logistics_platform.Number.{nat}
use logistics_platform.Json.{Json, obj, field, end, str, num, arr, cons, nil}
use logistics_platform.Result.{ok}
use logistics_platform.Runtime.{Runtime}
use logistics_platform.Text.{text_length}
use logistics_platform.Orders.Repository.{OrderData, StoredOrder}
use logistics_platform.Orders.Http
use logistics_platform.Orders.Http.{Validators, CreateOrderDto}
use logistics_platform.Orders.Http.Accepted.{Accepted}
use logistics_platform.Orders.Http.Cancelled.{NeverFails, CancelledOnce, cancel-CancelledOnce}
use logistics_platform.Tests.Orders.{order-IsOrder}
use logistics_platform.Tests.Samples.{rt, uuid_a, order, order_props}
use logistics_platform.Tests.Database.{Shop, orders, outbox, shop, shop-IsOrderClient}
use logistics_platform.Tests.Handlers.{open_shop, found_row}

abbrev at_most : ℕ → Option ℕ → Bool
at_most n none = true
at_most n (some max) = leb n max

abbrev validators : Validators
validators = record {
  transform = λ body. body;
  is_uuid = λ s. s == uuid_a;
  is_length = λ min max s. leb min (text_length s) && at_most (text_length s) max;
}

abbrev host : Runtime
host = record rt { uuid_format = λ s. s == uuid_a; datetime_format = λ s. true }

abbrev body : Json
body = obj (
    field "customerId" (str uuid_a) (
      field "currency" (str "usd") (
        field "items"
          (arr (
            cons
              (obj (
                field "sku" (str " SKU-001 ") (
                  field "name" (str "Widget") (
                    field "quantity" (num (nat 2)) (field "unitPriceCents" (num (nat 1999)) end)))))
              nil))
          (field "shippingAddress"
            (obj (
              field "line1" (str "1 Market St") (
                field "city" (str "San Francisco") (
                  field "region" (str "CA")
                    (field "postalCode" (str "94103") (field "country" (str "us") end))))))
            end))))

abbrev dto : CreateOrderDto
dto = record {
  customer_id = uuid_a;
  currency = "usd";
  items = order_props.items;
  shipping_address = some order_props.shipping_address;
}

shop-updates :
    (id : String) (d : OrderData) (w : Shop) (row : StoredOrder)
    → orders w id ≡ some row
    → (shop.update id d w).0 ≡ ok tt
shop-updates id d (none, rows) row h = cc
shop-updates id d (some x, rows) row h = ground arith

shop-NeverFails : NeverFails shop orders
shop-NeverFails = record { finds = λ id w. (orders w id, refl); updates = shop-updates }

cancel-CancelledOnce_example :
    CancelledOnce shop orders outbox shop-IsOrderClient shop-NeverFails rt order
      (Http.cancel shop rt uuid_a open_shop)
cancel-CancelledOnce_example =
    cancel-CancelledOnce shop orders outbox shop-IsOrderClient shop-NeverFails rt order
      order-IsOrder refl open_shop found_row

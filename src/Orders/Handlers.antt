-- ===== src/Orders/Handlers.antt =====
-- apps/order-service/src/application: the handlers of commands and queries. The state of the service
-- is that of its database and the control state of its outbox relay.
pub mod Create
pub mod Cancel
pub mod Get
use logistics_platform.Prelude.{String}
use logistics_platform.Result.{ok}
use logistics_platform.Act.{Act, pure, lift, ◌>>=◌, ◌>>◌}
use logistics_platform.Runtime.{Runtime}
use logistics_platform.Messaging.Relay.Control
use logistics_platform.Messaging.Relay.Control.{Control}
use logistics_platform.Orders.Order
use logistics_platform.Orders.Order.{OrderStatus}
use logistics_platform.Orders.Commands.{
  CreateOrderCommand, Inputs, OrderView, found, not_found, prepare_order, view,
}
use logistics_platform.Orders.Repository
use logistics_platform.Orders.Repository.{OrderClient, save_new, find_by_id}

module _ {W : Type 0} (client : OrderClient W) (rt : Runtime) where
  abbrev pub on_database : {A : Type 0} → Act W A → Act (W × Control) A
  on_database m (w, c) = let (result, w') = m w in (result, (w', c))

  abbrev pub wake_relay : Act (W × Control) (Unit {0})
  wake_relay (w, c) = (ok tt, (w, Control.wake c))

  -- `CreateOrderHandler.execute`: the id of the new order
  unfoldable pub create_order : Inputs → CreateOrderCommand → Act (W × Control) String
  create_order inputs command = do
    prepared ← lift (prepare_order rt inputs command)
    on_database (save_new client prepared.0 prepared.1)
    wake_relay
    pure prepared.0.id

  -- `CancelOrderHandler.execute`
  unfoldable pub cancel_order : String → Act W (String × OrderStatus)
  cancel_order id = do
    row ← find_by_id client id
    order ← lift (found (not_found id) row)
    order' ← lift (Order.cancel order)
    Repository.update client order'
    pure (order'.id, order'.status)

  -- `GetOrderHandler.execute`
  unfoldable pub get_order : String → Act W OrderView
  get_order id = do
    row ← find_by_id client id
    order ← lift (found (not_found id) row)
    pure (view rt order)

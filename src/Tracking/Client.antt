-- ===== src/Tracking/Client.antt =====
-- The tables of the tracking service, as its repositories reach them through the generated Prisma
-- client, which is a parameter: each call may fail.
use logistics_platform.Prelude.{ℕ, String, ◌≡◌, ◌≢◌, Option, none, some, List, [], ◌∷◌, ◌++◌}
use logistics_platform.Json.{Json}
use logistics_platform.Result.{ok}
use logistics_platform.Act.{Act}
use logistics_platform.Messaging.OutboxTable.{NewRow}
use logistics_platform.Tracking.Shipment.{ShipmentWithEvents, TrackingEventRow}

pub record NewEvent : Type 0 where
  pub shipment_id : String
  pub status : String
  pub occurred_at : ℕ
  pub location : Option Json

pub record TrackingClient (W : Type 0) : Type 0 where
  -- `shipment.findUnique({ where: { id }, include: { events: { orderBy: { occurredAt: "desc" } } } })`
  pub find_by_id : String → Act W (Option ShipmentWithEvents)
  -- the same with `where: { orderId }`
  pub find_by_order : String → Act W (Option ShipmentWithEvents)
  -- `shipment.create({ data: { orderId, status }, include })`
  pub create_shipment : (order_id status : String) → Act W ShipmentWithEvents
  -- `shipment.update({ where: { id }, data: { status }, include })`
  pub update_shipment : (id status : String) → Act W ShipmentWithEvents
  -- `trackingEvent.create({ data })`
  pub create_event : NewEvent → Act W TrackingEventRow
  -- `outbox.create({ data })`
  pub create_outbox : NewRow → Act W (Unit {0})

-- What the service can see of a state: the shipment of an id and of an order, the events and the
-- messages in the order of their creation.
pub record View (W : Type 0) : Type 0 where
  pub status : W → String → Option String
  pub of_order : W → String → Option String
  pub events : W → List NewEvent
  pub outbox : W → List NewRow

-- A call that leaves all that is seen alone.
pub record Same {W : Type 0} (view : View W) (w w' : W) : Type 0 where
  pub status : (id : String) → view.status w' id ≡ view.status w id
  pub of_order : (id : String) → view.of_order w' id ≡ view.of_order w id
  pub events : view.events w' ≡ view.events w
  pub outbox : view.outbox w' ≡ view.outbox w

-- The documented behaviour of the calls that return.
pub record IsTrackingClient {W : Type 0} (client : TrackingClient W) (view : View W) : Type 0 where
  pub find_by_id_none :
      (id : String) (w w' : W)
      → client.find_by_id id w ≡ (ok none, w')
      → Same view w w' × (view.status w id ≡ none)
  pub find_by_id_some :
      (id : String) (w w' : W) (s : ShipmentWithEvents)
      → client.find_by_id id w ≡ (ok (some s), w')
      → Same view w w'
        × (s.id ≡ id)
        × (view.status w id ≡ some s.status)
        × (view.of_order w s.order_id ≡ some id)
  pub find_by_order_none :
      (order : String) (w w' : W)
      → client.find_by_order order w ≡ (ok none, w')
      → Same view w w' × (view.of_order w order ≡ none)
  pub find_by_order_some :
      (order : String) (w w' : W) (s : ShipmentWithEvents)
      → client.find_by_order order w ≡ (ok (some s), w')
      → Same view w w'
        × (s.order_id ≡ order)
        × (view.of_order w order ≡ some s.id)
        × (view.status w s.id ≡ some s.status)
  pub create_shipment_ok :
      (order status : String) (w w' : W) (s : ShipmentWithEvents)
      → client.create_shipment order status w ≡ (ok s, w')
      → (s.order_id ≡ order)
        × (s.status ≡ status)
        × (view.of_order w' order ≡ some s.id)
        × (view.status w' s.id ≡ some status)
        × (view.events w' ≡ view.events w)
        × (view.outbox w' ≡ view.outbox w)
  pub update_shipment_ok :
      (id status : String) (w w' : W) (s : ShipmentWithEvents)
      → client.update_shipment id status w ≡ (ok s, w')
      → (s.id ≡ id)
        × (s.status ≡ status)
        × (view.of_order w s.order_id ≡ some id)
        × (view.status w' id ≡ some status)
        × ((other : String) → other ≢ id → view.status w' other ≡ view.status w other)
        × ((order : String) → view.of_order w' order ≡ view.of_order w order)
        × (view.events w' ≡ view.events w)
        × (view.outbox w' ≡ view.outbox w)
  pub create_event_ok :
      (event : NewEvent) (w w' : W) (row : TrackingEventRow)
      → client.create_event event w ≡ (ok row, w')
      → ((id : String) → view.status w' id ≡ view.status w id)
        × ((order : String) → view.of_order w' order ≡ view.of_order w order)
        × (view.events w' ≡ view.events w ++ event ∷ [])
        × (view.outbox w' ≡ view.outbox w)
  pub create_outbox_ok :
      (m : NewRow) (w w' : W)
      → client.create_outbox m w ≡ (ok tt, w')
      → ((id : String) → view.status w' id ≡ view.status w id)
        × ((order : String) → view.of_order w' order ≡ view.of_order w order)
        × (view.events w' ≡ view.events w)
        × (view.outbox w' ≡ view.outbox w ++ m ∷ [])

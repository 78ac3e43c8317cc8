-- ===== src/Tracking/Service/Calls.antt =====
-- What the calls of the repositories do, where they return.
use logistics_platform.Prelude.{
  ℕ, String, ◌≡◌, ◌≢◌, sym, ap, ◌∙◌, inl, inr, Option, none, some, eq_iff, Option-cases,
  some-injective, subst, arith,
}
use logistics_platform.Result.{Failure, ok, ok-injective}
use logistics_platform.Act.{continue-eq-ok, pure-eq-ok}
use logistics_platform.Contracts.ShipmentStatusChanged.{ShipmentStatus, status_text, status_of}
use logistics_platform.Tracking.Shipment.{
  ShipmentLocation, ShipmentRecord, TrackingEventRow, TrackingEventRecord, map_shipment,
}
use logistics_platform.Tracking.Client.{TrackingClient, View, Same, IsTrackingClient}
use logistics_platform.Tracking.Service.{
  parse_status, or_not_found, find_by_id, find_by_order_id, create_shipment, update_status,
  create_event, new_event,
}

pub status_of-eq : (s : String) {x : ShipmentStatus} → status_of s ≡ some x → s ≡ status_text x
unfolding status_of status_text
status_of-eq s h = ground (
  arith,
  eq_iff s "PENDING",
  eq_iff s "PICKED_UP",
  eq_iff s "IN_TRANSIT",
  eq_iff s "OUT_FOR_DELIVERY",
  eq_iff s "DELIVERED",
  eq_iff s "CANCELLED",
  eq_iff s "FAILED",
)

pub parse_status-eq : (s : String) {x : ShipmentStatus} → parse_status s ≡ ok x → s ≡ status_text x
parse_status-eq s h = elim (Option-cases (status_of s)) [
  | inl missing ↦ cc (rw (parse_status, missing) at h)
  | inr (x, e) ↦ status_of-eq s (e ∙ ap some (ok-injective (rw (parse_status, e) at h)))
]

pub or_not_found-eq :
    (e : Failure) (o : Option ShipmentRecord) {s : ShipmentRecord}
    → or_not_found e o ≡ ok s
    → o ≡ some s
or_not_found-eq e none h = cc
or_not_found-eq e (some x) h = ap some (ok-injective h)

module _ {W : Type 0} (client : TrackingClient W) (view : View W)
    (laws : IsTrackingClient client view) where
  pub find_by_id-Same :
      (id : String) (w w' : W) (o : Option ShipmentRecord)
      → find_by_id client id w ≡ (ok o, w')
      → Same view w w'
  unfolding find_by_id
  find_by_id-Same id w w' o h =
      let (row, w1, call, rest) = continue-eq-ok (client.find_by_id id w) _ h in
      let (_, after) = pure-eq-ok rest in
      elim (Option-cases row) [
        | inl is_none ↦
            subst (Same view w) after (laws.find_by_id_none id w w1 (rw is_none at call)).0
        | inr (s, is_some) ↦
            subst (Same view w) after (laws.find_by_id_some id w w1 s (rw is_some at call)).0
      ]

  -- The shipment that was found.
  pub record Found (id : String) (w w' : W) (s : ShipmentRecord) : Type 0 where
    pub same : Same view w w'
    pub has_id : s.id ≡ id
    pub status : view.status w id ≡ some s.status
    pub order : view.of_order w s.order_id ≡ some id

  pub find_by_id-Found :
      (id : String) (w w' : W) (s : ShipmentRecord)
      → find_by_id client id w ≡ (ok (some s), w')
      → Found id w w' s
  unfolding find_by_id map_shipment
  find_by_id-Found id w w' s h =
      let (row, w1, call, rest) = continue-eq-ok (client.find_by_id id w) _ h in
      let (is_row, after) = pure-eq-ok rest in
      elim (Option-cases row) [
        | inl is_none ↦ cc (rw is_none at is_row)
        | inr (r, is_some) ↦
            let (same, has_id, status, order) =
              laws.find_by_id_some id w w1 r (rw is_some at call) in
            let is_s = some-injective _ _ (rw is_some at is_row) in
            record {
              same = subst (Same view w) after same;
              has_id = ap (λ (x : ShipmentRecord). x.id) (sym is_s) ∙ has_id;
              status = status ∙ ap (λ (x : ShipmentRecord). some x.status) is_s;
              order = ap (λ (x : ShipmentRecord). view.of_order w x.order_id) (sym is_s) ∙ order;
            }
      ]

  -- A row that was given a new status.
  pub record Updated (id status : String) (w w' : W) (s : ShipmentRecord) : Type 0 where
    pub has_id : s.id ≡ id
    pub order : view.of_order w s.order_id ≡ some id
    pub now : view.status w' id ≡ some status
    pub others : (other : String) → other ≢ id → view.status w' other ≡ view.status w other
    pub orders : (o : String) → view.of_order w' o ≡ view.of_order w o
    pub events : view.events w' ≡ view.events w
    pub outbox : view.outbox w' ≡ view.outbox w

  pub update_status-Updated :
      (id status : String) (w w' : W) (s : ShipmentRecord)
      → update_status client id status w ≡ (ok s, w')
      → Updated id status w w' s
  unfolding update_status map_shipment
  update_status-Updated id status w w' s h =
      let (r, w1, call, rest) = continue-eq-ok (client.update_shipment id status w) _ h in
      let (is_s, after) = pure-eq-ok rest in
      let (has_id, _, order, now, others, orders, events, outbox) =
        laws.update_shipment_ok id status w w1 r call in
      rw (← is_s) (
        rw (← after) (record {
          has_id = has_id;
          order = order;
          now = now;
          others = others;
          orders = orders;
          events = events;
          outbox = outbox;
        }))

  pub create_event-eq :
      (id status : String) (t : ℕ) (l : Option ShipmentLocation) (w w' : W)
      (r : TrackingEventRecord)
      → create_event client id status t l w ≡ (ok r, w')
      → (row : TrackingEventRow) × (client.create_event (new_event id status t l) w ≡ (ok row, w'))
  unfolding create_event
  create_event-eq id status t l w w' r h =
      let (row, w1, call, rest) =
        continue-eq-ok (client.create_event (new_event id status t l) w) _ h in
      let (_, after) = pure-eq-ok rest in (row, rw after at call)

  pub find_by_order_id-Same :
      (order : String) (w w' : W) (s : ShipmentRecord)
      → find_by_order_id client order w ≡ (ok (some s), w')
      → Same view w w' × (view.of_order w order ≡ some s.id)
  unfolding find_by_order_id map_shipment
  find_by_order_id-Same order w w' s h =
      let (row, w1, call, rest) = continue-eq-ok (client.find_by_order order w) _ h in
      let (is_row, after) = pure-eq-ok rest in
      elim (Option-cases row) [
        | inl is_none ↦ cc (rw is_none at is_row)
        | inr (r, is_some) ↦
            let (same, _, of_order, _) =
              laws.find_by_order_some order w w1 r (rw is_some at call) in
            let is_s = some-injective _ _ (rw is_some at is_row) in
            (subst (Same view w) after same, of_order ∙ ap (λ (x : ShipmentRecord). some x.id) is_s)
      ]

  pub find_by_order_id-Absent :
      (order : String) (w w' : W)
      → find_by_order_id client order w ≡ (ok none, w')
      → Same view w w' × (view.of_order w order ≡ none)
  unfolding find_by_order_id map_shipment
  find_by_order_id-Absent order w w' h =
      let (row, w1, call, rest) = continue-eq-ok (client.find_by_order order w) _ h in
      let (is_row, after) = pure-eq-ok rest in
      elim (Option-cases row) [
        | inl is_none ↦
            let (same, absent) = laws.find_by_order_none order w w1 (rw is_none at call) in
            (subst (Same view w) after same, absent)
        | inr (r, is_some) ↦ cc (rw is_some at is_row)
      ]

  -- A new row.
  pub record Inserted (order status : String) (w w' : W) (s : ShipmentRecord) : Type 0 where
    pub of_order : view.of_order w' order ≡ some s.id
    pub now : view.status w' s.id ≡ some status
    pub events : view.events w' ≡ view.events w
    pub outbox : view.outbox w' ≡ view.outbox w

  pub create_shipment-Inserted :
      (order status : String) (w w' : W) (s : ShipmentRecord)
      → create_shipment client order status w ≡ (ok s, w')
      → Inserted order status w w' s
  unfolding create_shipment map_shipment
  create_shipment-Inserted order status w w' s h =
      let (r, w1, call, rest) = continue-eq-ok (client.create_shipment order status w) _ h in
      let (is_s, after) = pure-eq-ok rest in
      let (_, _, of_order, now, events, outbox) =
        laws.create_shipment_ok order status w w1 r call in
      rw (← is_s)
        (rw (← after) (record { of_order = of_order; now = now; events = events; outbox = outbox }))

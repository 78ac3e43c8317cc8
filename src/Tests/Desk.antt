-- ===== src/Tests/Desk.antt =====
-- A tracking database of one shipment at most, whose calls fail only where the shipment is missing.
use logistics_platform.Prelude.{
  Bool, String, ◌≡◌, ◌≢◌, refl, sym, ap, inl, inr, Bool-cases, Option, none, some, some-injective,
  List, [], ◌∷◌, ◌++◌, ◌==◌, eq_iff, eq_refl, if◌then◌else◌, arith,
}
use logistics_platform.Result.{error, known_request, Result, ok, err}
use logistics_platform.Act.{Act, pure-eq-ok}
use logistics_platform.Messaging.OutboxTable.{NewRow}
use logistics_platform.Messaging.ProcessedStore.{Seen}
use logistics_platform.Tracking.ProcessedMessages.{Create, IsCreate}
use logistics_platform.Tests.Database.{with_message}
use logistics_platform.Tracking.Shipment.{ShipmentWithEvents, TrackingEventRow}
use logistics_platform.Tracking.Client.{NewEvent, TrackingClient, View, Same, IsTrackingClient}

-- The order and the status of the shipment "s1".
pub record Desk : Type 0 where
  pub shipment : Option (String × String)
  pub events : List NewEvent
  pub outbox : List NewRow
  pub processed : String → String → Bool

abbrev status : Option (String × String) → String → Option String
status none id = none
status (some (order, st)) id = if id == "s1" then some st else none

abbrev of_order : Option (String × String) → String → Option String
of_order none order = none
of_order (some (order', st)) order = if order == order' then some "s1" else none

abbrev pub view : View Desk
view = record {
  status = λ w. status w.shipment;
  of_order = λ w. of_order w.shipment;
  events = λ w. w.events;
  outbox = λ w. w.outbox;
}

abbrev row : String → String → ShipmentWithEvents
row order st = record {
  id = "s1";
  order_id = order;
  status = st;
  created_at = 1;
  updated_at = 1;
  events = [];
}

abbrev by_id : Option (String × String) → String → Option ShipmentWithEvents
by_id none id = none
by_id (some (order, st)) id = if id == "s1" then some (row order st) else none

abbrev by_order : Option (String × String) → String → Option ShipmentWithEvents
by_order none order = none
by_order (some (order', st)) order = if order == order' then some (row order' st) else none

abbrev insert : Option (String × String) → String → String → Act Desk ShipmentWithEvents
insert none order st w = (ok (row order st), record w { shipment = some (order, st) })
insert (some s) order st w = (err (error "Unique constraint failed"), w)

abbrev change : Option (String × String) → String → String → Act Desk ShipmentWithEvents
change none id st w = (err (error "Record not found"), w)
change (some (order, old)) id st w =
    if id == "s1"
    then (ok (row order st), record w { shipment = some (order, st) })
    else (err (error "Record not found"), w)

abbrev event_row : NewEvent → TrackingEventRow
event_row e = record {
  id = "e1";
  shipment_id = e.shipment_id;
  status = e.status;
  occurred_at = e.occurred_at;
  location = e.location;
}

abbrev pub desk : TrackingClient Desk
desk = record {
  find_by_id = λ id w. (ok (by_id w.shipment id), w);
  find_by_order = λ order w. (ok (by_order w.shipment order), w);
  create_shipment = λ order st w. insert w.shipment order st w;
  update_shipment = λ id st w. change w.shipment id st w;
  create_event = λ e w. (ok (event_row e), record w { events = w.events ++ e ∷ [] });
  create_outbox = λ m w. (ok tt, record w { outbox = w.outbox ++ m ∷ [] });
}

unchanged : (w w' : Desk) → w ≡ w' → Same view w w'
unchanged w w' e =
    rw (← e) (record { status = λ id. refl; of_order = λ o. refl; events = refl; outbox = refl })

by_id-none : (s : Option (String × String)) (id : String) → by_id s id ≡ none → status s id ≡ none
by_id-none none id h = refl
by_id-none (some (order, st)) id h = ground arith

by_id-some :
    (s : Option (String × String)) (id : String) (r : ShipmentWithEvents)
    → by_id s id ≡ some r
    → (r.id ≡ id) × (status s id ≡ some r.status) × (of_order s r.order_id ≡ some id)
by_id-some none id r h = cc
by_id-some (some (order, st)) id r h =
    (ground (arith, eq_iff id "s1"), ground arith, ground (arith, eq_iff id "s1", eq_refl order))

by_order-none :
    (s : Option (String × String)) (o : String) → by_order s o ≡ none → of_order s o ≡ none
by_order-none none o h = refl
by_order-none (some (order, st)) o h = ground arith

by_order-some :
    (s : Option (String × String)) (o : String) (r : ShipmentWithEvents)
    → by_order s o ≡ some r
    → (r.order_id ≡ o) × (of_order s o ≡ some r.id) × (status s r.id ≡ some r.status)
by_order-some none o r h = cc
by_order-some (some (order, st)) o r h = elim (Bool-cases (o == order)) [
  | inl same ↦
      let is_r = some-injective _ _ (rw same at h) in
      rw (← is_r) (sym ((eq_iff o order).0 same), rw same refl, refl)
  | inr differs ↦ cc (rw differs at h)
]

insert_ok :
    (s : Option (String × String)) (order st : String) (w w' : Desk) (r : ShipmentWithEvents)
    → w.shipment ≡ s
    → insert s order st w ≡ (ok r, w')
    → (r.order_id ≡ order)
      × (r.status ≡ st)
      × (view.of_order w' order ≡ some r.id)
      × (view.status w' r.id ≡ some st)
      × (view.events w' ≡ view.events w)
      × (view.outbox w' ≡ view.outbox w)
insert_ok none order st w w' r e h =
    let (is_r, after) = pure-eq-ok h in
    rw (← is_r) (rw (← after) (refl, refl, ground (arith, eq_refl order), refl, refl, refl))
insert_ok (some s) order st w w' r e h = cc (ap (λ (x : Result ShipmentWithEvents × Desk). x.0) h)

change_ok :
    (s : Option (String × String)) (id st : String) (w w' : Desk) (r : ShipmentWithEvents)
    → w.shipment ≡ s
    → change s id st w ≡ (ok r, w')
    → (r.id ≡ id)
      × (r.status ≡ st)
      × (view.of_order w r.order_id ≡ some id)
      × (view.status w' id ≡ some st)
      × ((other : String) → other ≢ id → view.status w' other ≡ view.status w other)
      × ((order : String) → view.of_order w' order ≡ view.of_order w order)
      × (view.events w' ≡ view.events w)
      × (view.outbox w' ≡ view.outbox w)
change_ok none id st w w' r e h = cc (ap (λ (x : Result ShipmentWithEvents × Desk). x.0) h)
change_ok (some (order, old)) id st w w' r e h = elim (Bool-cases (id == "s1")) [
  | inl same ↦
      let (is_r, after) = pure-eq-ok (rw same at h) in
      let at = (eq_iff id "s1").0 same in
      rw (← is_r) (
        rw (← after) (
          sym at,
          refl,
          rw e (ground (arith, eq_refl order)),
          ground arith,
          λ other ne. rw e (ground (arith, eq_iff other "s1")),
          λ o. rw e refl,
          refl,
          refl,
        ))
  | inr differs ↦ cc (ap (λ (x : Result ShipmentWithEvents × Desk). x.0) (rw differs at h))
]

pub desk-IsTrackingClient : IsTrackingClient desk view
desk-IsTrackingClient = record {
  find_by_id_none = λ id w w' h.
      let (e, after) = pure-eq-ok h in (unchanged w w' after, by_id-none w.shipment id e);
  find_by_id_some = λ id w w' s h.
      let (e, after) = pure-eq-ok h in
      let (a, b, c) = by_id-some w.shipment id s e in (unchanged w w' after, a, b, c);
  find_by_order_none = λ o w w' h.
      let (e, after) = pure-eq-ok h in (unchanged w w' after, by_order-none w.shipment o e);
  find_by_order_some = λ o w w' s h.
      let (e, after) = pure-eq-ok h in
      let (a, b, c) = by_order-some w.shipment o s e in (unchanged w w' after, a, b, c);
  create_shipment_ok = λ order st w w' s h. insert_ok w.shipment order st w w' s refl h;
  update_shipment_ok = λ id st w w' s h. change_ok w.shipment id st w w' s refl h;
  create_event_ok = λ e w w' r h.
      let (_, after) = pure-eq-ok h in rw (← after) (λ id. refl, λ o. refl, refl, refl);
  create_outbox_ok =
      λ m w w' h. let (_, after) = pure-eq-ok h in rw (← after) (λ id. refl, λ o. refl, refl, refl);
}

-- The messages on record.
abbrev pub seen : Seen Desk
seen w = w.processed

abbrev pub record_message : Create Desk
record_message consumer event event_type w =
    if w.processed consumer event
    then (err (known_request "P2002" "Unique constraint failed"), w)
    else (ok tt, record w { processed = with_message consumer event w.processed })

pub record_message-IsCreate : IsCreate record_message seen
record_message-IsCreate = record {
  fresh = λ consumer event event_type w e.
      (ground arith, ground (arith, eq_refl consumer, eq_refl event));
}

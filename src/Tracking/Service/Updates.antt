-- ===== src/Tracking/Service/Updates.antt =====
-- What `updateShipmentStatus` does to the tables and to the relay.
use logistics_platform.Prelude.{
  String, ◌≡◌, ◌≢◌, refl, sym, ap, ◌∙◌, ◌⊎◌, inl, inr, Bool, true, false, some, [], ◌∷◌, ◌++◌, ◌==◌,
  eq_iff, or_else, subst, if◌then◌else◌,
}
use mathlib.Core.Option
use logistics_platform.Result.{Result, ok, err}
use logistics_platform.Act.{pure, lift, continue, continue-eq-ok, pure-eq-ok, lift-eq-ok}
use logistics_platform.Runtime.{Runtime}
use logistics_platform.Contracts.ShipmentStatusChanged.{ShipmentStatus, status_text}
use logistics_platform.Messaging.OutboxTable.{NewRow}
use logistics_platform.Messaging.Relay.Control
use logistics_platform.Messaging.Relay.Control.{Control}
use logistics_platform.Messaging.Transaction.{Transaction, Ending, IsTransaction}
use logistics_platform.Tracking.Shipment.{ShipmentRecord, TrackingEventRow}
use logistics_platform.Tracking.Client.{TrackingClient, View, Same, IsTrackingClient}
use logistics_platform.Tracking.Service.{
  UpdateShipmentStatusInput, Inputs, parse_status, event_location, or_not_found, not_found,
  find_by_id, update_status, create_event, new_event, changed_row, change_status, update_operation,
  update_shipment_status, with_transaction, wake_if,
}
use logistics_platform.Tracking.Service.Calls.{
  parse_status-eq, or_not_found-eq, find_by_id-Same, Found, find_by_id-Found, Updated,
  update_status-Updated, create_event-eq,
}

-- The message of a change of a shipment.
abbrev pub message_of :
    Runtime
    → Inputs
    → UpdateShipmentStatusInput
    → (id order : String) → (previous next : ShipmentStatus) → NewRow
message_of rt inputs input id order previous next = changed_row rt inputs (record {
  shipment_id = id;
  order_id = order;
  previous_status = some previous;
  current_status = next;
  changed_at = rt.to_iso_string (or_else input.occurred_at inputs.now);
  location = Option.map event_location input.location;
})

module _ {W : Type 0} (client : TrackingClient W) (view : View W)
    (laws : IsTrackingClient client view) where
  -- What a change has done: the status of the shipment, and of no other, is the one that was asked
  -- for; one event and one message, which names both statuses, are appended.
  pub record Changed (rt : Runtime) (inputs : Inputs) (input : UpdateShipmentStatusInput)
      (before after : W) : Type 0 where
    pub order : String
    pub previous : ShipmentStatus
    pub next : ShipmentStatus
    pub of_order : view.of_order before order ≡ some input.shipment_id
    pub was : view.status before input.shipment_id ≡ some (status_text previous)
    pub asked : input.status ≡ status_text next
    pub differs : previous ≢ next
    pub now : view.status after input.shipment_id ≡ some input.status
    pub others :
        (other : String)
        → other ≢ input.shipment_id
        → view.status after other ≡ view.status before other
    pub orders : (o : String) → view.of_order after o ≡ view.of_order before o
    pub one_event :
        view.events after
        ≡ view.events before
          ++ new_event input.shipment_id input.status
              (or_else input.occurred_at inputs.now)
              input.location
            ∷ []
    pub one_message :
        view.outbox after
        ≡ view.outbox before
          ++ message_of rt inputs input input.shipment_id order previous next ∷ []

  -- The calls of a change, each on the state that the one before it left.
  assembled :
      (rt : Runtime) (inputs : Inputs) (input : UpdateShipmentStatusInput) (w0 w w1 w2 w5 w' : W)
      (current u : ShipmentRecord) (row : TrackingEventRow) (previous next : ShipmentStatus)
      → Found client view laws input.shipment_id w0 w current
      → (current.status == input.status) ≡ false
      → Updated client view laws input.shipment_id input.status w w1 u
      → client.create_event
          (new_event u.id input.status (or_else input.occurred_at inputs.now) input.location)
          w1
        ≡ (ok row, w2)
      → parse_status current.status ≡ ok previous
      → parse_status input.status ≡ ok next
      → client.create_outbox (message_of rt inputs input u.id u.order_id previous next) w2
        ≡ (ok tt, w5)
      → Same view w5 w'
      → Changed rt inputs input w0 w'
  assembled rt inputs input w0 w w1 w2 w5 w' current u row previous next f differs up event p n
        queue same =
      let (e1, e2, e3, e4) = laws.create_event_ok _ w1 w2 row event in
      let (q1, q2, q3, q4) = laws.create_outbox_ok _ w2 w5 queue in
      let was = parse_status-eq current.status p in
      let asked = parse_status-eq input.status n in
      record {
        order = u.order_id;
        previous = previous;
        next = next;
        of_order = sym (f.same.of_order u.order_id) ∙ up.order;
        was = f.status ∙ ap some was;
        asked = asked;
        differs =
            λ e. cc ((eq_iff current.status input.status).1 (was ∙ ap status_text e ∙ sym asked));
        now = same.status input.shipment_id ∙ q1 input.shipment_id ∙ e1 input.shipment_id ∙ up.now;
        others = λ other ne.
            same.status other ∙ q1 other ∙ e1 other ∙ up.others other ne ∙ f.same.status other;
        orders = λ o. same.of_order o ∙ q2 o ∙ e2 o ∙ up.orders o ∙ f.same.of_order o;
        one_event = cc (up.has_id, same.events, q3, e3, up.events, f.same.events);
        one_message = cc (up.has_id, same.outbox, q4, e4, up.outbox, f.same.outbox);
      }

  change_status-Changed :
      (rt : Runtime) (inputs : Inputs) (input : UpdateShipmentStatusInput) (w0 w w' : W)
      (current r : ShipmentRecord) (wakes : Bool)
      → Found client view laws input.shipment_id w0 w current
      → (current.status == input.status) ≡ false
      → change_status client rt inputs input current w ≡ (ok (r, wakes), w')
      → Changed rt inputs input w0 w' × (wakes ≡ true)
  unfolding change_status
  change_status-Changed rt inputs input w0 w w' current r wakes f differs h =
      let (u, w1, updating, h1) =
        continue-eq-ok (update_status client input.shipment_id input.status w) _ h in
      let (e, w2, recording, h2) =
        continue-eq-ok
          (create_event client u.id input.status (or_else input.occurred_at inputs.now)
            input.location w1)
          _ h1 in
      let (previous, w3, parsing, h3) =
        continue-eq-ok (lift (parse_status current.status) w2) _ h2 in
      let (next, w4, parsing', h4) = continue-eq-ok (lift (parse_status input.status) w3) _ h3 in
      let (t, w5, queueing, h5) = continue-eq-ok (client.create_outbox _ w4) _ h4 in
      let (again, w6, reading, h6) = continue-eq-ok (find_by_id client u.id w5) _ h5 in
      let (row, event) =
        create_event-eq client view laws u.id input.status (or_else input.occurred_at inputs.now)
          input.location w1 w2 e recording in
      let (p, s1) = lift-eq-ok parsing in
      let (n, s2) = lift-eq-ok parsing' in
      let (done, s3) = pure-eq-ok h6 in
      (
        assembled rt inputs input w0 w w1 w2 w5 w' current u row previous next f differs
            (update_status-Updated client view laws input.shipment_id input.status w w1 u updating)
            event p n
            (subst
              (λ v.
                client.create_outbox (message_of rt inputs input u.id u.order_id previous next) v
                ≡ (ok tt, w5))
              (sym (s1 ∙ s2)) queueing)
            (subst (Same view w5) s3 (find_by_id-Same client view laws u.id w5 w6 again reading)),
        sym (ap (λ (x : ShipmentRecord × Bool). x.1) done),
      )

  -- How an update may end.
  abbrev pub Ended :
      Runtime
      → Inputs
      → UpdateShipmentStatusInput
      → W × Control
      → Result ShipmentRecord × (W × Control)
      → Type 0
  Ended rt inputs input (w, c) (ok shipment, (w', c')) =
      (Same view w w' × (view.status w input.shipment_id ≡ some input.status) × (c' ≡ c))
      ⊎ (Changed rt inputs input w w' × (c' ≡ Control.wake c))
  Ended rt inputs input (w, c) (err e, after) = after ≡ (w, c)

  decided :
      (rt : Runtime) (inputs : Inputs) (input : UpdateShipmentStatusInput) (w w1 w' : W)
      (c : Control) (current s : ShipmentRecord) (wakes same : Bool)
      → Found client view laws input.shipment_id w w1 current
      → (current.status == input.status) ≡ same
      → (if same then pure (current, false) else change_status client rt inputs input current) w1
        ≡ (ok (s, wakes), w')
      → Ended rt inputs input (w, c) (wake_if client (s, wakes) (w', c))
  decided rt inputs input w w1 w' c current s wakes true f same h =
      let (is_pair, after) = pure-eq-ok h in
      subst (λ p. Ended rt inputs input (w, c) (wake_if client p (w', c))) is_pair
        (inl (
          subst (Same view w) after f.same,
          f.status ∙ ap some ((eq_iff current.status input.status).0 same),
          refl,
        ))
  decided rt inputs input w w1 w' c current s wakes false f differs h =
      let (changed, yes_it_does) =
        change_status-Changed rt inputs input w w1 w' current s wakes f differs h in
      subst (λ b. Ended rt inputs input (w, c) (wake_if client (s, b) (w', c))) (sym yes_it_does)
        (inr (changed, refl))

  operation-Ended :
      (rt : Runtime) (inputs : Inputs) (input : UpdateShipmentStatusInput) (w w' : W) (c : Control)
      (s : ShipmentRecord) (wakes : Bool)
      → update_operation client rt inputs input w ≡ (ok (s, wakes), w')
      → Ended rt inputs input (w, c) (wake_if client (s, wakes) (w', c))
  unfolding update_operation
  operation-Ended rt inputs input w w' c s wakes h =
      let (o, w1, reading, h1) = continue-eq-ok (find_by_id client input.shipment_id w) _ h in
      let (current, w2, finding, h2) =
        continue-eq-ok (lift (or_not_found (not_found input.shipment_id) o) w1) _ h1 in
      let (is_found, after) = lift-eq-ok finding in
      let is_some = or_not_found-eq (not_found input.shipment_id) o is_found in
      let read = subst (λ x. find_by_id client input.shipment_id w ≡ (ok x, w1)) is_some reading in
      let read' =
        subst (λ v. find_by_id client input.shipment_id w ≡ (ok (some current), v)) after read in
      decided rt inputs input w w2 w' c current s wakes _
        (find_by_id-Found client view laws input.shipment_id w w2 current read') refl h2

  Ending-Ended :
      (rt : Runtime) (inputs : Inputs) (input : UpdateShipmentStatusInput) (w : W) (c : Control)
      (result : Result (ShipmentRecord × Bool) × W)
      → Ending (update_operation client rt inputs input w) w result
      → Ended rt inputs input (w, c) (continue (result.0, (result.1, c)) (wake_if client))
  Ending-Ended rt inputs input w c result (Ending.committed (s, wakes) w' ran e) =
      rw e (operation-Ended rt inputs input w w' c s wakes ran)
  Ending-Ended rt inputs input w c result (Ending.aborted e w' threw same) = rw same refl
  Ending-Ended rt inputs input w c result (Ending.refused e same) = rw same refl

  -- For a client that behaves as documented and atomic transactions, update_shipment_status outside
  -- of a transaction either throws and has changed nothing; or finds that the shipment has the
  -- status, changes no table and leaves the relay alone; or gives that shipment, and no other, its
  -- new status, which is one of the schema's and differs from the old one, appends one tracking
  -- event and one message that names both statuses, and wakes the relay.
  pub update_shipment_status-Ended :
      (transaction : Transaction W)
      → IsTransaction transaction
      → (rt : Runtime) (inputs : Inputs) (input : UpdateShipmentStatusInput) (w : W) (c : Control)
      → Ended rt inputs input
          (w, c)
          (update_shipment_status client transaction false rt inputs input (w, c))
  unfolding update_shipment_status with_transaction
  update_shipment_status-Ended transaction atomic rt inputs input w c =
      Ending-Ended rt inputs input w c _
        (atomic (ShipmentRecord × Bool) (update_operation client rt inputs input) w)

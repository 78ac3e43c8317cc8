-- ===== src/Tracking/Service/Creation.antt =====
-- What `createPendingShipment` does to the tables.
use logistics_platform.Prelude.{
  String, ◌≡◌, refl, sym, ap, ◌∙◌, ◌⊎◌, inl, inr, false, Option, none, some, [], ◌∷◌, ◌++◌, or_else,
  Option-cases, subst,
}
use logistics_platform.Result.{Result, ok, err}
use logistics_platform.Act.{continue-eq-ok, pure-eq-ok}
use logistics_platform.Messaging.Transaction.{Transaction, Ending, IsTransaction}
use logistics_platform.Tracking.Shipment.{ShipmentRecord}
use logistics_platform.Tracking.Client.{TrackingClient, View, Same, IsTrackingClient}
use logistics_platform.Tracking.Service.{
  CreatePendingShipmentInput, find_by_id, find_by_order_id, create_shipment, create_event,
  new_event, create_unless, create_pending_operation, create_pending_shipment, with_transaction,
}
use logistics_platform.Tracking.Service.Calls.{
  find_by_id-Same, find_by_id-Found, create_event-eq, find_by_order_id-Same,
  find_by_order_id-Absent, create_shipment-Inserted,
}

module _ {W : Type 0} (client : TrackingClient W) (view : View W)
    (laws : IsTrackingClient client view) where
  -- A new shipment: pending, with one event and no message.
  pub record Started (input : CreatePendingShipmentInput) (before after : W) (s : ShipmentRecord)
      : Type 0 where
    pub was_absent : view.of_order before input.order_id ≡ none
    pub of_order : view.of_order after input.order_id ≡ some s.id
    pub now : view.status after s.id ≡ some "PENDING"
    pub one_event :
        view.events after
        ≡ view.events before ++ new_event s.id "PENDING" input.occurred_at none ∷ []
    pub no_message : view.outbox after ≡ view.outbox before

  abbrev pub Ended : CreatePendingShipmentInput → W → Result ShipmentRecord × W → Type 0
  Ended input w (ok s, w') =
      ((view.of_order w input.order_id ≡ some s.id) × Same view w w') ⊎ Started input w w' s
  Ended input w (err e, w') = w' ≡ w

  again-id :
      (id : String) (w w' : W) (s : ShipmentRecord) (again : Option ShipmentRecord)
      → s.id ≡ id
      → find_by_id client id w ≡ (ok again, w')
      → (or_else again s).id ≡ id
  again-id id w w' s none e h = e
  again-id id w w' s (some again) e h = (find_by_id-Found client view laws id w w' again h).has_id

  create_unless-Started :
      (input : CreatePendingShipmentInput) (w w1 w' : W) (s : ShipmentRecord)
      → Same view w w1
      → view.of_order w input.order_id ≡ none
      → create_unless client input none w1 ≡ (ok s, w')
      → Started input w w' s
  create_unless-Started input w w1 w' s same absent h =
      let (u, w2, creating, h1) =
        continue-eq-ok (create_shipment client input.order_id "PENDING" w1) _ h in
      let (e, w3, recording, h2) =
        continue-eq-ok (create_event client u.id "PENDING" input.occurred_at none w2) _ h1 in
      let (again, w4, reading, h3) = continue-eq-ok (find_by_id client u.id w3) _ h2 in
      let (is_s, after) = pure-eq-ok h3 in
      let row =
        create_shipment-Inserted client view laws input.order_id "PENDING" w1 w2 u creating in
      let (r, event) =
        create_event-eq client view laws u.id "PENDING" input.occurred_at none w2 w3 e recording in
      let (e1, e2, e3, e4) = laws.create_event_ok _ w2 w3 r event in
      let unchanged =
        subst (Same view w3) after (find_by_id-Same client view laws u.id w3 w4 again reading) in
      let same_id : s.id ≡ u.id =
        ap (λ (x : ShipmentRecord). x.id) (sym is_s) ∙ again-id u.id w3 w4 u again refl reading in
      record {
        was_absent = absent;
        of_order =
            unchanged.of_order input.order_id
            ∙ e2 input.order_id
            ∙ row.of_order
            ∙ ap some (sym same_id);
        now = ap (view.status w') same_id ∙ unchanged.status u.id ∙ e1 u.id ∙ row.now;
        one_event = cc (same_id, unchanged.events, e3, row.events, same.events);
        no_message = unchanged.outbox ∙ e4 ∙ row.outbox ∙ same.outbox;
      }

  pub operation-Ended :
      (input : CreatePendingShipmentInput) (w w' : W) (s : ShipmentRecord)
      → create_pending_operation client input w ≡ (ok s, w')
      → Ended input w (ok s, w')
  unfolding create_pending_operation
  operation-Ended input w w' s h =
      let (existing, w1, reading, rest) =
        continue-eq-ok (find_by_order_id client input.order_id w) _ h in
      elim (Option-cases existing) [
        | inl is_none ↦
            let (same, absent) =
              find_by_order_id-Absent client view laws input.order_id w w1
                (rw is_none at reading) in
            inr (create_unless-Started input w w1 w' s same absent (rw is_none at rest))
        | inr (x, is_some) ↦
            let (same, there) =
              find_by_order_id-Same client view laws input.order_id w w1 x
                (rw is_some at reading) in
            let (is_s, after) = pure-eq-ok (rw is_some at rest) in
            inl
              (there ∙ ap (λ (y : ShipmentRecord). some y.id) is_s, subst (Same view w) after same)
      ]

  Ending-Ended :
      (input : CreatePendingShipmentInput) (w : W) (result : Result ShipmentRecord × W)
      → Ending (create_pending_operation client input w) w result
      → Ended input w result
  Ending-Ended input w result (Ending.committed s w' ran e) =
      rw e (operation-Ended input w w' s ran)
  Ending-Ended input w result (Ending.aborted e w' threw same) = rw same refl
  Ending-Ended input w result (Ending.refused e same) = rw same refl

  -- For a client that behaves as documented and atomic transactions, create_pending_shipment
  -- outside of a transaction returns the shipment of the order and changes nothing if there is one,
  -- and otherwise returns a new one, which is the order's and pending, with one tracking event and
  -- no message in the outbox; where it throws, nothing has changed.
  pub create_pending_shipment-Ended :
      (transaction : Transaction W)
      → IsTransaction transaction
      → (input : CreatePendingShipmentInput) (w : W)
      → Ended input w (create_pending_shipment client transaction false input w)
  unfolding create_pending_shipment with_transaction
  create_pending_shipment-Ended transaction atomic input w =
      Ending-Ended input w _ (atomic ShipmentRecord (create_pending_operation client input) w)

-- ===== src/Notifications/Dispatch/Outcomes.antt =====
-- How a dispatch may end, and what it leaves in the table of deliveries.
use logistics_platform.Prelude.{
  ℕ, String, ◌≡◌, ◌≢◌, refl, ap, ◌∙◌, ◌⊎◌, inl, inr, Option, none, some, List, [], ◌∷◌,
}
use logistics_platform.Result.{Failure, Result, ok, err}
use logistics_platform.Notifications.Providers.{
  NotificationChannel, channel_text, NotificationDeliveryRecord, NotificationProvider,
}
use logistics_platform.Notifications.Dispatch.{
  CreateNotificationDeliveryInput, DispatchNotificationInput, DeliverySql, pending_delivery, create,
  update_status, after_send, dispatch,
}

-- The table by its key.
abbrev pub Deliveries : Type 0 → Type 0
Deliveries W = W → String → Option NotificationDeliveryRecord

-- A new row has the given columns.
pub record IsNew (input : CreateNotificationDeliveryInput) (d : NotificationDeliveryRecord)
    : Type 0 where
  pub event_id : d.event_id ≡ input.event_id
  pub event_type : d.event_type ≡ input.event_type
  pub channel : d.channel ≡ input.channel
  pub recipient : d.recipient ≡ input.recipient
  pub content : d.content ≡ input.content
  pub status : d.status ≡ input.status
  pub provider : d.provider ≡ input.provider
  pub unsent : d.sent_at ≡ none

-- What the statements do. One that throws writes nothing.
pub record IsDeliverySql {W : Type 0} (sql : DeliverySql W) (row : Deliveries W) : Type 0 where
  pub insert_ok :
      (input : CreateNotificationDeliveryInput) (w w' : W) (ds : List NotificationDeliveryRecord)
      → sql.insert input w ≡ (ok ds, w')
      → (d : NotificationDeliveryRecord) × (ds ≡ d ∷ [])
        × IsNew input d
        × (row w d.id ≡ none)
        × (row w' d.id ≡ some d)
        × ((other : String) → other ≢ d.id → row w' other ≡ row w other)
  pub insert_err :
      (input : CreateNotificationDeliveryInput) (w w' : W) (e : Failure) (id : String)
      → sql.insert input w ≡ (err e, w')
      → row w' id ≡ row w id
  pub update_ok :
      (id status : String) (t : Option ℕ) (w w' : W) (d : NotificationDeliveryRecord)
      (ds : List NotificationDeliveryRecord)
      → row w id ≡ some d
      → sql.update id status t w ≡ (ok ds, w')
      → (ds ≡ record d { status = status; sent_at = t } ∷ [])
        × (row w' id ≡ some (record d { status = status; sent_at = t }))
  pub update_err :
      (id status : String) (t : Option ℕ) (w w' : W) (e : Failure)
      → sql.update id status t w ≡ (err e, w')
      → row w' id ≡ row w id

module _ {W : Type 0} (sql : DeliverySql W) (row : Deliveries W) (laws : IsDeliverySql sql row)
    (resolve : NotificationChannel → NotificationProvider W)
    (keeps : (c : NotificationChannel) (d : NotificationDeliveryRecord) (w : W) (id : String)
      → row ((resolve c).send d w).1 id ≡ row w id)
    (now : ℕ) where
  -- The row that a run has created.
  pub record Recorded (input : DispatchNotificationInput) (w : W) (d : NotificationDeliveryRecord)
      : Type 0 where
    pub event_id : d.event_id ≡ input.event_id
    pub recipient : d.recipient ≡ input.recipient
    pub content : d.content ≡ input.content
    pub channel : d.channel ≡ channel_text input.channel
    pub provider : d.provider ≡ (resolve input.channel).name
    pub was_pending : d.status ≡ "PENDING"
    pub is_new : row w d.id ≡ none

  -- The update that follows a sending threw: that to SENT, or that to FAILED where the provider threw.
  abbrev pub Threw : String → Result (Unit {0}) × W → Failure → Type 0
  Threw id (ok u, w) e = (sql.update id "SENT" (some now) w).0 ≡ err e
  Threw id (err f, w) e = (sql.update id "FAILED" none w).0 ≡ err e

  -- A run that returns has sent the notification; one that throws has not created a row, or left it
  -- pending because its last update threw, or marked it failed because the provider threw.
  pub data Dispatched (input : DispatchNotificationInput) (w : W)
      (result : Result NotificationDeliveryRecord) (w' : W) : Type 0 where
    unrecorded :
        (e : Failure)
        → result ≡ err e
        → ((id : String) → row w' id ≡ row w id)
        → Dispatched input w result w'
    delivered :
        (d : NotificationDeliveryRecord) (w1 : W)
        → Recorded input w d
        → ((resolve input.channel).send d w1).0 ≡ ok tt
        → result ≡ ok (record d { status = "SENT"; sent_at = some now })
        → row w' d.id ≡ some (record d { status = "SENT"; sent_at = some now })
        → Dispatched input w result w'
    unsettled :
        (d : NotificationDeliveryRecord) (w1 : W) (e : Failure)
        → Recorded input w d
        → Threw d.id ((resolve input.channel).send d w1) e
        → result ≡ err e
        → row w' d.id ≡ some d
        → Dispatched input w result w'
    refused :
        (d : NotificationDeliveryRecord) (w1 : W) (e : Failure)
        → Recorded input w d
        → ((resolve input.channel).send d w1).0 ≡ err e
        → result ≡ err e
        → row w' d.id ≡ some (record d { status = "FAILED"; sent_at = none })
        → Dispatched input w result w'

  recorded :
      (input : DispatchNotificationInput) (w : W) (d : NotificationDeliveryRecord)
      → IsNew (pending_delivery input (resolve input.channel).name) d
      → row w d.id ≡ none
      → Recorded input w d
  unfolding pending_delivery
  recorded input w d new fresh = record {
    event_id = new.event_id;
    recipient = new.recipient;
    content = new.content;
    channel = new.channel;
    provider = new.provider;
    was_pending = new.status;
    is_new = fresh;
  }

  updated :
      (id status : String) (t : Option ℕ) (w : W) (d : NotificationDeliveryRecord)
      (call : Result (List NotificationDeliveryRecord)) (w' : W)
      → row w id ≡ some d
      → sql.update id status t w ≡ (call, w')
      → ((update_status sql id status t w ≡ (ok (record d { status = status; sent_at = t }), w'))
          × (row w' id ≡ some (record d { status = status; sent_at = t })))
        ⊎ ((e : Failure) × (call ≡ err e)
            × (update_status sql id status t w ≡ (err e, w'))
            × (row w' id ≡ some d))
  unfolding update_status
  updated id status t w d (ok ds) w' found e =
      let (is_ds, after) = laws.update_ok id status t w w' d ds found e in
      inl (rw e (rw is_ds refl), after)
  updated id status t w d (err f) w' found e =
      inr (f, refl, rw e refl, laws.update_err id status t w w' f e ∙ found)

  settled :
      (input : DispatchNotificationInput) (w w1 : W) (d : NotificationDeliveryRecord)
      (sending : Result (Unit {0})) (w2 : W)
      → Recorded input w d
      → (resolve input.channel).send d w1 ≡ (sending, w2)
      → row w2 d.id ≡ some d
      → Dispatched input w
          (after_send sql now d.id sending w2).0
          (after_send sql now d.id sending w2).1
  unfolding after_send
  settled input w w1 d (ok u) w2 r call found =
      elim (updated d.id "SENT" (some now) w2 d _ _ found refl) [
        | inl (e, after) ↦
            rw e (
              Dispatched.delivered d w1 r (ap (λ (x : Result (Unit {0}) × W). x.0) call) refl after)
        | inr (f, threw, e, left) ↦ rw e (Dispatched.unsettled d w1 f r (rw call threw) refl left)
      ]
  settled input w w1 d (err f) w2 r call found =
      elim (updated d.id "FAILED" none w2 d _ _ found refl) [
        | inl (e, after) ↦
            rw e (
              Dispatched.refused d w1 f r (ap (λ (x : Result (Unit {0}) × W). x.0) call) refl after)
        | inr (g, threw, e, left) ↦ rw e (Dispatched.unsettled d w1 g r (rw call threw) refl left)
      ]

  started :
      (input : DispatchNotificationInput) (w w1 : W)
      (call : Result (List NotificationDeliveryRecord))
      → sql.insert (pending_delivery input (resolve input.channel).name) w ≡ (call, w1)
      → Dispatched input w (dispatch sql resolve now input w).0 (dispatch sql resolve now input w).1
  unfolding dispatch create
  started input w w1 (err f) call =
      rw call (Dispatched.unrecorded f refl (λ id. laws.insert_err _ w w1 f id call))
  started input w w1 (ok ds) call =
      let (d, is_ds, new, fresh, there, _) = laws.insert_ok _ w w1 ds call in
      rw call (
        rw is_ds (
          settled input w w1 d _ _ (recorded input w d new fresh) refl
            (keeps input.channel d w1 d.id ∙ there)))

  -- For SQL statements that behave as documented and providers that leave the table of deliveries
  -- alone, a dispatch either throws with no row written; or records the delivery and, where the
  -- provider sent it, returns it with the status SENT and the time, which is also what is stored;
  -- or, where the provider threw, throws that failure and leaves the row FAILED; or leaves the row
  -- PENDING and throws what the update of the row has thrown, which was the update to SENT where
  -- the provider sent it and the update to FAILED where the provider threw.
  pub dispatch-Dispatched :
      (input : DispatchNotificationInput) (w : W)
      → Dispatched input w (dispatch sql resolve now input w).0 (dispatch sql resolve now input w).1
  dispatch-Dispatched input w = started input w _ _ refl

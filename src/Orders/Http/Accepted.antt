-- ===== src/Orders/Http/Accepted.antt =====
-- The creation of an order from the request's body to the database.
use logistics_platform.Prelude.{
  String, ◌≡◌, refl, ap, ◌∙◌, subst, true, false, some, List, [], ◌∷◌, leb, length, All, ◌<◌, arith,
}
use logistics_platform.Text.{trim, text_length, to_upper_case}
use logistics_platform.Text.Letters.{letters, trim-letters, to_upper_case-letters}
use logistics_platform.Number.{exact_limit}
use logistics_platform.Json.{Json, nonnegative_int}
use logistics_platform.Result.{Result, ok, err}
use logistics_platform.Runtime.{Runtime}
use logistics_platform.Contracts.Acceptance.{order_created_read, payload_ok, envelope_ok}
use logistics_platform.Messaging.EnvelopeBuilder.{build_event_envelope}
use logistics_platform.Messaging.EnvelopeBuilder.Sound.{SoundContext, sound_ids}
use logistics_platform.Messaging.Relay.Control.{Control}
use logistics_platform.Orders.Item.{OrderItemProps, OrderItem}
use logistics_platform.Orders.Order.{
  ShippingAddress, Order, normalized, pending, place, total_cents,
}
use logistics_platform.Orders.Order.Totals.{order-total_cents_exact}
use logistics_platform.Orders.Order.Rehydrate.{IsOrder, new_order_of_IsOrder, created_event}
use logistics_platform.Orders.Publisher.{PendingOutboxMessage, build_order_created_message}
use logistics_platform.Orders.Repository.{OrderClient, save_new}
use logistics_platform.Orders.Commands.{CreateOrderCommand, Inputs, prepare_order}
use logistics_platform.Orders.Handlers.Create.{place_props}
use logistics_platform.Orders.Http.{Validators, CreateOrderDto}
use logistics_platform.Orders.Http.Validated.{ValidIfGiven, ValidDto}
use logistics_platform.Orders.Http.Placeable.{
  IsValidators, NamedItem, SensibleAddress, address_ok-normalized, Items, asked_total, is_none_of,
}

-- A request whose texts are not blank, with letters for its two codes and a total below 2 ^ 53.
pub record Sensible (dto : CreateOrderDto) (a : ShippingAddress) : Type 0 where
  pub has_address : dto.shipping_address ≡ some a
  pub address : SensibleAddress a
  pub currency : letters dto.currency ≡ true
  pub items : All NamedItem dto.items
  pub total : asked_total dto.items < exact_limit

-- The host's ids are UUIDs, and so are those that the middleware has put in the context; the time of
-- the run is printed in the format that the schema reads.
pub record SoundInputs (rt : Runtime) (inputs : Inputs) : Type 0 where
  pub order_uuid : rt.uuid_format inputs.order_uuid ≡ true
  pub event_uuid : rt.uuid_format inputs.event_uuid ≡ true
  pub correlation_uuid : rt.uuid_format inputs.correlation_uuid ≡ true
  pub context : SoundContext rt inputs.context
  pub time : rt.datetime_format (rt.to_iso_string inputs.now) ≡ true

abbrev pub command_of : CreateOrderDto → ShippingAddress → CreateOrderCommand
command_of dto a = record {
  customer_id = dto.customer_id;
  currency = dto.currency;
  items = dto.items;
  shipping_address = a;
}

some_given : (props : List OrderItemProps) → leb 1 (length props) ≡ true → is_none_of props ≡ false
some_given [] h = cc
some_given (p ∷ props) h = refl

module _ (v : Validators) (rt : Runtime) (laws : IsValidators v rt) (inputs : Inputs)
    (sound : SoundInputs rt inputs) (dto : CreateOrderDto) (a : ShippingAddress)
    (valid : ValidDto v dto) (sensible : Sensible dto a) where
  abbrev currency : String
  currency = to_upper_case rt.upper_other dto.currency

  -- The order of the request, for the items that were made.
  abbrev placed : List OrderItem → Order
  placed items = record {
    id = inputs.order_uuid;
    customer_id = dto.customer_id;
    status = pending;
    currency = currency;
    items = items;
    placed_at = inputs.now;
    shipping_address_value = some (normalized rt a);
    domain_events = [];
  }

  currency_trimmed : trim currency ≡ currency
  currency_trimmed =
      trim-letters currency (to_upper_case-letters rt.upper_other dto.currency sensible.currency).0

  currency_size : text_length currency ≡ 3
  currency_size =
      (to_upper_case-letters rt.upper_other dto.currency sensible.currency).1
      ∙ laws.length_of_letters 3 dto.currency sensible.currency valid.currency

  placed-IsOrder : (items : List OrderItem) → Items dto.items items → IsOrder (placed items)
  placed-IsOrder items made = record {
    customer_given =
        laws.uuid_given dto.customer_id (laws.uuid_accepted dto.customer_id valid.customer_id);
    currency_length = ap text_length currency_trimmed ∙ currency_size;
    items_given = made.kept ∙ some_given dto.items valid.some_items;
    items_valid = made.valid;
  }

  place-placed :
      (items : List OrderItem)
      → Items dto.items items
      → place rt inputs.order_uuid inputs.now (place_props (command_of dto a))
        ≡ ok (record (placed items) {
          domain_events = created_event (placed items) (normalized rt a) ∷ [];
        })
  unfolding place
  place-placed items made =
      rw made.created (rw (new_order_of_IsOrder (placed items) (placed-IsOrder items made)) refl)

  abbrev announced_as : List OrderItem → PendingOutboxMessage
  announced_as items =
      build_order_created_message rt inputs.context inputs.event_uuid inputs.correlation_uuid
        inputs.now (created_event (placed items) (normalized rt a))

  placed-total_cents :
      (items : List OrderItem)
      → Items dto.items items
      → nonnegative_int (total_cents (placed items)) ≡ true
  placed-total_cents items made =
      ap nonnegative_int
        (order-total_cents_exact (placed items) (omega (arith, made.summed, sensible.total)))

  -- The schema takes the event of the order.
  announced-payload_ok :
      (items : List OrderItem)
      → Items dto.items items
      → payload_ok rt (announced_as items).payload.payload ≡ true
  unfolding build_order_created_message build_event_envelope
  announced-payload_ok items made = ground (
    arith,
    sound.order_uuid,
    laws.uuid_accepted dto.customer_id valid.customer_id,
    address_ok-normalized rt v laws a (subst (ValidIfGiven v) sensible.has_address valid.address)
        sensible.address,
    made.announced,
    made.counted,
    placed-total_cents items made,
    currency_size,
    sound.time,
  )

  announced-envelope_ok :
      (items : List OrderItem) → envelope_ok rt (announced_as items).payload ≡ true
  unfolding build_order_created_message build_event_envelope text_length
  announced-envelope_ok items =
      let (correlation, cause) =
        sound_ids rt inputs.context inputs.correlation_uuid sound.correlation_uuid sound.context in
      ground (arith, sound.event_uuid, sound.time, correlation, cause)

  prepared :
      (items : List OrderItem)
      → Items dto.items items
      → prepare_order rt inputs (command_of dto a) ≡ ok (placed items, announced_as items)
  unfolding prepare_order build_order_created_message build_event_envelope
  prepared items made = rw (place-placed items made) (
      rw order_created_read
        (rw (announced-envelope_ok items, announced-payload_ok items made) refl))

-- The answer to a request, by what the write to the database returned.
abbrev pub answered : String → Result (Unit {0}) → Result String
answered id (ok u) = ok id
answered id (err e) = err e

-- The order and the message are prepared, and the answer is then the database's.
pub record Accepted {W : Type 0} (client : OrderClient W) (rt : Runtime) (inputs : Inputs)
    (dto : CreateOrderDto) (a : ShippingAddress) (w : W) (result : Result String) : Type 0 where
  pub order : Order
  pub message : PendingOutboxMessage
  pub prepared : prepare_order rt inputs (command_of dto a) ≡ ok (order, message)
  pub answer : result ≡ answered inputs.order_uuid (save_new client order message w).0

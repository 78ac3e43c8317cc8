-- ===== src/Orders/Http.antt =====
-- apps/order-service/src/interfaces/http: the data transfer objects as decoders of the request's body,
-- and the controller. The libraries class-transformer and class-validator are parameters: what the
-- body is after the implicit conversions, and what `isUUID` and `isLength` accept. A null among the
-- items is not represented.
pub mod Validated
pub mod Placeable
pub mod Accepted
pub mod Cancelled
use logistics_platform.Prelude.{
  ℕ, String, ◌≡◌, Bool, true, false, ◌&&◌, ◌||◌, Option, none, some, List, [], ◌∷◌, ◌==◌, leb,
  length,
}
use logistics_platform.Number.{Number}
use logistics_platform.Json.{
  Json, null, str, arr, all_of, Fields, end, field, get, ◌>>=◌, ◌>>◌, check, string_where,
  number_where, positive_int, nonnegative_int, array, object, required,
}
use logistics_platform.Json
use logistics_platform.Result.{error, Result, ok, err}
use logistics_platform.Act
use logistics_platform.Act.{Act, lift}
use logistics_platform.Runtime.{Runtime}
use logistics_platform.Messaging.Relay.Control.{Control}
use logistics_platform.Orders.Item.{OrderItemProps}
use logistics_platform.Orders.Order.{ShippingAddress}
use logistics_platform.Orders.Repository.{OrderClient}
use logistics_platform.Orders.Commands.{CreateOrderCommand, Inputs, OrderView}
use logistics_platform.Orders.Handlers.{create_order, cancel_order, get_order}

pub record Validators : Type 0 where
  -- `plainToInstance` with implicit conversion
  pub transform : Json → Json
  pub is_uuid : String → Bool
  pub is_length : (min : ℕ) (max : Option ℕ) → String → Bool

-- `whitelist` with `forbidNonWhitelisted`
abbrev pub contains : List String → String → Bool
contains [] key = false
contains (k ∷ ks) key = (k == key) || contains ks key

abbrev pub whitelisted : List String → Fields → Bool
whitelisted keys end = true
whitelisted keys (field key value fs) = contains keys key && whitelisted keys fs

-- `@IsOptional() @IsString()`
abbrev pub optional_string : Option Json → Option (Option String)
optional_string none = some none
optional_string (some null) = some none
optional_string (some (str s)) = some (some s)
optional_string (some _) = none

pub record CreateOrderDto : Type 0 where
  pub customer_id : String
  pub currency : String
  pub items : List OrderItemProps
  -- `@ValidateNested()` lets a missing value pass, and a list of addresses, both of them `none`: neither
  -- has a line that `create` could read.
  pub shipping_address : Option ShippingAddress

module _ (v : Validators) where
  abbrev pub min_length_one : String → Bool
  min_length_one = v.is_length 1 none

  unfoldable pub create_order_item_dto : Json → Option OrderItemProps
  create_order_item_dto body = do
    fs ← object body
    check (whitelisted ("sku" ∷ "name" ∷ "quantity" ∷ "unitPriceCents" ∷ []) fs)
    sku ← required (string_where min_length_one) (get "sku" fs)
    name ← required (string_where min_length_one) (get "name" fs)
    quantity ← required (number_where positive_int) (get "quantity" fs)
    unit_price_cents ← required (number_where nonnegative_int) (get "unitPriceCents" fs)
    some (record {
      sku = sku;
      name = name;
      quantity = quantity;
      unit_price_cents = unit_price_cents;
    })

  unfoldable pub shipping_address_dto : Json → Option ShippingAddress
  shipping_address_dto body = do
    fs ← object body
    check (whitelisted ("line1" ∷ "line2" ∷ "city" ∷ "region" ∷ "postalCode" ∷ "country" ∷ []) fs)
    line1 ← required (string_where min_length_one) (get "line1" fs)
    line2 ← optional_string (get "line2" fs)
    city ← required (string_where min_length_one) (get "city" fs)
    region ← required (string_where min_length_one) (get "region" fs)
    postal_code ← required (string_where min_length_one) (get "postalCode" fs)
    country ← required (string_where (v.is_length 2 (some 2))) (get "country" fs)
    some (record {
      line1 = line1;
      line2 = line2;
      city = city;
      region = region;
      postal_code = postal_code;
      country = country;
    })

  -- Of a list, `@ValidateNested()` validates each element.
  abbrev pub nested_address : Option Json → Option (Option ShippingAddress)
  nested_address none = some none
  nested_address (some null) = some none
  nested_address (some (arr vs)) = do addresses ← all_of shipping_address_dto vs; some none
  nested_address (some body) = do address ← shipping_address_dto body; some (some address)

  unfoldable pub create_order_dto : Json → Option CreateOrderDto
  unfolding create_order_item_dto shipping_address_dto
  create_order_dto body = do
    fs ← object body
    check (whitelisted ("customerId" ∷ "currency" ∷ "items" ∷ "shippingAddress" ∷ []) fs)
    customer_id ← required (string_where v.is_uuid) (get "customerId" fs)
    currency ← required (string_where (v.is_length 3 (some 3))) (get "currency" fs)
    items ← required (array create_order_item_dto) (get "items" fs)
    check (leb 1 (length items))
    shipping_address ← nested_address (get "shippingAddress" fs)
    some (record {
      customer_id = customer_id;
      currency = currency;
      items = items;
      shipping_address = shipping_address;
    })

  -- The pipe of main.ts; a body that is refused is answered with the status 400.
  unfoldable pub validation_pipe : Json → Option CreateOrderDto
  unfolding create_order_dto
  validation_pipe body = create_order_dto (v.transform body)

-- The argument that `create` builds. Reading a line of a missing address throws; for a list, whose
-- lines are undefined, it is `place` that throws, where it trims them or in a check before, and the
-- error is not told apart from the other.
unfoldable pub create_command : CreateOrderDto → Result CreateOrderCommand
create_command dto = elim dto.shipping_address [
  | none ↦ err (error "Cannot read properties of undefined (reading 'line1')")
  | some address ↦ ok (record {
    customer_id = dto.customer_id;
    currency = dto.currency;
    items = dto.items;
    shipping_address = address;
  })
]

module _ {W : Type 0} (client : OrderClient W) (rt : Runtime) where
  -- `OrdersController.create`
  unfoldable pub create : Inputs → CreateOrderDto → Act (W × Control) String
  unfolding create_command
  create inputs dto =
      Act.◌>>=◌ (lift (create_command dto)) (λ command. create_order client rt inputs command)

  -- `OrdersController.getById`
  unfoldable pub get_by_id : String → Act W OrderView
  get_by_id id = get_order client rt id

  -- `OrdersController.cancel`
  unfoldable pub cancel : String → Act W OrderView
  cancel id = Act.◌>>=◌ (cancel_order client rt id) (λ result. get_order client rt id)

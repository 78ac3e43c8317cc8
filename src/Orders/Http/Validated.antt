-- ===== src/Orders/Http/Validated.antt =====
-- What the validation of a request's body ensures.
use logistics_platform.Prelude.{
  String, ◌≡◌, refl, Bool, true, false, Option, none, some, List, leb, length, All, arith, subst,
  some-injective,
}
use logistics_platform.Number.{Number}
use logistics_platform.Json.{
  Json, null, Items, nil, cons, arr, obj, get, ◌>>=◌, check, string_where, number_where,
  positive_int, nonnegative_int, all_of, array, required, >>=-eq-some,
}
use logistics_platform.Orders.Item.{OrderItemProps}
use logistics_platform.Orders.Order.{ShippingAddress}
use logistics_platform.Orders.Http.{
  Validators, CreateOrderDto, create_order_item_dto, shipping_address_dto, create_order_dto,
  validation_pipe, nested_address,
}

required-string :
    (p : String → Bool) (o : Option Json) {s : String}
    → required (string_where p) o ≡ some s
    → p s ≡ true
required-string p o h = ground arith

required-number :
    (p : Number → Bool) (o : Option Json) {n : Number}
    → required (number_where p) o ≡ some n
    → p n ≡ true
required-number p o h = ground arith

check-eq : (b : Bool) {u : Unit {0}} → check b ≡ some u → b ≡ true
check-eq true h = refl
check-eq false h = cc

module _ (v : Validators) where
  -- An item, an address and a request that the decorators accept.
  pub record ValidItem (item : OrderItemProps) : Type 0 where
    pub sku : v.is_length 1 none item.sku ≡ true
    pub name : v.is_length 1 none item.name ≡ true
    pub quantity : positive_int item.quantity ≡ true
    pub unit_price_cents : nonnegative_int item.unit_price_cents ≡ true

  pub record ValidAddress (a : ShippingAddress) : Type 0 where
    pub line1 : v.is_length 1 none a.line1 ≡ true
    pub city : v.is_length 1 none a.city ≡ true
    pub region : v.is_length 1 none a.region ≡ true
    pub postal_code : v.is_length 1 none a.postal_code ≡ true
    pub country : v.is_length 2 (some 2) a.country ≡ true

  abbrev pub ValidIfGiven : Option ShippingAddress → Type 0
  ValidIfGiven none = Unit
  ValidIfGiven (some a) = ValidAddress a

  pub record ValidDto (dto : CreateOrderDto) : Type 0 where
    pub customer_id : v.is_uuid dto.customer_id ≡ true
    pub currency : v.is_length 3 (some 3) dto.currency ≡ true
    pub items : All ValidItem dto.items
    pub some_items : leb 1 (length dto.items) ≡ true
    pub address : ValidIfGiven dto.shipping_address

  item_dto-Valid :
      (body : Json) {item : OrderItemProps}
      → create_order_item_dto v body ≡ some item
      → ValidItem item
  unfolding create_order_item_dto
  item_dto-Valid (obj fs) {item} h = ground arith
  item_dto-Valid _ h = cc

  items_dto-Valid :
      (vs : Items) {items : List OrderItemProps}
      → all_of (create_order_item_dto v) vs ≡ some items
      → All ValidItem items
  items_dto-Valid nil {items} h = subst (All ValidItem) (some-injective _ _ h) tt
  items_dto-Valid (cons w vs) {items} h =
      let (item, is_item, h1) = >>=-eq-some (create_order_item_dto v w) _ h in
      let (rest, is_rest, h2) = >>=-eq-some (all_of (create_order_item_dto v) vs) _ h1 in
      subst (All ValidItem) (some-injective _ _ h2)
        (item_dto-Valid w is_item, items_dto-Valid vs is_rest)

  array_dto-Valid :
      (o : Option Json) (items : List OrderItemProps)
      → required (array (create_order_item_dto v)) o ≡ some items
      → All ValidItem items
  array_dto-Valid (some (arr vs)) items h = items_dto-Valid vs h
  array_dto-Valid (some _) items h = cc
  array_dto-Valid none items h = cc

  address_dto-Valid :
      (body : Json) {a : ShippingAddress} → shipping_address_dto v body ≡ some a → ValidAddress a
  unfolding shipping_address_dto
  address_dto-Valid (obj fs) h = ground arith
  address_dto-Valid _ h = cc

  given-Valid :
      (body : Json) (a : Option ShippingAddress)
      → (shipping_address_dto v body >>= λ address. some (some address)) ≡ some a
      → ValidIfGiven a
  given-Valid body a h =
      let (address, is_address, same) = >>=-eq-some (shipping_address_dto v body) _ h in
      subst ValidIfGiven (some-injective _ _ same) (address_dto-Valid body is_address)

  nested-Valid :
      (o : Option Json) (a : Option ShippingAddress) → nested_address v o ≡ some a → ValidIfGiven a
  nested-Valid none a h = subst ValidIfGiven (some-injective _ _ h) tt
  nested-Valid (some null) a h = subst ValidIfGiven (some-injective _ _ h) tt
  nested-Valid (some (arr vs)) a h =
      let (addresses, are_addresses, same) =
        >>=-eq-some (all_of (shipping_address_dto v) vs) (λ many. some none) h in
      subst ValidIfGiven (some-injective _ _ same) tt
  nested-Valid (some body) a h = given-Valid body a h

  dto-Valid :
      (body : Json) {dto : CreateOrderDto} → create_order_dto v body ≡ some dto → ValidDto dto
  unfolding create_order_dto
  dto-Valid (obj fs) {dto} h = ground (
    arith,
    array_dto-Valid (get "items" fs) dto.items,
    nested-Valid (get "shippingAddress" fs) dto.shipping_address,
  )
  dto-Valid _ h = cc

  pub validation_pipe-Valid :
      (body : Json) {dto : CreateOrderDto} → validation_pipe v body ≡ some dto → ValidDto dto
  unfolding validation_pipe
  validation_pipe-Valid body h = dto-Valid (v.transform body) h

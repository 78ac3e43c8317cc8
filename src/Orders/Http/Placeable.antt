-- ===== src/Orders/Http/Placeable.antt =====
-- A request that passes the validation, and is not blank where the aggregate wants a text, is placed
-- and announced: what is thrown afterwards comes from the database.
use logistics_platform.Prelude.{
  ℕ, ◌+◌, ◌*◌, ◌<◌, String, ◌≡◌, refl, ap, ◌∙◌, Bool, true, false, some, List, [], ◌∷◌, map, length,
  All, all, arith,
}
use logistics_platform.Text.{is_empty, trim, text_length, to_upper_case}
use logistics_platform.Text.Letters.{letters, trim-letters, to_upper_case-letters}
use logistics_platform.Number.{Number, nat}
use logistics_platform.Json.{positive_int, nonnegative_int, at_least_one}
use logistics_platform.Result.{ok, map_all}
use logistics_platform.Runtime.{Runtime}
use logistics_platform.Contracts.Acceptance.{item_ok, address_ok}
use logistics_platform.Orders.Item
use logistics_platform.Orders.Item.{OrderItemProps, OrderItem}
use logistics_platform.Orders.Item.Laws.{Makes, create-Makes_iff, IsItem, Makes-IsItem}
use logistics_platform.Orders.Order.Totals.{exact_total}
use logistics_platform.Orders.Order.{ShippingAddress, normalized, no_items}
use logistics_platform.Orders.Http.{Validators}
use logistics_platform.Orders.Http.Validated.{ValidItem, ValidAddress}

-- What the libraries document, and what the two checks of UUIDs have in common.
pub record IsValidators (v : Validators) (rt : Runtime) : Type 0 where
  pub length_of_letters :
      (n : ℕ) (s : String) → letters s ≡ true → v.is_length n (some n) s ≡ true → text_length s ≡ n
  pub uuid_accepted : (s : String) → v.is_uuid s ≡ true → rt.uuid_format s ≡ true
  pub uuid_given : (s : String) → rt.uuid_format s ≡ true → is_empty (trim s) ≡ false

abbrev pub NotBlank : String → Type 0
NotBlank s = is_empty (trim s) ≡ false

pub record NamedItem (item : OrderItemProps) : Type 0 where
  pub sku : NotBlank item.sku
  pub name : NotBlank item.name

-- The texts that the decorators let pass though the order refuses them are not among these.
pub record SensibleAddress (a : ShippingAddress) : Type 0 where
  pub line1 : NotBlank a.line1
  pub city : NotBlank a.city
  pub region : NotBlank a.region
  pub postal_code : NotBlank a.postal_code
  pub country : letters a.country ≡ true

given : (s : String) → is_empty s ≡ false → at_least_one s ≡ true
unfolding text_length
given String.[] h = cc
given (String.◌∷◌ c s) h = ground arith

abbrev pub value_of : Number → ℕ
value_of (nat n) = n
value_of _ = 0

positive_value : (n : Number) → positive_int n ≡ true → (n ≡ nat (value_of n)) × (0 < value_of n)
positive_value (nat n) h = (refl, ground arith)
positive_value _ h = cc

nonnegative_value : (n : Number) → nonnegative_int n ≡ true → n ≡ nat (value_of n)
nonnegative_value (nat n) h = refl
nonnegative_value _ h = cc

-- An item that is accepted and named is created, and the schema takes what was created.
made_item :
    (v : Validators) (props : OrderItemProps)
    → ValidItem v props
    → NamedItem props
    → (item : OrderItem) × Makes props item
made_item v props ok_item named =
    let item : OrderItem = record {
      sku = trim props.sku;
      name = trim props.name;
      quantity = value_of props.quantity;
      unit_price_cents = value_of props.unit_price_cents;
    } in
    (
      item,
      record {
        sku_given = named.sku;
        name_given = named.name;
        sku = refl;
        name = refl;
        quantity = (positive_value props.quantity ok_item.quantity).0;
        some_pieces = (positive_value props.quantity ok_item.quantity).1;
        price = nonnegative_value props.unit_price_cents ok_item.unit_price_cents;
      },
    )

item_ok-to_primitives : (item : OrderItem) → IsItem item → item_ok (Item.to_primitives item) ≡ true
unfolding Item.to_primitives
item_ok-to_primitives item h = ground (arith, given item.sku, given item.name)

pub address_ok-normalized :
    (rt : Runtime) (v : Validators) (laws : IsValidators v rt) (a : ShippingAddress)
    → ValidAddress v a
    → SensibleAddress a
    → address_ok (normalized rt a) ≡ true
unfolding normalized
address_ok-normalized rt v laws a valid sensible =
    let country : text_length (to_upper_case rt.upper_other (trim a.country)) ≡ 2 =
      ap (λ c. text_length (to_upper_case rt.upper_other c))
        (trim-letters a.country sensible.country)
      ∙ ((to_upper_case-letters rt.upper_other a.country sensible.country).1
          ∙ laws.length_of_letters 2 a.country sensible.country valid.country) in
    ground (
      arith,
      given (trim a.line1) sensible.line1,
      given (trim a.city) sensible.city,
      given (trim a.region) sensible.region,
      given (trim a.postal_code) sensible.postal_code,
      country,
    )

abbrev pub is_none_of : List OrderItemProps → Bool
is_none_of [] = true
is_none_of (p ∷ props) = false

-- The sum of quantity times price that is asked for.
abbrev pub asked_total : List OrderItemProps → ℕ
asked_total [] = 0
asked_total (p ∷ props) = value_of p.quantity * value_of p.unit_price_cents + asked_total props

-- What becomes of the items of a request.
pub record Items (props : List OrderItemProps) (items : List OrderItem) : Type 0 where
  pub created : map_all Item.create props ≡ ok items
  pub valid : All IsItem items
  pub announced : all item_ok (map Item.to_primitives items) ≡ true
  pub counted : length (map Item.to_primitives items) ≡ length props
  pub kept : no_items items ≡ is_none_of props
  pub summed : exact_total items ≡ asked_total props

item_total :
    {p : OrderItemProps} {item : OrderItem} (props : List OrderItemProps) (items : List OrderItem)
    → Makes p item
    → exact_total items ≡ asked_total props
    → exact_total (item ∷ items) ≡ asked_total (p ∷ props)
item_total props items makes same = rw (makes.quantity, makes.price) (omega (arith, same))

pub made_items :
    (v : Validators) (props : List OrderItemProps)
    → All (ValidItem v) props
    → All NamedItem props
    → (items : List OrderItem) × Items props items
made_items v [] valid named = (
  [],
  record {
    created = refl;
    valid = tt;
    announced = refl;
    counted = refl;
    kept = refl;
    summed = refl;
  },
)
made_items v (p ∷ props) (valid, valids) (named, nameds) =
    let (item, makes) = made_item v p valid named in
    let (items, rest) = made_items v props valids nameds in
    let sound = Makes-IsItem makes in
    (
      item ∷ items,
      record {
        created = rw ((create-Makes_iff p item).1 makes) (rw rest.created refl);
        valid = (sound, rest.valid);
        announced = ground (arith, item_ok-to_primitives item sound, rest.announced);
        counted = omega (arith, rest.counted);
        kept = refl;
        summed = item_total props items makes rest.summed;
      },
    )

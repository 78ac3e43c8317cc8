-- ===== src/Tests/Database.antt =====
-- Small databases for the tests: a transaction that undoes what a failed operation wrote, tables of
-- processed messages, and a table of at most one order.
use logistics_platform.Prelude.{
  String, ◌≡◌, ◌≢◌, refl, Bool, false, ◌&&◌, ◌||◌, Option, none, some, List, [], ◌∷◌, ◌++◌, ◌==◌,
  eq_iff, eq_refl, if◌then◌else◌, arith,
}
use logistics_platform.Result.{Failure, error, known_request, Result, ok, err}
use logistics_platform.Act.{Act}
use logistics_platform.Messaging.OutboxTable.{NewRow}
use logistics_platform.Messaging.Transaction.{Transaction, Ending, IsTransaction}
use logistics_platform.Messaging.ProcessedStore.{Seen}
use logistics_platform.Notifications.ProcessedMessages.{Insert, IsInsert}
use logistics_platform.Tracking.ProcessedMessages.{Create, IsCreate}
use logistics_platform.Orders.Repository.{
  StoredOrder, OrderData, OrderClient, IsOrderClient, updated,
}

module _ {W : Type 0} where
  abbrev pub undone : {A : Type 0} → Result A × W → W → Result A × W
  undone (ok a, w') w = (ok a, w')
  undone (err e, w') w = (err e, w)

  abbrev pub undoing : Transaction W
  undoing A operation w = undone (operation w) w

  undone-Ending : {A : Type 0} (r : Result A × W) (w : W) → Ending r w (undone r w)
  undone-Ending (ok a, w') w = Ending.committed a w' refl refl
  undone-Ending (err e, w') w = Ending.aborted e w' refl refl

  pub undoing-IsTransaction : IsTransaction undoing
  undoing-IsTransaction A m w = undone-Ending (m w) w

-- The messages on record.
abbrev pub Record : Type 0
Record = String → String → Bool

abbrev pub record_of : Seen Record
record_of w = w

abbrev pub with_message : String → String → Record → Record
with_message consumer event w c e = (c == consumer && e == event) || w c e

abbrev pub insert : Insert Record
insert consumer event event_type w =
    (ok (if w consumer event then [] else "row" ∷ []), with_message consumer event w)

pub insert-IsInsert : IsInsert insert record_of
insert-IsInsert = record {
  old = λ consumer event event_type w ids e seen. ground arith;
  recorded = λ consumer event event_type w ids e. ground (arith, eq_refl consumer, eq_refl event);
}

abbrev pub create : Create Record
create consumer event event_type w =
    if w consumer event
    then (err (known_request "P2002" "Unique constraint failed"), w)
    else (ok tt, with_message consumer event w)

pub create-IsCreate : IsCreate create record_of
create-IsCreate = record {
  fresh = λ consumer event event_type w e.
      (ground arith, ground (arith, eq_refl consumer, eq_refl event));
}

abbrev pub nothing : Record
nothing consumer event = false

-- A table of one order at most, with the messages in the outbox.
abbrev pub Shop : Type 0
Shop = Option StoredOrder × List NewRow

abbrev pub kept_order : Option StoredOrder → String → Option StoredOrder
kept_order none id = none
kept_order (some o) id = if id == o.id then some o else none

abbrev pub orders : Shop → String → Option StoredOrder
orders w id = kept_order w.0 id

abbrev pub outbox : Shop → List NewRow
outbox w = w.1

abbrev insert_both : StoredOrder → NewRow → Act Shop (Unit {0})
insert_both o m (none, rows) = (ok tt, (some o, rows ++ m ∷ []))
insert_both o m (some old, rows) = (err (error "Unique constraint failed"), (some old, rows))

abbrev change : String → OrderData → Act Shop (Unit {0})
change id d (none, rows) = (err (error "Record not found"), (none, rows))
change id d (some o, rows) =
    if id == o.id
    then (ok tt, (some (updated d o), rows))
    else (err (error "Record not found"), (some o, rows))

abbrev pub shop : OrderClient Shop
shop = record {
  create_both = insert_both;
  find_unique = λ id w. (ok (orders w id), w);
  update = change;
}

kept_order-id :
    (row : Option StoredOrder) (id : String) (o : StoredOrder)
    → kept_order row id ≡ some o
    → o.id ≡ id
kept_order-id none id o h = cc
kept_order-id (some x) id o h = ground (arith, eq_iff id x.id)

create_ok :
    (o : StoredOrder) (m : NewRow) (w : Shop)
    → (insert_both o m w).0 ≡ ok tt
    → (orders (insert_both o m w).1 o.id ≡ some o)
      × (outbox (insert_both o m w).1 ≡ outbox w ++ m ∷ [])
create_ok o m (none, rows) h = (ground (arith, eq_refl o.id), refl)
create_ok o m (some x, rows) h = cc

create_ne :
    (o : StoredOrder) (m : NewRow) (w : Shop) (id : String)
    → id ≢ o.id
    → orders (insert_both o m w).1 id ≡ orders w id
create_ne o m (none, rows) id ne = ground (arith, eq_iff id o.id)
create_ne o m (some x, rows) id ne = refl

create_err :
    (o : StoredOrder) (m : NewRow) (w : Shop) (e : Failure)
    → (insert_both o m w).0 ≡ err e
    → ((id : String) → orders (insert_both o m w).1 id ≡ orders w id)
      × (outbox (insert_both o m w).1 ≡ outbox w)
create_err o m (none, rows) e h = cc
create_err o m (some x, rows) e h = (λ id. refl, refl)

update_ok :
    (id : String) (d : OrderData) (w : Shop)
    → (change id d w).0 ≡ ok tt
    → (o : StoredOrder) × (orders w id ≡ some o)
      × (orders (change id d w).1 id ≡ some (updated d o))
update_ok id d (none, rows) h = cc
update_ok id d (some x, rows) h = (x, ground arith, ground arith)

update_ne :
    (id : String) (d : OrderData) (w : Shop) (other : String)
    → other ≢ id
    → orders (change id d w).1 other ≡ orders w other
update_ne id d (none, rows) other ne = refl
update_ne id d (some x, rows) other ne = ground (arith, eq_iff id x.id, eq_iff other x.id)

update_err :
    (id : String) (d : OrderData) (w : Shop) (e : Failure)
    → (change id d w).0 ≡ err e
    → orders (change id d w).1 id ≡ orders w id
update_err id d (none, rows) e h = refl
update_err id d (some x, rows) e h = ground arith

update_outbox : (id : String) (d : OrderData) (w : Shop) → outbox (change id d w).1 ≡ outbox w
update_outbox id d (none, rows) = refl
update_outbox id d (some x, rows) = ground arith

pub shop-IsOrderClient : IsOrderClient shop orders outbox
shop-IsOrderClient = record {
  keyed = λ w id o h. kept_order-id w.0 id o h;
  create_ok = create_ok;
  create_ne = create_ne;
  create_err = create_err;
  find_keeps = λ id w. (λ other. refl, refl);
  find_ok = λ id w o h. ground arith;
  update_ok = update_ok;
  update_ne = update_ne;
  update_err = update_err;
  update_outbox = update_outbox;
}

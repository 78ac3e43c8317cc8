-- ===== src/Messaging/OutboxTable.antt =====
-- The outbox table, as the services' stores reach it through their generated Prisma client, which
-- is a parameter: each call may fail. A row is found by its primary key.
use logistics_platform.Prelude.{
  ℕ, ◌≤◌, String, ◌≡◌, ◌≢◌, Bool, true, ◌&&◌, Option, some, List, [], ◌∷◌, length, All, is_none,
}
use logistics_platform.Json.{Json}
use logistics_platform.Result.{Failure, ok, err}
use logistics_platform.Act.{Act}
use logistics_platform.Messaging.Outbox.{PublishArgs, Publish}

-- A row; `headers` is a JSON column that may be null.
pub record OutboxRow : Type 0 where
  pub id : String
  pub aggregate_type : String
  pub aggregate_id : String
  pub event_type : String
  pub routing_key : String
  pub payload : Json
  pub headers : Option Json
  pub attempts : ℕ
  pub created_at : ℕ
  pub published_at : Option ℕ
  pub dead_at : Option ℕ
  pub last_error : Option String

-- What `create({ data })` is given; the database fills in the other columns.
pub record NewRow : Type 0 where
  pub aggregate_type : String
  pub aggregate_id : String
  pub event_type : String
  pub routing_key : String
  pub payload : Json
  pub headers : Option Json

pub record OutboxTable (W : Type 0) : Type 0 where
  -- `findMany({ where: { publishedAt: null, deadAt: null }, orderBy: { createdAt: "asc" }, take })`
  pub find_pending : ℕ → Act W (List OutboxRow)
  -- `update({ where: { id }, data })`, which returns the new row
  pub update : String → (OutboxRow → OutboxRow) → Act W OutboxRow
  -- `count({ where: { publishedAt: null, deadAt: null } })`
  pub count_pending : Act W ℕ
  -- `new Date()`
  pub now : W → ℕ

abbrev pub is_pending : OutboxRow → Bool
is_pending r = is_none r.published_at && is_none r.dead_at

-- No two records have one id.
abbrev pub HasDistinctIds : List OutboxRow → Type 0
HasDistinctIds [] = Unit
HasDistinctIds (r ∷ rs) = All (λ q. q.id ≢ r.id) rs × HasDistinctIds rs

-- The documented behaviour of the client: a call that returns has done what it says, a call that
-- throws has changed no row. `row w id` is the row with that key.
pub record IsOutboxTable {W : Type 0} (table : OutboxTable W) (row : W → String → Option OutboxRow)
    : Type 0 where
  pub find_pending_keeps :
      (n : ℕ) (w : W) (id : String) → row (table.find_pending n w).1 id ≡ row w id
  pub find_pending_rows :
      (n : ℕ) (w : W) (rs : List OutboxRow)
      → (table.find_pending n w).0 ≡ ok rs
      → All (λ r. (row w r.id ≡ some r) × (is_pending r ≡ true)) rs
        × HasDistinctIds rs
        × (length rs ≤ n)
  pub update_ok :
      (id : String) (f : OutboxRow → OutboxRow) (w : W) (r' : OutboxRow)
      → (table.update id f w).0 ≡ ok r'
      → (r : OutboxRow) × (row w id ≡ some r)
        × (r' ≡ f r)
        × (row (table.update id f w).1 id ≡ some r')
  pub update_err :
      (id : String) (f : OutboxRow → OutboxRow) (w : W) (e : Failure)
      → (table.update id f w).0 ≡ err e
      → row (table.update id f w).1 id ≡ row w id
  pub update_ne :
      (id : String) (f : OutboxRow → OutboxRow) (w : W) (other : String)
      → other ≢ id
      → row (table.update id f w).1 other ≡ row w other
  pub count_keeps : (w : W) (id : String) → row (table.count_pending w).1 id ≡ row w id

-- Publishing to the broker writes no row, whether it is confirmed or fails.
abbrev pub PublishKeeps : {W : Type 0} → Publish W → (W → String → Option OutboxRow) → Type 0
PublishKeeps {W} publish row =
    (args : PublishArgs) (w : W) (id : String) → row (publish args w).1 id ≡ row w id

-- ===== src/Orders/PrismaOutboxStore.antt =====
-- apps/order-service/src/infrastructure/prisma/prisma-outbox.store.ts
pub mod Retries
use logistics_platform.Prelude.{
  ℕ, ◌+◌, String, Bool, true, Option, none, some, List, [], ◌∷◌, ◌==◌, map, ltb, if◌then◌else◌,
}
use logistics_platform.Json.{Json, null, num, str, arr, obj, Fields, end, field}
use logistics_platform.Act.{Act, pure, ◌>>=◌, ◌>>◌}
use logistics_platform.Messaging.Outbox.{
  HeaderValue, text, number, Headers, OutboxRecord, OutboxStore,
}
use logistics_platform.Messaging.OutboxTable.{OutboxRow, OutboxTable}

-- `typeof headerValue === "string" || typeof headerValue === "number"`
abbrev pub header_value : Json → Option HeaderValue
header_value (str s) = some (text s)
header_value (num n) = some (number n)
header_value _ = none

-- The entries that `acc[key] = headerValue` keeps. Setting the key "__proto__" of a plain object to
-- a string or a number sets nothing.
unfoldable pub header_entries : Fields → Headers
header_entries end = []
header_entries (field key value fs) =
    let rest = header_entries fs in
    if key == "__proto__"
    then rest
    else elim (header_value value) [ none ↦ rest | some v ↦ (key, v) ∷ rest ]

unfoldable pub to_headers : Option Json → Option Headers
unfolding header_entries
to_headers (some (obj fs)) = some (header_entries fs)
to_headers _ = none

unfoldable pub to_record : OutboxRow → OutboxRecord
unfolding to_headers
to_record row = record {
  id = row.id;
  aggregate_type = row.aggregate_type;
  aggregate_id = row.aggregate_id;
  event_type = row.event_type;
  routing_key = row.routing_key;
  payload = row.payload;
  headers = to_headers row.headers;
  attempts = row.attempts;
  created_at = row.created_at;
  published_at = row.published_at;
  dead_at = row.dead_at;
  last_error = row.last_error;
}

unfoldable pub published : ℕ → OutboxRow → OutboxRow
published time row = record row {
  published_at = some time;
  attempts = row.attempts + 1;
  last_error = none;
}

unfoldable pub failed : String → OutboxRow → OutboxRow
failed error row = record row { attempts = row.attempts + 1; last_error = some error }

unfoldable pub dead : ℕ → String → OutboxRow → OutboxRow
dead time error row = record row {
  attempts = row.attempts + 1;
  dead_at = some time;
  last_error = some error;
}

module _ {W : Type 0} (table : OutboxTable W) where
  open table use {find_pending, update, count_pending, now}

  claim_batch : ℕ → Act W (List OutboxRecord)
  claim_batch limit = do rows ← find_pending limit; pure (map to_record rows)

  mark_published : String → Act W (Unit {0})
  mark_published id w = (update id (published (now w)) >> pure tt) w

  mark_failed : String → String → Act W (Unit {0})
  mark_failed id error = update id (failed error) >> pure tt

  mark_dead : String → String → Act W (Unit {0})
  mark_dead id error w = (update id (dead (now w) error) >> pure tt) w

  has_pending : Act W Bool
  has_pending = do count ← count_pending; pure (ltb 0 count)

  unfoldable pub prisma_outbox_store : OutboxStore W
  unfolding claim_batch mark_published mark_failed mark_dead has_pending
  prisma_outbox_store = record {
    claim_batch = claim_batch;
    mark_published = mark_published;
    mark_failed = mark_failed;
    mark_dead = mark_dead;
    has_pending = has_pending;
  }

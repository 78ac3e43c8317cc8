-- ===== src/Tracking/OutboxRepository.antt =====
-- apps/tracking-service/src/repositories/outbox.repository.ts, less `enqueue`, which is the
-- `create_outbox` of the service's client. The relay is
-- relays/shipment-status-outbox.relay.ts: it only passes the store and its options on.
pub mod Claims
pub mod Attempts
use logistics_platform.Prelude.{
  ℕ, ◌+◌, String, Bool, Option, none, some, List, [], ◌∷◌, ◌==◌, ltb, if◌then◌else◌,
}
use logistics_platform.Json.{Json, num, str, obj, Fields, end, field}
use logistics_platform.Act.{Act, pure, ◌>>=◌, ◌>>◌}
use logistics_platform.Messaging.Outbox.{
  HeaderValue, text, number, Headers, OutboxRecord, OutboxStore,
}
use logistics_platform.Messaging.OutboxTable.{OutboxRow, OutboxTable}
use logistics_platform.Messaging.Transaction.{Transaction}

-- `headers[key] = headerValue`, which sets nothing for the key "__proto__"
abbrev keep_header : String → Json → Headers → Headers
keep_header key (str s) rest = if key == "__proto__" then rest else (key, text s) ∷ rest
keep_header key (num n) rest = if key == "__proto__" then rest else (key, number n) ∷ rest
keep_header key _ rest = rest

kept_headers : Fields → Headers
kept_headers end = []
kept_headers (field key value fs) = keep_header key value (kept_headers fs)

-- `Object.keys(headers).length > 0 ? headers : null`
abbrev unless_empty : Headers → Option Headers
unless_empty [] = none
unless_empty (h ∷ hs) = some (h ∷ hs)

unfoldable pub to_headers : Option Json → Option Headers
unfolding kept_headers
to_headers (some (obj fs)) = unless_empty (kept_headers fs)
to_headers _ = none

unfoldable pub map_outbox : OutboxRow → OutboxRecord
unfolding to_headers
map_outbox row = record {
  id = row.id;
  aggregate_type = row.aggregate_type;
  aggregate_id = row.aggregate_id;
  event_type = row.event_type;
  routing_key = row.routing_key;
  payload = row.payload;
  headers = to_headers row.headers;
  attempts = row.attempts;
  created_at = row.created_at;
  published_at = row.published_at;
  dead_at = row.dead_at;
  last_error = row.last_error;
}

unfoldable pub claimed : OutboxRow → OutboxRow
claimed row = record row { attempts = row.attempts + 1 }

unfoldable pub published : ℕ → OutboxRow → OutboxRow
published time row = record row { published_at = some time; last_error = none }

unfoldable pub failed : String → OutboxRow → OutboxRow
failed error row = record row { last_error = some error }

unfoldable pub dead : ℕ → String → OutboxRow → OutboxRow
dead time error row = record row { dead_at = some time; last_error = some error }

module _ {W : Type 0} (transaction : Transaction W) (table : OutboxTable W) where
  -- the loop of `claimBatch`
  unfoldable pub claim_each : List OutboxRow → Act W (List OutboxRecord)
  claim_each [] = pure []
  claim_each (row ∷ rows) = do
    updated ← table.update row.id claimed
    rest ← claim_each rows
    pure (map_outbox updated ∷ rest)

  unfoldable pub claim_operation : ℕ → Act W (List OutboxRecord)
  unfolding claim_each
  claim_operation limit = do records ← table.find_pending limit; claim_each records

  unfoldable pub outbox_repository : OutboxStore W
  unfolding claim_operation
  outbox_repository = record {
    claim_batch = λ limit. transaction (List OutboxRecord) (claim_operation limit);
    mark_published = λ id w. (table.update id (published (table.now w)) >> pure tt) w;
    mark_failed = λ id error. table.update id (failed error) >> pure tt;
    mark_dead = λ id error w. (table.update id (dead (table.now w) error) >> pure tt) w;
    has_pending = (do count ← table.count_pending; pure (ltb 0 count));
  }

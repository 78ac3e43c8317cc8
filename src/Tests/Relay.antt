-- ===== src/Tests/Relay.antt =====
-- The relay.
use logistics_platform.Prelude.{refl, arith, ◌≡◌, some, none}
use logistics_platform.Messaging.Relay.{tick_work, process, deliver, record_failure}
use logistics_platform.Messaging.Relay.Tick.{Fate, tick-Fate}
use logistics_platform.Messaging.Relay.Control.{
  wake, on_module_init, initial, Step, Reach, IsSound, Reach-IsSound,
}
use logistics_platform.Orders.PrismaOutboxStore.{prisma_outbox_store, to_record, failed}
use logistics_platform.Orders.PrismaOutboxStore.Retries.{
  AllInBudget, tick-AllInBudget, order_changes, prisma_outbox_store-IsOutboxStore,
}
use logistics_platform.Tracking.OutboxRepository.{
  outbox_repository, claim_operation, claimed, dead, map_outbox,
}
use logistics_platform.Tracking.OutboxRepository.Attempts.{Counted, tick-Counted}
use logistics_platform.Messaging.RabbitMqClient.{RabbitMqClientOptions}
use logistics_platform.Tests.Database.{undoing, undoing-IsTransaction}
use logistics_platform.Messaging.Outbox.{OutboxStore}
use logistics_platform.Messaging.OutboxTable.{OutboxRow}
use logistics_platform.Tests.Samples.{
  one_row, one_table, one_table-IsOutboxTable, refusing, options, waiting,
}

waiting-AllInBudget : AllInBudget 10 (one_row (waiting 9))
waiting-AllInBudget id q found = ground arith

tick-AllInBudget_example :
    AllInBudget 10
      (one_row (tick_work (prisma_outbox_store one_table) refusing options (waiting 9)).1)
tick-AllInBudget_example =
    tick-AllInBudget one_table one_row one_table-IsOutboxTable refusing (λ args w id. refl) options
      (waiting 9) waiting-AllInBudget

tick-Fate_example :
    Fate
      (prisma_outbox_store one_table)
      refusing
      options
      one_row
      order_changes
      (prisma_outbox_store-IsOutboxStore one_table one_row one_table-IsOutboxTable)
      (λ args w id. refl)
      (one_row (waiting 9) "o1")
      (one_row (tick_work (prisma_outbox_store one_table) refusing options (waiting 9)).1 "o1")
tick-Fate_example =
    tick-Fate (prisma_outbox_store one_table) refusing options one_row order_changes
      (prisma_outbox_store-IsOutboxStore one_table one_row one_table-IsOutboxTable)
      (λ args w id. refl) (waiting 9) "o1"

Reach-IsSound_example : IsSound (wake (on_module_init initial))
Reach-IsSound_example = Reach-IsSound 500 (Reach.next (Reach.start refl) (Step.call_wake refl))

abbrev tracking_store : OutboxStore OutboxRow
tracking_store = outbox_repository undoing one_table

tick-Counted_example :
    Counted 10
      (one_row (waiting 8) "o1")
      (one_row (tick_work tracking_store refusing options (waiting 8)).1 "o1")
tick-Counted_example =
    tick-Counted undoing undoing-IsTransaction one_table one_row one_table-IsOutboxTable refusing
      (λ args w id. refl) options (waiting 8) "o1"

-- With ten attempts allowed, the order service tries a message again after its ninth failure, and
-- the tracking service gives it up.
order_tries_again :
    (tick_work (prisma_outbox_store one_table) refusing options (waiting 8)).1
    ≡ record (waiting 8) { attempts = 9; last_error = some "nacked" }
unfolding tick_work process deliver record_failure prisma_outbox_store failed to_record
order_tries_again = refl

tracking_gives_up :
    (tick_work tracking_store refusing options (waiting 8)).1
    ≡ record (waiting 8) { attempts = 9; dead_at = some 7; last_error = some "nacked" }
unfolding tick_work process deliver record_failure outbox_repository claim_operation claimed dead
    map_outbox
tracking_gives_up = refl

abbrev pub client_options : RabbitMqClientOptions
client_options = record {
  url = "amqp://localhost";
  exchange = "logistics";
  app_name = "test";
  prefetch = none;
}

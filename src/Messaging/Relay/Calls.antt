-- ===== src/Messaging/Relay/Calls.antt =====
-- Calls of the outbox table whose returned row is dropped, as the stores make them.
use logistics_platform.Prelude.{String, ◌≡◌, ◌≢◌, refl, inl, inr, Option, some}
use logistics_platform.Result.{Result-cases}
use logistics_platform.Act.{pure, continue, continue_ok, state_of_continue-pure, continue_err}
use logistics_platform.Messaging.OutboxTable.{OutboxRow, OutboxTable, IsOutboxTable}
use logistics_platform.Messaging.Relay.Fates.{Outcome}

module _ {W : Type 0} (table : OutboxTable W) (row : W → String → Option OutboxRow)
    (laws : IsOutboxTable table row) where
  -- A call of `update` whose result is dropped.
  pub update-Outcome :
      (R : OutboxRow → OutboxRow → Type 0) (f : OutboxRow → OutboxRow) (id : String) (w : W)
      (q : OutboxRow)
      → R q (f q)
      → row w id ≡ some q
      → let m = continue (table.update id f w) (λ _. pure tt) in Outcome R q m.0 (row m.1 id)
  update-Outcome R f id w q change found = elim (Result-cases (table.update id f w).0) [
    | inl (q', e) ↦
        let (q0, found0, same, after) = laws.update_ok id f w q' e in
        rw (continue_ok (table.update id f w) (λ _. pure tt) e)
          (Outcome.done (f q) change refl (cc (found, found0, same, after)))
    | inr (e, threw) ↦
        rw (continue_err (table.update id f w) (λ _. pure tt) threw)
          (Outcome.threw e refl (rw (laws.update_err id f w e threw) found))
  ]

  pub update-ne :
      (f : OutboxRow → OutboxRow) (id : String) (w : W) (other : String)
      → other ≢ id
      → row (continue (table.update id f w) (λ _. pure tt)).1 other ≡ row w other
  update-ne f id w other ne =
      rw (state_of_continue-pure (table.update id f w) (λ _. tt)) (laws.update_ne id f w other ne)

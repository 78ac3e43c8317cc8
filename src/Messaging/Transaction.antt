-- ===== src/Messaging/Transaction.antt =====
-- Prisma's interactive transactions, `$transaction(operation)`: a parameter of the services. The
-- state `W` is that of the database.
use logistics_platform.Prelude.{◌≡◌}
use logistics_platform.Result.{Failure, Result, ok, err}
use logistics_platform.Act.{Act}

abbrev pub Transaction : Type 0 → Type 1
Transaction W = (A : Type 0) → Act W A → Act W A

-- How a transaction may end. Unless it commits, the database is as it was.
pub data Ending {W A : Type 0} (operation : Result A × W) (w : W) (result : Result A × W)
    : Type 0 where
  committed :
      (a : A) (w' : W) → operation ≡ (ok a, w') → result ≡ (ok a, w') → Ending operation w result
  aborted :
      (e : Failure) (w' : W)
      → operation ≡ (err e, w')
      → result ≡ (err e, w)
      → Ending operation w result
  -- it could not begin, or could not commit
  refused : (e : Failure) → result ≡ (err e, w) → Ending operation w result

abbrev pub IsTransaction : {W : Type 0} → Transaction W → Type 1
IsTransaction {W} transaction =
    (A : Type 0) (m : Act W A) (w : W) → Ending (m w) w (transaction A m w)

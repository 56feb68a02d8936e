-- ===== src/System/Retried.antt =====
-- `appendEntry` of packages/api/src/modules/ledger/ledger.service.ts, called again with one event key
-- when the service has gone on in between.
use mini_rewards_integration.Prelude.{ℕ, String, true, ◌≡◌, some}
use mini_rewards_integration.Database.Schema.{Db}
use mini_rewards_integration.Database.Exec.{ok, transaction}
use mini_rewards_integration.Ledger.{AppendEntryInput, AppendEntryResult, append_entry}
use mini_rewards_integration.Ledger.Balances.{cached}
use mini_rewards_integration.Ledger.Idempotent.{once_held, committed-Holds}
use mini_rewards_integration.Ledger.Recorded.{Recorded-IsLedgerInvariant}
use mini_rewards_integration.Auth.{AuthPlatform}
use mini_rewards_integration.Http.{Zod}
use mini_rewards_integration.System.{Reach, reach-keeps}

-- A retry with the event key of a call that committed, after whatever requests and backfills the
-- service has run since, and so whatever the balance is by then, names the entry of the first call,
-- reports the balance of now, and changes nothing at all.
pub append_entry_once :
    (platform : AuthPlatform) (zod : Zod) (id id' : String) (now now' : ℕ)
    (input : AppendEntryInput) (k : String) (db : Db) {res : AppendEntryResult} {after later : Db}
    → input.external_event_id ≡ some k
    → transaction (append_entry id now input) db ≡ (ok res, after)
    → Reach platform zod after later
    → transaction (append_entry id' now' input) later ≡ (
      ok (record {
        transaction_id = res.transaction_id;
        balance_after = cached input.user_id later.user_balances;
        duplicate = true;
      }),
      later,
    )
append_entry_once platform zod id id' now now' input k db {res} {after} {later} keyed first
      reached =
    let (check, known, kept) = committed-Holds id now input db first in
    let (t, found, same) = kept k keyed in
    let (still, row) =
      reach-keeps platform zod _ (Recorded-IsLedgerInvariant input.source k t input.user_id) reached
        (rw keyed at found, known) in
    once_held id' now' input k res later keyed (check, row, λ j given. (t, rw keyed still, same))

-- ===== src/Main/Program/Kept.antt =====
-- The messages of the program's database, over whatever happens.
use local_messenger.Common.{ℕ, List, Bytes}
use local_messenger.Storage.Integrity.{here}
use local_messenger.Storage.Mailbox.Kept.{Keeps, Run-Keeps}
use local_messenger.Storage.Mailbox.Owners.{IsOwned, Run-IsOwned}
use local_messenger.Main.Program.{Context, Happening, Program, run}
use local_messenger.Main.Program.Valid.{AllFresh, run-Leads}

-- Whatever happens to a program, lines, signals, connections, packets, peers found or lost, where row
-- ids are fresh and ports below 2 ^ 16, and also where a handler has thrown or waits forever: the
-- messages that were stored are still there, in the same order, in front of those that came later,
-- and as they were but for their status; and a contact that has messages keeps its public key.
pub run-Keeps :
    (c : Context) (hs : List Happening) (p : Program)
    → AllFresh c hs p
    → Keeps p.app.db (run c hs p).app.db
      × ((id : ℕ) (key : Bytes) → IsOwned id key p.app.db → IsOwned id key (run c hs p).app.db)
run-Keeps c hs p fresh =
    let all = run-Leads p.app.db c hs p fresh here in
    (Run-Keeps all, λ id key v. Run-IsOwned id key all v)
